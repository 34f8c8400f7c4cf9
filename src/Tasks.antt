-- ===== src/Tasks.antt =====
-- src/orchestrator/core/utils/background_task_manager.ts: `BackgroundTaskManager`. The runtime's timers
-- are part of the state: `live` has the ids of the intervals that run, `next_id` the next one.
pub mod Timers
mod Tests
use Prim.Native.String.{String}
use counter_terrorist.Common.{
  Bool, List, Map, Option, Result, [], err, has_key, if◌then◌else◌, length, map_delete, map_get,
  map_set, none, ok, some, string_eq, texts, ℕ, ◌++◌, ◌+◌, ◌===◌, ◌==◌, ◌∷◌,
}

pub record Manager : Type 0 where
  pub active_tasks : List String
  pub scheduled_tasks : Map ℕ
  pub live : List ℕ
  pub next_id : ℕ

-- A report to the health service.
pub data Report : Type 0 where
  degraded : String → String → Report

unfoldable pub new_manager : Manager
new_manager = record { active_tasks = []; scheduled_tasks = []; live = []; next_id = 1 }

-- `clearInterval`.
unfoldable pub clear_interval : ℕ → List ℕ → List ℕ
clear_interval id [] = []
clear_interval id (x ∷ xs) = let rest = clear_interval id xs in if x == id then rest else x ∷ rest

-- `add` and `delete` of a `Set`.
unfoldable pub set_add : String → List String → List String
set_add s l = if has_key s l then l else l ++ s ∷ []

unfoldable pub set_remove : String → List String → List String
set_remove s [] = []
set_remove s (x ∷ xs) = let rest = set_remove s xs in if x === s then rest else x ∷ rest

-- `run`: up to the start of the task.
unfoldable pub run : String → Manager → Manager
unfolding set_add
run name m = record m { active_tasks = set_add name m.active_tasks }

-- The rest of `run`, when the task has ended, for a manager with a health service or without.
unfoldable pub finish : Bool → String → Result (Unit {0}) String → Manager → Manager × List Report
unfolding set_remove
finish has_health name (ok tt) m = (record m { active_tasks = set_remove name m.active_tasks }, [])
finish has_health name (err e) m = (
  record m { active_tasks = set_remove name m.active_tasks },
  if has_health
      then degraded name (texts ("Background task '" ∷ name ∷ "' failed: " ∷ e ∷ [])) ∷ []
      else [],
)

unfoldable pub clear_known : Option ℕ → List ℕ → List ℕ
unfolding clear_interval
clear_known none live = live
clear_known (some id) live = clear_interval id live

-- `schedule`, with the id of the new interval.
unfoldable pub schedule : String → Manager → Manager × ℕ
unfolding clear_known
schedule name m = (
  record {
    active_tasks = m.active_tasks;
    scheduled_tasks = map_set name m.next_id m.scheduled_tasks;
    live = m.next_id ∷ clear_known (map_get name m.scheduled_tasks) m.live;
    next_id = m.next_id + 1;
  },
  m.next_id,
)

-- A firing of an interval: it runs the task.
unfoldable pub fire : String → Manager → Manager
unfolding run
fire name m = run name m

-- `stop`.
unfoldable pub stop : String → Manager → Manager
unfolding clear_known
stop name m = record m {
  scheduled_tasks = map_delete name m.scheduled_tasks;
  live = clear_known (map_get name m.scheduled_tasks) m.live;
}

unfoldable pub clear_each : Map ℕ → List ℕ → List ℕ
unfolding clear_interval
clear_each [] live = live
clear_each ((_, id) ∷ tasks) live = clear_each tasks (clear_interval id live)

-- `shutdown`.
unfoldable pub shutdown : Manager → Manager
unfolding clear_each
shutdown m = record m { scheduled_tasks = []; live = clear_each m.scheduled_tasks m.live }

-- `getActiveTaskCount`.
unfoldable pub get_active_task_count : Manager → ℕ
get_active_task_count m = length m.active_tasks
