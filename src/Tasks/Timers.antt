-- ===== src/Tasks/Timers.antt =====
-- The intervals that run are those of the scheduled tasks.
use Prim.Native.String.{String}
use counter_terrorist.Common.{
  All, All-mono, Bool, Bool-cases, List, Map, Option, Result, [], ap, arith, err, inl, inr,
  map_delete, map_get, map_set, none, ok, refl, some, some_inj, string_eq, ℕ, ◌===◌, ◌==◌, ◌∷◌, ◌≡◌,
  ◌≢◌, ◌⊎◌,
}
use counter_terrorist.Tasks.{
  Manager, clear_each, clear_interval, clear_known, finish, new_manager, run, schedule, shutdown,
  stop,
}

-- Some task has that interval.
abbrev pub HasTimer : ℕ → Map ℕ → Type 0
HasTimer id [] = ⊥
HasTimer id ((_, x) ∷ tasks) = (x ≡ id) ⊎ HasTimer id tasks

abbrev pub AllScheduled : Manager → Type 0
AllScheduled m = All (λ id. HasTimer id m.scheduled_tasks) m.live

module _ (P Q : ℕ → Type 0) where
  -- What remains of the intervals without one.
  clear_interval-All :
      (id : ℕ) (live : List ℕ)
      → ((x : ℕ) → id ≢ x → P x → Q x)
      → All P live
      → All Q (clear_interval id live)
  unfolding clear_interval
  clear_interval-All id [] f h = tt
  clear_interval-All id (x ∷ xs) f (p, h) = elim (Bool-cases (x == id)) [
    | inl e ↦ rw e (clear_interval-All id xs f h)
    | inr n ↦ rw n (f x (ground arith) p, clear_interval-All id xs f h)
  ]

  clear_known-All :
      (o : Option ℕ) (live : List ℕ)
      → ((x : ℕ) → o ≢ some x → P x → Q x)
      → All P live
      → All Q (clear_known o live)
  unfolding clear_known
  clear_known-All none live f h = All-mono P Q (λ x. f x (λ e. absurd (cc))) live h
  clear_known-All (some id) live f h =
      clear_interval-All id live (λ x n. f x (λ e. n (some_inj id x e))) h

-- A change of one task leaves the other tasks' intervals.
map_set-HasTimer :
    (name : String) (new x : ℕ) (tasks : Map ℕ)
    → map_get name tasks ≢ some x
    → HasTimer x tasks
    → HasTimer x (map_set name new tasks)
map_set-HasTimer name new x [] other h = absurd h
map_set-HasTimer name new x ((key, y) ∷ tasks) other h = elim (Bool-cases (key === name)) [
  | inl e ↦
      rw e (elim h [ inl here ↦ absurd (rw e at other (ap some here)) | inr later ↦ inr later ])
  | inr n ↦ rw n (elim h [
    | inl here ↦ inl here
    | inr later ↦ inr (map_set-HasTimer name new x tasks (rw n at other) later)
  ])
]

map_delete-HasTimer :
    (name : String) (x : ℕ) (tasks : Map ℕ)
    → map_get name tasks ≢ some x
    → HasTimer x tasks
    → HasTimer x (map_delete name tasks)
map_delete-HasTimer name x [] other h = absurd h
map_delete-HasTimer name x ((key, y) ∷ tasks) other h = elim (Bool-cases (key === name)) [
  | inl e ↦ rw e (elim h [ inl here ↦ absurd (rw e at other (ap some here)) | inr later ↦ later ])
  | inr n ↦ rw n (elim h [
    | inl here ↦ inl here
    | inr later ↦ inr (map_delete-HasTimer name x tasks (rw n at other) later)
  ])
]

map_set-new : (name : String) (new : ℕ) (tasks : Map ℕ) → HasTimer new (map_set name new tasks)
map_set-new name new [] = inl refl
map_set-new name new ((key, y) ∷ tasks) = elim (Bool-cases (key === name)) [
  | inl e ↦ rw e (inl refl)
  | inr n ↦ rw n (inr (map_set-new name new tasks))
]

-- `shutdown` clears each of them.
clear_each-nil :
    (tasks : Map ℕ) (live : List ℕ)
    → All (λ id. HasTimer id tasks) live
    → clear_each tasks live ≡ []
unfolding clear_each
clear_each-nil [] [] h = refl
clear_each-nil [] (x ∷ live) h = absurd h.0
clear_each-nil ((key, y) ∷ tasks) live h = clear_each-nil tasks (clear_interval y live) (
    clear_interval-All _ _ y live
      (λ x n timer. elim timer [ inl e ↦ absurd (n e) | inr later ↦ later ]) h)

-- The managers that the operations make of a new one, in any order.
pub data Reach : Manager → Type 0 where
  start : Reach new_manager
  ran : {m : Manager} (name : String) → Reach m → Reach (run name m)
  finished :
      {m : Manager} (has_health : Bool) (name : String) (result : Result (Unit {0}) String)
      → Reach m
      → Reach (finish has_health name result m).0
  scheduled : {m : Manager} (name : String) → Reach m → Reach (schedule name m).0
  stopped : {m : Manager} (name : String) → Reach m → Reach (stop name m)
  shut_down : {m : Manager} → Reach m → Reach (shutdown m)

finish-AllScheduled :
    (has_health : Bool) (name : String) (result : Result (Unit {0}) String) (m : Manager)
    → AllScheduled m
    → AllScheduled (finish has_health name result m).0
unfolding finish
finish-AllScheduled has_health name (ok tt) m h = h
finish-AllScheduled has_health name (err e) m h = h

-- Each interval that runs belongs to a scheduled task.
pub Reach-AllScheduled : {m : Manager} → Reach m → AllScheduled m
unfolding new_manager run schedule stop shutdown
Reach-AllScheduled start = tt
Reach-AllScheduled (ran {m} name prior) = Reach-AllScheduled prior
Reach-AllScheduled (finished {m} has_health name result prior) =
    finish-AllScheduled has_health name result m (Reach-AllScheduled prior)
Reach-AllScheduled (scheduled {m} name prior) = (
  map_set-new name m.next_id m.scheduled_tasks,
  clear_known-All _ _ (map_get name m.scheduled_tasks) m.live
      (λ x. map_set-HasTimer name m.next_id x m.scheduled_tasks) (Reach-AllScheduled prior),
)
Reach-AllScheduled (stopped {m} name prior) =
    clear_known-All _ _ (map_get name m.scheduled_tasks) m.live
      (λ x. map_delete-HasTimer name x m.scheduled_tasks) (Reach-AllScheduled prior)
Reach-AllScheduled (shut_down {m} prior) =
    rw (clear_each-nil m.scheduled_tasks m.live (Reach-AllScheduled prior)) tt

-- After any tasks have been run, scheduled, rescheduled and stopped, in any order, `shutdown` leaves no
-- interval that runs.
pub shutdown-live : {m : Manager} → Reach m → (shutdown m).live ≡ []
unfolding shutdown
shutdown-live {m} reach = clear_each-nil m.scheduled_tasks m.live (Reach-AllScheduled reach)
