-- ===== src/Service.antt =====
-- src/orchestrator/core/base_service.ts: `BaseService`. A call of `init` and the end of its `onInit` are
-- two moments, between which other calls come; `successes` counts the runs of `onInit` that succeeded,
-- and `runs` all that began, for the properties.
pub mod Once
mod Tests
use Prim.Native.String.{String}
use counter_terrorist.Common.{
  Bool, Option, Result, [], err, false, if◌then◌else◌, none, ok, some, texts, true, ℕ, ◌+◌, ◌∷◌,
}

pub record Base : Type 0 where
  pub initialized : Bool
  pub is_starting : Bool
  pub runs : ℕ
  pub successes : ℕ

unfoldable pub new_service : Base
new_service = record { initialized = false; is_starting = false; runs = 0; successes = 0 }

-- What a call of `init` gets: a success at once, the promise of the run that is under way, or that of
-- a new run.
pub data Promise : Type 0 where
  already joined started : Promise

-- `init`, up to its `onInit`.
unfoldable pub begin_init : Base → Base × Promise
begin_init b =
    if b.initialized
    then (b, already)
    else if b.is_starting
    then (b, joined)
    else (record b { is_starting = true; runs = b.runs + 1 }, started)

-- The end of `onInit`, which returns a result or throws.
unfoldable pub end_init : Option (Result (Unit {0}) String) → Base → Base
end_init none b = record b { is_starting = false }
end_init (some (err e)) b = record b { is_starting = false }
end_init (some (ok u)) b = record b {
  is_starting = false;
  initialized = true;
  successes = b.successes + 1;
}

-- `ensureReady`, with the name of the class.
unfoldable pub ensure_ready : String → Base → Result (Unit {0}) String
ensure_ready name b =
    if b.initialized then ok tt else err (texts ("Service " ∷ name ∷ " is not initialized." ∷ []))

-- `shutdown` passes on what `onShutdown` returns, and leaves the flags.
unfoldable pub shutdown_service : Result (Unit {0}) String → Base → Base × Result (Unit {0}) String
shutdown_service result b = (b, result)
