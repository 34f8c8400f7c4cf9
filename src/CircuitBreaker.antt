-- ===== src/CircuitBreaker.antt =====
-- src/orchestrator/core/utils/resilience.ts: the class `CircuitBreaker`. `execute` waits for its action,
-- so that calls overlap: it is the admission of a call, and later the end of its action. The times
-- are those of `Date.now()` at the two moments.
pub mod Invariant
pub mod Trip
mod Tests
use Prim.Native.String.{String}
use counter_terrorist.Common.{
  Bool, Option, Result, err, false, if◌then◌else◌, leb, ltb, none, ok, some, true, ℕ, ◌+◌,
}

pub data CircuitState : Type 0 where
  closed open_circuit half_open : CircuitState

pub record Options : Type 0 where
  pub failure_threshold : ℕ
  pub reset_timeout_ms : ℕ

pub record CircuitBreaker : Type 0 where
  pub state : CircuitState
  pub failure_count : ℕ
  pub last_failure_time : Option ℕ

-- `constructor`.
unfoldable pub new_breaker : CircuitBreaker
new_breaker = record { state = closed; failure_count = 0; last_failure_time = none }

-- `this.lastFailureTime || 0`.
abbrev pub or_zero : Option ℕ → ℕ
or_zero none = 0
or_zero (some t) = t

abbrev pub rejected : String
rejected = "Circuit breaker is OPEN. Request rejected for stability."

module _ (options : Options) where
  admit_in : CircuitState → ℕ → CircuitBreaker → CircuitBreaker × Bool
  admit_in open_circuit now b =
      if ltb (or_zero b.last_failure_time + options.reset_timeout_ms) now
      then (record b { state = half_open }, true)
      else (b, false)
  admit_in closed now b = (b, true)
  admit_in half_open now b = (b, true)

  -- The first part of `execute`: the new state, and whether the action is called.
  unfoldable pub admit : ℕ → CircuitBreaker → CircuitBreaker × Bool
  unfolding admit_in
  admit now b = admit_in b.state now b

  -- `onSuccess`.
  unfoldable pub on_success : CircuitBreaker → CircuitBreaker
  on_success b = record b { failure_count = 0; state = closed }

  -- `onFailure`.
  unfoldable pub on_failure : ℕ → CircuitBreaker → CircuitBreaker
  on_failure now b =
      let c = record b { failure_count = b.failure_count + 1; last_failure_time = some now } in
      if leb options.failure_threshold c.failure_count then record c { state = open_circuit } else c

  -- The end of the action: its value, or its exception.
  settle : {A : Type 0} → ℕ → CircuitBreaker → Result A String → CircuitBreaker
  unfolding on_success on_failure
  settle now b (ok a) = on_success b
  settle now b (err e) = on_failure now b

  -- `execute`, where no other call ends between its two moments.
  unfoldable pub execute :
      {A : Type 0} → ℕ → ℕ → CircuitBreaker → Result A String → CircuitBreaker × Result A String
  unfolding admit settle
  execute now later b outcome =
      let (c, admitted) = admit now b in
      if admitted then (settle later c outcome, outcome) else (c, err rejected)
