-- ===== src/Retry.antt =====
-- src/orchestrator/core/utils/resilience.ts: `retry`, and `secureRandomInt` of
-- src/orchestrator/core/crypto_utils.ts. The n-th call of the action is `action n`; what `retry` waits
-- between the attempts is part of the result. The words that `getRandomValues` draws are arguments.
-- Delays and factors are whole numbers, so that `Math.floor(delay * 0.1)` is `delay / 10`. The callback `onRetry`, which no
-- modelled caller passes, is left out.
pub mod Attempts
pub mod Waits
mod Tests
use Prim.Native.String.{String}
use counter_terrorist.Common.{
  List, Option, Result, [], err, if◌then◌else◌, ltb, min, none, ok, some, suc, zero, ℕ, ◌%◌, ◌*◌,
  ◌+◌, ◌-◌, ◌/◌, ◌^◌, ◌∷◌,
}

-- `secureRandomInt` of a drawn 32-bit word, for min ≤ max.
unfoldable pub secure_random_int : ℕ → ℕ → ℕ → ℕ
secure_random_int word low high = low + word % (high - low + 1)

pub record RetryOptions : Type 0 where
  pub max_attempts : ℕ
  pub base_delay_ms : ℕ
  pub max_delay_ms : Option ℕ
  pub factor : Option ℕ

-- `??`.
abbrev pub or_default : Option ℕ → ℕ → ℕ
or_default none d = d
or_default (some n) d = n

pub record Outcome (A : Type 0) : Type 0 where
  pub result : Result A String
  pub calls : ℕ
  pub waits : List ℕ

-- `lastError || new Error(…)`.
abbrev pub error_text : Option String → String
error_text none = "Retry failed after max attempts"
error_text (some e) = e

module _ {A : Type 0} (action : ℕ → Result A String) (words : ℕ → ℕ) (options : RetryOptions) where
  -- What an attempt that failed waits before the next one.
  unfoldable pub delay_after : ℕ → ℕ
  unfolding secure_random_int
  delay_after attempt =
      let max_delay = or_default options.max_delay_ms 30000 in
      let delay =
        min max_delay (options.base_delay_ms * or_default options.factor 2 ^ (attempt - 1)) in
      delay + secure_random_int (words attempt) 0 (delay / 10)

  add_wait : ℕ → Outcome A → Outcome A
  add_wait wait o = record o { waits = wait ∷ o.waits }

  -- The `for` loop: the attempts that are left, the number of the next one, and `lastError`.
  attempts_from : ℕ → ℕ → Option String → Outcome A
  unfolding add_wait delay_after
  attempts_from zero attempt last = record {
    result = err (error_text last);
    calls = attempt - 1;
    waits = [];
  }
  attempts_from (suc left) attempt last = elim (action attempt) [
    | ok a ↦ record { result = ok a; calls = attempt; waits = [] }
    | err e ↦
        let later = attempts_from left (attempt + 1) (some e) in
        if ltb attempt options.max_attempts then add_wait (delay_after attempt) later else later
  ]

  -- `retry`.
  unfoldable pub retry : Outcome A
  unfolding attempts_from
  retry = attempts_from options.max_attempts 1 none
