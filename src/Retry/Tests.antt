-- ===== src/Retry/Tests.antt =====
-- Retries with the default options, and with those of a write to the rate limits' store.
use counter_terrorist.Retry.Waits.{retry_waits}
use Prim.Native.String.{String}
use counter_terrorist.Common.{
  All, Result, [], arith, err, if◌then◌else◌, length, ltb, none, ok, refl, ℕ, ◌+◌, ◌∷◌, ◌≡◌, ◌≤◌,
}
use counter_terrorist.Retry.{RetryOptions, retry}

abbrev options : RetryOptions
options = record { max_attempts = 3; base_delay_ms = 1000; max_delay_ms = none; factor = none }

-- The third call succeeds.
abbrev flaky : ℕ → Result ℕ String
flaky n = if ltb n 3 then err "contention" else ok n

abbrev broken : ℕ → Result ℕ String
broken n = err "down"

abbrev words : ℕ → ℕ
words n = 250

flaky_run :
    retry flaky words options ≡ record { result = ok 3; calls = 3; waits = 1048 ∷ 2049 ∷ [] }
unfolding retry
flaky_run = refl

retry_waits_example :
    All (λ w. w ≤ 33000) (retry broken words options).waits
    × (length (retry broken words options).waits + 1 ≡ (retry broken words options).calls)
retry_waits_example = retry_waits broken words options (omega arith)
