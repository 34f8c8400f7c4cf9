-- ===== src/Retry/Waits.antt =====
-- How long `retry` waits.
use Prim.Native.String.{String}
use counter_terrorist.Common.{
  All, List, Option, Result, Result-cases, arith, err, false, if◌then◌else◌, inl, inr, length, ltb,
  lt→ltb, min, none, ok, refl, some, suc, zero, ℕ, ◌*◌, ◌+◌, ◌-◌, ◌/◌, ◌<◌, ◌^◌, ◌≡◌, ◌≤◌,
}
use counter_terrorist.Retry.{
  RetryOptions, delay_after, or_default, secure_random_int, add_wait, attempts_from, Outcome, retry,
}

-- A drawn integer lies in the range that was asked for.
secure_random_int_bounds :
    (word low high : ℕ)
    → low ≤ high
    → (low ≤ secure_random_int word low high) × (secure_random_int word low high ≤ high)
unfolding secure_random_int
secure_random_int_bounds word low high h = grind arith

module _ {A : Type 0} (action : ℕ → Result A String) (words : ℕ → ℕ) (options : RetryOptions) where
  abbrev limit : ℕ
  limit = or_default options.max_delay_ms 30000

  delay_after_le : (n : ℕ) → delay_after action words options n ≤ limit + limit / 10
  unfolding delay_after
  delay_after_le n = omega (
    arith,
    (secure_random_int_bounds (words n) 0
        (min limit (options.base_delay_ms * or_default options.factor 2 ^ (n - 1)) / 10)
        (omega arith)).1,
  )

  abbrev Bounded : List ℕ → Type 0
  Bounded waits = All (λ w. w ≤ limit + limit / 10) waits

  -- A failed attempt waits exactly if another one follows.
  failed_waits :
      (left n : ℕ) (last : Option String) (e : String)
      → action n ≡ err e
      → attempts_from action words options (suc left) n last ≡ (
          if ltb n options.max_attempts
          then add_wait action words options
              (delay_after action words options n)
              (attempts_from action words options left (n + 1) (some e))
          else attempts_from action words options left (n + 1) (some e))
  unfolding attempts_from
  failed_waits left n last e h = rw (h, attempts_from) refl

  abbrev Measured : Outcome A → ℕ → Type 0
  Measured o n = Bounded o.waits × (length o.waits + n ≡ o.calls)

  succeed_waits :
      (left n : ℕ) (last : Option String) (a : A)
      → action n ≡ ok a
      → Measured (attempts_from action words options (suc left) n last) n
  unfolding attempts_from
  succeed_waits left n last a h = rw (h, attempts_from) (tt, omega arith)

  last_waits :
      (n : ℕ) (last : Option String) (e : String)
      → action n ≡ err e
      → n ≡ options.max_attempts
      → Measured (attempts_from action words options 1 n last) n
  unfolding attempts_from
  last_waits n last e h end_ =
      let done : ltb n options.max_attempts ≡ false = ground arith in
      rw (failed_waits 0 n last e h) (rw done (tt, omega arith))

  next_waits :
      (left n : ℕ) (last : Option String) (e : String)
      → action n ≡ err e
      → n < options.max_attempts
      → Measured (attempts_from action words options (suc left) (n + 1) (some e)) (n + 1)
      → Measured (attempts_from action words options (suc (suc left)) n last) n
  unfolding add_wait
  next_waits left n last e h more (bounded, counted) =
      rw (failed_waits (suc left) n last e h)
        (rw (lt→ltb _ _ more) ((delay_after_le n, bounded), omega arith))

  waits_from :
      (left n : ℕ) (last : Option String)
      → n + left ≡ options.max_attempts
      → Measured (attempts_from action words options (suc left) n last) n
  waits_from zero n last total = elim (Result-cases (action n)) [
    | inl (a, h) ↦ succeed_waits zero n last a h
    | inr (e, h) ↦ last_waits n last e h (omega arith)
  ]
  waits_from (suc left) n last total = elim (Result-cases (action n)) [
    | inl (a, h) ↦ succeed_waits (suc left) n last a h
    | inr (e, h) ↦
        next_waits left n last e h (omega arith) (waits_from left (n + 1) (some e) (omega arith))
  ]

  -- If at least one attempt is allowed, `retry` waits once between each two calls and never after
  -- the last one, and never longer than the maximal delay and a tenth of it.
  pub retry_waits :
      0 < options.max_attempts
      → All
          (λ w.
            w ≤ or_default options.max_delay_ms 30000 + or_default options.max_delay_ms 30000 / 10)
          (retry action words options).waits
        × (length (retry action words options).waits + 1 ≡ (retry action words options).calls)
  unfolding retry
  retry_waits pos = from_first options.max_attempts refl pos
    where
      from_first :
          (n : ℕ)
          → n ≡ options.max_attempts
          → 0 < n
          → Measured (attempts_from action words options n 1 none) 1
      from_first zero e h = elim h [ ]
      from_first (suc n) e h = waits_from n 1 none (omega arith)
