-- ===== src/Retry/Attempts.antt =====
-- Which attempt's outcome `retry` returns.
use native.Mathlib.Nat.{add-zero}
use Prim.Native.String.{String}
use counter_terrorist.Common.{
  Bool-cases, Option, Result, arith, err, inl, inr, ltb, none, ok, refl, some, suc, sym, zero, ℕ,
  ◌+◌, ◌-◌, ◌<◌, ◌∙◌, ◌≡◌, ◌≤◌,
}
use counter_terrorist.Retry.{RetryOptions, attempts_from, retry}

-- The attempt threw.
abbrev pub Failed : {A : Type 0} → Result A String → Type 0
Failed (ok a) = ⊥
Failed (err e) = Unit

module _ {A : Type 0} (action : ℕ → Result A String) (words : ℕ → ℕ) (options : RetryOptions) where
  -- An attempt that fails changes neither the result nor the number of calls of the later ones.
  failed_step :
      (left n : ℕ) (last : Option String) (e : String)
      → action n ≡ err e
      → ((attempts_from action words options (suc left) n last).result
          ≡ (attempts_from action words options left (n + 1) (some e)).result)
        × ((attempts_from action words options (suc left) n last).calls
            ≡ (attempts_from action words options left (n + 1) (some e)).calls)
  unfolding attempts_from
  failed_step left n last e h =
      rw (h, attempts_from)
        (elim (Bool-cases (ltb n options.max_attempts)) [
          | inl more ↦ rw more (refl, refl)
          | inr done ↦ rw done (refl, refl)
        ])

  error_of : (r : Result A String) → Failed r → (e : String) × (r ≡ err e)
  error_of (ok a) h = absurd h
  error_of (err e) h = (e, refl)

  first_success :
      (skip left n : ℕ) (last : Option String) (a : A)
      → skip < left
      → ((i : ℕ) → n ≤ i → i < n + skip → Failed (action i))
      → action (n + skip) ≡ ok a
      → ((attempts_from action words options left n last).result ≡ ok a)
        × ((attempts_from action words options left n last).calls ≡ n + skip)
  unfolding attempts_from
  first_success skip zero n last a h failed done = elim h [ ]
  first_success zero (suc left) n last a h failed done =
      let here : action n ≡ ok a = rw add-zero at done in
      rw (here, attempts_from) (refl, omega arith)
  first_success (suc skip) (suc left) n last a h failed done =
      let (e, threw) = error_of (action n) (failed n (omega arith) (omega arith)) in
      let same : n + suc skip ≡ n + 1 + skip = omega arith in
      let (result, calls) = failed_step left n last e threw in
      let (r, c) =
        first_success skip left (n + 1) (some e) a (omega arith)
          (λ i p q. failed i (omega arith) (omega arith)) (rw same at done) in
      (result ∙ r, calls ∙ c ∙ sym same)

  -- `retry` returns the value of the first attempt that succeeds, and makes no call after it, if
  -- one within the allowed number does.
  pub retry_first_success :
      (k : ℕ) (a : A)
      → 1 ≤ k
      → k ≤ options.max_attempts
      → ((i : ℕ) → 1 ≤ i → i < k → Failed (action i))
      → action k ≡ ok a
      → ((retry action words options).result ≡ ok a) × ((retry action words options).calls ≡ k)
  unfolding retry
  retry_first_success k a pos fits failed done =
      let same : k ≡ 1 + (k - 1) = omega arith in
      let (r, c) =
        first_success (k - 1) options.max_attempts 1 none a (omega arith)
          (λ i p q. failed i p (omega arith)) (rw same at done) in
      (r, c ∙ sym same)

  attempts_from-err :
      (left n : ℕ) (last : Option String) (e : String)
      → 0 < left
      → ((i : ℕ) → n ≤ i → i < n + left → Failed (action i))
      → action (n + left - 1) ≡ err e
      → ((attempts_from action words options left n last).result ≡ err e)
        × ((attempts_from action words options left n last).calls ≡ n + left - 1)
  unfolding attempts_from
  attempts_from-err zero n last e h failed done = elim h [ ]
  attempts_from-err (suc zero) n last e h failed done =
      let here : n + 1 - 1 ≡ n = omega arith in
      let (result, calls) = failed_step 0 n last e (rw here at done) in (result, calls)
  attempts_from-err (suc (suc left)) n last e h failed done =
      let (f, threw) = error_of (action n) (failed n (omega arith) (omega arith)) in
      let same : n + suc (suc left) - 1 ≡ n + 1 + suc left - 1 = omega arith in
      let (result, calls) = failed_step (suc left) n last f threw in
      let (r, c) =
        attempts_from-err (suc left) (n + 1) (some f) e (omega arith)
          (λ i p q. failed i (omega arith) (omega arith)) (rw same at done) in
      (result ∙ r, calls ∙ c ∙ sym same)

  -- If every allowed attempt throws, `retry` makes all of them and returns the last one's error.
  pub retry-Failed :
      (e : String)
      → 0 < options.max_attempts
      → ((i : ℕ) → 1 ≤ i → i ≤ options.max_attempts → Failed (action i))
      → action options.max_attempts ≡ err e
      → ((retry action words options).result ≡ err e)
        × ((retry action words options).calls ≡ options.max_attempts)
  unfolding retry
  retry-Failed e pos failed last =
      let same : options.max_attempts ≡ 1 + options.max_attempts - 1 = omega arith in
      let (r, c) =
        attempts_from-err options.max_attempts 1 none e pos (λ i p q. failed i p (omega arith))
          (rw same at last) in
      (r, c ∙ sym same)
