-- ===== src/CircuitBreaker/Invariant.antt =====
-- The states that overlapping calls can reach.
use counter_terrorist.Common.{
  Bool-cases, List, Option, [], arith, inl, inr, leb, none, ok, refl, some, ℕ, ◌+◌, ◌<◌, ◌∷◌, ◌≡◌,
  ◌≢◌, ◌≤◌,
}
use counter_terrorist.CircuitBreaker.{
  CircuitBreaker, Options, CircuitState, admit, closed, half_open, new_breaker, on_failure,
  on_success, open_circuit, admit_in, execute, settle,
}

-- What can happen to a breaker while any number of calls are under way: a call arrives, or the
-- action of an admitted call ends. The ends are listed newest first, a failure with its time and a
-- success as `none`.
pub data Reach (options : Options) : List (Option ℕ) → CircuitBreaker → Type 0 where
  start : Reach options [] new_breaker
  arrive :
      {ends : List (Option ℕ)} {b : CircuitBreaker} (now : ℕ)
      → Reach options ends b
      → Reach options ends (admit options now b).0
  succeed :
      {ends : List (Option ℕ)} {b : CircuitBreaker}
      → Reach options ends b
      → Reach options (none ∷ ends) (on_success options b)
  fail :
      {ends : List (Option ℕ)} {b : CircuitBreaker} (now : ℕ)
      → Reach options ends b
      → Reach options (some now ∷ ends) (on_failure options now b)

-- The failures since the last success.
unfoldable pub recent_failures : List (Option ℕ) → ℕ
recent_failures [] = 0
recent_failures (none ∷ ends) = 0
recent_failures (some now ∷ ends) = recent_failures ends + 1

unfoldable pub last_failure : List (Option ℕ) → Option ℕ
last_failure [] = none
last_failure (none ∷ ends) = last_failure ends
last_failure (some now ∷ ends) = some now

-- The count of failures tells the state: below the threshold while the breaker is closed, and at or
-- above it, with the time of a failure at hand, while it is open or half open.
abbrev pub Counted : Options → CircuitState → ℕ → Option ℕ → Type 0
Counted options closed n t = n < options.failure_threshold
Counted options open_circuit n t = (options.failure_threshold ≤ n) × (t ≢ none)
Counted options half_open n t = (options.failure_threshold ≤ n) × (t ≢ none)

abbrev pub IsCounted : Options → CircuitBreaker → Type 0
IsCounted options b = Counted options b.state b.failure_count b.last_failure_time

-- The count and the time are those of the ends.
abbrev pub Agrees : List (Option ℕ) → CircuitBreaker → Type 0
Agrees ends b = (b.failure_count ≡ recent_failures ends) × (b.last_failure_time ≡ last_failure ends)

module _ (options : Options) (positive : 0 < options.failure_threshold) where
  admit-IsCounted :
      (now : ℕ) (b : CircuitBreaker) (s : CircuitState)
      → b.state ≡ s
      → IsCounted options b
      → IsCounted options (admit options now b).0
  unfolding admit
  admit-IsCounted now b closed e h = ground arith
  admit-IsCounted now b open_circuit e h = ground arith
  admit-IsCounted now b half_open e h = ground arith

  failure-IsCounted :
      (now : ℕ) (b : CircuitBreaker) (s : CircuitState)
      → b.state ≡ s
      → IsCounted options b
      → IsCounted options (on_failure options now b)
  unfolding on_failure
  failure-IsCounted now b closed e h = ground arith
  failure-IsCounted now b open_circuit e h = ground arith
  failure-IsCounted now b half_open e h = ground arith

  admit-Agrees :
      (now : ℕ) (b : CircuitBreaker) (s : CircuitState) (ends : List (Option ℕ))
      → b.state ≡ s
      → Agrees ends b
      → Agrees ends (admit options now b).0
  unfolding admit
  admit-Agrees now b closed ends e h = ground arith
  admit-Agrees now b open_circuit ends e h = ground arith
  admit-Agrees now b half_open ends e h = ground arith

  failure-Agrees :
      (now : ℕ) (b : CircuitBreaker) (ends : List (Option ℕ))
      → Agrees ends b
      → Agrees (some now ∷ ends) (on_failure options now b)
  unfolding on_failure recent_failures last_failure
  failure-Agrees now b ends h =
      elim (Bool-cases (leb options.failure_threshold (b.failure_count + 1))) [
        | inl e ↦ rw e (omega (arith, h.0), refl)
        | inr e ↦ rw e (omega (arith, h.0), refl)
      ]

  -- However calls arrive and end, the count of a breaker with a positive threshold is the number of the
  -- failures that ended since the last success, and its time is that of the last failure. It is closed
  -- only while the count is below the threshold, and open or half open only with as many failures and
  -- such a time.
  pub Reach-IsCounted :
      {ends : List (Option ℕ)} {b : CircuitBreaker}
      → Reach options ends b
      → IsCounted options b × Agrees ends b
  unfolding new_breaker on_success recent_failures last_failure
  Reach-IsCounted start = (positive, (refl, refl))
  Reach-IsCounted (arrive {ends} {b} now r) =
      let (counted, agrees) = Reach-IsCounted r in
      (admit-IsCounted now b b.state refl counted, admit-Agrees now b b.state ends refl agrees)
  Reach-IsCounted (succeed r) = let (_, agrees) = Reach-IsCounted r in (positive, (refl, agrees.1))
  Reach-IsCounted (fail {ends} {b} now r) =
      let (counted, agrees) = Reach-IsCounted r in
      (failure-IsCounted now b b.state refl counted, failure-Agrees now b ends agrees)

-- A call whose action returns a value leaves a new breaker as it was.
pub execute-new_breaker :
    {A : Type 0} (options : Options) (now later : ℕ) (a : A)
    → execute options now later new_breaker (ok a) ≡ (new_breaker, ok a)
unfolding execute admit admit_in settle on_success new_breaker
execute-new_breaker options now later a = refl
