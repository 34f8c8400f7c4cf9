-- ===== src/CircuitBreaker/Trip.antt =====
-- Opening, rejecting and recovering.
use Prim.Native.String.{String}
use counter_terrorist.Common.{
  List, Result, [], ap, arith, err, false, length, ltb, lt→ltb, ok, refl, some, true, ℕ, ◌++◌, ◌+◌,
  ◌<◌, ◌∷◌, ◌≡◌, ◌≤◌,
}
use counter_terrorist.CircuitBreaker.{
  CircuitBreaker, Options, closed, execute, admit_in, on_failure, open_circuit, rejected, half_open,
}

-- Calls one after another whose actions all fail, each at its time.
abbrev pub failures : Options → List ℕ → CircuitBreaker → CircuitBreaker
failures options [] b = b
failures options (t ∷ ts) b = failures options ts (execute options {A = ℕ} t t b (err "failed")).0

module _ (options : Options) where
  execute_failing :
      (t : ℕ) (b : CircuitBreaker)
      → b.state ≡ closed
      → (execute options {A = ℕ} t t b (err "failed")).0 ≡ on_failure options t b
  unfolding execute
  execute_failing t b e = rw (e, admit_in) refl

  failures_cons :
      (t : ℕ) (ts : List ℕ) (b : CircuitBreaker)
      → b.state ≡ closed
      → failures options (t ∷ ts) b ≡ failures options ts (on_failure options t b)
  failures_cons t ts b e = ap (failures options ts) (execute_failing t b e)

  failures_below :
      (ts : List ℕ) (b : CircuitBreaker)
      → b.state ≡ closed
      → b.failure_count + length ts < options.failure_threshold
      → ((failures options ts b).state ≡ closed)
        × ((failures options ts b).failure_count ≡ b.failure_count + length ts)
  unfolding on_failure
  failures_below [] b e h = (e, omega arith)
  failures_below (t ∷ ts) b e h =
      let (stays, counts) =
        failures_below ts (on_failure options t b) (ground arith) (ground arith) in
      rw (failures_cons t ts b e) (stays, ground arith)

  failures-append :
      (ts : List ℕ) (t : ℕ) (b : CircuitBreaker)
      → failures options (ts ++ t ∷ []) b
        ≡ (execute options {A = ℕ} t t (failures options ts b) (err "failed")).0
  failures-append [] t b = refl
  failures-append (u ∷ ts) t b = failures-append ts t _

  record IsTripped (t : ℕ) (c : CircuitBreaker) : Type 0 where
    state : c.state ≡ open_circuit
    time : c.last_failure_time ≡ some t
    count : options.failure_threshold ≤ c.failure_count

  failures-IsTripped :
      (ts : List ℕ) (t : ℕ) (b : CircuitBreaker)
      → b.state ≡ closed
      → b.failure_count + length ts + 1 ≡ options.failure_threshold
      → IsTripped t (failures options (ts ++ t ∷ []) b)
  unfolding on_failure
  failures-IsTripped ts t b e h =
      let (stays, counts) = failures_below ts b e (omega arith) in
      rw (failures-append ts t b, execute_failing t (failures options ts b) stays)
        (record { state = ground arith; time = ground arith; count = ground arith })

  tripped_rejects :
      (t now later : ℕ) (c : CircuitBreaker) (outcome : Result ℕ String)
      → IsTripped t c
      → now ≤ t + options.reset_timeout_ms
      → execute options now later c outcome ≡ (c, err rejected)
  unfolding execute
  tripped_rejects t now later c outcome trip early =
      let late : ltb (t + options.reset_timeout_ms) now ≡ false = ground arith in
      rw (admit_open c trip.state trip.time late) refl
    where
      admit_open :
          (c : CircuitBreaker)
          → c.state ≡ open_circuit
          → c.last_failure_time ≡ some t
          → ltb (t + options.reset_timeout_ms) now ≡ false
          → admit_in options c.state now c ≡ (c, false)
      admit_open c e f g = rw (e, admit_in) (rw f (rw g refl))

  tripped_admits :
      (t now : ℕ) (c : CircuitBreaker)
      → IsTripped t c
      → t + options.reset_timeout_ms < now
      → admit_in options c.state now c ≡ (record c { state = half_open }, true)
  unfolding admit_in
  tripped_admits t now c trip late =
      let due : ltb (t + options.reset_timeout_ms) now ≡ true = lt→ltb _ _ late in
      rw trip.state (rw trip.time (rw due refl))

  -- From a closed breaker, failing calls leave it closed while the count stays below the threshold;
  -- the failure at time t that reaches the threshold opens it, and until the reset timeout after t
  -- has passed a call is rejected and changes nothing, whatever its action would do.
  pub failures_trip :
      (ts : List ℕ) (t : ℕ) (b : CircuitBreaker) (now later : ℕ) (outcome : Result ℕ String)
      → b.state ≡ closed
      → b.failure_count + length ts + 1 ≡ options.failure_threshold
      → now ≤ t + options.reset_timeout_ms
      → ((failures options ts b).state ≡ closed)
        × ((failures options (ts ++ t ∷ []) b).state ≡ open_circuit)
        × (execute options now later (failures options (ts ++ t ∷ []) b) outcome
            ≡ (failures options (ts ++ t ∷ []) b, err rejected))
  failures_trip ts t b now later outcome e h early =
      let trip = failures-IsTripped ts t b e h in
      (
        (failures_below ts b e (omega arith)).0,
        trip.state,
        tripped_rejects t now later _ outcome trip early,
      )

  -- Once the reset timeout after the failure that opened the breaker has passed, the next call runs
  -- its action: a success closes the breaker, with no failure counted, and a failure opens it again
  -- from the time of that failure.
  pub failures_recover :
      (ts : List ℕ) (t : ℕ) (b : CircuitBreaker) (now later v : ℕ) (e : String)
      → b.state ≡ closed
      → b.failure_count + length ts + 1 ≡ options.failure_threshold
      → t + options.reset_timeout_ms < now
      → (execute options now later (failures options (ts ++ t ∷ []) b) (ok v) ≡ (
        record (failures options (ts ++ t ∷ []) b) { state = closed; failure_count = 0 },
        ok v,
      ))
        × ((execute options {A = ℕ} now later (failures options (ts ++ t ∷ []) b) (err e)).0.state
            ≡ open_circuit)
        × ((execute options {A = ℕ} now later
              (failures options (ts ++ t ∷ []) b)
              (err e)).0.last_failure_time
            ≡ some later)
  unfolding execute
  failures_recover ts t b now later v e h n late =
      let trip = failures-IsTripped ts t b h n in
      let count = trip.count in
      rw (tripped_admits t now (failures options (ts ++ t ∷ []) b) trip late)
        (refl, ground arith, ground arith)
