-- ===== src/CircuitBreaker/Tests.antt =====
-- A circuit breaker with the mesh's options: three failures, one minute.
use counter_terrorist.Common.{[], arith, err, none, ok, refl, some, ℕ, ◌∷◌, ◌≡◌}
use counter_terrorist.CircuitBreaker.{
  CircuitBreaker, Options, closed, execute, new_breaker, on_failure, open_circuit, rejected,
  on_success,
}
use counter_terrorist.CircuitBreaker.Invariant.{
  IsCounted, Reach-IsCounted, fail, start, Agrees, succeed,
}
use counter_terrorist.CircuitBreaker.Trip.{failures, failures_recover, failures_trip}

abbrev options : Options
options = record { failure_threshold = 3; reset_timeout_ms = 60000 }

abbrev fresh : CircuitBreaker
fresh = record { state = closed; failure_count = 0; last_failure_time = none }

opened :
    failures options (10 ∷ 20 ∷ 30 ∷ []) fresh
    ≡ record { state = open_circuit; failure_count = 3; last_failure_time = some 30 }
unfolding execute
opened = refl

failures_trip_example :
    ((failures options (10 ∷ 20 ∷ []) fresh).state ≡ closed)
    × ((failures options (10 ∷ 20 ∷ 30 ∷ []) fresh).state ≡ open_circuit)
    × (execute options {A = ℕ} 500 501 (failures options (10 ∷ 20 ∷ 30 ∷ []) fresh) (ok 7)
        ≡ (failures options (10 ∷ 20 ∷ 30 ∷ []) fresh, err rejected))
failures_trip_example =
    failures_trip options (10 ∷ 20 ∷ []) 30 fresh 500 501 (ok 7) refl refl (omega arith)

failures_recover_example :
    (execute options {A = ℕ} 60031 60040 (failures options (10 ∷ 20 ∷ 30 ∷ []) fresh) (ok 7) ≡ (
      record (failures options (10 ∷ 20 ∷ 30 ∷ []) fresh) { state = closed; failure_count = 0 },
      ok 7,
    ))
    × ((execute options {A = ℕ} 60031 60040
          (failures options (10 ∷ 20 ∷ 30 ∷ []) fresh)
          (err "down")).0.state
        ≡ open_circuit)
    × ((execute options {A = ℕ} 60031 60040
          (failures options (10 ∷ 20 ∷ 30 ∷ []) fresh)
          (err "down")).0.last_failure_time
        ≡ some 60040)
failures_recover_example =
    failures_recover options (10 ∷ 20 ∷ []) 30 fresh 60031 60040 7 "down" refl refl (omega arith)

abbrev failed : CircuitBreaker
failed = on_failure options 7 (on_success options (on_failure options 5 new_breaker))

Reach-IsCounted_example : IsCounted options failed × Agrees (some 7 ∷ none ∷ some 5 ∷ []) failed
Reach-IsCounted_example = Reach-IsCounted options (omega arith) (fail 7 (succeed (fail 5 start)))
