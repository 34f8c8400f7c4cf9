-- ===== src/Queue/Tests.antt =====
-- A message that is never accepted.
use counter_terrorist.Common.{Bool, Option, [], arith, false, some, ℕ, ◌∷◌, ◌≡◌}
use counter_terrorist.Queue.{enqueue}
use counter_terrorist.Queue.DeadLetters.{runs-enqueue, alone, runs}

abbrev never : ℕ → ℕ → Option Bool
never n a = some false

runs-enqueue_example :
    runs never 2 100 (5 ∷ 6 ∷ 7 ∷ []) (enqueue "id" 42 0 []) ≡ alone ("dlq" ∷ "id" ∷ []) 42 3 7
runs-enqueue_example =
    runs-enqueue never 2 100 (5 ∷ 6 ∷ 7 ∷ []) "id" 42 0 (λ e. absurd (cc)) (ground arith)
      (ground arith)
