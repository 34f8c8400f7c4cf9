-- ===== src/Common/Ranges.antt =====
-- A test of every number below a bound, by evaluation.
use Prim.Native.Nat.{ℕ, zero, suc, ◌<◌}
use mathlib.Core.Path.{◌≡◌}
use mathlib.Core.Bool.{Bool, true, ◌&&◌}
use native.Mathlib.Omega.{arith}
use native.Mathlib.Decide.{ℕ_discrete}

unfoldable pub every_below : (ℕ → Bool) → ℕ → Bool
every_below p zero = true
every_below p (suc n) = every_below p n && p n

pub every_below-true : (p : ℕ → Bool) (n k : ℕ) → every_below p n ≡ true → k < n → p k ≡ true
unfolding every_below
every_below-true p zero k h lt = absurd (omega (arith, lt))
every_below-true p (suc n) k h lt = elim (ℕ_discrete k n) [
  | yes e ↦ rw e (ground arith)
  | no ne ↦ every_below-true p n k (ground arith) (omega (arith, lt, ne))
]
