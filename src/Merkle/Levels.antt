-- ===== src/Merkle/Levels.antt =====
-- The levels of a Merkle tree: halving, and enough rounds.
use Prim.Native.String.{String}
use counter_terrorist.Common.{
  List, [], arith, false, if◌then◌else◌, length, ltb, refl, suc, zero, ℕ, ◌+◌, ◌/◌, ◌∷◌, ◌≡◌, ◌≤◌,
}
use counter_terrorist.Merkle.{pair_up, levels}

module _ (sha256_hex : String → String) where
  pub length-pair_up :
      (level : List String) → length (pair_up sha256_hex level) ≡ (length level + 1) / 2
  unfolding pair_up
  length-pair_up [] = omega arith
  length-pair_up (x ∷ []) = omega arith
  length-pair_up (x ∷ y ∷ rest) = omega (arith, length-pair_up rest)

  -- Two amounts of fuel that are both enough build the same levels.
  pub levels_fuel :
      (f g : ℕ) (level : List String)
      → length level ≤ suc f
      → length level ≤ suc g
      → levels sha256_hex f level ≡ levels sha256_hex g level
  unfolding levels
  levels_fuel zero zero level p q = refl
  levels_fuel zero (suc g) level p q = ground arith
  levels_fuel (suc f) zero level p q = ground arith
  levels_fuel (suc f) (suc g) level p q =
      ground (arith, length-pair_up level, levels_fuel f g (pair_up sha256_hex level))

  -- The levels above `level`, with the fuel of `levels`.
  unfoldable pub upper : ℕ → List String → List (List String)
  upper zero level = []
  upper (suc fuel) level =
      if ltb 1 (length level) then levels sha256_hex fuel (pair_up sha256_hex level) else []

  pub levels-upper :
      (fuel : ℕ) (level : List String) → levels sha256_hex fuel level ≡ level ∷ upper fuel level
  unfolding levels upper
  levels-upper zero level = refl
  levels-upper (suc fuel) level = ground arith

  pub levels_small :
      (fuel : ℕ) (level : List String)
      → ltb 1 (length level) ≡ false
      → levels sha256_hex (suc fuel) level ≡ level ∷ []
  unfolding levels
  levels_small fuel level small = rw small

  pub levels-zero : (level : List String) → levels sha256_hex zero level ≡ level ∷ []
  unfolding levels
  levels-zero level = refl
