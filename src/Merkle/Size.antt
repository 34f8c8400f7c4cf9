-- ===== src/Merkle/Size.antt =====
-- The height of the tree: the loop of `buildTree` ends at one root, and proofs are short.
use Prim.Native.String.{String}
use native.Mathlib.Nat.{pow-suc}
use counter_terrorist.Common.{
  Bool-cases, List, [], arith, inl, inr, length, ltb, string_eq, suc, zero, ℕ, ◌/◌, ◌<◌, ◌^◌, ◌∷◌,
  ◌≡◌, ◌≤◌,
}
use counter_terrorist.Merkle.{build_tree, get_proof, levels, pair_up, proof_from}
use counter_terrorist.Merkle.Levels.{levels-upper, length-pair_up, levels_small, levels-zero}
use counter_terrorist.Merkle.Inclusion.{levels_big, proof_from-levels, proof_from-leaf}

-- `tree[tree.length - 1]`.
abbrev pub last_level : List (List String) → List String
last_level [] = []
last_level (level ∷ []) = level
last_level (level ∷ next ∷ rest) = last_level (next ∷ rest)

module _ (sha256_hex : String → String) where
  last_level-levels :
      (level : List String) (fuel : ℕ) (above : List String)
      → last_level (level ∷ levels sha256_hex fuel above)
        ≡ last_level (levels sha256_hex fuel above)
  last_level-levels level fuel above = rw levels-upper

  length-last_level :
      (fuel : ℕ) (level : List String)
      → 0 < length level
      → length level ≤ suc fuel
      → length (last_level (levels sha256_hex fuel level)) ≡ 1
  length-last_level zero level pos enough = rw (levels-zero sha256_hex level) (omega arith)
  length-last_level (suc fuel) level pos enough =
      let size = length-pair_up sha256_hex level in
      elim (Bool-cases (ltb 1 (length level))) [
        | inr small ↦ rw (levels_small sha256_hex fuel level small) (ground arith)
        | inl big ↦ rw (levels_big sha256_hex fuel level big) (
            rw (last_level-levels level fuel (pair_up sha256_hex level)) (
              length-last_level fuel (pair_up sha256_hex level) (omega (arith, size))
                (omega (arith, size))))
      ]

  -- The loop of `buildTree` ends by its own test: the last level that it pushes is a single root.
  pub length-last_level-build_tree :
      (x : String) (xs : List String)
      → length (last_level (build_tree sha256_hex (x ∷ xs)).tree) ≡ 1
  unfolding build_tree
  length-last_level-build_tree x xs =
      length-last_level (length (x ∷ xs)) (x ∷ xs) (omega arith) (omega arith)

  length-proof_from_le :
      (fuel k : ℕ) (level : List String) (i : ℕ)
      → length level ≤ 2 ^ k
      → length (proof_from (levels sha256_hex fuel level) i) ≤ k
  length-proof_from_le zero k level i h =
      rw (levels-zero sha256_hex level) (rw (proof_from-leaf level i) (omega arith))
  length-proof_from_le (suc fuel) zero level i h =
      rw (levels_small sha256_hex fuel level (ground arith))
        (rw (proof_from-leaf level i) (omega arith))
  length-proof_from_le (suc fuel) (suc k) level i h = elim (Bool-cases (ltb 1 (length level))) [
    | inr small ↦
        rw (levels_small sha256_hex fuel level small) (rw (proof_from-leaf level i) (omega arith))
    | inl big ↦
        let rest =
          length-proof_from_le fuel k (pair_up sha256_hex level) (i / 2)
            (omega (arith, length-pair_up sha256_hex level, pow-suc 2 k)) in
        rw (levels_big sha256_hex fuel level big)
          (rw (proof_from-levels sha256_hex level fuel (pair_up sha256_hex level) i) (omega arith))
  ]

  -- A proof holds at most k hashes for a tree of at most 2 ^ k leaves.
  pub length-get_proof_le :
      (x : String) (xs : List String) (i k : ℕ)
      → length (x ∷ xs) ≤ 2 ^ k
      → length (get_proof (build_tree sha256_hex (x ∷ xs)) i) ≤ k
  unfolding get_proof build_tree
  length-get_proof_le x xs i k h = length-proof_from_le (length (x ∷ xs)) k (x ∷ xs) i h
