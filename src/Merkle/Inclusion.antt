-- ===== src/Merkle/Inclusion.antt =====
-- Inclusion proofs: the proof that `getProof` makes passes `verify`, and what a proof that passes
-- says of the leaf.
use text.Mathlib.TextEquality.{eq_iff}
use text.Mathlib.TextPositions.{eq_refl}
use Prim.Native.String.{String}
use counter_terrorist.Common.{
  All, Bool-cases, List, [], arith, if◌then◌else◌, inl, inr, length, ltb, lt→ltb, refl, string_eq,
  suc, sym, true, zero, ℕ, ◌/◌, ◌<◌, ◌∙◌, ◌∷◌, ◌≡◌, ◌≢◌, ◌≤◌,
}
use counter_terrorist.Merkle.{
  at, hash_pair, is_odd, last_head, levels, pair_up, proof_from, sibling, verify_from, build_tree,
  get_proof, get_root, or_empty, verify,
}
use counter_terrorist.Merkle.Levels.{levels-upper, length-pair_up}

pub at_of_All :
    (P : String → Type 0) (level : List String) (i : ℕ)
    → All P level
    → i < length level
    → P (at level i)
at_of_All P [] i h lt = elim lt [ ]
at_of_All P (x ∷ level) zero h lt = h.0
at_of_All P (x ∷ level) (suc i) h lt = at_of_All P level i h.1 (omega arith)

sibling_shift :
    (x y : String) (level : List String) (i : ℕ)
    → sibling (x ∷ y ∷ level) (suc (suc i)) ≡ sibling level i
unfolding sibling
sibling_shift x y level zero = ground arith
sibling_shift x y level (suc i) = ground arith

pub or_empty_of_ne : (s : String) → s ≢ "" → or_empty s ≡ s
or_empty_of_ne s h = ground (arith, eq_iff s "")

pub proof_from-leaf : (level : List String) (i : ℕ) → proof_from (level ∷ []) i ≡ []
unfolding proof_from
proof_from-leaf level i = refl

module _ (sha256_hex : String → String) where
  -- What holds of the leaf and of every hash holds of the text that a proof leads to.
  verify_from_All :
      (P : String → Type 0) (current : String) (i : ℕ) (proof : List String)
      → ((t : String) → P (sha256_hex t))
      → P current
      → P (verify_from sha256_hex current i proof)
  unfolding verify_from hash_pair
  verify_from_All P current i [] hashed h = h
  verify_from_All P current i (s ∷ proof) hashed h =
      verify_from_All P
        (if is_odd i then hash_pair sha256_hex s current else hash_pair sha256_hex current s)
        (i / 2) proof hashed
        (elim (Bool-cases (is_odd i)) [
          | inl odd ↦ rw odd (hashed _)
          | inr even ↦ rw even (hashed _)
        ])

  -- The entry above the place `i` of a level is the hash of the entry at `i` and its sibling, in
  -- the order of their places.
  abbrev combined : List String → ℕ → String
  combined level i =
      if is_odd i
      then hash_pair sha256_hex (sibling level i) (at level i)
      else hash_pair sha256_hex (at level i) (sibling level i)

  combined_shift :
      (x y : String) (level : List String) (i : ℕ)
      → combined (x ∷ y ∷ level) (suc (suc i)) ≡ combined level i
  unfolding is_odd
  combined_shift x y level i = ground (arith, sibling_shift x y level i)

  at-pair_up :
      (level : List String) (i : ℕ)
      → i < length level
      → at (pair_up sha256_hex level) (i / 2) ≡ combined level i
  unfolding pair_up sibling
  at-pair_up [] i h = elim h [ ]
  at-pair_up (x ∷ []) zero h = refl
  at-pair_up (x ∷ []) (suc i) h = absurd (omega arith)
  at-pair_up (x ∷ y ∷ level) zero h = ground arith
  at-pair_up (x ∷ y ∷ level) (suc zero) h = ground arith
  at-pair_up (x ∷ y ∷ level) (suc (suc i)) h =
      let e : suc (suc i) / 2 ≡ suc (i / 2) = omega arith in
      rw e (at-pair_up level i (omega arith) ∙ sym (combined_shift x y level i))

  -- The lists of levels are never empty, so that each level below the root level has a next one.
  pub proof_from-levels :
      (level : List String) (fuel : ℕ) (above : List String) (i : ℕ)
      → proof_from (level ∷ levels sha256_hex fuel above) i
        ≡ sibling level i ∷ proof_from (levels sha256_hex fuel above) (i / 2)
  unfolding proof_from
  proof_from-levels level fuel above i = rw levels-upper

  last_head-levels :
      (level : List String) (fuel : ℕ) (above : List String)
      → last_head (level ∷ levels sha256_hex fuel above) ≡ last_head (levels sha256_hex fuel above)
  last_head-levels level fuel above = rw levels-upper

  pub levels_big :
      (fuel : ℕ) (level : List String)
      → ltb 1 (length level) ≡ true
      → levels sha256_hex (suc fuel) level
        ≡ level ∷ levels sha256_hex fuel (pair_up sha256_hex level)
  unfolding levels
  levels_big fuel level big = rw big

  verify_from_climb :
      (fuel : ℕ) (level : List String) (i : ℕ)
      → ltb 1 (length level) ≡ true
      → i < length level
      → verify_from sha256_hex
          (at (pair_up sha256_hex level) (i / 2))
          (i / 2)
          (proof_from (levels sha256_hex fuel (pair_up sha256_hex level)) (i / 2))
        ≡ last_head (levels sha256_hex fuel (pair_up sha256_hex level))
      → verify_from sha256_hex (at level i) i (proof_from (levels sha256_hex (suc fuel) level) i)
        ≡ last_head (levels sha256_hex (suc fuel) level)
  unfolding verify_from
  verify_from_climb fuel level i big h above =
      rw (levels_big fuel level big)
        (rw (proof_from-levels, last_head-levels) (rw (at-pair_up level i h) at above))

  -- Climbing with the proof's hashes from any entry of a level ends at the root.
  pub verify_from-proof_from :
      (fuel : ℕ) (level : List String) (i : ℕ)
      → length level ≤ suc fuel
      → i < length level
      → verify_from sha256_hex (at level i) i (proof_from (levels sha256_hex fuel level) i)
        ≡ last_head (levels sha256_hex fuel level)
  unfolding levels proof_from verify_from
  verify_from-proof_from fuel [] i enough h = elim h [ ]
  verify_from-proof_from zero (x ∷ []) zero enough h = refl
  verify_from-proof_from (suc fuel) (x ∷ []) zero enough h = refl
  verify_from-proof_from zero (x ∷ []) (suc i) enough h = absurd (omega arith)
  verify_from-proof_from (suc fuel) (x ∷ []) (suc i) enough h = absurd (omega arith)
  verify_from-proof_from zero (x ∷ y ∷ level) i enough h = absurd (omega arith)
  verify_from-proof_from (suc fuel) (x ∷ y ∷ level) i enough h =
      let size = length-pair_up sha256_hex (x ∷ y ∷ level) in
      let ih =
        verify_from-proof_from fuel (pair_up sha256_hex (x ∷ y ∷ level)) (i / 2)
          (omega (arith, size)) (omega (arith, size)) in
      verify_from_climb fuel (x ∷ y ∷ level) i (lt→ltb _ _ (omega arith)) h ih

  pub last_head_All :
      (P : String → Type 0) (fuel : ℕ) (level : List String)
      → ((t : String) → P (sha256_hex t))
      → 0 < length level
      → length level ≤ suc fuel
      → All P level
      → P (last_head (levels sha256_hex fuel level))
  last_head_All P fuel level hashed pos enough h =
      rw (← verify_from-proof_from fuel level 0 enough pos)
        (verify_from_All P (at level 0) 0 _ hashed (at_of_All P level 0 h pos))

  -- The proof of a leaf's inclusion passes the check against the tree's root, for every place in
  -- the tree, if neither a hash nor a leaf is the empty text (for which `getRoot` has another one).
  pub verify-get_proof :
      (x : String) (xs : List String) (i : ℕ)
      → ((t : String) → sha256_hex t ≢ "")
      → All (λ t. t ≢ "") (x ∷ xs)
      → i < length (x ∷ xs)
      → verify sha256_hex
          (get_root (build_tree sha256_hex (x ∷ xs)))
          (at (x ∷ xs) i)
          i
          (get_proof (build_tree sha256_hex (x ∷ xs)) i)
        ≡ true
  unfolding verify get_root get_proof build_tree
  verify-get_proof x xs i hashed leaves h =
      let n = length (x ∷ xs) in
      let root = last_head (levels sha256_hex n (x ∷ xs)) in
      let full : root ≢ "" =
        last_head_All (λ t. t ≢ "") n (x ∷ xs) hashed (omega arith) (omega arith) leaves in
      rw (or_empty_of_ne root full)
        (rw (verify_from-proof_from n (x ∷ xs) i (omega arith) h) (eq_refl root))
