-- ===== src/Merkle/Soundness.antt =====
-- What a proof that passes `verify` says of the leaf.
use text.Mathlib.TextEquality.{eq_iff}
use Prim.Native.String.{String}
use Prim.Native.String.{count}
use text.Mathlib.TextLemmas.{append_inj}
use Prim.Native.String
use counter_terrorist.Common.{
  ===_cases, All, Bool-cases, Has, List, [], ap, arith, if◌then◌else◌, inl, inr, length, ltb, refl,
  string_eq, suc, sym, true, zero, ℕ, ◌+◌, ◌-◌, ◌/◌, ◌<◌, ◌∙◌, ◌∷◌, ◌≡◌, ◌≢◌, ◌≤◌, ◌⊎◌,
}
use counter_terrorist.Merkle.{
  hash_pair, verify_from, at, build_tree, get_proof, get_root, is_odd, last_head, levels, pair_up,
  proof_from, sibling, verify,
}
use counter_terrorist.Merkle.Levels.{levels_small, length-pair_up}
use counter_terrorist.Merkle.Inclusion.{
  at_of_All, or_empty_of_ne, verify_from-proof_from, last_head_All, levels_big, proof_from-levels,
  proof_from-leaf,
}

module _ (sha256_hex : String → String) (width : ℕ) where
  -- A text as long as every hash.
  abbrev pub HasWidth : String → Type 0
  HasWidth s = count s ≡ width

  -- The text that one step of `verify` hashes, with the entry `current` and its sibling `s`, and the entry
  -- above them.
  abbrev pub pair_text : ℕ → String → String → String
  pair_text i s current = if is_odd i then String.◌++◌ s current else String.◌++◌ current s

  abbrev joined : ℕ → String → String → String
  joined i s current =
      if is_odd i then hash_pair sha256_hex s current else hash_pair sha256_hex current s

  -- The texts that the check of a proof hashes.
  unfoldable pub path_texts : String → ℕ → List String → List String
  path_texts current i [] = []
  path_texts current i (s ∷ proof) =
      pair_text i s current ∷ path_texts (joined i s current) (i / 2) proof

  -- Two different texts with one hash, one from each list.
  pub record CollisionIn (xs ys : List String) : Type 0 where
    pub first : String
    pub second : String
    pub first_in : Has first xs
    pub second_in : Has second ys
    pub differ : first ≢ second
    pub collide : sha256_hex first ≡ sha256_hex second

  joined-pair_text :
      (i : ℕ) (s current : String) → joined i s current ≡ sha256_hex (pair_text i s current)
  unfolding hash_pair
  joined-pair_text i s current = elim (Bool-cases (is_odd i)) [
    | inl odd ↦ rw odd refl
    | inr even ↦ rw even refl
  ]

  joined-HasWidth :
      (i : ℕ) (s current : String)
      → ((t : String) → HasWidth (sha256_hex t))
      → HasWidth (joined i s current)
  joined-HasWidth i s current hashed = rw (joined-pair_text i s current) (hashed _)

  -- Equal texts have equal entries.
  pair_text_inj :
      (i : ℕ) (s t a b : String)
      → HasWidth s
      → HasWidth t
      → HasWidth a
      → HasWidth b
      → pair_text i s a ≡ pair_text i t b
      → a ≡ b
  pair_text_inj i s t a b hs ht ha hb e = elim (Bool-cases (is_odd i)) [
    | inl odd ↦ (append_inj (rw odd at e) (hs ∙ sym ht)).1
    | inr even ↦ (append_inj (rw even at e) (ha ∙ sym hb)).0
  ]

  -- Two proofs of one length that lead from two texts to one text have led from one text.
  verify_from_inj :
      (a b : String) (i : ℕ) (p q : List String)
      → ((t : String) → HasWidth (sha256_hex t))
      → HasWidth a
      → HasWidth b
      → All HasWidth p
      → All HasWidth q
      → length p ≡ length q
      → verify_from sha256_hex a i p ≡ verify_from sha256_hex b i q
      → (a ≡ b) ⊎ CollisionIn (path_texts a i p) (path_texts b i q)
  unfolding verify_from path_texts
  verify_from_inj a b i [] [] hashed ha hb hp hq n e = inl e
  verify_from_inj a b i [] (t ∷ q) hashed ha hb hp hq n e = absurd (omega arith)
  verify_from_inj a b i (s ∷ p) [] hashed ha hb hp hq n e = absurd (omega arith)
  verify_from_inj a b i (s ∷ p) (t ∷ q) hashed ha hb (hs, hp) (ht, hq) n e =
      elim (verify_from_inj (joined i s a) (joined i t b) (i / 2) p q hashed
        (joined-HasWidth i s a hashed) (joined-HasWidth i t b hashed) hp hq (omega arith) e) [
          | inr c ↦ inr (record {
            first = c.first;
            second = c.second;
            first_in = inr c.first_in;
            second_in = inr c.second_in;
            differ = c.differ;
            collide = c.collide;
          })
          | inl same ↦ elim (===_cases (pair_text i s a) (pair_text i t b)) [
            | inl one ↦ inl (pair_text_inj i s t a b hs ht ha hb one)
            | inr two ↦ inr (record {
              first = pair_text i s a;
              second = pair_text i t b;
              first_in = inl refl;
              second_in = inl refl;
              differ = two;
              collide = sym (joined-pair_text i s a) ∙ (same ∙ joined-pair_text i t b);
            })
          ]
        ]

  pair_up-All :
      (level : List String)
      → ((t : String) → HasWidth (sha256_hex t))
      → All HasWidth (pair_up sha256_hex level)
  unfolding pair_up hash_pair
  pair_up-All [] hashed = tt
  pair_up-All (x ∷ []) hashed = (hashed _, tt)
  pair_up-All (x ∷ y ∷ level) hashed = (hashed _, pair_up-All level hashed)

  sibling-All :
      (level : List String) (i : ℕ)
      → i < length level
      → All HasWidth level
      → HasWidth (sibling level i)
  unfolding sibling
  sibling-All level i h w = ground (
    arith,
    at_of_All HasWidth level i w,
    at_of_All HasWidth level (i - 1) w,
    at_of_All HasWidth level (i + 1) w,
  )

  proof_from-zero : (level : List String) (i : ℕ) → proof_from (levels sha256_hex zero level) i ≡ []
  unfolding levels proof_from
  proof_from-zero level i = refl

  proof_from-All :
      (fuel : ℕ) (level : List String) (i : ℕ)
      → ((t : String) → HasWidth (sha256_hex t))
      → length level ≤ suc fuel
      → i < length level
      → All HasWidth level
      → All HasWidth (proof_from (levels sha256_hex fuel level) i)
  proof_from-All zero level i hashed enough h w = rw (proof_from-zero level i) tt
  proof_from-All (suc fuel) level i hashed enough h w =
      let size = length-pair_up sha256_hex level in
      elim (Bool-cases (ltb 1 (length level))) [
        | inr small ↦
            rw (levels_small sha256_hex fuel level small) (rw (proof_from-leaf level i) tt)
        | inl big ↦
            let rest =
              proof_from-All fuel (pair_up sha256_hex level) (i / 2) hashed (omega (arith, size))
                (omega (arith, size)) (pair_up-All level hashed) in
            rw (levels_big sha256_hex fuel level big) (
              rw (proof_from-levels sha256_hex level fuel (pair_up sha256_hex level) i)
                (sibling-All level i h w, rest))
      ]

  -- Whatever proof passes the check at a place of a tree of leaves and hashes of one width, as long as the
  -- proof that the tree makes for that place and with texts of that width: the checked leaf, of that width
  -- too, is the one that the tree holds there, or one of the texts that the check hashes has the hash of
  -- another one, which the check of the tree's own proof hashes.
  pub verify_sound :
      (x : String) (xs : List String) (i : ℕ) (leaf : String) (proof : List String)
      → 0 < width
      → ((t : String) → HasWidth (sha256_hex t))
      → All HasWidth (x ∷ xs)
      → i < length (x ∷ xs)
      → HasWidth leaf
      → All HasWidth proof
      → length proof ≡ length (get_proof (build_tree sha256_hex (x ∷ xs)) i)
      → verify sha256_hex (get_root (build_tree sha256_hex (x ∷ xs))) leaf i proof ≡ true
      → (leaf ≡ at (x ∷ xs) i)
        ⊎ CollisionIn
            (path_texts leaf i proof)
            (path_texts (at (x ∷ xs) i) i (get_proof (build_tree sha256_hex (x ∷ xs)) i))
  unfolding verify get_root get_proof build_tree
  verify_sound x xs i leaf proof pos hashed leaves h hl hp n passed =
      let root = last_head (levels sha256_hex (length (x ∷ xs)) (x ∷ xs)) in
      let wide : HasWidth root =
        last_head_All sha256_hex HasWidth _ (x ∷ xs) hashed (omega arith) (omega arith) leaves in
      let full : root ≢ "" = λ p. absurd (omega (arith, wide, ap count p)) in
      let genuine =
        verify_from-proof_from sha256_hex (length (x ∷ xs)) (x ∷ xs) i (omega arith) h in
      verify_from_inj leaf (at (x ∷ xs) i) i proof _ hashed hl
        (at_of_All HasWidth (x ∷ xs) i leaves h) hp
        (proof_from-All (length (x ∷ xs)) (x ∷ xs) i hashed (omega arith) h leaves) n
        ((eq_iff _ _).0 (rw (or_empty_of_ne root full) at passed) ∙ sym genuine)
