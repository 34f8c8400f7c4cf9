-- ===== src/Merkle/Growth.antt =====
-- `addLeaf` against rebuilding the tree.
use Prim.Native.String.{String}
use counter_terrorist.Common.{
  Bool-cases, List, Option, [], ap, arith, false, inl, inr, length, length-append, ltb, ltb→lt,
  lt→ltb, none, refl, some, string_eq, suc, true, zero, ℕ, ◌++◌, ◌-◌, ◌/◌, ◌∙◌, ◌∷◌, ◌≡◌, ◌≢◌, ◌≤◌,
}
use counter_terrorist.Merkle.Levels.{length-pair_up, levels-upper, upper}
use mathlib.Core.List.{append-nil}
use text.Mathlib.TextEquality.{eq_iff}
use counter_terrorist.Merkle.{
  hash_pair, pair_up, levels, parent, climb, grow, array_store, add_leaf, build_tree, get_root,
  is_empty, replace_leaves,
}

-- What a level held at the place that a new entry takes: nothing, or the entry that it replaces.
abbrev entry : Option String → List String
entry none = []
entry (some w) = w ∷ []

module _ (sha256_hex : String → String) where
  parent_shift :
      (x y : String) (level : List String) (i : ℕ) (v : String)
      → parent sha256_hex (x ∷ y ∷ level) (suc (suc i)) v ≡ parent sha256_hex level i v
  unfolding parent
  parent_shift x y level zero v = refl
  parent_shift x y level (suc i) v = ground arith

  array_store_shift :
      (x : String) (level : List String) (i : ℕ) (v : String)
      → array_store (x ∷ level) (suc (suc i) / 2) v ≡ x ∷ array_store level (i / 2) v
  unfolding array_store
  array_store_shift x level i v = let e : suc (suc i) / 2 ≡ suc (i / 2) = omega arith in rw e

  -- The next level of a level whose last entry is new: the same but for its own last entry.
  record Step (zs : List String) (o : Option String) (v : String) : Type 0 where
    kept : List String
    old : Option String
    size : length kept ≡ length zs / 2
    before : pair_up sha256_hex (zs ++ entry o) ≡ kept ++ entry old
    after :
        pair_up sha256_hex (zs ++ v ∷ [])
        ≡ kept ++ parent sha256_hex (zs ++ v ∷ []) (length zs) v ∷ []
    stored :
        array_store
          (kept ++ entry old)
          (length zs / 2)
          (parent sha256_hex (zs ++ v ∷ []) (length zs) v)
        ≡ kept ++ parent sha256_hex (zs ++ v ∷ []) (length zs) v ∷ []

  step : (zs : List String) (o : Option String) (v : String) → Step zs o v
  unfolding pair_up parent array_store
  step [] none v = record {
    kept = [];
    old = none;
    size = refl;
    before = refl;
    after = refl;
    stored = refl;
  }
  step [] (some w) v = record {
    kept = [];
    old = some (hash_pair sha256_hex w w);
    size = refl;
    before = refl;
    after = refl;
    stored = refl;
  }
  step (z ∷ []) none v = record {
    kept = [];
    old = some (hash_pair sha256_hex z z);
    size = refl;
    before = refl;
    after = refl;
    stored = refl;
  }
  step (z ∷ []) (some w) v = record {
    kept = [];
    old = some (hash_pair sha256_hex z w);
    size = refl;
    before = refl;
    after = refl;
    stored = refl;
  }
  step (x ∷ y ∷ zs) o v =
      let s = step zs o v in
      record {
        kept = hash_pair sha256_hex x y ∷ s.kept;
        old = s.old;
        size = omega (arith, s.size);
        before = ap (λ t. hash_pair sha256_hex x y ∷ t) s.before;
        after = rw parent_shift (ap (λ t. hash_pair sha256_hex x y ∷ t) s.after);
        stored =
            rw (parent_shift, array_store_shift) (ap (λ t. hash_pair sha256_hex x y ∷ t) s.stored);
      }

  grow-climb_cons :
      (level next : List String) (rest : List (List String)) (i : ℕ) (v : String)
      → grow sha256_hex (level ∷ climb sha256_hex (next ∷ rest) i v)
        ≡ level ∷ grow sha256_hex (climb sha256_hex (next ∷ rest) i v)
  unfolding grow climb
  grow-climb_cons level next [] i v = refl
  grow-climb_cons level next (_ ∷ _) i v = refl

  -- Below the root level: one round of the loop, for a level of two entries or more.
  climb_round :
      (fuel : ℕ) (zs : List String) (o : Option String) (v : String)
      → ltb 1 (length (zs ++ entry o)) ≡ true
      → (s : Step zs o v)
      → grow sha256_hex (
          climb sha256_hex
            ((zs ++ v ∷ []) ∷ upper sha256_hex (suc fuel) (zs ++ entry o))
            (length zs)
            v)
        ≡ (zs ++ v ∷ [])
          ∷ grow sha256_hex (
              climb sha256_hex
                ((s.kept ++ parent sha256_hex (zs ++ v ∷ []) (length zs) v ∷ [])
                  ∷ upper sha256_hex fuel (s.kept ++ entry s.old))
                (length zs / 2)
                (parent sha256_hex (zs ++ v ∷ []) (length zs) v))
  unfolding upper climb
  climb_round fuel zs o v big s =
      rw (big, s.before, levels-upper, s.stored) (grow-climb_cons _ _ _ (length zs / 2) _)

  length-entry_le : (zs : List String) (o : Option String) → length zs ≤ length (zs ++ entry o)
  length-entry_le zs o = omega (arith, length-append {0} zs (entry o))

  -- A level of at most one old entry: the new entry stands alone, or beside it under a new root.
  grow_small :
      (fuel : ℕ) (zs : List String) (o : Option String) (v : String)
      → ltb 1 (length (zs ++ entry o)) ≡ false
      → grow sha256_hex
          (climb sha256_hex ((zs ++ v ∷ []) ∷ upper sha256_hex fuel (zs ++ entry o)) (length zs) v)
        ≡ levels sha256_hex (suc fuel) (zs ++ v ∷ [])
  unfolding upper climb grow levels pair_up
  grow_small zero [] o v small = refl
  grow_small zero (z ∷ []) o v small = refl
  grow_small (suc fuel) [] none v small = refl
  grow_small (suc fuel) [] (some w) v small = refl
  grow_small (suc fuel) (z ∷ []) none v small = refl
  grow_small (suc fuel) (z ∷ []) (some w) v small = cc
  grow_small zero (x ∷ y ∷ zs) o v small = absurd (ground arith)
  grow_small (suc fuel) (x ∷ y ∷ zs) o v small = absurd (ground arith)

  grow-climb :
      (fuel : ℕ) (zs : List String) (o : Option String) (v : String)
      → length (zs ++ entry o) ≤ suc fuel
      → grow sha256_hex
          (climb sha256_hex ((zs ++ v ∷ []) ∷ upper sha256_hex fuel (zs ++ entry o)) (length zs) v)
        ≡ levels sha256_hex (suc fuel) (zs ++ v ∷ [])
  unfolding levels
  grow-climb zero zs o v h = grow_small zero zs o v (ground arith)
  grow-climb (suc fuel) zs o v h = elim (Bool-cases (ltb 1 (length (zs ++ entry o)))) [
    | inr small ↦ grow_small (suc fuel) zs o v small
    | inl big ↦
        let s = step zs o v in
        let p = parent sha256_hex (zs ++ v ∷ []) (length zs) v in
        let fits : length (s.kept ++ entry s.old) ≤ suc fuel =
          rw (← s.before) (omega (arith, length-pair_up sha256_hex (zs ++ entry o))) in
        let grown : ltb 1 (length (zs ++ v ∷ [])) ≡ true = lt→ltb _ _ (
          omega (
            arith,
            length-append {0} zs (v ∷ []),
            ltb→lt _ _ big,
            length-one o,
            length-append {0} zs (entry o),
          )) in
        climb_round fuel zs o v big s
        ∙ rw (← s.size) (rw (grow-climb fuel s.kept s.old p fits) (rw (← s.after) (rw grown refl)))
  ]
    where
      length-one : (o : Option String) → length (entry o) ≤ 1
      length-one none = omega arith
      length-one (some w) = omega arith

  -- The loop and the new root level of `addLeaf`, on the levels of a built tree.
  grow-levels :
      (x : String) (xs : List String) (leaf : String)
      → grow sha256_hex (
          climb sha256_hex
            (replace_leaves sha256_hex
              (levels sha256_hex (length (x ∷ xs)) (x ∷ xs))
              (x ∷ xs ++ leaf ∷ []))
            (length (x ∷ xs ++ leaf ∷ []) - 1)
            leaf)
        ≡ levels sha256_hex (length (x ∷ xs ++ leaf ∷ [])) (x ∷ xs ++ leaf ∷ [])
  unfolding replace_leaves
  grow-levels x xs leaf =
      let old : length (x ∷ xs ++ leaf ∷ []) - 1 ≡ length (x ∷ xs) =
        omega (arith, length-append {0} xs (leaf ∷ [])) in
      let new : length (x ∷ xs ++ leaf ∷ []) ≡ suc (length (x ∷ xs)) =
        omega (arith, length-append {0} xs (leaf ∷ [])) in
      let enough : length (x ∷ xs ++ []) ≤ suc (length (x ∷ xs)) = rw append-nil (omega arith) in
      rw (levels-upper sha256_hex (length (x ∷ xs)) (x ∷ xs), old, new)
        (rw append-nil at (grow-climb (length (x ∷ xs)) (x ∷ xs) none leaf enough))

  is_empty-levels :
      (x : String) (xs : List String)
      → x ≢ "EMPTY"
      → is_empty sha256_hex (levels sha256_hex (length (x ∷ xs)) (x ∷ xs)) ≡ false
  unfolding is_empty
  is_empty-levels x xs h = rw levels-upper (ground (arith, eq_iff x "EMPTY"))

  -- A leaf that is added to the empty tree gives the tree of that leaf, and is what the code returns. Added
  -- to a tree that is built from leaves, the first of which is not the text "EMPTY" by which the code knows
  -- the empty tree, it gives the tree that is built from all the leaves, and the root of that tree.
  pub add_leaf-build_tree :
      (x : String) (xs : List String) (leaf : String)
      → x ≢ "EMPTY"
      → (add_leaf sha256_hex (build_tree sha256_hex []) leaf
          ≡ (build_tree sha256_hex (leaf ∷ []), leaf))
        × (add_leaf sha256_hex (build_tree sha256_hex (x ∷ xs)) leaf ≡ (
          build_tree sha256_hex (x ∷ xs ++ leaf ∷ []),
          get_root (build_tree sha256_hex (x ∷ xs ++ leaf ∷ [])),
        ))
  unfolding add_leaf build_tree levels is_empty
  add_leaf-build_tree x xs leaf h = (refl, rw (is_empty-levels x xs h, grow-levels x xs leaf))
