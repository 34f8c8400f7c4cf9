-- ===== src/BoundedMap/Writes.antt =====
-- New nodes, new values and the eviction of a `BoundedMap` keep its invariant.
use Prim.Native.String.{String}
use counter_terrorist.Common.{
  ===_cases, All-append, All-append_left, All-append_right, List, Option, [], ap, arith, inl, inr,
  map_get, map_get-map_set, map_get-map_set_other, map_set, none, refl, some, string_eq, subst, suc,
  sym, ℕ, ◌++◌, ◌<◌, ◌∙◌, ◌∷◌, ◌≡◌,
}
use counter_terrorist.BoundedMap.{
  Node, BoundedMap, add_to_head, allocate, insert_new, update_node, write_node, write_value,
}
use counter_terrorist.BoundedMap.Segments.{
  Cell, IsLinked, Avoids, IsLinked-frame, IsLinked-join, IsLinked-split, SameAt, first_ref,
  last_ref, update-other, update-same, write_node-other, write_node-same,
}
use counter_terrorist.BoundedMap.Steps.{
  IsListed, ApartFrom-sym, IsApart-join, IsApart-split, last_ref-append,
}
use counter_terrorist.BoundedMap.Cells.{refs, KeysApart, Lacks, refs-there, refs-without}
use counter_terrorist.BoundedMap.Keys.{length-map_set, map_set-IsDistinct}
use counter_terrorist.BoundedMap.Moves.{add_to_head-IsListed}
use counter_terrorist.BoundedMap.Kept.{IsMap, IsBelow, IsBelow-middle, length-middle}

module _ {V : Type 0} where
  below-Avoids : (n : ℕ) (cs : List (Cell V)) → IsBelow n cs → Avoids n cs
  below-Avoids n [] h = tt
  below-Avoids n (c ∷ cs) (low, h) = (λ e. absurd (omega (arith, low, e)), below-Avoids n cs h)

  IsBelow-suc : (n : ℕ) (cs : List (Cell V)) → IsBelow n cs → IsBelow (suc n) cs
  IsBelow-suc n [] h = tt
  IsBelow-suc n (c ∷ cs) (low, h) = (omega (arith, low), IsBelow-suc n cs h)

  allocated_same :
      (n : ℕ) (node : Node V) (nodes : ℕ → Option (Node V)) (cs : List (Cell V))
      → Avoids n cs
      → SameAt nodes (write_node n node nodes) cs
  allocated_same n node nodes [] away = tt
  allocated_same n node nodes (c ∷ cs) (here, away) =
      (write_node-other n c.0 node nodes (λ e. here (sym e)), allocated_same n node nodes cs away)

  -- A new key comes to the head, with a node of its own.
  pub insert_new-IsMap :
      (capacity : ℕ) (k : String) (v : V) (cs : List (Cell V)) (m : BoundedMap V)
      → Lacks k cs
      → IsMap capacity m cs
      → IsMap capacity (insert_new k v m) ((m.fresh, k, v) ∷ cs)
  unfolding insert_new allocate add_to_head
  insert_new-IsMap capacity k v cs m lacks h =
      let away = below-Avoids m.fresh cs h.below in
      let node : Node V = record { key = k; value = v; prev = none; next = none } in
      let listed = h.listed in
      record {
        listed =
            add_to_head-IsListed (m.fresh, k, v) none none cs (allocate k v m)
              (write_node-same m.fresh node m.nodes) away
              (record {
                at_head = listed.at_head;
                at_tail = listed.at_tail;
                linked =
                    IsLinked-frame m.nodes (write_node m.fresh node m.nodes) none none cs
                      (allocated_same m.fresh node m.nodes cs away) listed.linked;
                apart = listed.apart;
              });
        below = (omega arith, IsBelow-suc m.fresh cs h.below);
        keys_apart = (lacks, h.keys_apart);
        found = λ j. added j;
        distinct = map_set-IsDistinct k m.fresh m.cache h.distinct;
        counted = length-map_set k m.fresh m.cache (h.found k ∙ lacks) ∙ ap suc h.counted;
        bounded_by = h.bounded_by;
      }
    where
      added :
          (j : String)
          → map_get j (map_set k m.fresh m.cache) ≡ map_get j (refs ((m.fresh, k, v) ∷ cs))
      added j = elim (===_cases k j) [
        | inl e ↦
            subst
              (λ j. map_get j (map_set k m.fresh m.cache) ≡ map_get j (refs ((m.fresh, k, v) ∷ cs)))
              e (map_get-map_set k m.fresh m.cache ∙ sym (refs-there (m.fresh, k, v) [] cs refl))
        | inr other ↦
            map_get-map_set_other j k m.fresh m.cache other
            ∙ (h.found j ∙ refs-without j (m.fresh, k, v) [] cs other)
      ]

  -- The value of a cell is replaced.
  replaced_refs :
      (a : ℕ) (k : String) (v w : V) (xs ys : List (Cell V))
      → refs (xs ++ (a, k, v) ∷ ys) ≡ refs (xs ++ (a, k, w) ∷ ys)
  replaced_refs a k v w [] ys = refl
  replaced_refs a k v w (x ∷ xs) ys = ap (λ l. (x.1, x.0) ∷ l) (replaced_refs a k v w xs ys)

  replaced_keys :
      (a : ℕ) (k : String) (v w : V) (xs ys : List (Cell V))
      → KeysApart (xs ++ (a, k, v) ∷ ys)
      → KeysApart (xs ++ (a, k, w) ∷ ys)
  replaced_keys a k v w [] ys h = h
  replaced_keys a k v w (x ∷ xs) ys (lacks, h) = (
    subst (λ l. map_get x.1 l ≡ none) (replaced_refs a k v w xs ys) lacks,
    replaced_keys a k v w xs ys h,
  )

  updated_same :
      (a : ℕ) (v : V) (nodes : ℕ → Option (Node V)) (cs : List (Cell V))
      → Avoids a cs
      → SameAt nodes (update_node a (λ (node : Node V). record node { value = v }) nodes) cs
  updated_same a v nodes [] away = tt
  updated_same a v nodes (c ∷ cs) (here, away) = (
    update-other a c.0 (λ (node : Node V). record node { value = v }) nodes (λ e. here (sym e)),
    updated_same a v nodes cs away,
  )

  write_value-IsListed :
      (a : ℕ) (k : String) (v w : V) (xs ys : List (Cell V)) (m : BoundedMap V)
      → IsListed m (xs ++ (a, k, v) ∷ ys)
      → IsListed (write_value a w m) (xs ++ (a, k, w) ∷ ys)
  unfolding write_value
  write_value-IsListed a k v w xs ys m h =
      let (left, node, right) = split in
      let (apart_left, apart_right, between) = IsApart-split xs ((a, k, v) ∷ ys) h.apart in
      let change = λ (node : Node V). record node { value = w } in
      let nodes = update_node a change m.nodes in
      let front : Avoids a xs = (ApartFrom-sym xs ((a, k, v) ∷ ys) between).0 in
      record {
        at_head = h.at_head ∙ same_head xs;
        at_tail =
            h.at_tail
            ∙ (last_ref-append xs ((a, k, v) ∷ ys) none
                ∙ sym (last_ref-append xs ((a, k, w) ∷ ys) none));
        linked =
            IsLinked-join nodes none none xs ((a, k, w) ∷ ys)
              (IsLinked-frame m.nodes nodes none (some a) xs (updated_same a w m.nodes xs front)
                left)
              (
                update-same a change m.nodes
                    (record {
                      key = k;
                      value = v;
                      prev = last_ref xs none;
                      next = first_ref ys none;
                    })
                    node,
                IsLinked-frame m.nodes nodes (some a) none ys
                    (updated_same a w m.nodes ys apart_right.0) right,
              );
        apart = IsApart-join xs ((a, k, w) ∷ ys) apart_left apart_right between;
      }
    where
      split :
          IsLinked m.nodes none (some a) xs
          × (m.nodes a
              ≡ some (record {
                key = k;
                value = v;
                prev = last_ref xs none;
                next = first_ref ys none;
              }))
          × IsLinked m.nodes (some a) none ys
      split =
          let (left, right) = IsLinked-split m.nodes none none xs ((a, k, v) ∷ ys) h.linked in
          (left, right.0, right.1)

      same_head :
          (xs : List (Cell V))
          → first_ref (xs ++ (a, k, v) ∷ ys) none ≡ first_ref (xs ++ (a, k, w) ∷ ys) none
      same_head [] = refl
      same_head (x ∷ xs) = refl

  pub write_value-IsMap :
      (capacity a : ℕ) (k : String) (v w : V) (xs ys : List (Cell V)) (m : BoundedMap V)
      → IsMap capacity m (xs ++ (a, k, v) ∷ ys)
      → IsMap capacity (write_value a w m) (xs ++ (a, k, w) ∷ ys)
  unfolding write_value
  write_value-IsMap capacity a k v w xs ys m h =
      let (low, all_low) = IsBelow-middle m.fresh xs ys (a, k, v) h.below in
      record {
        listed = write_value-IsListed a k v w xs ys m h.listed;
        below =
            All-append (λ d. d.0 < m.fresh) xs ((a, k, w) ∷ ys)
              (All-append_left (λ d. d.0 < m.fresh) xs ys all_low)
              (low, All-append_right (λ d. d.0 < m.fresh) xs ys all_low);
        keys_apart = replaced_keys a k v w xs ys h.keys_apart;
        found = λ j. h.found j ∙ ap (λ l. map_get j l) (replaced_refs a k v w xs ys);
        distinct = h.distinct;
        counted = h.counted ∙ (length-middle xs ys (a, k, v) ∙ sym (length-middle xs ys (a, k, w)));
        bounded_by = h.bounded_by;
      }
