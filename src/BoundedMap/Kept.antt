-- ===== src/BoundedMap/Kept.antt =====
-- The invariant of a `BoundedMap`: its list, its nodes' numbers and its cache agree.
use Prim.Native.String.{String}
use counter_terrorist.Common.{
  ===_cases, All, All-append, All-append_left, All-append_right, IsDistinct, List, Map, Option, [],
  ap, arith, inl, inr, keys, length, length-append, map_delete, map_get, none, refl, some,
  string_eq, subst, suc, sym, ℕ, ◌++◌, ◌<◌, ◌∙◌, ◌∷◌, ◌≡◌,
}
use counter_terrorist.BoundedMap.{
  Node, Ref, BoundedMap, add_to_head, move_to_head, remove_node, unlink, unlink_node,
}
use counter_terrorist.BoundedMap.Segments.{Cell, IsLinked, first_ref, last_ref}
use counter_terrorist.BoundedMap.Steps.{IsListed}
use counter_terrorist.BoundedMap.Cells.{
  refs, KeysApart, KeysApart-without, Lacks, refs-there, refs-without,
}
use counter_terrorist.BoundedMap.Keys.{
  map_get-map_delete, length-map_delete, map_delete-IsDistinct, map_get-map_delete_other,
}
use counter_terrorist.BoundedMap.Moves.{removed_node, add_to_head-IsListed, remove_node-IsListed}

module _ {V : Type 0} where
  abbrev pub IsBelow : ℕ → List (Cell V) → Type 0
  IsBelow n cs = All (λ c. c.0 < n) cs

  pub record IsMap (capacity : ℕ) (m : BoundedMap V) (cs : List (Cell V)) : Type 0 where
    pub listed : IsListed m cs
    pub below : IsBelow m.fresh cs
    pub keys_apart : KeysApart cs
    pub found : (k : String) → map_get k m.cache ≡ map_get k (refs cs)
    pub distinct : IsDistinct (keys m.cache)
    pub counted : length m.cache ≡ length cs
    pub bounded_by : m.max_capacity ≡ capacity

  -- The fields that the operations on the list leave alone.
  abbrev pub others : BoundedMap V → ℕ × Map ℕ × ℕ
  others m = (m.fresh, m.cache, m.max_capacity)

  unlink-others : (p n : Ref) (m : BoundedMap V) → others (unlink p n m) ≡ others m
  unfolding unlink
  unlink-others none none m = refl
  unlink-others none (some n) m = refl
  unlink-others (some p) none m = refl
  unlink-others (some p) (some n) m = refl

  unlink_node-others :
      (o : Option (Node V)) (m : BoundedMap V) → others (unlink_node o m) ≡ others m
  unfolding unlink_node
  unlink_node-others none m = refl
  unlink_node-others (some node) m = unlink-others node.prev node.next m

  pub remove_node-others : (a : ℕ) (m : BoundedMap V) → others (remove_node a m) ≡ others m
  unfolding remove_node
  remove_node-others a m = unlink_node-others (m.nodes a) m

  pub length-middle :
      (xs ys : List (Cell V)) (c : Cell V) → length (xs ++ c ∷ ys) ≡ suc (length (xs ++ ys))
  length-middle xs ys c = omega (arith, length-append xs (c ∷ ys), length-append xs ys)

  pub IsBelow-middle :
      (n : ℕ) (xs ys : List (Cell V)) (c : Cell V)
      → IsBelow n (xs ++ c ∷ ys)
      → (c.0 < n) × IsBelow n (xs ++ ys)
  IsBelow-middle n xs ys c h =
      let left = All-append_left (λ d. d.0 < n) xs (c ∷ ys) h in
      let right = All-append_right (λ d. d.0 < n) xs (c ∷ ys) h in
      (right.0, All-append (λ d. d.0 < n) xs ys left right.1)

  -- A list whose cache is another one.
  pub IsListed-cache :
      (m t : BoundedMap V) (cs : List (Cell V))
      → t.nodes ≡ m.nodes
      → t.head ≡ m.head
      → t.tail ≡ m.tail
      → IsListed m cs
      → IsListed t cs
  IsListed-cache m t cs nodes head tail h = record {
    at_head = head ∙ h.at_head;
    at_tail = tail ∙ h.at_tail;
    linked = subst (λ x. IsLinked x none none cs) (sym nodes) h.linked;
    apart = h.apart;
  }

  -- A cell is moved to the head.
  pub move_to_head-IsMap :
      (capacity : ℕ) (xs ys : List (Cell V)) (c : Cell V) (m : BoundedMap V)
      → IsMap capacity m (xs ++ c ∷ ys)
      → IsMap capacity (move_to_head c.0 m) (c ∷ xs ++ ys)
  unfolding move_to_head add_to_head
  move_to_head-IsMap capacity xs ys c m h =
      let (away, node) = removed_node xs ys c m h.listed in
      let (apart, lacks, front) = KeysApart-without c xs ys h.keys_apart in
      let (low, all_low) = IsBelow-middle m.fresh xs ys c h.below in
      let same = remove_node-others c.0 m in
      let same_fresh = ap (λ (o : ℕ × Map ℕ × ℕ). o.0) same in
      let same_cache = ap (λ (o : ℕ × Map ℕ × ℕ). o.1) same in
      record {
        listed =
            add_to_head-IsListed c (last_ref xs none) (first_ref ys none) (xs ++ ys)
              (remove_node c.0 m) node away (remove_node-IsListed xs ys c m h.listed);
        below = subst (λ n. IsBelow n (c ∷ xs ++ ys)) (sym same_fresh) (low, all_low);
        keys_apart = (lacks, apart);
        found = λ k. ap (λ l. map_get k l) same_cache ∙ (h.found k ∙ moved k front);
        distinct = subst (λ l. IsDistinct (keys l)) (sym same_cache) h.distinct;
        counted = ap length same_cache ∙ (h.counted ∙ length-middle xs ys c);
        bounded_by = ap (λ (o : ℕ × Map ℕ × ℕ). o.2) same ∙ h.bounded_by;
      }
    where
      moved :
          (k : String)
          → Lacks c.1 xs
          → map_get k (refs (xs ++ c ∷ ys)) ≡ map_get k (refs (c ∷ xs ++ ys))
      moved k front = elim (===_cases c.1 k) [
        | inl e ↦
            subst (λ k. map_get k (refs (xs ++ c ∷ ys)) ≡ map_get k (refs (c ∷ xs ++ ys))) e
              (refs-there c xs ys front ∙ sym (refs-there c [] (xs ++ ys) refl))
        | inr other ↦ sym (refs-without k c xs ys other) ∙ refs-without k c [] (xs ++ ys) other
      ]

  -- A cell is taken out of the list and its key out of the cache.
  pub remove_key-IsMap :
      (capacity : ℕ) (xs ys : List (Cell V)) (c : Cell V) (m : BoundedMap V)
      → IsMap capacity m (xs ++ c ∷ ys)
      → IsMap capacity (record (remove_node c.0 m) { cache = map_delete c.1 m.cache }) (xs ++ ys)
  remove_key-IsMap capacity xs ys c m h =
      let (apart, lacks, front) = KeysApart-without c xs ys h.keys_apart in
      let (low, all_low) = IsBelow-middle m.fresh xs ys c h.below in
      let same = remove_node-others c.0 m in
      let there = h.found c.1 ∙ refs-there c xs ys front in
      record {
        listed =
            IsListed-cache (remove_node c.0 m)
              (record (remove_node c.0 m) { cache = map_delete c.1 m.cache }) (xs ++ ys) refl refl
              refl (remove_node-IsListed xs ys c m h.listed);
        below =
            subst (λ n. IsBelow n (xs ++ ys)) (sym (ap (λ (o : ℕ × Map ℕ × ℕ). o.0) same)) all_low;
        keys_apart = apart;
        found = λ k. without k lacks;
        distinct = map_delete-IsDistinct c.1 m.cache h.distinct;
        counted =
            omega
              (arith, length-map_delete c.1 c.0 m.cache there, h.counted, length-middle xs ys c);
        bounded_by = ap (λ (o : ℕ × Map ℕ × ℕ). o.2) same ∙ h.bounded_by;
      }
    where
      without :
          (k : String)
          → Lacks c.1 (xs ++ ys)
          → map_get k (map_delete c.1 m.cache) ≡ map_get k (refs (xs ++ ys))
      without k lacks = elim (===_cases c.1 k) [
        | inl e ↦
            subst (λ k. map_get k (map_delete c.1 m.cache) ≡ map_get k (refs (xs ++ ys))) e
              (map_get-map_delete c.1 m.cache h.distinct ∙ sym lacks)
        | inr other ↦
            map_get-map_delete_other k c.1 m.cache other
            ∙ (h.found k ∙ sym (refs-without k c xs ys other))
      ]
