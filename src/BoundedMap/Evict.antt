-- ===== src/BoundedMap/Evict.antt =====
-- The eviction of a `BoundedMap` drops the last entry.
use Prim.Native.String.{String}
use counter_terrorist.Common.{
  List, Map, Option, [], ap, map_delete, none, refl, some, string_eq, subst, sym, ℕ, ◌++◌, ◌∙◌, ◌∷◌,
  ◌≡◌,
}
use counter_terrorist.BoundedMap.{
  Node, Ref, BoundedMap, evict, evict_from, forget_key, remove_node, unlink, unlink_node,
}
use counter_terrorist.BoundedMap.Segments.{Cell}
use counter_terrorist.BoundedMap.Steps.{last_ref-append}
use counter_terrorist.BoundedMap.Cells.{pairs, Lacks, Lacks-apart, refs-without}
use counter_terrorist.BoundedMap.Moves.{cell_node}
use counter_terrorist.BoundedMap.Lru.{drop_last}
use counter_terrorist.BoundedMap.Kept.{IsMap, remove_key-IsMap}

module _ {V : Type 0} where
  with_cache : Map ℕ → BoundedMap V → BoundedMap V
  with_cache cache m = record m { cache = cache }

  unlink-cache :
      (p n : Ref) (cache : Map ℕ) (m : BoundedMap V)
      → unlink p n (record m { cache = cache }) ≡ record (unlink p n m) { cache = cache }
  unfolding unlink
  unlink-cache none none cache m = refl
  unlink-cache none (some n) cache m = refl
  unlink-cache (some p) none cache m = refl
  unlink-cache (some p) (some n) cache m = refl

  unlink_node-cache :
      (o : Option (Node V)) (cache : Map ℕ) (m : BoundedMap V)
      → unlink_node o (record m { cache = cache }) ≡ record (unlink_node o m) { cache = cache }
  unfolding unlink_node
  unlink_node-cache none cache m = refl
  unlink_node-cache (some node) cache m = unlink-cache node.prev node.next cache m

  drop_last-pairs :
      (xs : List (Cell V)) (c : Cell V) → drop_last (pairs (xs ++ c ∷ [])) ≡ pairs (xs ++ [])
  unfolding drop_last
  drop_last-pairs [] c = refl
  drop_last-pairs (x ∷ []) c = refl
  drop_last-pairs (x ∷ y ∷ xs) c = ap (λ l. (x.1, x.2) ∷ l) (drop_last-pairs (y ∷ xs) c)

  last_cell :
      (c : Cell V) (cs : List (Cell V))
      → (xs : List (Cell V)) × (d : Cell V) × (c ∷ cs ≡ xs ++ d ∷ [])
  last_cell c [] = ([], c, refl)
  last_cell c (d ∷ cs) = let (xs, e, whole) = last_cell d cs in (c ∷ xs, e, ap (λ l. c ∷ l) whole)

  evict_last :
      (capacity : ℕ) (xs : List (Cell V)) (c : Cell V) (m : BoundedMap V)
      → IsMap capacity m (xs ++ c ∷ [])
      → evict m ≡ record (remove_node c.0 m) { cache = map_delete c.1 m.cache }
  unfolding evict evict_from forget_key remove_node
  evict_last capacity xs c m h =
      let tail = h.listed.at_tail ∙ last_ref-append xs (c ∷ []) none in
      ap (λ r. evict_from r m) tail
      ∙ (ap (λ o. remove_node c.0 (forget_key o m)) (cell_node xs [] c m h.listed)
          ∙ unlink_node-cache (m.nodes c.0) (map_delete c.1 m.cache) m)

  -- What is left after an eviction, for a key that was not there.
  pub evict-IsMap :
      (capacity : ℕ) (k : String) (cs : List (Cell V)) (m : BoundedMap V)
      → Lacks k cs
      → IsMap capacity m cs
      → (ds : List (Cell V)) × IsMap capacity (evict m) ds
        × Lacks k ds
        × (pairs ds ≡ drop_last (pairs cs))
  unfolding evict evict_from drop_last
  evict-IsMap capacity k [] m lacks h = (
    [],
    subst (λ t. IsMap capacity t []) (sym (ap (λ r. evict_from r m) h.listed.at_tail)) h,
    refl,
    refl,
  )
  evict-IsMap capacity k (c ∷ cs) m lacks h =
      let (xs, d, whole) = last_cell c cs in
      let h_split = subst (λ l. IsMap capacity m l) whole h in
      let lacks_split = subst (λ l. Lacks k l) whole lacks in
      (
        xs ++ [],
        subst (λ t. IsMap capacity t (xs ++ [])) (sym (evict_last capacity xs d m h_split))
            (remove_key-IsMap capacity xs [] d m h_split),
        refs-without k d xs [] (Lacks-apart k d xs [] lacks_split) ∙ lacks_split,
        sym (ap (λ l. drop_last (pairs l)) whole ∙ drop_last-pairs xs d),
      )
