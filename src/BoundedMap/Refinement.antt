-- ===== src/BoundedMap/Refinement.antt =====
-- A `BoundedMap` does what the map in the order of the last use does.
use Prim.Native.String.{String}
use counter_terrorist.Common.{
  Bool, List, Map, Option-cases, [], ap, false, if◌then◌else◌, inl, inr, leb, length, map_get, none,
  refl, some, string_eq, subst, sym, true, ℕ, ◌++◌, ◌∙◌, ◌∷◌, ◌≡◌,
}
use counter_terrorist.BoundedMap.{
  BoundedMap, evict, insert_new, new_map, set_at, set_value, write_value, delete_at, delete_value,
  get_at, get_value, value_of,
}
use counter_terrorist.BoundedMap.Segments.{Cell}
use counter_terrorist.BoundedMap.Cells.{
  pairs, KeysApart-without, Lacks, length-pairs, pairs-delete, pairs-there, refs-pairs-none,
  refs-split,
}
use counter_terrorist.BoundedMap.Lru.{
  lru_set, lru_get, lru_delete, drop_last, lru_set_at, lru_delete_at, lru_get_at,
}
use counter_terrorist.BoundedMap.Kept.{IsMap, move_to_head-IsMap, remove_key-IsMap}
use counter_terrorist.BoundedMap.Writes.{insert_new-IsMap, write_value-IsMap}
use counter_terrorist.BoundedMap.Evict.{evict-IsMap}

module _ {V : Type 0} where
  -- The nodes and the cache of `m` stand for the entries `l`, first the one that was used last.
  abbrev pub Represents : ℕ → BoundedMap V → Map V → Type 0
  Represents capacity m l = (cs : List (Cell V)) × IsMap capacity m cs × (pairs cs ≡ l)

  pub new_map-Represents : (capacity : ℕ) → Represents capacity (new_map capacity) []
  unfolding new_map
  new_map-Represents capacity = (
    [],
    record {
      listed = record { at_head = refl; at_tail = refl; linked = tt; apart = tt };
      below = tt;
      keys_apart = tt;
      found = λ k. refl;
      distinct = tt;
      counted = refl;
      bounded_by = refl;
    },
    refl,
  )

  -- The cell of a key that the cache has.
  cell_of :
      (capacity a : ℕ) (k : String) (cs : List (Cell V)) (m : BoundedMap V)
      → IsMap capacity m cs
      → map_get k m.cache ≡ some a
      → (xs : List (Cell V)) × (v : V) × (ys : List (Cell V)) × IsMap capacity m
          (xs ++ (a, k, v) ∷ ys)
        × Lacks k xs
        × (cs ≡ xs ++ (a, k, v) ∷ ys)
  cell_of capacity a k cs m h there =
      let (xs, v, ys, whole) = refs-split k a cs (sym (h.found k) ∙ there) in
      let split = subst (λ l. IsMap capacity m l) whole h in
      (xs, v, ys, split, (KeysApart-without (a, k, v) xs ys split.keys_apart).2, whole)

  set_new-Represents :
      (capacity : ℕ) (k : String) (v : V) (cs : List (Cell V)) (m : BoundedMap V)
      → IsMap capacity m cs
      → Lacks k cs
      → Represents capacity (set_at none k v m) (lru_set_at none capacity k v (pairs cs))
  unfolding set_at lru_set_at
  set_new-Represents capacity k v cs m h lacks =
      let room = leb m.max_capacity (length m.cache) in
      let same : room ≡ leb capacity (length (pairs cs)) =
        ap (λ n. leb n (length m.cache)) h.bounded_by
        ∙ ap (λ n. leb capacity n) (h.counted ∙ sym (length-pairs cs)) in
      subst
        (λ b.
          Represents capacity (insert_new k v (if room then evict m else m))
            ((k, v) ∷ (if b then drop_last (pairs cs) else pairs cs)))
        same (inserted room)
    where
      inserted :
          (full : Bool)
          → Represents capacity
              (insert_new k v (if full then evict m else m))
              ((k, v) ∷ (if full then drop_last (pairs cs) else pairs cs))
      inserted false = ((m.fresh, k, v) ∷ cs, insert_new-IsMap capacity k v cs m lacks h, refl)
      inserted true =
          let (ds, left, lacks_left, dropped) = evict-IsMap capacity k cs m lacks h in
          (
            ((evict m).fresh, k, v) ∷ ds,
            insert_new-IsMap capacity k v ds (evict m) lacks_left left,
            ap (λ l. (k, v) ∷ l) dropped,
          )

  set_old-Represents :
      (capacity a : ℕ) (k : String) (v w : V) (xs ys : List (Cell V)) (m : BoundedMap V)
      → IsMap capacity m (xs ++ (a, k, v) ∷ ys)
      → Lacks k xs
      → Represents capacity
          (set_at (some a) k w m)
          (lru_set capacity k w (pairs (xs ++ (a, k, v) ∷ ys)))
  unfolding set_at lru_set lru_set_at
  set_old-Represents capacity a k v w xs ys m h front =
      let there = pairs-there (a, k, v) xs ys front in
      let gone = pairs-delete (a, k, v) xs ys front in
      (
        (a, k, w) ∷ xs ++ ys,
        move_to_head-IsMap capacity xs ys (a, k, w) (write_value a w m)
            (write_value-IsMap capacity a k v w xs ys m h),
        sym (
            ap (λ o. lru_set_at o capacity k w (pairs (xs ++ (a, k, v) ∷ ys))) there
            ∙ ap (λ l. (k, w) ∷ l) gone),
      )

  -- `set` on the nodes does what it does on the entries in the order of their last use: the key comes
  -- first with its value, and a new key, where the capacity is reached, displaces the last entry.
  pub set_value-Represents :
      (capacity : ℕ) (k : String) (v : V) (m : BoundedMap V) (l : Map V)
      → Represents capacity m l
      → Represents capacity (set_value k v m) (lru_set capacity k v l)
  unfolding set_value lru_set
  set_value-Represents capacity k v m l (cs, h, same) = elim (Option-cases (map_get k m.cache)) [
    | inl fresh ↦
        let lacks = sym (h.found k) ∙ fresh in
        let absent = ap (map_get k) (sym same) ∙ refs-pairs-none k cs lacks in
        subst (λ t. Represents capacity t (lru_set capacity k v l))
          (sym (ap (λ o. set_at o k v m) fresh))
          (subst (λ e. Represents capacity (set_at none k v m) e)
            (ap (lru_set_at none capacity k v) same
              ∙ sym (ap (λ o. lru_set_at o capacity k v l) absent))
            (set_new-Represents capacity k v cs m h lacks))
    | inr (a, there) ↦
        let (xs, w, ys, split, front, whole) = cell_of capacity a k cs m h there in
        subst (λ t. Represents capacity t (lru_set capacity k v l))
          (sym (ap (λ o. set_at o k v m) there))
          (subst (λ e. Represents capacity (set_at (some a) k v m) (lru_set capacity k v e))
            (ap pairs (sym whole) ∙ same) (set_old-Represents capacity a k w v xs ys m split front))
  ]

  -- The same result on the nodes and on the entries, and states that go on corresponding.
  abbrev pub Agrees : {R : Type 0} → ℕ → BoundedMap V × R → Map V × R → Type 0
  Agrees capacity (m, r) (l, q) = Represents capacity m l × (r ≡ q)

  get_old-Agrees :
      (capacity a : ℕ) (k : String) (v : V) (xs ys : List (Cell V)) (m : BoundedMap V)
      → IsMap capacity m (xs ++ (a, k, v) ∷ ys)
      → Lacks k xs
      → Agrees capacity (get_at (some a) m) (lru_get_at (some v) k (pairs (xs ++ (a, k, v) ∷ ys)))
  unfolding get_at lru_get_at value_of
  get_old-Agrees capacity a k v xs ys m h front =
      let moved = move_to_head-IsMap capacity xs ys (a, k, v) m h in
      let gone = pairs-delete (a, k, v) xs ys front in
      (
        ((a, k, v) ∷ xs ++ ys, moved, ap (λ l. (k, v) ∷ l) (sym gone)),
        ap value_of moved.listed.linked.0,
      )

  -- `get` returns the value of the key, if it is there, and makes its entry the first.
  pub get_value-Agrees :
      (capacity : ℕ) (k : String) (m : BoundedMap V) (l : Map V)
      → Represents capacity m l
      → Agrees capacity (get_value k m) (lru_get k l)
  unfolding get_value lru_get get_at lru_get_at
  get_value-Agrees capacity k m l (cs, h, same) = elim (Option-cases (map_get k m.cache)) [
    | inl fresh ↦
        let lacks = sym (h.found k) ∙ fresh in
        let absent = ap (map_get k) (sym same) ∙ refs-pairs-none k cs lacks in
        subst (λ r. Agrees capacity r (lru_get_at (map_get k l) k l))
          (sym (ap (λ o. get_at o m) fresh))
          (subst (λ r. Agrees capacity (m, none) r) (sym (ap (λ o. lru_get_at o k l) absent))
            ((cs, h, same), refl))
    | inr (a, there) ↦
        let (xs, v, ys, split, front, whole) = cell_of capacity a k cs m h there in
        let entries = ap pairs (sym whole) ∙ same in
        let found = pairs-there (a, k, v) xs ys front in
        subst (λ r. Agrees capacity r (lru_get k l)) (sym (ap (λ o. get_at o m) there))
          (subst (λ e. Agrees capacity (get_at (some a) m) (lru_get k e)) entries
            (subst
              (λ o.
                Agrees capacity (get_at (some a) m) (lru_get_at o k (pairs (xs ++ (a, k, v) ∷ ys))))
              (sym found) (get_old-Agrees capacity a k v xs ys m split front)))
  ]

  delete_old-Agrees :
      (capacity a : ℕ) (k : String) (v : V) (xs ys : List (Cell V)) (m : BoundedMap V)
      → IsMap capacity m (xs ++ (a, k, v) ∷ ys)
      → Lacks k xs
      → Agrees capacity
          (delete_at (some a) k m)
          (lru_delete_at (some v) k (pairs (xs ++ (a, k, v) ∷ ys)))
  unfolding delete_at lru_delete_at
  delete_old-Agrees capacity a k v xs ys m h front = (
    (
      xs ++ ys,
      remove_key-IsMap capacity xs ys (a, k, v) m h,
      sym (pairs-delete (a, k, v) xs ys front),
    ),
    refl,
  )

  -- `delete` removes the entry of the key and says whether there was one.
  pub delete_value-Agrees :
      (capacity : ℕ) (k : String) (m : BoundedMap V) (l : Map V)
      → Represents capacity m l
      → Agrees capacity (delete_value k m) (lru_delete k l)
  unfolding delete_value lru_delete delete_at lru_delete_at
  delete_value-Agrees capacity k m l (cs, h, same) = elim (Option-cases (map_get k m.cache)) [
    | inl fresh ↦
        let lacks = sym (h.found k) ∙ fresh in
        let absent = ap (map_get k) (sym same) ∙ refs-pairs-none k cs lacks in
        subst (λ r. Agrees capacity r (lru_delete_at (map_get k l) k l))
          (sym (ap (λ o. delete_at o k m) fresh))
          (subst (λ r. Agrees capacity (m, false) r) (sym (ap (λ o. lru_delete_at o k l) absent))
            ((cs, h, same), refl))
    | inr (a, there) ↦
        let (xs, v, ys, split, front, whole) = cell_of capacity a k cs m h there in
        let entries = ap pairs (sym whole) ∙ same in
        let found = pairs-there (a, k, v) xs ys front in
        subst (λ r. Agrees capacity r (lru_delete k l)) (sym (ap (λ o. delete_at o k m) there))
          (subst (λ e. Agrees capacity (delete_at (some a) k m) (lru_delete k e)) entries
            (subst
              (λ o.
                Agrees capacity (delete_at (some a) k m)
                  (lru_delete_at o k (pairs (xs ++ (a, k, v) ∷ ys))))
              (sym found) (delete_old-Agrees capacity a k v xs ys m split front)))
  ]
