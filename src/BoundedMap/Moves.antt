-- ===== src/BoundedMap/Moves.antt =====
-- The list of a `BoundedMap` after `removeNode` and `addToHead`.
use Prim.Native.String.{String}
use counter_terrorist.Common.{
  All-append, List, Option, [], ap, none, refl, some, string_eq, subst, sym, ℕ, ◌++◌, ◌∙◌, ◌∷◌, ◌≡◌,
  ◌≢◌,
}
use counter_terrorist.BoundedMap.{
  Node, Ref, BoundedMap, add_to_head, or_ref, remove_node, set_next, set_prev, set_prev_at, unlink,
  unlink_node, set_next_at,
}
use counter_terrorist.BoundedMap.Segments.{
  Cell, IsLinked, Avoids, IsLinked-frame, IsLinked-join, IsLinked-split, SameAt, first_ref,
  last_ref, set_prev_at-IsLinked, set_prev_at-other, update-same, update-other, set_next_at-other,
}
use counter_terrorist.BoundedMap.Steps.{
  IsListed, unlinked, ApartFrom, ApartFrom-sym, IsApart-join, IsApart-split, first_ref-Avoids,
  last_ref-append, left_of, right_of, unlink-nodes, end_ref-Avoids,
}

module _ {V : Type 0} where
  unlink-tail_none : (p : Ref) (m : BoundedMap V) → (unlink p none m).tail ≡ p
  unfolding unlink
  unlink-tail_none none m = refl
  unlink-tail_none (some p) m = refl

  unlink-tail_some : (p : Ref) (n : ℕ) (m : BoundedMap V) → (unlink p (some n) m).tail ≡ m.tail
  unfolding unlink
  unlink-tail_some none n m = refl
  unlink-tail_some (some p) n m = refl

  unlink-head_none : (n : Ref) (m : BoundedMap V) → (unlink none n m).head ≡ n
  unfolding unlink
  unlink-head_none none m = refl
  unlink-head_none (some n) m = refl

  unlink-head_some : (p : ℕ) (n : Ref) (m : BoundedMap V) → (unlink (some p) n m).head ≡ m.head
  unfolding unlink
  unlink-head_some p none m = refl
  unlink-head_some p (some n) m = refl

  pub last_ref-some : (cs : List (Cell V)) (a : ℕ) → (b : ℕ) × (last_ref cs (some a) ≡ some b)
  last_ref-some [] a = (a, refl)
  last_ref-some (c ∷ cs) a = last_ref-some cs c.0

  unlink-head :
      (xs ys : List (Cell V)) (c : Cell V) (m : BoundedMap V)
      → m.head ≡ first_ref (xs ++ c ∷ ys) none
      → (unlink (last_ref xs none) (first_ref ys none) m).head ≡ first_ref (xs ++ ys) none
  unlink-head [] ys c m h = unlink-head_none (first_ref ys none) m
  unlink-head (x ∷ xs) ys c m h =
      let (b, there) = last_ref-some xs x.0 in
      ap (λ p. (unlink p (first_ref ys none) m).head) there
      ∙ (unlink-head_some b (first_ref ys none) m ∙ h)

  unlink-tail :
      (xs ys : List (Cell V)) (c : Cell V) (m : BoundedMap V)
      → m.tail ≡ last_ref (xs ++ c ∷ ys) none
      → (unlink (last_ref xs none) (first_ref ys none) m).tail ≡ last_ref (xs ++ ys) none
  unlink-tail xs [] c m h = unlink-tail_none (last_ref xs none) m ∙ sym (last_ref-append xs [] none)
  unlink-tail xs (y ∷ ys) c m h =
      unlink-tail_some (last_ref xs none) y.0 m
      ∙ (h ∙ (last_ref-append xs (c ∷ y ∷ ys) none ∙ sym (last_ref-append xs (y ∷ ys) none)))

  -- A cell of the list is taken out of it.
  unlink-IsListed :
      (xs ys : List (Cell V)) (c : Cell V) (m : BoundedMap V)
      → IsListed m (xs ++ c ∷ ys)
      → IsListed (unlink (last_ref xs none) (first_ref ys none) m) (xs ++ ys)
  unlink-IsListed xs ys c m h =
      let (left, right) = IsLinked-split m.nodes none none xs (c ∷ ys) h.linked in
      let (apart_left, apart_right, between) = IsApart-split xs (c ∷ ys) h.apart in
      let between_ys = without c ys xs between in
      record {
        at_head = unlink-head xs ys c m h.at_head;
        at_tail = unlink-tail xs ys c m h.at_tail;
        linked =
            subst (λ nodes. IsLinked nodes none none (xs ++ ys))
              (sym (unlink-nodes (last_ref xs none) (first_ref ys none) m))
              (IsLinked-join (unlinked (last_ref xs none) (first_ref ys none) m.nodes) none none xs
                ys (left_of m.nodes (some c.0) xs ys apart_left between_ys left)
                (right_of m.nodes (some c.0) xs ys apart_right.1 (ApartFrom-sym xs ys between_ys)
                  right.1));
        apart = IsApart-join xs ys apart_left apart_right.1 between_ys;
      }
    where
      without : (c : Cell V) (ys zs : List (Cell V)) → ApartFrom zs (c ∷ ys) → ApartFrom zs ys
      without c ys [] h = tt
      without c ys (z ∷ zs) (away, h) = (away.1, without c ys zs h)

  -- The node of a cell in the middle.
  pub cell_node :
      (xs ys : List (Cell V)) (c : Cell V) (m : BoundedMap V)
      → IsListed m (xs ++ c ∷ ys)
      → m.nodes c.0
        ≡ some
            (record { key = c.1; value = c.2; prev = last_ref xs none; next = first_ref ys none })
  cell_node xs ys c m h = (IsLinked-split m.nodes none none xs (c ∷ ys) h.linked).1.0

  remove_node-unlink :
      (xs ys : List (Cell V)) (c : Cell V) (m : BoundedMap V)
      → IsListed m (xs ++ c ∷ ys)
      → remove_node c.0 m ≡ unlink (last_ref xs none) (first_ref ys none) m
  unfolding remove_node unlink_node
  remove_node-unlink xs ys c m h = ap (λ o. unlink_node o m) (cell_node xs ys c m h)

  pub remove_node-IsListed :
      (xs ys : List (Cell V)) (c : Cell V) (m : BoundedMap V)
      → IsListed m (xs ++ c ∷ ys)
      → IsListed (remove_node c.0 m) (xs ++ ys)
  remove_node-IsListed xs ys c m h =
      subst (λ t. IsListed t (xs ++ ys)) (sym (remove_node-unlink xs ys c m h))
        (unlink-IsListed xs ys c m h)

  set_head_fields :
      (a : ℕ) (key : String) (value : V) (p n h : Ref) (nodes : ℕ → Option (Node V))
      → nodes a ≡ some (record { key = key; value = value; prev = p; next = n })
      → h ≢ some a
      → set_prev_at h (some a) (set_prev none a (set_next h a nodes)) a
        ≡ some (record { key = key; value = value; prev = none; next = h })
  unfolding set_prev set_next
  set_head_fields a key value p n h nodes node other =
      set_prev_at-other h (some a) a (set_prev none a (set_next h a nodes)) other
      ∙ update-same a (λ (x : Node V). record x { prev = none }) (set_next h a nodes)
          (record { key = key; value = value; prev = p; next = h })
          (update-same a (λ (x : Node V). record x { next = h }) nodes
            (record { key = key; value = value; prev = p; next = n }) node)

  set_fields-other :
      (a b : ℕ) (p n : Ref) (nodes : ℕ → Option (Node V))
      → a ≢ b
      → set_prev p a (set_next n a nodes) b ≡ nodes b
  unfolding set_prev set_next
  set_fields-other a b p n nodes other =
      update-other a b (λ (x : Node V). record x { prev = p }) (set_next n a nodes) other
      ∙ update-other a b (λ (x : Node V). record x { next = n }) nodes other

  or_ref-last_ref :
      (cs : List (Cell V)) (a : ℕ) → or_ref (last_ref cs none) (some a) ≡ last_ref cs (some a)
  unfolding or_ref
  or_ref-last_ref [] a = refl
  or_ref-last_ref (c ∷ cs) a =
      let (b, there) = last_ref-some cs c.0 in ap (λ r. or_ref r (some a)) there ∙ sym there

  -- A node apart from the list is put at its head.
  pub add_to_head-IsListed :
      (c : Cell V) (p n : Ref) (cs : List (Cell V)) (m : BoundedMap V)
      → m.nodes c.0 ≡ some (record { key = c.1; value = c.2; prev = p; next = n })
      → Avoids c.0 cs
      → IsListed m cs
      → IsListed (add_to_head c.0 m) (c ∷ cs)
  unfolding add_to_head
  add_to_head-IsListed c p n cs m node away h = record {
    at_head = refl;
    at_tail = ap (λ r. or_ref r (some c.0)) h.at_tail ∙ or_ref-last_ref cs c.0;
    linked =
        subst
          (λ r.
            IsLinked (set_prev_at r (some c.0) (set_prev none c.0 (set_next r c.0 m.nodes))) none
              none (c ∷ cs))
          (sym h.at_head)
          (
            set_head_fields c.0 c.1 c.2 p n (first_ref cs none) m.nodes node
                (first_ref-Avoids c.0 cs away),
            set_prev_at-IsLinked (fields (first_ref cs none)) none none (some c.0) cs h.apart (
                IsLinked-frame m.nodes (fields (first_ref cs none)) none none cs
                  (untouched (first_ref cs none) cs away) h.linked),
          );
    apart = (away, h.apart);
  }
    where
      fields : Ref → ℕ → Option (Node V)
      fields r = set_prev none c.0 (set_next r c.0 m.nodes)

      untouched : (r : Ref) (ds : List (Cell V)) → Avoids c.0 ds → SameAt m.nodes (fields r) ds
      untouched r [] away = tt
      untouched r (d ∷ ds) (here, away) =
          (set_fields-other c.0 d.0 none r m.nodes (λ e. here (sym e)), untouched r ds away)

  -- The removed cell's node, which is apart from the rest, stays as it was.
  pub removed_node :
      (xs ys : List (Cell V)) (c : Cell V) (m : BoundedMap V)
      → IsListed m (xs ++ c ∷ ys)
      → Avoids c.0 (xs ++ ys)
        × ((remove_node c.0 m).nodes c.0
            ≡ some (record {
              key = c.1;
              value = c.2;
              prev = last_ref xs none;
              next = first_ref ys none;
            }))
  removed_node xs ys c m h =
      let (apart_left, apart_right, between) = IsApart-split xs (c ∷ ys) h.apart in
      let front : Avoids c.0 xs = (ApartFrom-sym xs (c ∷ ys) between).0 in
      let p = last_ref xs none in
      let n = first_ref ys none in
      (
        All-append (λ d. d.0 ≢ c.0) xs ys front apart_right.0,
        ap (λ (t : BoundedMap V). t.nodes c.0) (remove_node-unlink xs ys c m h)
            ∙ (ap (λ nodes. nodes c.0) (unlink-nodes p n m)
                ∙ (set_prev_at-other n p c.0 (set_next_at p n m.nodes)
                      (first_ref-Avoids c.0 ys apart_right.0)
                    ∙ (set_next_at-other p n c.0 m.nodes (end_ref-Avoids c.0 xs front)
                        ∙ cell_node xs ys c m h))),
      )
