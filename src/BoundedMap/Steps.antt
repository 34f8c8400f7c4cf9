-- ===== src/BoundedMap/Steps.antt =====
-- What `removeNode` and `addToHead` do to the list of a `BoundedMap`.
use counter_terrorist.Common.{
  All, All-append, All-append_left, All-append_right, List, Option, [], none, refl, some, some_inj,
  some_not_none, string_eq, sym, ℕ, ◌++◌, ◌∷◌, ◌≡◌, ◌≢◌,
}
use counter_terrorist.BoundedMap.{Node, Ref, BoundedMap, set_next_at, set_prev_at, unlink}
use counter_terrorist.BoundedMap.Segments.{
  Cell, IsLinked, Avoids, IsApart, IsLinked-frame, SameAt, first_ref, last_ref, last_ref-Avoids,
  set_next_at-IsLinked, set_next_at-other, set_prev_at-IsLinked, set_prev_at-other,
}

module _ {V : Type 0} where
  -- The list of the map is made of these cells, from the head to the tail.
  pub record IsListed (m : BoundedMap V) (cs : List (Cell V)) : Type 0 where
    pub at_head : m.head ≡ first_ref cs none
    pub at_tail : m.tail ≡ last_ref cs none
    pub linked : IsLinked m.nodes none none cs
    pub apart : IsApart cs

  -- Each cell of the one list is apart from those of the other.
  abbrev pub ApartFrom : List (Cell V) → List (Cell V) → Type 0
  ApartFrom xs ys = All (λ x. Avoids x.0 ys) xs

  pub IsApart-split :
      (xs ys : List (Cell V)) → IsApart (xs ++ ys) → IsApart xs × IsApart ys × ApartFrom xs ys
  IsApart-split [] ys h = (tt, h, tt)
  IsApart-split (x ∷ xs) ys (away, h) =
      let (left, right, between) = IsApart-split xs ys h in
      (
        (All-append_left (λ c. c.0 ≢ x.0) xs ys away, left),
        right,
        (All-append_right (λ c. c.0 ≢ x.0) xs ys away, between),
      )

  pub IsApart-join :
      (xs ys : List (Cell V)) → IsApart xs → IsApart ys → ApartFrom xs ys → IsApart (xs ++ ys)
  IsApart-join [] ys left right between = right
  IsApart-join (x ∷ xs) ys (away, left) right (here, between) =
      (All-append (λ c. c.0 ≢ x.0) xs ys away here, IsApart-join xs ys left right between)

  ApartFrom-nil : (ys : List (Cell V)) → ApartFrom ys []
  ApartFrom-nil [] = tt
  ApartFrom-nil (y ∷ ys) = (tt, ApartFrom-nil ys)

  ApartFrom-cons :
      (x : Cell V) (xs ys : List (Cell V)) → Avoids x.0 ys → ApartFrom ys xs → ApartFrom ys (x ∷ xs)
  ApartFrom-cons x xs [] away h = tt
  ApartFrom-cons x xs (y ∷ ys) (here, away) (there, h) =
      ((λ e. here (sym e), there), ApartFrom-cons x xs ys away h)

  pub ApartFrom-sym : (xs ys : List (Cell V)) → ApartFrom xs ys → ApartFrom ys xs
  ApartFrom-sym [] ys h = ApartFrom-nil ys
  ApartFrom-sym (x ∷ xs) ys (away, h) = ApartFrom-cons x xs ys away (ApartFrom-sym xs ys h)

  pub first_ref-Avoids : (a : ℕ) (cs : List (Cell V)) → Avoids a cs → first_ref cs none ≢ some a
  first_ref-Avoids a [] away e = some_not_none a (sym e)
  first_ref-Avoids a (c ∷ cs) (here, away) e = here (some_inj c.0 a e)

  pub end_ref-Avoids : (a : ℕ) (cs : List (Cell V)) → Avoids a cs → last_ref cs none ≢ some a
  end_ref-Avoids a [] away e = some_not_none a (sym e)
  end_ref-Avoids a (c ∷ cs) away e = last_ref-Avoids a c cs away e

  -- Writes to the neighbours of a removed cell.
  abbrev pub unlinked : Ref → Ref → (ℕ → Option (Node V)) → ℕ → Option (Node V)
  unlinked p n nodes = set_prev_at n p (set_next_at p n nodes)

  pub left_of :
      (nodes : ℕ → Option (Node V)) (next : Ref) (xs ys : List (Cell V))
      → IsApart xs
      → ApartFrom xs ys
      → IsLinked nodes none next xs
      → IsLinked (unlinked (last_ref xs none) (first_ref ys none) nodes) none (first_ref ys none) xs
  left_of nodes next xs ys apart between h =
      IsLinked-frame (set_next_at (last_ref xs none) (first_ref ys none) nodes)
        (unlinked (last_ref xs none) (first_ref ys none) nodes) none (first_ref ys none) xs
        (untouched xs between) (written xs apart h)
    where
      nodes1 : ℕ → Option (Node V)
      nodes1 = set_next_at (last_ref xs none) (first_ref ys none) nodes

      untouched :
          (zs : List (Cell V))
          → ApartFrom zs ys
          → SameAt nodes1 (set_prev_at (first_ref ys none) (last_ref xs none) nodes1) zs
      untouched [] h = tt
      untouched (z ∷ zs) (away, h) = (
        set_prev_at-other (first_ref ys none) (last_ref xs none) z.0 nodes1
            (first_ref-Avoids z.0 ys away),
        untouched zs h,
      )

      written :
          (zs : List (Cell V))
          → IsApart zs
          → IsLinked nodes none next zs
          → IsLinked
              (set_next_at (last_ref zs none) (first_ref ys none) nodes)
              none
              (first_ref ys none)
              zs
      written [] apart h = tt
      written (z ∷ zs) apart h =
          set_next_at-IsLinked nodes none next (first_ref ys none) z zs apart h

  pub right_of :
      (nodes : ℕ → Option (Node V)) (prev : Ref) (xs ys : List (Cell V))
      → IsApart ys
      → ApartFrom ys xs
      → IsLinked nodes prev none ys
      → IsLinked (unlinked (last_ref xs none) (first_ref ys none) nodes) (last_ref xs none) none ys
  right_of nodes prev xs ys apart between h =
      set_prev_at-IsLinked (set_next_at (last_ref xs none) (first_ref ys none) nodes) prev none
        (last_ref xs none) ys apart
        (IsLinked-frame nodes (set_next_at (last_ref xs none) (first_ref ys none) nodes) prev none
          ys (untouched ys between) h)
    where
      untouched :
          (zs : List (Cell V))
          → ApartFrom zs xs
          → SameAt nodes (set_next_at (last_ref xs none) (first_ref ys none) nodes) zs
      untouched [] h = tt
      untouched (z ∷ zs) (away, h) = (
        set_next_at-other (last_ref xs none) (first_ref ys none) z.0 nodes
            (end_ref-Avoids z.0 xs away),
        untouched zs h,
      )

  pub unlink-nodes : (p n : Ref) (m : BoundedMap V) → (unlink p n m).nodes ≡ unlinked p n m.nodes
  unfolding unlink set_prev_at set_next_at
  unlink-nodes none none m = refl
  unlink-nodes none (some n) m = refl
  unlink-nodes (some p) none m = refl
  unlink-nodes (some p) (some n) m = refl

  pub last_ref-append :
      (xs ys : List (Cell V)) (prev : Ref)
      → last_ref (xs ++ ys) prev ≡ last_ref ys (last_ref xs prev)
  last_ref-append [] ys prev = refl
  last_ref-append (x ∷ xs) ys prev = last_ref-append xs ys (some x.0)
