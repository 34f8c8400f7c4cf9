-- ===== src/BoundedMap/Segments.antt =====
-- The doubly linked list of a `BoundedMap`: the cells that a chain of nodes stands for.
use Prim.Native.String.{String}
use counter_terrorist.Common.{
  All, List, Option, [], ap, arith, false, if_false, if_true, none, refl, some, some_inj, string_eq,
  sym, true, ℕ, ◌++◌, ◌==◌, ◌∙◌, ◌∷◌, ◌≡◌, ◌≢◌,
}
use counter_terrorist.BoundedMap.{
  Node, Ref, set_next, set_next_at, set_prev, set_prev_at, update_node, write_node, update_from,
}

-- A node's number with its key and value.
abbrev pub Cell : Type 0 → Type 0
Cell V = ℕ × String × V

==_other : (a b : ℕ) → a ≢ b → (a == b) ≡ false
==_other a b h = ground arith

==_self : (a : ℕ) → (a == a) ≡ true
==_self a = ground arith

module _ {V : Type 0} where
  abbrev pub first_ref : List (Cell V) → Ref → Ref
  first_ref [] next = next
  first_ref (c ∷ cs) next = some c.0

  abbrev pub last_ref : List (Cell V) → Ref → Ref
  last_ref [] prev = prev
  last_ref (c ∷ cs) prev = last_ref cs (some c.0)

  -- Each cell is a node whose fields are the cell before it and the one after it; `prev` and `next`
  -- are those of the ends.
  abbrev pub IsLinked : (ℕ → Option (Node V)) → Ref → Ref → List (Cell V) → Type 0
  IsLinked nodes prev next [] = Unit
  IsLinked nodes prev next (c ∷ cs) =
      (nodes c.0 ≡ some (record { key = c.1; value = c.2; prev = prev; next = first_ref cs next }))
      × IsLinked nodes (some c.0) next cs

  abbrev pub Avoids : ℕ → List (Cell V) → Type 0
  Avoids a cs = All (λ c. c.0 ≢ a) cs

  abbrev pub IsApart : List (Cell V) → Type 0
  IsApart [] = Unit
  IsApart (c ∷ cs) = Avoids c.0 cs × IsApart cs

  -- The cells' nodes are the same in another store.
  abbrev pub SameAt : (ℕ → Option (Node V)) → (ℕ → Option (Node V)) → List (Cell V) → Type 0
  SameAt nodes others cs = All (λ c. others c.0 ≡ nodes c.0) cs

  pub IsLinked-frame :
      (nodes others : ℕ → Option (Node V)) (prev next : Ref) (cs : List (Cell V))
      → SameAt nodes others cs
      → IsLinked nodes prev next cs
      → IsLinked others prev next cs
  IsLinked-frame nodes others prev next [] same h = tt
  IsLinked-frame nodes others prev next (c ∷ cs) (here, same) (node, h) =
      (here ∙ node, IsLinked-frame nodes others (some c.0) next cs same h)

  pub IsLinked-split :
      (nodes : ℕ → Option (Node V)) (prev next : Ref) (xs ys : List (Cell V))
      → IsLinked nodes prev next (xs ++ ys)
      → IsLinked nodes prev (first_ref ys next) xs × IsLinked nodes (last_ref xs prev) next ys
  IsLinked-split nodes prev next [] ys h = (tt, h)
  IsLinked-split nodes prev next (x ∷ []) ys (node, h) = ((node, tt), h)
  IsLinked-split nodes prev next (x ∷ y ∷ xs) ys (node, h) =
      let (left, right) = IsLinked-split nodes (some x.0) next (y ∷ xs) ys h in
      ((node, left), right)

  pub IsLinked-join :
      (nodes : ℕ → Option (Node V)) (prev next : Ref) (xs ys : List (Cell V))
      → IsLinked nodes prev (first_ref ys next) xs
      → IsLinked nodes (last_ref xs prev) next ys
      → IsLinked nodes prev next (xs ++ ys)
  IsLinked-join nodes prev next [] ys left right = right
  IsLinked-join nodes prev next (x ∷ []) ys (node, left) right = (node, right)
  IsLinked-join nodes prev next (x ∷ y ∷ xs) ys (node, left) right =
      (node, IsLinked-join nodes (some x.0) next (y ∷ xs) ys left right)

  -- Writes to one field.
  pub write_node-other :
      (a b : ℕ) (node : Node V) (nodes : ℕ → Option (Node V))
      → a ≢ b
      → write_node a node nodes b ≡ nodes b
  unfolding write_node
  write_node-other a b node nodes other =
      if_false (a == b) (some node) (nodes b) (==_other a b other)

  pub write_node-same :
      (a : ℕ) (node : Node V) (nodes : ℕ → Option (Node V)) → write_node a node nodes a ≡ some node
  unfolding write_node
  write_node-same a node nodes = if_true (a == a) (some node) (nodes a) (==_self a)

  update_from-other :
      (o : Option (Node V)) (a b : ℕ) (change : Node V → Node V) (nodes : ℕ → Option (Node V))
      → a ≢ b
      → update_from o a change nodes b ≡ nodes b
  unfolding update_from
  update_from-other none a b change nodes other = refl
  update_from-other (some node) a b change nodes other =
      write_node-other a b (change node) nodes other

  pub update-other :
      (a b : ℕ) (change : Node V → Node V) (nodes : ℕ → Option (Node V))
      → a ≢ b
      → update_node a change nodes b ≡ nodes b
  unfolding update_node
  update-other a b change nodes other = update_from-other (nodes a) a b change nodes other

  pub update-same :
      (a : ℕ) (change : Node V → Node V) (nodes : ℕ → Option (Node V)) (node : Node V)
      → nodes a ≡ some node
      → update_node a change nodes a ≡ some (change node)
  unfolding update_node update_from
  update-same a change nodes node h =
      ap (λ o. update_from o a change nodes a) h ∙ write_node-same a (change node) nodes

  pub set_next_at-other :
      (r n : Ref) (b : ℕ) (nodes : ℕ → Option (Node V))
      → r ≢ some b
      → set_next_at r n nodes b ≡ nodes b
  unfolding set_next_at set_next
  set_next_at-other none n b nodes other = refl
  set_next_at-other (some a) n b nodes other =
      update-other a b (λ (node : Node V). record node { next = n }) nodes (λ e. other (ap some e))

  pub set_prev_at-other :
      (r p : Ref) (b : ℕ) (nodes : ℕ → Option (Node V))
      → r ≢ some b
      → set_prev_at r p nodes b ≡ nodes b
  unfolding set_prev_at set_prev
  set_prev_at-other none p b nodes other = refl
  set_prev_at-other (some a) p b nodes other =
      update-other a b (λ (node : Node V). record node { prev = p }) nodes (λ e. other (ap some e))

  pub last_ref-Avoids :
      (z : ℕ) (d : Cell V) (cs : List (Cell V))
      → Avoids z (d ∷ cs)
      → last_ref cs (some d.0) ≢ some z
  last_ref-Avoids z d [] (apart, h) e = apart (some_inj d.0 z e)
  last_ref-Avoids z d (c ∷ cs) (apart, h) e = last_ref-Avoids z c cs h e

  -- The last node's `next` is written.
  pub set_next_at-IsLinked :
      (nodes : ℕ → Option (Node V)) (prev next n : Ref) (c : Cell V) (cs : List (Cell V))
      → IsApart (c ∷ cs)
      → IsLinked nodes prev next (c ∷ cs)
      → IsLinked (set_next_at (last_ref cs (some c.0)) n nodes) prev n (c ∷ cs)
  unfolding set_next_at set_next
  set_next_at-IsLinked nodes prev next n c [] apart (node, h) =
      (update-same c.0 (λ (x : Node V). record x { next = n }) nodes _ node, tt)
  set_next_at-IsLinked nodes prev next n c (d ∷ cs) (away, apart) (node, h) = (
    set_next_at-other (last_ref cs (some d.0)) n c.0 nodes (last_ref-Avoids c.0 d cs away) ∙ node,
    set_next_at-IsLinked nodes (some c.0) next n d cs apart h,
  )

  -- The first node's `prev` is written.
  pub set_prev_at-IsLinked :
      (nodes : ℕ → Option (Node V)) (prev next p : Ref) (cs : List (Cell V))
      → IsApart cs
      → IsLinked nodes prev next cs
      → IsLinked (set_prev_at (first_ref cs none) p nodes) p next cs
  unfolding set_prev_at set_prev
  set_prev_at-IsLinked nodes prev next p [] apart h = tt
  set_prev_at-IsLinked nodes prev next p (c ∷ cs) (away, apart) (node, h) = (
    update-same c.0 (λ (x : Node V). record x { prev = p }) nodes _ node,
    IsLinked-frame nodes (set_prev_at (some c.0) p nodes) (some c.0) next cs (untouched cs away) h,
  )
    where
      untouched :
          (ds : List (Cell V)) → Avoids c.0 ds → SameAt nodes (set_prev_at (some c.0) p nodes) ds
      untouched [] away = tt
      untouched (d ∷ ds) (here, away) = (
        set_prev_at-other (some c.0) p d.0 nodes (λ e. here (sym (some_inj c.0 d.0 e))),
        untouched ds away,
      )
