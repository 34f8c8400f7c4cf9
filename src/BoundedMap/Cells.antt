-- ===== src/BoundedMap/Cells.antt =====
-- The cells of a `BoundedMap` by their keys: to the nodes' numbers, and to their values.
use Prim.Native.String.{String}
use counter_terrorist.Common.{
  ===_other, ===_refl, Bool-cases, List, Map, [], ap, false, if◌then◌else◌, inl, inr, length,
  map_delete, map_get, none, refl, some, some_inj, some_not_none, string_eq, suc, sym, ℕ, ◌++◌,
  ◌===◌, ◌∙◌, ◌∷◌, ◌≡◌, ◌≢◌,
}
use counter_terrorist.BoundedMap.Segments.{Cell}

module _ {V : Type 0} where
  abbrev pub refs : List (Cell V) → Map ℕ
  refs [] = []
  refs (c ∷ cs) = (c.1, c.0) ∷ refs cs

  abbrev pub pairs : List (Cell V) → Map V
  pairs [] = []
  pairs (c ∷ cs) = (c.1, c.2) ∷ pairs cs

  -- No cell has the key.
  abbrev pub Lacks : String → List (Cell V) → Type 0
  Lacks k cs = map_get k (refs cs) ≡ none

  abbrev pub KeysApart : List (Cell V) → Type 0
  KeysApart [] = Unit
  KeysApart (c ∷ cs) = Lacks c.1 cs × KeysApart cs

  pub length-pairs : (cs : List (Cell V)) → length (pairs cs) ≡ length cs
  length-pairs [] = refl
  length-pairs (c ∷ cs) = ap suc (length-pairs cs)

  pub refs-there :
      (c : Cell V) (xs ys : List (Cell V))
      → Lacks c.1 xs
      → map_get c.1 (refs (xs ++ c ∷ ys)) ≡ some c.0
  refs-there c [] ys h = rw (===_refl c.1) refl
  refs-there c (x ∷ xs) ys h = elim (Bool-cases (x.1 === c.1)) [
    | inl e ↦ absurd (some_not_none x.0 (rw e at h))
    | inr e ↦ rw e (refs-there c xs ys (rw e at h))
  ]

  -- A cell in front, or anywhere, is the same for another key.
  pub refs-without :
      (k : String) (c : Cell V) (xs ys : List (Cell V))
      → c.1 ≢ k
      → map_get k (refs (xs ++ ys)) ≡ map_get k (refs (xs ++ c ∷ ys))
  refs-without k c [] ys other = rw (===_other c.1 k other) refl
  refs-without k c (x ∷ xs) ys other =
      ap (λ o. if x.1 === k then some x.0 else o) (refs-without k c xs ys other)

  pub Lacks-apart :
      (k : String) (c : Cell V) (xs ys : List (Cell V)) → Lacks k (xs ++ c ∷ ys) → c.1 ≢ k
  Lacks-apart k c [] ys h e = some_not_none c.0 (rw ((string_eq.same_iff c.1 k).1 e) at h)
  Lacks-apart k c (x ∷ xs) ys h e = elim (Bool-cases (x.1 === k)) [
    | inl f ↦ some_not_none x.0 (rw f at h)
    | inr f ↦ Lacks-apart k c xs ys (rw f at h) e
  ]

  -- A cell taken out of cells whose keys are apart.
  pub KeysApart-without :
      (c : Cell V) (xs ys : List (Cell V))
      → KeysApart (xs ++ c ∷ ys)
      → KeysApart (xs ++ ys) × Lacks c.1 (xs ++ ys) × Lacks c.1 xs
  KeysApart-without c [] ys (lacks, h) = (h, lacks, refl)
  KeysApart-without c (x ∷ xs) ys (lacks, h) =
      let (apart, without, front) = KeysApart-without c xs ys h in
      let other = Lacks-apart x.1 c xs ys lacks in
      let differ : (x.1 === c.1) ≡ false = ===_other x.1 c.1 (λ e. other (sym e)) in
      ((refs-without x.1 c xs ys other ∙ lacks, apart), rw differ without, rw differ front)

  -- The cell of a key.
  pub refs-split :
      (k : String) (a : ℕ) (cs : List (Cell V))
      → map_get k (refs cs) ≡ some a
      → (xs : List (Cell V)) × (v : V) × (ys : List (Cell V)) × (cs ≡ xs ++ (a, k, v) ∷ ys)
  refs-split k a [] h = absurd (some_not_none a (sym h))
  refs-split k a (c ∷ cs) h = elim (Bool-cases (c.1 === k)) [
    | inl e ↦
        let same : c.0 ≡ a = some_inj c.0 a (rw e at h) in
        ([], c.2, cs, rw (sym same, sym ((string_eq.same_iff c.1 k).0 e)) refl)
    | inr e ↦
        let (xs, v, ys, whole) = refs-split k a cs (rw e at h) in
        (c ∷ xs, v, ys, ap (λ l. c ∷ l) whole)
  ]

  pub refs-pairs-none : (k : String) (cs : List (Cell V)) → Lacks k cs → map_get k (pairs cs) ≡ none
  refs-pairs-none k [] h = refl
  refs-pairs-none k (c ∷ cs) h = elim (Bool-cases (c.1 === k)) [
    | inl e ↦ absurd (some_not_none c.0 (rw e at h))
    | inr e ↦ rw e (refs-pairs-none k cs (rw e at h))
  ]

  pub pairs-there :
      (c : Cell V) (xs ys : List (Cell V))
      → Lacks c.1 xs
      → map_get c.1 (pairs (xs ++ c ∷ ys)) ≡ some c.2
  pairs-there c [] ys h = rw (===_refl c.1) refl
  pairs-there c (x ∷ xs) ys h = elim (Bool-cases (x.1 === c.1)) [
    | inl e ↦ absurd (some_not_none x.0 (rw e at h))
    | inr e ↦ rw e (pairs-there c xs ys (rw e at h))
  ]

  pub pairs-delete :
      (c : Cell V) (xs ys : List (Cell V))
      → Lacks c.1 xs
      → map_delete c.1 (pairs (xs ++ c ∷ ys)) ≡ pairs (xs ++ ys)
  pairs-delete c [] ys h = rw (===_refl c.1) refl
  pairs-delete c (x ∷ xs) ys h = elim (Bool-cases (x.1 === c.1)) [
    | inl e ↦ absurd (some_not_none x.0 (rw e at h))
    | inr e ↦ rw e (ap (λ l. (x.1, x.2) ∷ l) (pairs-delete c xs ys (rw e at h)))
  ]
