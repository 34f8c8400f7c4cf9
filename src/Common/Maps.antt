-- ===== src/Common/Maps.antt =====
-- `Map` with texts as keys: its entries in the order of their first insertion, each key once.
use native.Mathlib.Omega.{arith}
use Prim.Native.String.{String}
use mathlib.Core.Path.{◌≡◌, refl, ap}
use mathlib.Core.Logic.{◌≢◌, inl, inr}
use mathlib.Core.Bool.{Bool, false, ◌||◌}
use mathlib.Core.List.{List, [], ◌∷◌}
use mathlib.Core.Option.{Option, none, some}
use counter_terrorist.Common.Tests.{◌===◌, string_eq, if◌then◌else◌, ===_refl, Bool-cases}

abbrev pub Map {ℓ} : Type ℓ → Type ℓ
Map A = List (String × A)

module _ {ℓ} {A : Type ℓ} where
  -- `get`.
  abbrev pub map_get : String → Map A → Option A
  map_get k [] = none
  map_get k ((key, a) ∷ m) = if key === k then some a else map_get k m

  -- `set`: an existing key keeps its place.
  abbrev pub map_set : String → A → Map A → Map A
  map_set k a [] = (k, a) ∷ []
  map_set k a ((key, b) ∷ m) =
      let rest = map_set k a m in if key === k then (key, a) ∷ m else (key, b) ∷ rest

  -- `delete`.
  abbrev pub map_delete : String → Map A → Map A
  map_delete k [] = []
  map_delete k ((key, b) ∷ m) =
      let rest = map_delete k m in if key === k then m else (key, b) ∷ rest

  -- `keys`.
  abbrev pub keys : Map A → List String
  keys [] = []
  keys ((key, _) ∷ m) = key ∷ keys m

-- `includes` of an array, `has` of a `Set`.
abbrev pub has_key : String → List String → Bool
has_key k [] = false
has_key k (key ∷ rest) = key === k || has_key k rest

-- Different texts.
pub ===_other : (a b : String) → a ≢ b → (a === b) ≡ false
===_other a b h = elim (Bool-cases (a === b)) [
  | inl e ↦ absurd (h ((string_eq.same_iff a b).0 e))
  | inr e ↦ e
]

module _ {ℓ} {A : Type ℓ} where
  pub map_get-map_set : (k : String) (a : A) (m : Map A) → map_get k (map_set k a m) ≡ some a
  map_get-map_set k a [] = rw (===_refl k) refl
  map_get-map_set k a ((key, b) ∷ m) = elim (Bool-cases (key === k)) [
    | inl e ↦ rw e (rw e refl)
    | inr e ↦ rw e (rw e (map_get-map_set k a m))
  ]

  pub map_get-map_set_other :
      (k l : String) (a : A) (m : Map A) → l ≢ k → map_get k (map_set l a m) ≡ map_get k m
  map_get-map_set_other k l a [] h = rw (===_other l k h) refl
  map_get-map_set_other k l a ((key, b) ∷ m) h = elim (Bool-cases (key === l)) [
    | inl e ↦
        let n : (key === k) ≡ false = rw ((string_eq.same_iff key l).0 e) (===_other l k h) in
        rw e (rw n refl)
    | inr e ↦ rw e (ap (λ o. if key === k then some b else o) (map_get-map_set_other k l a m h))
  ]

  -- A key that is not among the keys.
  pub map_get-fresh : (k : String) (m : Map A) → has_key k (keys m) ≡ false → map_get k m ≡ none
  map_get-fresh k [] h = refl
  map_get-fresh k ((key, b) ∷ m) h = elim (Bool-cases (key === k)) [
    | inl e ↦ absurd (ground arith)
    | inr e ↦ rw e (map_get-fresh k m (ground arith))
  ]

-- No key twice.
abbrev pub IsDistinct : List String → Type 0
IsDistinct [] = Unit
IsDistinct (k ∷ ks) = (has_key k ks ≡ false) × IsDistinct ks
