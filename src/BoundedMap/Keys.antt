-- ===== src/BoundedMap/Keys.antt =====
-- The keys of the cells of a `BoundedMap`, and maps from them.
use Prim.Native.String.{String}
use mathlib.Core.Bool.{false≢true}
use counter_terrorist.Common.{
  ===_other, Bool-cases, IsDistinct, Map, [], ap, arith, false, has_key, if◌then◌else◌, inl, inr,
  keys, length, map_delete, map_get, map_get-fresh, map_set, none, refl, some, some_not_none,
  string_eq, subst, suc, sym, ◌===◌, ◌∙◌, ◌∷◌, ◌≡◌, ◌≢◌,
}

module _ {ℓ} {A : Type ℓ} where
  pub map_get-map_delete_other :
      (k l : String) (m : Map A) → l ≢ k → map_get k (map_delete l m) ≡ map_get k m
  map_get-map_delete_other k l [] h = refl
  map_get-map_delete_other k l ((key, a) ∷ m) h = elim (Bool-cases (key === l)) [
    | inl e ↦
        let n : (key === k) ≡ false = rw ((string_eq.same_iff key l).0 e) (===_other l k h) in
        rw e (rw n refl)
    | inr e ↦ rw e (ap (λ o. if key === k then some a else o) (map_get-map_delete_other k l m h))
  ]

  map_get-has_key : (k : String) (m : Map A) → map_get k m ≡ none → has_key k (keys m) ≡ false
  map_get-has_key k [] h = refl
  map_get-has_key k ((key, a) ∷ m) h = elim (Bool-cases (key === k)) [
    | inl e ↦ absurd (some_not_none a (rw e at h))
    | inr e ↦ rw e (map_get-has_key k m (rw e at h))
  ]

  pub map_get-map_delete :
      (k : String) (m : Map A) → IsDistinct (keys m) → map_get k (map_delete k m) ≡ none
  map_get-map_delete k [] h = refl
  map_get-map_delete k ((key, a) ∷ m) (fresh, h) = elim (Bool-cases (key === k)) [
    | inl e ↦ rw e (
        map_get-fresh k m
          (subst (λ x. has_key x (keys m) ≡ false) ((string_eq.same_iff key k).0 e) fresh))
    | inr e ↦ rw e (rw e (map_get-map_delete k m h))
  ]

  has_key-map_delete :
      (j k : String) (m : Map A)
      → has_key j (keys m) ≡ false
      → has_key j (keys (map_delete k m)) ≡ false
  has_key-map_delete j k [] h = refl
  has_key-map_delete j k ((key, a) ∷ m) h = elim (Bool-cases (key === j)) [
    | inl e ↦ absurd (ground arith)
    | inr e ↦ elim (Bool-cases (key === k)) [
      | inl f ↦ rw f (rw e at h)
      | inr f ↦ rw f (rw e (has_key-map_delete j k m (rw e at h)))
    ]
  ]

  pub map_delete-IsDistinct :
      (k : String) (m : Map A) → IsDistinct (keys m) → IsDistinct (keys (map_delete k m))
  map_delete-IsDistinct k [] h = tt
  map_delete-IsDistinct k ((key, a) ∷ m) (fresh, h) = elim (Bool-cases (key === k)) [
    | inl e ↦ rw e h
    | inr e ↦ rw e (has_key-map_delete key k m fresh, map_delete-IsDistinct k m h)
  ]

  has_key-map_set :
      (j k : String) (a : A) (m : Map A)
      → k ≢ j
      → has_key j (keys m) ≡ false
      → has_key j (keys (map_set k a m)) ≡ false
  has_key-map_set j k a [] other h = rw (===_other k j other) refl
  has_key-map_set j k a ((key, b) ∷ m) other h = elim (Bool-cases (key === j)) [
    | inl e ↦ absurd (ground arith)
    | inr e ↦ elim (Bool-cases (key === k)) [
      | inl f ↦ rw f (rw e (rw e at h))
      | inr f ↦ rw f (rw e (has_key-map_set j k a m other (rw e at h)))
    ]
  ]

  pub map_set-IsDistinct :
      (k : String) (a : A) (m : Map A) → IsDistinct (keys m) → IsDistinct (keys (map_set k a m))
  map_set-IsDistinct k a [] h = (refl, tt)
  map_set-IsDistinct k a ((key, b) ∷ m) (fresh, h) = elim (Bool-cases (key === k)) [
    | inl e ↦ rw e (fresh, h)
    | inr e ↦ rw e (
      has_key-map_set key k a m
          (λ p. absurd (false≢true (sym e ∙ (string_eq.same_iff key k).1 (sym p)))) fresh,
      map_set-IsDistinct k a m h,
    )
  ]

  pub length-map_set :
      (k : String) (a : A) (m : Map A)
      → map_get k m ≡ none
      → length (map_set k a m) ≡ suc (length m)
  length-map_set k a [] h = refl
  length-map_set k a ((key, b) ∷ m) h = elim (Bool-cases (key === k)) [
    | inl e ↦ absurd (some_not_none b (rw e at h))
    | inr e ↦ rw e (ap suc (length-map_set k a m (rw e at h)))
  ]

  pub length-map_delete :
      (k : String) (a : A) (m : Map A)
      → map_get k m ≡ some a
      → suc (length (map_delete k m)) ≡ length m
  length-map_delete k a [] h = absurd (some_not_none a (sym h))
  length-map_delete k a ((key, b) ∷ m) h = elim (Bool-cases (key === k)) [
    | inl e ↦ rw e refl
    | inr e ↦ rw e (ap suc (length-map_delete k a m (rw e at h)))
  ]
