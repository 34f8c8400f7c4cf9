-- ===== src/Validation/Addresses/Split.antt =====
-- Texts that are joined by a unit that they lack come apart again.
use counter_terrorist.Common.{
  Bool, Bool-cases, [], arith, false, if_true, inl, inr, refl, string_eq, true, ℕ, ◌&&◌, ◌++◌, ◌==◌,
  ◌||◌, ◌∷◌, ◌≡◌,
}
use counter_terrorist.Validation.Addresses.{
  Units, add_front, includes_unit, same_units, split_on, starts_with,
}

pub split_on-last : (c : ℕ) (x : Units) → includes_unit c x ≡ false → split_on c x ≡ x ∷ []
unfolding includes_unit split_on add_front
split_on-last c [] h = refl
split_on-last c (y ∷ x) h = elim (Bool-cases (y == c)) [
  | inl e ↦ absurd (ground arith)
  | inr e ↦ rw e (rw (split_on-last c x (rw e at h)) refl)
]

pub split_on-append :
    (c : ℕ) (x y : Units) → includes_unit c x ≡ false → split_on c (x ++ c ∷ y) ≡ x ∷ split_on c y
unfolding includes_unit split_on add_front
split_on-append c [] y h = if_true (c == c) _ _ (same c)
  where
    same : (c : ℕ) → (c == c) ≡ true
    same c = ground arith
split_on-append c (z ∷ x) y h = elim (Bool-cases (z == c)) [
  | inl e ↦ absurd (ground arith)
  | inr e ↦ rw e (rw (split_on-append c x y (rw e at h)) refl)
]

-- A prefix that ends with the unit.
pub starts_with-append :
    (c : ℕ) (w p x y : Units)
    → includes_unit c w ≡ false
    → includes_unit c x ≡ false
    → starts_with (w ++ c ∷ p) (x ++ c ∷ y) ≡ (same_units w x && starts_with p y)
unfolding includes_unit starts_with same_units
starts_with-append c [] p [] y h k = ground arith
starts_with-append c [] p (b ∷ x) y h k = ground arith
starts_with-append c (a ∷ w) p [] y h k = ground arith
starts_with-append c (a ∷ w) p (b ∷ x) y h k =
    joined (a == b) (starts_with (w ++ c ∷ p) (x ++ c ∷ y)) (same_units w x) (starts_with p y) (
      starts_with-append c w p x y (later (a == c) (includes_unit c w) h)
        (later (b == c) (includes_unit c x) k))
  where
    later : (q r : Bool) → (q || r) ≡ false → r ≡ false
    later q r h = ground arith

    joined : (q r s t : Bool) → r ≡ (s && t) → (q && r) ≡ ((q && s) && t)
    joined q r s t h = ground arith
