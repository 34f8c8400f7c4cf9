-- ===== src/Validation/Addresses/Bytes.antt =====
-- A dotted quad of bytes comes apart into the bytes again.
use mathlib.Core.List.{reverse}
use mathlib.Core.Bool.{false≢true}
use counter_terrorist.Common.{
  ==_iff, Bool, Option, [], ap, arith, every_below, every_below-true, false, if_false, leb, none,
  not, refl, some, string_eq, true, ℕ, ◌&&◌, ◌++◌, ◌<◌, ◌==◌, ◌∙◌, ◌∷◌, ◌≡◌,
}
use counter_terrorist.Validation.Addresses.{
  Units, decimal, decimal_value, digits_value, dotted, first_two, includes_unit, quad_of,
  same_units, split_on, starts_with, unbracket, unbracket_from, units,
}
use counter_terrorist.Validation.Addresses.Split.{
  split_on-append, split_on-last, starts_with-append,
}

unfoldable pub is_link_local : ℕ → ℕ → Bool
is_link_local a b = a == 169 && b == 254

unfoldable pub agree : Bool → Bool → Bool
agree true b = b
agree false b = not b

pub agree-eq : (p q : Bool) → agree p q ≡ true → p ≡ q
unfolding agree
agree-eq true true h = refl
agree-eq true false h = absurd (false≢true h)
agree-eq false true h = absurd (false≢true h)
agree-eq false false h = refl

some_is : ℕ → Option ℕ → Bool
some_is n none = false
some_is n (some m) = m == n

some_is-eq : (n : ℕ) (o : Option ℕ) → some_is n o ≡ true → o ≡ some n
unfolding some_is
some_is-eq n none h = absurd (false≢true h)
some_is-eq n (some m) h = ap some ((==_iff m n).0 h)

unfoldable pub has_digit : Units → Bool
has_digit [] = false
has_digit (x ∷ xs) = leb 48 x && leb x 57

byte_ok : ℕ → Bool
byte_ok n =
    not (includes_unit 46 (decimal n))
    && some_is n (decimal_value (decimal n))
    && has_digit (decimal n)
    && agree (same_units (units "169") (decimal n)) (n == 169)
    && agree (same_units (units "254") (decimal n)) (n == 254)

bytes_table : every_below byte_ok 256 ≡ true
unfolding every_below byte_ok includes_unit decimal some_is decimal_value digits_value has_digit
    agree same_units units
bytes_table = refl

-- What the tables say of a byte's digits.
pub record ByteOk (n : ℕ) : Type 0 where
  pub no_dot : includes_unit 46 (decimal n) ≡ false
  pub reads : decimal_value (decimal n) ≡ some n
  pub digit : has_digit (decimal n) ≡ true
  pub is_169 : same_units (units "169") (decimal n) ≡ (n == 169)
  pub is_254 : same_units (units "254") (decimal n) ≡ (n == 254)

pub byte_is_ok : (n : ℕ) → n < 256 → ByteOk n
unfolding byte_ok
byte_is_ok n low =
    parts (includes_unit 46 (decimal n)) (some_is n (decimal_value (decimal n)))
      (has_digit (decimal n)) (agree (same_units (units "169") (decimal n)) (n == 169))
      (agree (same_units (units "254") (decimal n)) (n == 254)) refl refl refl refl refl
      (every_below-true byte_ok 256 n bytes_table low)
  where
    parts :
        (p q r s t : Bool)
        → includes_unit 46 (decimal n) ≡ p
        → some_is n (decimal_value (decimal n)) ≡ q
        → has_digit (decimal n) ≡ r
        → agree (same_units (units "169") (decimal n)) (n == 169) ≡ s
        → agree (same_units (units "254") (decimal n)) (n == 254) ≡ t
        → (not p && q && r && s && t) ≡ true
        → ByteOk n
    parts false true true true true a b c d e h = record {
      no_dot = a;
      reads = some_is-eq n (decimal_value (decimal n)) b;
      digit = c;
      is_169 = agree-eq _ _ d;
      is_254 = agree-eq _ _ e;
    }
    parts true q r s t a b c d e h = absurd (ground arith)
    parts false false r s t a b c d e h = absurd (ground arith)
    parts false true false s t a b c d e h = absurd (ground arith)
    parts false true true false t a b c d e h = absurd (ground arith)
    parts false true true true false a b c d e h = absurd (ground arith)

unbracket_from-digit :
    (x : ℕ) (xs r : Units) → (leb 48 x && leb x 57) ≡ true → unbracket_from x xs r ≡ x ∷ xs
unfolding unbracket_from
unbracket_from-digit x xs [] h = refl
unbracket_from-digit x xs (z ∷ r) h =
    if_false (x == 91 && z == 93) (reverse r) (x ∷ xs) (no_bracket x (z == 93) h)
  where
    no_bracket : (x : ℕ) (q : Bool) → (leb 48 x && leb x 57) ≡ true → (x == 91 && q) ≡ false
    no_bracket x q h = ground arith

-- A text that starts with a digit has no brackets.
pub unbracket-digit : (x y : Units) → has_digit x ≡ true → unbracket (x ++ y) ≡ x ++ y
unfolding has_digit unbracket
unbracket-digit [] y h = absurd (false≢true h)
unbracket-digit (x ∷ xs) y h = unbracket_from-digit x (xs ++ y) (reverse (xs ++ y)) h

pub same_units-eq : (x y : Units) → same_units x y ≡ true → x ≡ y
unfolding same_units
same_units-eq [] [] h = refl
same_units-eq [] (b ∷ y) h = absurd (false≢true h)
same_units-eq (a ∷ x) [] h = absurd (false≢true h)
same_units-eq (a ∷ x) (b ∷ y) h =
    rw
      (
        (==_iff a b).0 (front (a == b) (same_units x y) h),
        same_units-eq x y (back (a == b) (same_units x y) h),
      )
      refl
  where
    front : (p q : Bool) → (p && q) ≡ true → p ≡ true
    front p q h = ground arith

    back : (p q : Bool) → (p && q) ≡ true → q ≡ true
    back p q h = ground arith

split_four :
    (w x y z : Units)
    → includes_unit 46 w ≡ false
    → includes_unit 46 x ≡ false
    → includes_unit 46 y ≡ false
    → includes_unit 46 z ≡ false
    → split_on 46 (w ++ 46 ∷ (x ++ 46 ∷ (y ++ 46 ∷ z))) ≡ w ∷ x ∷ y ∷ z ∷ []
split_four w x y z p q r s =
    split_on-append 46 w (x ++ 46 ∷ (y ++ 46 ∷ z)) p
    ∙ ap (λ l. w ∷ l)
        (split_on-append 46 x (y ++ 46 ∷ z) q
          ∙ ap (λ l. x ∷ l) (split_on-append 46 y z r ∙ ap (λ l. y ∷ l) (split_on-last 46 z s)))

-- The match of a dotted quad of bytes.
pub quad_of-dotted :
    (a b c d : ℕ)
    → ByteOk a
    → ByteOk b
    → ByteOk c
    → ByteOk d
    → quad_of (split_on 46 (dotted a b c d)) ≡ some (a, b)
unfolding quad_of first_two dotted
quad_of-dotted a b c d ok_a ok_b ok_c ok_d =
    ap quad_of (
      split_four (decimal a) (decimal b) (decimal c) (decimal d) ok_a.no_dot ok_b.no_dot ok_c.no_dot
        ok_d.no_dot)
    ∙ rw (ok_a.reads, ok_b.reads, ok_c.reads, ok_d.reads) refl

link_prefix : units "169.254." ≡ units "169" ++ 46 ∷ (units "254" ++ 46 ∷ [])
unfolding units
link_prefix = refl

no_dots : (includes_unit 46 (units "169") ≡ false) × (includes_unit 46 (units "254") ≡ false)
unfolding includes_unit units
no_dots = (refl, refl)

starts_with-nil : (x : Units) → starts_with [] x ≡ true
unfolding starts_with
starts_with-nil x = refl

pub link_local-dotted :
    (a b c d : ℕ)
    → ByteOk a
    → ByteOk b
    → starts_with (units "169.254.") (dotted a b c d) ≡ is_link_local a b
unfolding dotted is_link_local
link_local-dotted a b c d ok_a ok_b =
    let rest = decimal c ++ 46 ∷ decimal d in
    ap (λ p. starts_with p (decimal a ++ 46 ∷ (decimal b ++ 46 ∷ rest))) link_prefix
    ∙ (starts_with-append 46 (units "169") (units "254" ++ 46 ∷ []) (decimal a)
          (decimal b ++ 46 ∷ rest) no_dots.0 ok_a.no_dot
        ∙ (ap (λ q. same_units (units "169") (decimal a) && q)
              (starts_with-append 46 (units "254") [] (decimal b) rest no_dots.1 ok_b.no_dot)
            ∙ both (same_units (units "169") (decimal a)) (same_units (units "254") (decimal b))
                (starts_with [] rest) (a == 169) (b == 254) ok_a.is_169 ok_b.is_254
                (starts_with-nil rest)))
  where
    both : (p q r s t : Bool) → p ≡ s → q ≡ t → r ≡ true → (p && (q && r)) ≡ (s && t)
    both p q r s t e f g = ground arith
