-- ===== src/Validation/Compare.antt =====
-- The comparison is equality.
use mathlib.Core.Path.{ap₂}
use Prim.Native.String.{String}
use Prim.Native.Nat.{bit_xor}
use Prim.Native.Nat.{bit_or}
use counter_terrorist.Common.{
  All, Bool, List, Option, [], arith, every_below, every_below-true, false, if◌then◌else◌, length,
  ltb, none, not, refl, some, string_eq, subst, true, ℕ, ◌&&◌, ◌<◌, ◌==◌, ◌||◌, ◌↔◌, ◌∷◌, ◌≡◌,
}
use counter_terrorist.Validation.{diff_from, secure_compare_bytes, secure_compare}

abbrev pub IsBytes : List ℕ → Type 0
IsBytes bytes = All (λ b. b < 256) bytes

xor_ok : ℕ → ℕ → Bool
xor_ok a b =
    ltb (bit_xor a b) 256
    && (not (bit_xor a b == 0) || a == b)
    && (not (a == b) || bit_xor a b == 0)

or_ok : ℕ → ℕ → Bool
or_ok d e = ltb (bit_or d e) 256 && (not (bit_or d e == 0) || (d == 0 && e == 0))

tables : every_below (λ a. every_below (λ b. xor_ok a b && or_ok a b) 256) 256 ≡ true
unfolding every_below xor_ok or_ok
tables = refl

checked : (a b : ℕ) → a < 256 → b < 256 → xor_ok a b && or_ok a b ≡ true
checked a b ha hb =
    every_below-true (λ b. xor_ok a b && or_ok a b) 256 b
      (every_below-true (λ a. every_below (λ b. xor_ok a b && or_ok a b) 256) 256 a tables ha) hb

bit_xor-byte : (a b : ℕ) → a < 256 → b < 256 → bit_xor a b < 256
unfolding xor_ok
bit_xor-byte a b ha hb = let t = checked a b ha hb in ground arith

bit_xor-zero : (a b : ℕ) → a < 256 → b < 256 → bit_xor a b ≡ 0 → a ≡ b
unfolding xor_ok
bit_xor-zero a b ha hb h = let t = checked a b ha hb in ground arith

bit_xor_self : (a : ℕ) → a < 256 → bit_xor a a ≡ 0
unfolding xor_ok
bit_xor_self a ha = let t = checked a a ha ha in ground arith

bit_or-byte : (d e : ℕ) → d < 256 → e < 256 → bit_or d e < 256
unfolding or_ok
bit_or-byte d e hd he = let t = checked d e hd he in ground arith

bit_or-zero : (d e : ℕ) → d < 256 → e < 256 → bit_or d e ≡ 0 → (d ≡ 0) × (e ≡ 0)
unfolding or_ok
bit_or-zero d e hd he h = let t = checked d e hd he in ground arith

diff_from-zero :
    (diff : ℕ) (xs ys : List ℕ)
    → diff < 256
    → IsBytes xs
    → IsBytes ys
    → length xs ≡ length ys
    → diff_from diff xs ys ≡ 0
    → (diff ≡ 0) × (xs ≡ ys)
unfolding diff_from
diff_from-zero diff [] [] hd ha hb len h = (h, refl)
diff_from-zero diff [] (b ∷ ys) hd ha hb len h = absurd (omega (arith, len))
diff_from-zero diff (a ∷ xs) [] hd ha hb len h = absurd (omega (arith, len))
diff_from-zero diff (a ∷ xs) (b ∷ ys) hd ha hb len h =
    let x : bit_xor a b < 256 = bit_xor-byte a b ha.0 hb.0 in
    let (now, rest) =
      diff_from-zero (bit_or diff (bit_xor a b)) xs ys (bit_or-byte diff (bit_xor a b) hd x) ha.1
        hb.1 (omega (arith, len)) h in
    let (zero_diff, zero_xor) = bit_or-zero diff (bit_xor a b) hd x now in
    (zero_diff, ap₂ (λ h t. h ∷ t) (bit_xor-zero a b ha.0 hb.0 zero_xor) rest)

diff_from_self : (xs : List ℕ) → IsBytes xs → diff_from 0 xs xs ≡ 0
unfolding diff_from
diff_from_self [] h = refl
diff_from_self (a ∷ xs) h = rw (bit_xor_self a h.0) (diff_from_self xs h.1)

-- Two arrays of bytes are taken for the same exactly if they are the same.
pub secure_compare_bytes_iff :
    (xs ys : List ℕ) → IsBytes xs → IsBytes ys → (secure_compare_bytes xs ys ≡ true) ↔ (xs ≡ ys)
unfolding secure_compare_bytes
secure_compare_bytes_iff xs ys ha hb = (
  λ h.
      let (len, zero_diff) : (length xs ≡ length ys) × (diff_from 0 xs ys ≡ 0) = ground arith in
      (diff_from-zero 0 xs ys (omega arith) ha hb len zero_diff).1,
  λ same.
      subst (λ cs. (if length xs == length cs then diff_from 0 xs cs == 0 else false) ≡ true) same
        (let len : (length xs == length xs) ≡ true = ground arith in
          rw len (rw (diff_from_self xs ha) refl)),
)

-- A secret is accepted for itself, and a missing one never.
pub secure_compare_self :
    (mac : String → List ℕ) (s : String) (o : Option String)
    → IsBytes (mac s)
    → (secure_compare mac (some s) (some s) ≡ true)
      × (secure_compare mac none o ≡ false)
      × (secure_compare mac o none ≡ false)
unfolding secure_compare
secure_compare_self mac s o bytes = (
  rw ((secure_compare_bytes_iff (mac s) (mac s) bytes bytes).1 refl) refl,
  ground arith,
  ground arith,
)
