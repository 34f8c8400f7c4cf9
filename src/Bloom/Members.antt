-- ===== src/Bloom/Members.antt =====
-- A filter has what was added to it.
use Prim.Native.String.{String}
use Prim.Native.Nat.{bit_or}
use native.Mathlib.Decide.{ℕ_discrete}
use native.Mathlib.Nat.{mod-lt}
use counter_terrorist.Common.{
  All, Bool-cases, List, [], all, ap, arith, get_or, has_key, inl, inr, length, length-set, refl,
  replicate, set, string_eq, subst, suc, true, zero, ℕ, ◌%◌, ◌+◌, ◌/◌, ◌<◌, ◌===◌, ◌^◌, ◌∙◌, ◌∷◌,
  ◌≡◌, ◌≢◌, ◌≤◌,
}
use counter_terrorist.Bloom.{
  BloomFilter, add, get_hashes, has, hashes_from, is_set, new_filter, set_bit, set_bits,
}
use counter_terrorist.Bloom.Bytes.{or-set, or-byte, or-keeps}

abbrev pub IsBytes : List ℕ → Type 0
IsBytes bits = All (λ b. b < 256) bits

get_or-set_same : (bits : List ℕ) (i v d : ℕ) → i < length bits → get_or (set bits i v) i d ≡ v
get_or-set_same [] i v d lt = absurd (omega (arith, lt))
get_or-set_same (b ∷ bits) zero v d lt = refl
get_or-set_same (b ∷ bits) (suc i) v d lt = get_or-set_same bits i v d (omega (arith, lt))

get_or-set_other :
    (bits : List ℕ) (i j v d : ℕ) → i ≢ j → get_or (set bits i v) j d ≡ get_or bits j d
get_or-set_other [] i j v d ne = refl
get_or-set_other (b ∷ bits) zero zero v d ne = absurd (ne refl)
get_or-set_other (b ∷ bits) zero (suc j) v d ne = refl
get_or-set_other (b ∷ bits) (suc i) zero v d ne = refl
get_or-set_other (b ∷ bits) (suc i) (suc j) v d ne =
    get_or-set_other bits i j v d (λ e. ne (ap suc e))

get_or-byte : (bits : List ℕ) (i : ℕ) → IsBytes bits → get_or bits i 0 < 256
get_or-byte [] i h = omega arith
get_or-byte (b ∷ bits) zero h = h.0
get_or-byte (b ∷ bits) (suc i) h = get_or-byte bits i h.1

set-IsBytes : (bits : List ℕ) (i v : ℕ) → v < 256 → IsBytes bits → IsBytes (set bits i v)
set-IsBytes [] i v lt h = tt
set-IsBytes (b ∷ bits) zero v lt h = (lt, h.1)
set-IsBytes (b ∷ bits) (suc i) v lt h = (h.0, set-IsBytes bits i v lt h.1)

-- In an array with room for that many bits.
abbrev pub Holds : ℕ → List ℕ → Type 0
Holds size bits = IsBytes bits × (length bits ≡ (size + 7) / 8)

set_bit-Holds : (size : ℕ) (bits : List ℕ) (h : ℕ) → Holds size bits → Holds size (set_bit bits h)
unfolding set_bit
set_bit-Holds size bits h (bytes, len) = (
  set-IsBytes bits (h / 8) _ (or-byte _ (h % 8) (get_or-byte bits (h / 8) bytes) (omega arith))
      bytes,
  length-set bits (h / 8) _ ∙ len,
)

set_bit-set :
    (size : ℕ) (bits : List ℕ) (h : ℕ)
    → Holds size bits
    → h < size
    → is_set (set_bit bits h) h ≡ true
unfolding set_bit is_set
set_bit-set size bits h (bytes, len) lt =
    let room : h / 8 < length bits = omega (arith, len, lt) in
    rw (get_or-set_same bits (h / 8) (bit_or (get_or bits (h / 8) 0) (2 ^ (h % 8))) 0 room)
      (or-set _ (h % 8) (get_or-byte bits (h / 8) bytes) (omega arith))

set_bit-keeps :
    (size : ℕ) (bits : List ℕ) (g h : ℕ)
    → Holds size bits
    → g < size
    → is_set bits h ≡ true
    → is_set (set_bit bits g) h ≡ true
unfolding set_bit is_set
set_bit-keeps size bits g h (bytes, len) lt on = elim (ℕ_discrete (g / 8) (h / 8)) [
  | yes e ↦
      let room : g / 8 < length bits = omega (arith, len, lt) in
      let here =
        get_or-set_same bits (g / 8) (bit_or (get_or bits (g / 8) 0) (2 ^ (g % 8))) 0 room in
      rw (← e) (
        rw here (
          or-keeps _ (g % 8) (h % 8) (get_or-byte bits (g / 8) bytes) (omega arith) (omega arith)
            (rw (← e) at on)))
  | no ne ↦
      rw (get_or-set_other bits (g / 8) (h / 8) (bit_or (get_or bits (g / 8) 0) (2 ^ (g % 8))) 0 ne)
        on
]

abbrev AllBelow : ℕ → List ℕ → Type 0
AllBelow size hs = All (λ h. h < size) hs

set_bits-Holds : (size : ℕ) (bits hs : List ℕ) → Holds size bits → Holds size (set_bits bits hs)
unfolding set_bits
set_bits-Holds size bits [] holds = holds
set_bits-Holds size bits (h ∷ hs) holds =
    set_bits-Holds size (set_bit bits h) hs (set_bit-Holds size bits h holds)

set_bits-keeps :
    (size : ℕ) (bits hs : List ℕ) (h : ℕ)
    → Holds size bits
    → AllBelow size hs
    → is_set bits h ≡ true
    → is_set (set_bits bits hs) h ≡ true
unfolding set_bits
set_bits-keeps size bits [] h holds below on = on
set_bits-keeps size bits (g ∷ hs) h holds below on =
    set_bits-keeps size (set_bit bits g) hs h (set_bit-Holds size bits g holds) below.1
      (set_bit-keeps size bits g h holds below.0 on)

set_bits-all :
    (size : ℕ) (bits hs : List ℕ)
    → Holds size bits
    → AllBelow size hs
    → all (is_set (set_bits bits hs)) hs ≡ true
unfolding set_bits
set_bits-all size bits [] holds below = refl
set_bits-all size bits (h ∷ hs) holds below =
    let next = set_bit-Holds size bits h holds in
    let first : is_set (set_bits (set_bit bits h) hs) h ≡ true =
      set_bits-keeps size (set_bit bits h) hs h next below.1
        (set_bit-set size bits h holds below.0) in
    rw first (set_bits-all size (set_bit bits h) hs next below.1)

set_bits-keeps_all :
    (size : ℕ) (bits hs gs : List ℕ)
    → Holds size bits
    → AllBelow size hs
    → all (is_set bits) gs ≡ true
    → all (is_set (set_bits bits hs)) gs ≡ true
set_bits-keeps_all size bits hs [] holds below on = refl
set_bits-keeps_all size bits hs (g ∷ gs) holds below on =
    let (first, rest) : (is_set bits g ≡ true) × (all (is_set bits) gs ≡ true) = ground arith in
    rw (set_bits-keeps size bits hs g holds below first)
      (set_bits-keeps_all size bits hs gs holds below rest)

hashes_from-AllBelow :
    (size h1 h2 i left : ℕ) → 1 ≤ size → AllBelow size (hashes_from size h1 h2 i left)
unfolding hashes_from
hashes_from-AllBelow size h1 h2 i zero one = tt
hashes_from-AllBelow size h1 h2 i (suc left) one =
    (mod-lt _ (omega (arith, one)), hashes_from-AllBelow size h1 h2 (i + 1) left one)

-- Values added one after the other.
abbrev pub add_all : List String → BloomFilter → BloomFilter
add_all [] f = f
add_all (v ∷ vs) f = add_all vs (add v f)

abbrev pub IsFilter : BloomFilter → Type 0
IsFilter f = (1 ≤ f.size) × Holds f.size f.bits

pub add-IsFilter : (v : String) (f : BloomFilter) → IsFilter f → IsFilter (add v f)
unfolding add
add-IsFilter v f (one, holds) = (one, set_bits-Holds f.size f.bits (get_hashes f v) holds)

pub add-has : (v : String) (f : BloomFilter) → IsFilter f → has v (add v f) ≡ true
unfolding add has get_hashes
add-has v f (one, holds) =
    set_bits-all f.size f.bits _ holds (hashes_from-AllBelow f.size _ _ 0 f.hash_count one)

add-keeps : (v w : String) (f : BloomFilter) → IsFilter f → has v f ≡ true → has v (add w f) ≡ true
unfolding add has get_hashes
add-keeps v w f (one, holds) on =
    set_bits-keeps_all f.size f.bits _ _ holds (hashes_from-AllBelow f.size _ _ 0 f.hash_count one)
      on

pub add_all-keeps :
    (v : String) (vs : List String) (f : BloomFilter)
    → IsFilter f
    → has v f ≡ true
    → has v (add_all vs f) ≡ true
add_all-keeps v [] f filter on = on
add_all-keeps v (w ∷ vs) f filter on =
    add_all-keeps v vs (add w f) (add-IsFilter w f filter) (add-keeps v w f filter on)

add_all-member :
    (v : String) (vs : List String) (f : BloomFilter)
    → IsFilter f
    → has_key v vs ≡ true
    → has v (add_all vs f) ≡ true
add_all-member v [] f filter h = absurd (cc)
add_all-member v (w ∷ vs) f filter h = elim (Bool-cases (w === v)) [
  | inl e ↦
      let here : has v (add w f) ≡ true =
        subst (λ x. has x (add w f) ≡ true) ((string_eq.same_iff w v).0 e) (add-has w f filter) in
      add_all-keeps v vs (add w f) (add-IsFilter w f filter) here
  | inr n ↦ add_all-member v vs (add w f) (add-IsFilter w f filter) (rw n at h)
]

pub replicate-IsBytes : (n : ℕ) → IsBytes (replicate n 0)
replicate-IsBytes zero = tt
replicate-IsBytes (suc n) = (omega arith, replicate-IsBytes n)

pub length-replicate : (n : ℕ) → length {A = ℕ} (replicate n 0) ≡ n
length-replicate zero = refl
length-replicate (suc n) = ap suc (length-replicate n)

pub new_filter-IsFilter : (size hash_count : ℕ) → 1 ≤ size → IsFilter (new_filter size hash_count)
unfolding new_filter
new_filter-IsFilter size hash_count one =
    (one, (replicate-IsBytes ((size + 7) / 8), length-replicate ((size + 7) / 8)))

-- A filter of at least one bit has each value that was added to it, in any number and order.
pub has-add_all :
    (size hash_count : ℕ) (v : String) (vs : List String)
    → 1 ≤ size
    → has_key v vs ≡ true
    → has v (add_all vs (new_filter size hash_count)) ≡ true
has-add_all size hash_count v vs one member =
    add_all-member v vs (new_filter size hash_count) (new_filter-IsFilter size hash_count one)
      member
