-- ===== src/Validation/Addresses/Blocks.antt =====
-- `isPrivateIp` on IPv4 addresses, against the networks in the notation of their masks.
use counter_terrorist.Common.{
  Bool, Bool-cases, Option, ap, arith, every_below, every_below-true, false, if◌then◌else◌, inl,
  inr, none, refl, some, some_inj, some_not_none, string_eq, subst, sym, true, ℕ, ◌*◌, ◌++◌, ◌+◌,
  ◌/◌, ◌<◌, ◌==◌, ◌^◌, ◌||◌, ◌∙◌, ◌∷◌, ◌≡◌,
}
use counter_terrorist.Validation.Addresses.{
  Units, block_of, classify_plain, decimal, decimal_value, digits_value, dotted, first_two,
  in_blocks, is_private_ip, quad_of, same_units, settle_plain, split_on, starts_with, unbracket,
  units,
}
use counter_terrorist.Validation.Addresses.Bytes.{
  ByteOk, agree, agree-eq, byte_is_ok, has_digit, is_link_local, link_local-dotted, quad_of-dotted,
  same_units-eq, unbracket-digit,
}

-- The number of an address, and whether it agrees with another one in the first `32 - host` bits.
abbrev pub address : ℕ → ℕ → ℕ → ℕ → ℕ
address a b c d = ((a * 256 + b) * 256 + c) * 256 + d

abbrev in_network : ℕ → ℕ → ℕ → Bool
in_network base host n = n / 2 ^ host == base / 2 ^ host

-- 127.0.0.0/8, 10.0.0.0/8, 172.16.0.0/12, 192.168.0.0/16, 100.64.0.0/10, 198.18.0.0/15, 0.0.0.0/8 and
-- 169.254.0.0/16.
unfoldable pub is_unroutable : ℕ → Bool
is_unroutable n =
    in_network (address 127 0 0 0) 24 n
    || in_network (address 10 0 0 0) 24 n
    || in_network (address 172 16 0 0) 20 n
    || in_network (address 192 168 0 0) 16 n
    || in_network (address 100 64 0 0) 22 n
    || in_network (address 198 18 0 0) 17 n
    || in_network (address 0 0 0 0) 24 n
    || in_network (address 169 254 0 0) 16 n

-- The same networks by the upper half of an address.
high_networks : ℕ → Bool
high_networks x =
    x / 256 == 127
    || x / 256 == 10
    || x / 16 == 2753
    || x == 49320
    || x / 64 == 401
    || x / 2 == 25353
    || x / 256 == 0
    || x == 43518

blocks_table :
    every_below
      (λ a.
        every_below
          (λ b. agree (is_link_local a b || in_blocks a b) (high_networks (a * 256 + b)))
          256)
      256
    ≡ true
unfolding every_below agree is_link_local in_blocks high_networks
blocks_table = refl

unroutable_high :
    (a b c d : ℕ)
    → c < 256
    → d < 256
    → is_unroutable (address a b c d) ≡ high_networks (a * 256 + b)
unfolding is_unroutable high_networks
unroutable_high a b c d low_c low_d =
    let x = a * 256 + b in
    let n = (x * 256 + c) * 256 + d in
    let e24 : n / 2 ^ 24 ≡ x / 256 = omega (arith, low_c, low_d) in
    let e20 : n / 2 ^ 20 ≡ x / 16 = omega (arith, low_c, low_d) in
    let e16 : n / 2 ^ 16 ≡ x = omega (arith, low_c, low_d) in
    let e22 : n / 2 ^ 22 ≡ x / 64 = omega (arith, low_c, low_d) in
    let e17 : n / 2 ^ 17 ≡ x / 2 = omega (arith, low_c, low_d) in rw (e24, e20, e16, e22, e17) refl

quad_localhost : quad_of (split_on 46 (units "localhost")) ≡ none
unfolding quad_of split_on units
quad_localhost = refl

quad_loopback : quad_of (split_on 46 (units "127.0.0.1")) ≡ some (127, 0)
unfolding quad_of first_two decimal_value digits_value split_on units
quad_loopback = refl

quad_zero : quad_of (split_on 46 (units "0.0.0.0")) ≡ some (0, 0)
unfolding quad_of first_two decimal_value digits_value split_on units
quad_zero = refl

-- A text that is one of the three names has one of their matches.
named :
    (host : Units) (a b : ℕ)
    → quad_of (split_on 46 host) ≡ some (a, b)
    → (same_units host (units "localhost")
        || same_units host (units "127.0.0.1")
        || same_units host (units "0.0.0.0"))
      ≡ true
    → in_blocks a b ≡ true
unfolding in_blocks
named host a b quad is = elim (Bool-cases (same_units host (units "localhost"))) [
  | inl e ↦ absurd (
      some_not_none (a, b)
        (sym quad ∙ (ap (λ h. quad_of (split_on 46 h)) (same_units-eq host _ e) ∙ quad_localhost)))
  | inr e ↦ elim (Bool-cases (same_units host (units "127.0.0.1"))) [
    | inl f ↦
        let same : some (127, 0) ≡ some (a, b) =
          sym quad_loopback
          ∙ (ap (λ h. quad_of (split_on 46 h)) (sym (same_units-eq host _ f)) ∙ quad) in
        subst (λ (p : ℕ × ℕ). in_blocks p.0 p.1 ≡ true) (some_inj (127, 0) (a, b) same) refl
    | inr f ↦
        let last : same_units host (units "0.0.0.0") ≡ true =
          third (same_units host (units "localhost")) (same_units host (units "127.0.0.1"))
            (same_units host (units "0.0.0.0")) e f is in
        let same : some (0, 0) ≡ some (a, b) =
          sym quad_zero
          ∙ (ap (λ h. quad_of (split_on 46 h)) (sym (same_units-eq host _ last)) ∙ quad) in
        subst (λ (p : ℕ × ℕ). in_blocks p.0 p.1 ≡ true) (some_inj (0, 0) (a, b) same) refl
  ]
]
  where
    third : (p q r : Bool) → p ≡ false → q ≡ false → (p || q || r) ≡ true → r ≡ true
    third p q r e f h = ground arith

or_right : (p q : Bool) → q ≡ true → true ≡ (p || q)
or_right p q h = ground arith

or_left : (p q : Bool) → true ≡ p → true ≡ (p || q)
or_left p q h = ground arith

or_skip : (p q : Bool) → false ≡ p → q ≡ (p || q)
or_skip p q h = ground arith

classify_plain-dotted :
    (a b c d : ℕ)
    → ByteOk a
    → ByteOk b
    → ByteOk c
    → ByteOk d
    → classify_plain (dotted a b c d) ≡ some (is_link_local a b || in_blocks a b)
unfolding classify_plain block_of
classify_plain-dotted a b c d ok_a ok_b ok_c ok_d =
    let host = dotted a b c d in
    let quad = quad_of-dotted a b c d ok_a ok_b ok_c ok_d in
    let link = link_local-dotted a b c d ok_a ok_b in
    settled
      (same_units host (units "localhost")
        || same_units host (units "127.0.0.1")
        || same_units host (units "0.0.0.0"))
      (starts_with (units "169.254.") host) (quad_of (split_on 46 host)) (named host a b quad) link
      quad
  where
    settled :
        (name link : Bool) (quad : Option (ℕ × ℕ))
        → (name ≡ true → in_blocks a b ≡ true)
        → link ≡ is_link_local a b
        → quad ≡ some (a, b)
        → (if name then some true else if link then some true else block_of quad)
          ≡ some (is_link_local a b || in_blocks a b)
    settled true link quad is e f = ap some (or_right (is_link_local a b) (in_blocks a b) (is refl))
    settled false true quad is e f = ap some (or_left (is_link_local a b) (in_blocks a b) e)
    settled false false quad is e f = rw f (ap some (or_skip (is_link_local a b) (in_blocks a b) e))

unbracket-dotted :
    (a b c d : ℕ) → has_digit (decimal a) ≡ true → unbracket (dotted a b c d) ≡ dotted a b c d
unfolding dotted
unbracket-dotted a b c d h =
    unbracket-digit (decimal a) (46 ∷ (decimal b ++ 46 ∷ (decimal c ++ 46 ∷ decimal d))) h

settle_plain-some : (host : Units) (r : Bool) → settle_plain host (some r) ≡ r
unfolding settle_plain
settle_plain-some host r = refl

blocks_high :
    (a b : ℕ)
    → a < 256
    → b < 256
    → (is_link_local a b || in_blocks a b) ≡ high_networks (a * 256 + b)
blocks_high a b low_a low_b =
    let row : ℕ → ℕ → Bool =
      λ x y. agree (is_link_local x y || in_blocks x y) (high_networks (x * 256 + y)) in
    agree-eq _ _ (
      every_below-true (row a) 256 b
        (every_below-true (λ x. every_below (row x) 256) 256 a blocks_table low_a) low_b)

-- For every IPv4 address in its usual spelling, `isPrivateIp` says whether it is in one of the networks
-- 127.0.0.0/8, 10.0.0.0/8, 172.16.0.0/12, 192.168.0.0/16, 100.64.0.0/10, 198.18.0.0/15, 0.0.0.0/8 and
-- 169.254.0.0/16, by the bits of the address.
pub is_private_ip-dotted :
    (a b c d : ℕ)
    → a < 256
    → b < 256
    → c < 256
    → d < 256
    → is_private_ip (dotted a b c d) ≡ is_unroutable (address a b c d)
unfolding is_private_ip
is_private_ip-dotted a b c d low_a low_b low_c low_d =
    let ok_a = byte_is_ok a low_a in
    let plain = unbracket-dotted a b c d ok_a.digit in
    let classified =
      classify_plain-dotted a b c d ok_a (byte_is_ok b low_b) (byte_is_ok c low_c)
        (byte_is_ok d low_d) in
    ap (λ h. settle_plain h (classify_plain h)) plain
    ∙ (ap (settle_plain (dotted a b c d)) classified
        ∙ (settle_plain-some (dotted a b c d) (is_link_local a b || in_blocks a b)
            ∙ (blocks_high a b low_a low_b ∙ sym (unroutable_high a b c d low_c low_d))))
