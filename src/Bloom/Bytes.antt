-- ===== src/Bloom/Bytes.antt =====
-- One bit of a byte, by a table of all bytes and bits.
use Prim.Native.Nat.{bit_and}
use Prim.Native.Nat.{bit_or}
use counter_terrorist.Common.{
  Bool, arith, every_below, every_below-true, ltb, not, refl, true, ℕ, ◌&&◌, ◌<◌, ◌==◌, ◌^◌, ◌||◌,
  ◌≡◌,
}

bit_of : ℕ → ℕ → Bool
bit_of byte k = not (bit_and byte (2 ^ k) == 0)

-- The bit is set in the new byte, which is a byte, and so is each bit of the old one.
entry_ok : ℕ → ℕ → ℕ → Bool
unfolding bit_of
entry_ok byte k j =
    bit_of (bit_or byte (2 ^ k)) k
    && ltb (bit_or byte (2 ^ k)) 256
    && (not (bit_of byte j) || bit_of (bit_or byte (2 ^ k)) j)

table : every_below (λ byte. every_below (λ k. every_below (λ j. entry_ok byte k j) 8) 8) 256 ≡ true
unfolding every_below entry_ok bit_of
table = refl

checked : (byte k j : ℕ) → byte < 256 → k < 8 → j < 8 → entry_ok byte k j ≡ true
checked byte k j hb hk hj =
    every_below-true _ 8 j
      (every_below-true (λ k. every_below (λ j. entry_ok byte k j) 8) 8 k
        (every_below-true (λ byte. every_below (λ k. every_below (λ j. entry_ok byte k j) 8) 8) 256
          byte table hb)
        hk)
      hj

pub or-set :
    (byte k : ℕ) → byte < 256 → k < 8 → not (bit_and (bit_or byte (2 ^ k)) (2 ^ k) == 0) ≡ true
unfolding entry_ok bit_of
or-set byte k hb hk = let t = checked byte k k hb hk hk in ground arith

pub or-byte : (byte k : ℕ) → byte < 256 → k < 8 → bit_or byte (2 ^ k) < 256
unfolding entry_ok bit_of
or-byte byte k hb hk = let t = checked byte k k hb hk hk in ground arith

pub or-keeps :
    (byte k j : ℕ)
    → byte < 256
    → k < 8
    → j < 8
    → not (bit_and byte (2 ^ j) == 0) ≡ true
    → not (bit_and (bit_or byte (2 ^ k)) (2 ^ j) == 0) ≡ true
unfolding entry_ok bit_of
or-keeps byte k j hb hk hj h = let t = checked byte k j hb hk hj in ground arith
