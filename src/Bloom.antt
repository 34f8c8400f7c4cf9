-- ===== src/Bloom.antt =====
-- src/orchestrator/core/cache.ts: `BloomFilter`. The bytes of the array are numbers below 256; hashes are
-- 32-bit words, whose wrap-around (`>>> 0`) is written out.
pub mod Bytes
pub mod Members
mod Tests
use Prim.Native.String.{String}
use Prim.Native.Nat.{bit_and}
use Prim.Native.Nat.{bit_or}
use Prim.Native.String
use Prim.Native.Char.{code}
use counter_terrorist.Common.{
  Bool, List, [], all, get_or, if◌then◌else◌, length, ltb, not, replicate, set, suc, zero, ℕ, ◌%◌,
  ◌*◌, ◌+◌, ◌-◌, ◌/◌, ◌==◌, ◌^◌, ◌∷◌,
}

pub record BloomFilter : Type 0 where
  pub bits : List ℕ
  pub size : ℕ
  pub hash_count : ℕ

-- The constructor.
unfoldable pub new_filter : ℕ → ℕ → BloomFilter
new_filter size hash_count = record {
  bits = replicate ((size + 7) / 8) 0;
  size = size;
  hash_count = hash_count;
}

-- The UTF-16 units that `charCodeAt` reads.
unfoldable pub units : String → List ℕ
units String.[] = []
units (String.◌∷◌ c s) =
    let rest = units s in
    let above = code c - 65536 in
    if ltb (code c) 65536
    then code c ∷ rest
    else (55296 + above / 1024) ∷ (56320 + above % 1024) ∷ rest

unfoldable pub poly_hash : ℕ → ℕ → List ℕ → ℕ
poly_hash base h [] = h
poly_hash base h (c ∷ cs) = poly_hash base ((h * base + c) % 2 ^ 32) cs

unfoldable pub hashes_from : ℕ → ℕ → ℕ → ℕ → ℕ → List ℕ
hashes_from size h1 h2 i zero = []
hashes_from size h1 h2 i (suc left) = (h1 + i * h2) % size ∷ hashes_from size h1 h2 (i + 1) left

-- `getHashes`.
unfoldable pub get_hashes : BloomFilter → String → List ℕ
unfolding units poly_hash hashes_from
get_hashes f val =
    hashes_from f.size (poly_hash 31 0 (units val)) (poly_hash 37 0 (units val)) 0 f.hash_count

-- `this.bits[byteIdx] |= (1 << bitIdx)`.
unfoldable pub set_bit : List ℕ → ℕ → List ℕ
set_bit bits h = set bits (h / 8) (bit_or (get_or bits (h / 8) 0) (2 ^ (h % 8)))

-- `this.bits[byteIdx] & (1 << bitIdx)` is not zero.
unfoldable pub is_set : List ℕ → ℕ → Bool
is_set bits h = not (bit_and (get_or bits (h / 8) 0) (2 ^ (h % 8)) == 0)

unfoldable pub set_bits : List ℕ → List ℕ → List ℕ
unfolding set_bit
set_bits bits [] = bits
set_bits bits (h ∷ hs) = set_bits (set_bit bits h) hs

-- `add`, `has` and `clear`.
unfoldable pub add : String → BloomFilter → BloomFilter
unfolding get_hashes set_bits
add val f = record f { bits = set_bits f.bits (get_hashes f val) }

unfoldable pub has : String → BloomFilter → Bool
unfolding get_hashes is_set
has val f = all (is_set f.bits) (get_hashes f val)

unfoldable pub clear : BloomFilter → BloomFilter
clear f = record f { bits = replicate (length f.bits) 0 }
