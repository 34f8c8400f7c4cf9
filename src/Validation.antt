-- ===== src/Validation.antt =====
-- src/orchestrator/infrastructure/system/validation.ts: the comparisons of secrets. `mac` stands for the
-- HMAC with the process's key.
pub mod Compare
pub mod Addresses
pub mod Webhook
mod Tests
use Prim.Native.String.{String}
use Prim.Native.Nat.{bit_xor}
use Prim.Native.Nat.{bit_or}
use counter_terrorist.Common.{
  Bool, List, Option, [], false, if◌then◌else◌, length, none, some, true, ℕ, ◌&&◌, ◌==◌, ◌∷◌,
}

-- The loop of `secureCompareBytes`: `diff |= a[i] ^ b[i]`.
unfoldable pub diff_from : ℕ → List ℕ → List ℕ → ℕ
diff_from diff [] ys = diff
diff_from diff (a ∷ xs) [] = diff
diff_from diff (a ∷ xs) (b ∷ ys) = diff_from (bit_or diff (bit_xor a b)) xs ys

-- `secureCompareBytes`.
unfoldable pub secure_compare_bytes : List ℕ → List ℕ → Bool
unfolding diff_from
secure_compare_bytes xs ys = if length xs == length ys then diff_from 0 xs ys == 0 else false

abbrev or_empty : Option String → String
or_empty none = ""
or_empty (some s) = s

abbrev is_given : Option String → Bool
is_given none = false
is_given (some s) = true

-- `secureCompare`.
unfoldable pub secure_compare : (String → List ℕ) → Option String → Option String → Bool
unfolding secure_compare_bytes
secure_compare mac a b =
    secure_compare_bytes (mac (or_empty a)) (mac (or_empty b)) && is_given a && is_given b
