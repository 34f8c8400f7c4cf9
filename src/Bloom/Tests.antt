-- ===== src/Bloom/Tests.antt =====
-- A filter of two values.
use counter_terrorist.Common.{[], false, refl, string_eq, ◌∷◌, ◌≡◌}
use counter_terrorist.Bloom.{
  add, get_hashes, has, hashes_from, is_set, new_filter, poly_hash, set_bit, set_bits, units,
}
use counter_terrorist.Bloom.Members.{add_all}

absent_test : has "10.0.0.3" (add_all ("10.0.0.2" ∷ "10.0.0.1" ∷ []) (new_filter 64 3)) ≡ false
unfolding has add new_filter get_hashes set_bits set_bit is_set units poly_hash hashes_from
absent_test = refl
