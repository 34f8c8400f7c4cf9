-- ===== src/Validation/Tests.antt =====
-- Arrays of two bytes.
use counter_terrorist.Common.{List, [], arith, false, refl, string_eq, true, ℕ, ◌↔◌, ◌∷◌, ◌≡◌}
use counter_terrorist.Validation.Compare.{secure_compare_bytes_iff}
use counter_terrorist.Validation.{secure_compare_bytes, diff_from}

differ_test : secure_compare_bytes (1 ∷ 255 ∷ []) (1 ∷ 254 ∷ []) ≡ false
unfolding secure_compare_bytes diff_from
differ_test = refl

same_test : secure_compare_bytes (1 ∷ 255 ∷ []) (1 ∷ 255 ∷ []) ≡ true
unfolding secure_compare_bytes diff_from
same_test = refl

secure_compare_bytes_iff_example :
    (secure_compare_bytes (1 ∷ 255 ∷ []) (1 ∷ 254 ∷ []) ≡ true)
    ↔ ◌≡◌ {A = List ℕ} (1 ∷ 255 ∷ []) (1 ∷ 254 ∷ [])
secure_compare_bytes_iff_example =
    secure_compare_bytes_iff (1 ∷ 255 ∷ []) (1 ∷ 254 ∷ []) (ground arith, (ground arith, tt))
      (ground arith, (ground arith, tt))
