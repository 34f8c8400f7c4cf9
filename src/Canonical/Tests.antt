-- ===== src/Canonical/Tests.antt =====
-- Canonical texts and their limits at concrete values.
use counter_terrorist.Common.{err, ok, refl, some, ◌↔◌, ◌≡◌}
use counter_terrorist.Canonical.{
  arr, canonical_stringify, cons, depth_error, end, field, nil, null, num, obj, stringify_fields,
  stringify_items, undefined,
}
use counter_terrorist.Canonical.Limits.{InLimits, IsOk, canonical_stringify-IsOk_iff}

program : Unit {0}
unfolding canonical_stringify stringify_items stringify_fields
program = tt

-- The keys are sorted; absent values print as nothing in an array and as a word in an object.
sorted_keys :
    canonical_stringify 0
      (obj (field "b" (arr (cons (num "1") (cons undefined nil))) (field "a" undefined end)))
    ≡ ok (some "{\"a\":undefined,\"b\":[1,]}")
unfolding program
sorted_keys = refl

nested : canonical_stringify 10 (arr (cons null nil)) ≡ err depth_error
unfolding program
nested = refl

canonical_stringify-IsOk_iff_example :
    IsOk (canonical_stringify 10 (arr (cons null nil))) ↔ InLimits 10 (arr (cons null nil))
canonical_stringify-IsOk_iff_example = canonical_stringify-IsOk_iff 10 (arr (cons null nil))
