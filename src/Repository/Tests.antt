-- ===== src/Repository/Tests.antt =====
-- Writes with and without interference.
use counter_terrorist.Common.{List, Map, [], false, refl, ℕ, ◌∷◌, ◌≡◌}
use counter_terrorist.Repository.{Store, is_permitted, kv_set, write, write_attempts}

abbrev store : Store ℕ
store = record { prefix = "session"; is_read_only = false; entries = ("a", 1) ∷ [] }

abbrev others : List (Map ℕ)
others = (("a", 2) ∷ []) ∷ []

-- The other writer's value is kept, and the new key is added.
write_test : (kv_set others "b" 7 store).0.entries ≡ ("a", 2) ∷ ("b", 7) ∷ []
unfolding kv_set write write_attempts is_permitted
write_test = refl
