-- ===== src/BoundedMap/Tests.antt =====
-- A map of two entries that a third one displaces.
use counter_terrorist.BoundedMap.Lru.{lru_delete, lru_get, lru_set}
use counter_terrorist.Common.{List, [], length, none, refl, some, string_eq, true, ℕ, ◌∷◌, ◌≡◌, ◌≤◌}
use counter_terrorist.BoundedMap.{new_map, delete_value, get_value, set_value}
use counter_terrorist.BoundedMap.Runs.{
  Call, Reply, run_map-answers, run_map-size, delete_call, deleted, done, get_call, run_map,
  set_call, value,
}

abbrev calls : List (Call ℕ)
calls =
    set_call "a" 1
    ∷ set_call "b" 2
    ∷ get_call "a"
    ∷ set_call "c" 3
    ∷ get_call "b"
    ∷ delete_call "a"
    ∷ []

abbrev answers : List (Reply ℕ)
answers = done ∷ done ∷ value (some 1) ∷ done ∷ value none ∷ deleted true ∷ []

nodes_answer : (run_map calls (new_map 2)).1 ≡ answers
unfolding set_value get_value delete_value new_map
nodes_answer = refl

run_map-answers_example : (run_map calls (new_map 2)).1 ≡ answers
unfolding lru_set lru_get lru_delete
run_map-answers_example = run_map-answers 2 calls

run_map-size_example : length (run_map calls (new_map 2)).0.cache ≤ 2
run_map-size_example = run_map-size 2 calls

-- A map without room keeps one entry.
keeps_one : length (run_map {V = ℕ} (set_call "a" 1 ∷ []) (new_map 0)).0.cache ≡ 1
unfolding set_value new_map
keeps_one = refl
