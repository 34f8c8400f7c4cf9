-- ===== src/Quorum/Tests.antt =====
-- The thresholds and the votes of four nodes.
use counter_terrorist.Common.{[], refl, ◌↔◌, ◌∷◌, ◌≡◌, ◌≤◌}
use counter_terrorist.Quorum.{add_approval, approved, includes, new_saga, pending, record_vote}
use counter_terrorist.Quorum.Votes.{approved_iff, count_different}
use mathlib.Core.List.{foldl}

approved_iff_example :
    ((foldl record_vote (new_saga "block" "a" 3 4 0) ("b" ∷ "b" ∷ "c" ∷ [])).status ≡ approved)
    ↔ (3 ≤ count_different [] ("a" ∷ "b" ∷ "b" ∷ "c" ∷ []))
approved_iff_example = approved_iff "block" "a" 3 4 0 "b" ("b" ∷ "c" ∷ [])

count_test : count_different [] ("a" ∷ "b" ∷ "b" ∷ "c" ∷ []) ≡ 3
unfolding count_different
count_test = refl

-- A repeated vote counts once.
votes_test : (foldl record_vote (new_saga "block" "a" 3 4 0) ("b" ∷ "b" ∷ [])).status ≡ pending
unfolding record_vote add_approval includes new_saga
votes_test = refl

votes_test' :
    (foldl record_vote (new_saga "block" "a" 3 4 0) ("b" ∷ "b" ∷ "c" ∷ [])).status ≡ approved
unfolding record_vote add_approval includes new_saga
votes_test' = refl
