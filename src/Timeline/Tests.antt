-- ===== src/Timeline/Tests.antt =====
-- A timeline with two entries.
use Prim.Native.String.{String}
use counter_terrorist.Common.{[], arith, err, ok, refl, some, string_eq, true, ℕ, ◌∷◌, ◌≡◌}
use counter_terrorist.Timeline.{
  Entry, Timeline, add_count, commit_chunk, delete_before, in_range, key_before, put, put_all,
  same_key, set_chunks, set_many,
}
use counter_terrorist.Timeline.Writes.{set_many-put_all}
use counter_terrorist.Timeline.Deletes.{delete_before-outcome}

abbrev item : ℕ → String → Entry ℕ
item time id = record { timestamp = time; id = id; contents = time }

abbrev two_items : Timeline ℕ
two_items = record { entries = item 1 "a" ∷ item 5 "b" ∷ []; events_count = some 2 }

set_many-put_all_example : set_many true (λ j. true) (item 3 "c" ∷ item 5 "b" ∷ []) two_items ≡ (
  record {
    entries = put_all (item 3 "c" ∷ item 5 "b" ∷ []) (item 1 "a" ∷ item 5 "b" ∷ []);
    events_count = some 4;
  },
  ok tt,
)
set_many-put_all_example =
    set_many-put_all (λ j. true) 2 (item 3 "c" ∷ item 5 "b" ∷ []) two_items (λ j. refl) refl
      (omega arith)

-- An entry that is written again is counted again.
counts_again :
    (set_many true (λ j. true) (item 5 "b" ∷ []) two_items).0
    ≡ record { entries = item 1 "a" ∷ item 5 "b" ∷ []; events_count = some 3 }
unfolding set_many set_chunks commit_chunk put_all put key_before same_key add_count
counts_again = refl

delete_before-outcome_example : delete_before true 4 two_items ≡ (two_items, err "RangeError")
unfolding in_range
delete_before-outcome_example = delete_before-outcome 4 two_items
