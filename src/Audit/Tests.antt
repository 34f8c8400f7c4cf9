-- ===== src/Audit/Tests.antt =====
-- A service that logs one event about itself, and takes a checkpoint from another node.
use counter_terrorist.Audit.Held.{held}
use counter_terrorist.Canonical.Limits.{IsOk}
use counter_terrorist.Canonical.{cons, arr, field, Json, end, nil, compute_hash}
use mathlib.Core.Bool.{false≢true}
use Prim.Native.String.{String}
use counter_terrorist.Common.{
  All, List, [], false, length, none, ok, refl, some, string_eq, suc, sym, true, zero, ◌++◌, ◌===◌,
  ◌∙◌, ◌∷◌, ◌≡◌, ◌≢◌,
}
use counter_terrorist.Audit.History.{History, Undisturbed}
use counter_terrorist.Audit.History.{
  adopted, fresh, logged, processed, sync_checked, sync_saved, went_on,
}
use counter_terrorist.Audit.Process.{
  Answers, append_event, begin_entry, draft, end_sealing, process_entry, process_turn, seal_entry,
  settle_entry,
}
use counter_terrorist.Audit.Sync.{
  sync_verdict, adopt_event, check_synced, heal_draft, save_event, set_head, sync_event,
}
use counter_terrorist.Audit.Chained.{IsHashed, IsSealedCheckpoint}
use counter_terrorist.Service.{Base, ensure_ready}
use counter_terrorist.AuditVerifier.{AuditEvent, verify_chain, hash_input, intact}
use counter_terrorist.Audit.{
  Audit, Request, accept_event, enqueue_entry, entry_of, is_permitted, log_event, new_audit,
  process_queue, sealing,
}
use counter_terrorist.Audit.Chained.{verify_chain-History}
use counter_terrorist.Audit.Kept.{History-IsKept, IsKept}
use counter_terrorist.Audit.Limits.{compute_hash-draft-IsOk}
use counter_terrorist.Audit.Boundary.{sync_event-Outcome, sync_event-unsigned_checkpoint, Outcome}
use counter_terrorist.Audit.Sanitize.{
  Objects, array, bigint, function, has_seen, primitive, properties, reference, sanitize,
  sanitize_data_for_audit, sanitize_fields, sanitize_items, sanitize_object,
}

abbrev one_hash : String → String
one_hash t = "h"

abbrev started : Base
started = record { initialized = true; is_starting = false; runs = 1; successes = 1 }

-- Two objects that contain each other.
abbrev cyclic : Objects
cyclic zero = properties (("next", reference 1) ∷ ("skip", function) ∷ [])
cyclic (suc n) = array (reference 0 ∷ bigint "5" ∷ [])

abbrev request : Request
request = record {
  type = "THREAT";
  severity = none;
  caller = some "TEST";
  message = "m";
  actor = none;
  contents = some (0, ("next", reference 1) ∷ ("skip", function) ∷ []);
  timestamp = none;
  correlation_id = none;
  from_audit = false;
}

abbrev answers : Answers
answers = record { random_uuid = "id"; now = "2026"; sign = none; worm_append = some true }

cycle_is_cut :
    sanitize_data_for_audit cyclic 0 (("next", reference 1) ∷ ("skip", function) ∷ [])
    ≡ field "next" (arr (cons (Json.str "[Circular]") (cons (Json.str "5n") nil))) end
unfolding sanitize_data_for_audit sanitize sanitize_fields sanitize_object sanitize_items has_seen
    primitive
cycle_is_cut = refl

abbrev queued : Audit
queued = process_queue (enqueue_entry (entry_of cyclic request) (new_audit started))

is_logged : log_event cyclic request (new_audit started) ≡ ok queued
unfolding log_event accept_event ensure_ready is_permitted new_audit
is_logged = refl

abbrev event : AuditEvent
event = record (draft answers "GENESIS" (entry_of cyclic request)) { hash = "h" }

-- The entry's turn begins, and its event is appended.
abbrev begun : Audit
begun = record queued { turn = sealing "GENESIS" }

abbrev after : Audit
after = append_event event (record begun { current = [] })

is_begun : process_entry one_hash answers queued ≡ (begun, none)
unfolding process_entry process_turn begin_entry process_queue enqueue_entry new_audit
is_begun = refl

is_processed : process_entry one_hash answers begun ≡ (after, some event)
unfolding process_entry process_turn end_sealing settle_entry seal_entry process_queue enqueue_entry
    new_audit compute_hash hash_input entry_of sanitize_data_for_audit
is_processed = refl

-- Two steps after the call that logged it.
past : History one_hash none started (event ∷ []) [] after
past =
    processed answers (went_on answers (logged cyclic request fresh is_logged) is_begun)
      is_processed

calm : Undisturbed one_hash none past
unfolding Undisturbed past process_queue enqueue_entry new_audit
calm = (refl, tt)

-- A checkpoint of another node that has no signature.
abbrev forged : AuditEvent
forged = record event { type = "CHECKPOINT"; prev_hash = "GENESIS" }

forged_hash : compute_hash one_hash (hash_input forged) ≡ ok "h"
unfolding compute_hash hash_input entry_of sanitize_data_for_audit draft
forged_hash = refl

is_checked : sync_verdict one_hash none "GENESIS" forged ≡ ok none
unfolding sync_verdict check_synced compute_hash hash_input entry_of sanitize_data_for_audit draft
is_checked = refl

abbrev moved : Audit
moved = set_head forged (save_event forged begun)

is_sealed_late :
    process_entry one_hash answers moved
    ≡ (append_event event (record moved { current = [] }), some event)
unfolding process_entry process_turn end_sealing settle_entry seal_entry process_queue enqueue_entry
    new_audit compute_hash hash_input entry_of sanitize_data_for_audit set_head save_event
is_sealed_late = refl

-- A checkpoint that another node sends while the hash of the entry is awaited: the event of the entry names
-- the hash before it, and the chain forks.
forks :
    History one_hash none started
      (event ∷ forged ∷ [])
      []
      (append_event event (record moved { current = [] }))
unfolding process_queue enqueue_entry new_audit
forks =
    processed answers
      (adopted [] [] "GENESIS" forged (
        sync_saved [] [] "GENESIS" forged (
          sync_checked forged (went_on answers (logged cyclic request fresh is_logged) is_begun)
            is_checked)))
      is_sealed_late

other_text : (a b : String) → (a === b) ≡ false → a ≢ b
other_text a b differ p = false≢true (sym differ ∙ (string_eq.same_iff a b).1 p)

verify_chain-History_example :
    All (IsHashed one_hash none) (event ∷ [])
    × (Undisturbed one_hash none past
        → All (IsSealedCheckpoint one_hash none) (event ∷ [])
        → verify_chain one_hash none (event ∷ []) ≡ ok (intact 1))
verify_chain-History_example = verify_chain-History one_hash none started (event ∷ []) [] after past

-- Its conditions hold there.
is_reported : verify_chain one_hash none (event ∷ []) ≡ ok (intact 1)
unfolding draft entry_of
is_reported =
    (verify_chain-History one_hash none started (event ∷ []) [] after past).1 calm
      ((λ is. absurd (other_text "THREAT" "CHECKPOINT" refl is)), tt)

History-IsKept_example : IsKept (held after) event × Unit {0}
History-IsKept_example = History-IsKept one_hash none started (event ∷ []) [] after past

compute_hash-draft-IsOk_example :
    IsOk (compute_hash one_hash (hash_input (draft answers "GENESIS" (entry_of cyclic request))))
compute_hash-draft-IsOk_example =
    compute_hash-draft-IsOk one_hash cyclic request answers "GENESIS" tt

abbrev idle : Audit
idle = new_audit started

sync_event-unsigned_checkpoint_example :
    (sync_event one_hash none (λ _. true) forged idle ≡ ok (adopt_event forged idle))
    × ((later : List AuditEvent)
        → verify_chain one_hash none (later ++ forged ∷ [])
          ≢ ok (intact (length (later ++ forged ∷ []))))
unfolding new_audit draft
sync_event-unsigned_checkpoint_example =
    sync_event-unsigned_checkpoint one_hash none (λ _. true) forged [] idle refl refl
      (other_text "GENESIS" "TRUNCATED" refl) refl forged_hash (other_text "h" "GENESIS" refl) refl

is_taken : sync_event one_hash none (λ _. true) forged idle ≡ ok (adopt_event forged idle)
unfolding sync_event sync_verdict check_synced new_audit compute_hash hash_input entry_of
    sanitize_data_for_audit draft
is_taken = refl

sync_event-Outcome_example : Outcome one_hash none forged idle (adopt_event forged idle)
sync_event-Outcome_example =
    sync_event-Outcome one_hash none (λ _. true) forged idle (adopt_event forged idle) is_taken

abbrev repaired : AuditEvent
repaired = record (heal_draft "id" "2026") { hash = "h" }

abbrev healed : Audit
healed = record idle { stored = repaired ∷ []; last_hash = "h"; last_verified_hash = "h" }
