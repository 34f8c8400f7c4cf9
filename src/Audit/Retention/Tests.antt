-- ===== src/Audit/Retention/Tests.antt =====
-- A ledger with one expired event.
use Prim.Native.String.{String}
use counter_terrorist.Common.{[], arith, none, refl, some, string_eq, true, ℕ, ◌∷◌, ◌≡◌}
use counter_terrorist.AuditVerifier.{AuditEvent}
use counter_terrorist.Timeline.{Entry}
use counter_terrorist.Audit.Retention.{
  Ledger, archive_to_cold_storage, get_events_in_range, last_expired, purge_expired, range_loop,
}
use counter_terrorist.Audit.Retention.Archive.{archive_to_cold_storage-batches, taken_by}
use counter_terrorist.Audit.Retention.Purge.{purge_expired-FailsKeeping, FailsKeeping}

abbrev event : String → AuditEvent
event id = record {
  id = id;
  timestamp = "t";
  type = "THREAT";
  severity = none;
  caller = none;
  message = "m";
  actor = none;
  payload = none;
  hash = id;
  prev_hash = "";
  hw_signature = none;
  correlation_id = none;
}

abbrev entry : ℕ → String → Entry AuditEvent
entry time id = record { timestamp = time; id = id; contents = event id }

abbrev ledger : Ledger
ledger = record { entries = entry 1 "a" ∷ entry 7 "b" ∷ []; events_count = some 2 }

abbrev one_hash : String → String
one_hash t = "h"

purge_expired-FailsKeeping_example :
    FailsKeeping 9 ledger (purge_expired one_hash none true true "id" "now" 9 5 ledger)
unfolding last_expired
purge_expired-FailsKeeping_example =
    purge_expired-FailsKeeping one_hash none true "id" "now" 9 5 ledger (entry 1 "a") (omega arith)
      refl

archive_to_cold_storage-batches_example :
    archive_to_cold_storage 5 (λ e. true) ledger [] ≡ (event "a" ∷ [], true)
unfolding taken_by
archive_to_cold_storage-batches_example = archive_to_cold_storage-batches 5 (λ e. true) ledger []

range_after : get_events_in_range "b" 5 ledger ≡ event "a" ∷ []
unfolding get_events_in_range range_loop
range_after = refl
