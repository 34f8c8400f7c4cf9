-- ===== src/Ledger/Tests.antt =====
-- A ledger with one commit and one entry from another node.
use counter_terrorist.Canonical.{quote_char, quote_chars, json_text}
use counter_terrorist.Values.{decimal_from}
use Prim.Native.String.{String}
use mathlib.Core.Bool.{false≢true}
use counter_terrorist.Common.{[], none, refl, string_eq, ◌++◌, ◌∷◌, ◌≡◌}
use counter_terrorist.AuditVerifier.{AuditEvent}
use counter_terrorist.Ledger.{
  LedgerEntry, append_entry, commit, compute_hash, genesis, has_hash, new_ledger, next_entry,
  node_of, sync_entry, Ledger,
}
use counter_terrorist.Ledger.Seals.{Reach-IsSealed, committed, synced, start, IsSealed}
use counter_terrorist.Ledger.Links.{sync_entry-gap, IsLinked}

abbrev same_text : String → String
same_text t = t

abbrev event_text : AuditEvent → String
event_text e = e.id

abbrev event : String → AuditEvent
event id = record {
  id = id;
  timestamp = "2026";
  type = "SECURITY";
  severity = none;
  caller = none;
  message = "m";
  actor = none;
  payload = none;
  hash = "";
  prev_hash = "";
  hw_signature = none;
  correlation_id = none;
}

-- Another node's entry, which follows nothing that is known here.
abbrev foreign : LedgerEntry
foreign = record {
  index = 7;
  timestamp = "2026";
  event = event "x";
  prev_hash = "unknown";
  hash = "{\"index\":7,\"ts\":\"2026\",\"event\":x,\"prev\":\"unknown\",\"node\":\"peer\"}";
  node_id = "peer";
}

Reach-IsSealed_example : IsSealed same_text event_text (
    sync_entry same_text event_text foreign
      (commit same_text event_text none "2026" (event "a") new_ledger).0)
Reach-IsSealed_example =
    Reach-IsSealed same_text event_text (synced foreign (committed none "2026" (event "a") start))

foreign-hash : foreign.hash ≡ compute_hash same_text event_text foreign
unfolding compute_hash decimal_from json_text quote_chars quote_char
foreign-hash = refl

-- The ledger after a commit and the foreign entry.
abbrev committed_once : Ledger
committed_once = (commit same_text event_text none "2026" (event "a") new_ledger).0

abbrev foreign_taken : Ledger
foreign_taken = sync_entry same_text event_text foreign committed_once

sync_entry-gap_example :
    (foreign_taken.chain ≡ committed_once.chain ++ foreign ∷ [])
    × (foreign_taken.last_hash ≡ foreign.hash)
    × (¬ IsLinked 0 genesis foreign_taken.chain)
unfolding has_hash commit append_entry new_ledger next_entry compute_hash decimal_from json_text
    quote_chars quote_char node_of
sync_entry-gap_example =
    sync_entry-gap same_text event_text foreign
      (commit same_text event_text none "2026" (event "a") new_ledger).0 refl foreign-hash
      (λ e. false≢true ((string_eq.same_iff _ _).1 e))
