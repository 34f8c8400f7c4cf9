-- ===== src/Audit/Retention.antt =====
-- src/orchestrator/domain/analysis/audit.ts: `purgeExpired`, `archiveToColdStorage`,
-- `processArchiveBatch` and `getEventsInRange` of `AuditService`, over the timeline of its repository.
pub mod Purge
pub mod Archive
mod Tests
use Prim.Native.String.{String}
use Prim.Native.String
use mathlib.Core.List.{reverse}
use counter_terrorist.Common.{
  Bool, List, Option, Result, [], err, false, if◌then◌else◌, leb, length, ltb, map, none, ok, some,
  string_eq, take, texts, true, ℕ, ◌++◌, ◌===◌, ◌>>=◌, ◌∷◌,
}
use counter_terrorist.Canonical.{Fields, str, field, end}
use counter_terrorist.AuditVerifier.{AuditEvent}
use counter_terrorist.Audit.Sync.{seal_checkpoint, checkpoint_draft}
use counter_terrorist.Timeline.{Entry, Timeline, set_entry, delete_before}

abbrev pub Ledger : Type 0
Ledger = Timeline AuditEvent

abbrev pub retention_scan : ℕ
retention_scan = 10000

-- The forward scan: the last event before the first that is not expired.
unfoldable pub last_expired :
    ℕ → List (Entry AuditEvent) → Option (Entry AuditEvent) → Option (Entry AuditEvent)
last_expired cutoff [] boundary = boundary
last_expired cutoff (e ∷ es) boundary =
    let further = last_expired cutoff es (some e) in
    if ltb e.timestamp cutoff then further else boundary

-- The checkpoint for a boundary, without hash and signature.
unfoldable pub retention_draft : String → String → AuditEvent → AuditEvent
unfolding checkpoint_draft
retention_draft id now boundary =
    checkpoint_draft id now "AUDIT:RETENTION"
      (texts ("Chain Truncated. Genesis state summarized at " ∷ boundary.timestamp ∷ []))
      (field "purgedEventsCutoff" (str boundary.timestamp)
        (field "boundaryHash" (str boundary.hash) end))

abbrev entry_at : ℕ → AuditEvent → Entry AuditEvent
entry_at now_ms e = record { timestamp = now_ms; id = e.id; contents = e }

-- The rest of `purgeExpired` once the checkpoint is stored.
unfoldable pub after_delete : Ledger × Result ℕ String → Ledger × Result (Unit {0}) String
after_delete (t, ok deleted) = (t, ok tt)
after_delete (t, err x) = (t, err x)

unfoldable pub purge_before : Bool → ℕ → Ledger → Ledger × Result (Unit {0}) String
unfolding delete_before after_delete
purge_before writable cutoff t = after_delete (delete_before writable cutoff t)

unfoldable pub store_and_purge :
    Bool → ℕ → Ledger → Result Ledger String → Ledger × Result (Unit {0}) String
unfolding purge_before
store_and_purge writable cutoff t (ok stored) = purge_before writable cutoff stored
store_and_purge writable cutoff t (err x) = (t, err x)

module _ (sha256_hex : String → String) (sign : Option (String → Option String)) where
  unfoldable pub purge_at :
      Bool
      → Bool
      → String
      → String
      → ℕ
      → ℕ
      → Option (Entry AuditEvent)
      → Ledger
      → Ledger × Result (Unit {0}) String
  unfolding store_and_purge seal_checkpoint retention_draft set_entry
  purge_at writable committed id now now_ms cutoff none t = (t, ok tt)
  purge_at writable committed id now now_ms cutoff (some boundary) t =
      store_and_purge writable cutoff t (
        seal_checkpoint sha256_hex sign (retention_draft id now boundary.contents) >>= λ checkpoint.
        set_entry writable committed (entry_at now_ms checkpoint) t)

  -- `purgeExpired`; its exception, which it only logs, is the second component.
  unfoldable pub purge_expired :
      Bool → Bool → String → String → ℕ → ℕ → Ledger → Ledger × Result (Unit {0}) String
  unfolding purge_at last_expired
  purge_expired writable committed id now now_ms cutoff t =
      purge_at writable committed id now now_ms cutoff
        (last_expired cutoff (take retention_scan t.entries) none) t

-- `processArchiveBatch`: the events that the WORM repository took, up to the first that it refused.
unfoldable pub process_archive_batch :
    (AuditEvent → Bool) → List AuditEvent → List AuditEvent → List AuditEvent × Bool
process_archive_batch appends [] worm = (worm, true)
process_archive_batch appends (e ∷ es) worm =
    let rest = process_archive_batch appends es (worm ++ e ∷ []) in
    if appends e then rest else (worm, false)

-- The loop of `archiveToColdStorage`, with the open batch.
unfoldable pub archive_loop :
    ℕ
    → (AuditEvent → Bool)
    → List (Entry AuditEvent)
    → List AuditEvent
    → List AuditEvent
    → List AuditEvent × Bool
unfolding process_archive_batch
archive_loop threshold appends [] batch worm = process_archive_batch appends batch worm
archive_loop threshold appends (e ∷ es) batch worm =
    let filled = batch ++ e.contents ∷ [] in
    let taken = process_archive_batch appends filled worm in
    elim (leb threshold e.timestamp) [
      | true ↦ process_archive_batch appends batch worm
      | false ↦ elim (leb 100 (length filled)) [
        | true ↦ elim taken.1 [
          | true ↦ archive_loop threshold appends es [] taken.0
          | false ↦ (taken.0, false)
        ]
        | false ↦ archive_loop threshold appends es filled worm
      ]
    ]

-- `archiveToColdStorage` of the events older than the threshold.
unfoldable pub archive_to_cold_storage :
    ℕ → (AuditEvent → Bool) → Ledger → List AuditEvent → List AuditEvent × Bool
unfolding archive_loop
archive_to_cold_storage threshold appends t worm =
    archive_loop threshold appends (take 10000 t.entries) [] worm

-- The loop of `getEventsInRange`, over the stream newest first, with `events` and `found`.
unfoldable pub range_loop : String → ℕ → Bool → List AuditEvent → List AuditEvent → List AuditEvent
range_loop start_hash limit found events [] = events
range_loop start_hash limit false events (e ∷ es) =
    range_loop start_hash limit (e.hash === start_hash) events es
range_loop start_hash limit true events (e ∷ es) =
    let rest = range_loop start_hash limit true (events ++ e ∷ []) es in
    if leb limit (length (events ++ e ∷ [])) then events ++ e ∷ [] else rest

unfoldable pub get_events_in_range : String → ℕ → Ledger → List AuditEvent
unfolding range_loop
get_events_in_range start_hash limit t =
    range_loop start_hash limit false []
      (take 1000 (map (λ (e : Entry AuditEvent). e.contents) (reverse t.entries)))
