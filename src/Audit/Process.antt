-- ===== src/Audit/Process.antt =====
-- src/orchestrator/domain/analysis/audit.ts: the loop of `processQueue` of `AuditService`, one entry at
-- a time.
use Prim.Native.String.{String}
use counter_terrorist.Common.{
  Bool, List, Option, Result, [], err, false, if◌then◌else◌, leb, length, none, ok, some, string_eq,
  true, ◌&&◌, ◌++◌, ◌===◌, ◌>>=◌, ◌||◌, ◌∷◌,
}
use counter_terrorist.Canonical.{compute_hash}
use counter_terrorist.AuditVerifier.{AuditEvent, hash_input}
use counter_terrorist.Audit.{
  Audit, Entry, SystemState, end_turn, forensic_restricted, is_critical, max_merkle_buffer, normal,
  Turn, begin_flush, counting, mirroring, saving_batch, sealing, waiting,
}
use counter_terrorist.Audit.Commit.{begin_commit, signature_of}

-- What the ports answer while one entry is processed: the fresh identity, the clock, the TPM's
-- signing (where there is a TPM; `none` where it throws), whether `append` of the WORM repository,
-- where there is one, succeeds.
pub record Answers : Type 0 where
  pub random_uuid : String
  pub now : String
  pub sign : Option (String → Option String)
  pub worm_append : Option Bool

-- `event.timestamp || new Date().toISOString()`.
unfoldable pub timestamp_or : String → Option String → String
timestamp_or now none = now
timestamp_or now (some t) = if t === "" then now else t

-- The event of an entry, with the hash and the signature to come.
unfoldable pub draft : Answers → String → Entry → AuditEvent
unfolding timestamp_or
draft a prev_hash e = record {
  id = a.random_uuid;
  timestamp = timestamp_or a.now e.timestamp;
  type = e.type;
  severity = e.severity;
  caller = e.caller;
  message = e.message;
  actor = e.actor;
  payload = e.payload;
  hash = "";
  prev_hash = prev_hash;
  hw_signature = none;
  correlation_id = e.correlation_id;
}

-- The hash of an event joins those for the next Merkle root; the 5000th starts a commit.
unfoldable pub add_session_hash : String → String → Audit → Audit
unfolding begin_commit
add_session_hash type hash s =
    let added = record s { current_session_hashes = s.current_session_hashes ++ hash ∷ [] } in
    if type === "MERKLE_COMMIT"
    then s
    else if leb max_merkle_buffer (length added.current_session_hashes)
    then begin_commit added
    else added

unfoldable pub mirror : Option Bool → AuditEvent → Audit → Audit
unfolding is_critical
mirror none event s = s
mirror (some succeeds) event s =
    if (is_critical event.type || event.type === "MERKLE_COMMIT") && succeeds
    then record s { worm = s.worm ++ event ∷ [] }
    else s

abbrev pub is_restricted : SystemState → Bool
is_restricted normal = false
is_restricted forensic_restricted = true

-- A sealed event is appended and becomes the head; then the Merkle leaf is awaited.
unfoldable pub append_event : AuditEvent → Audit → Audit
append_event event s = record s {
  audit_buffer = s.audit_buffer ++ event ∷ [];
  last_hash = event.hash;
  turn = counting event;
}

-- After the leaf: the hash is kept for the next root, and the WORM repository is awaited; a `MERKLE_COMMIT`
-- has no leaf, and an event that is not mirrored goes on at once.
unfoldable pub count_event : AuditEvent → Audit → Audit
unfolding add_session_hash
count_event event s = record (add_session_hash event.type event.hash s) { turn = mirroring event }

-- Whether `flushBuffer` returns at once or is awaited.
unfoldable pub flush_turn : Bool → List AuditEvent → Turn
flush_turn true es = waiting
flush_turn false [] = waiting
flush_turn false (e ∷ es) = saving_batch

-- After the WORM repository: the test of the buffer, and the start of the flush.
unfoldable pub flush_full : Audit → Audit
unfolding flush_turn
flush_full s =
    if leb 100 (length s.audit_buffer) || is_restricted s.state
    then record (begin_flush s) { turn = flush_turn s.is_flushing s.audit_buffer }
    else record s { turn = waiting }

-- An exception puts the entry and those after it back before the queue, and ends `processQueue`.
unfoldable pub put_back_entries : List Entry → Audit → Audit
put_back_entries es s = record s {
  log_queue = es ++ s.log_queue;
  current = [];
  turn = waiting;
  is_processing_queue = false;
}

-- The next entry of the array, with the `prevHash` that it reads, or the test of the `while`.
unfoldable pub begin_entry : List Entry → Audit → Audit
unfolding end_turn
begin_entry [] s = end_turn s
begin_entry (e ∷ es) s = record s { turn = sealing s.last_hash }

module _ (sha256_hex : String → String) where
  -- The hash and the signature of an entry, chained to the hash that was the last one when its
  -- processing began.
  unfoldable pub seal_entry : Answers → String → Entry → Result AuditEvent String
  unfolding signature_of draft
  seal_entry a prev_hash e = compute_hash sha256_hex (hash_input (draft a prev_hash e)) >>= λ hash.
      signature_of a.sign hash >>= λ signature.
      ok (record (draft a prev_hash e) { hash = hash; hw_signature = signature })

  -- What comes of the hash and the signature of an entry.
  unfoldable pub settle_entry :
      Entry → List Entry → Audit → Result AuditEvent String → Audit × Option AuditEvent
  unfolding append_event put_back_entries
  settle_entry e es s (err x) = (put_back_entries (e ∷ es) s, none)
  settle_entry e es s (ok event) = (append_event event (record s { current = es }), some event)

  unfoldable pub end_sealing : Answers → String → List Entry → Audit → Audit × Option AuditEvent
  unfolding settle_entry seal_entry
  end_sealing a prev_hash [] s = (s, none)
  end_sealing a prev_hash (e ∷ es) s = settle_entry e es s (seal_entry a prev_hash e)

  unfoldable pub process_turn : Answers → Turn → Audit → Audit × Option AuditEvent
  unfolding begin_entry end_sealing count_event mirror flush_full
  process_turn a waiting s = (begin_entry s.current s, none)
  process_turn a (sealing prev_hash) s = end_sealing a prev_hash s.current s
  process_turn a (counting event) s = (count_event event s, none)
  process_turn a (mirroring event) s = (flush_full (mirror a.worm_append event s), none)
  process_turn a saving_batch s = (s, none)

  -- What `processQueue` does from one of its awaits to the next one, with the event that it appends.
  unfoldable pub process_entry : Answers → Audit → Audit × Option AuditEvent
  unfolding process_turn
  process_entry a s = if s.is_processing_queue then process_turn a s.turn s else (s, none)
