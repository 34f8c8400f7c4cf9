-- ===== src/Audit.antt =====
-- src/orchestrator/domain/analysis/audit.ts: the class `AuditService`, its state and the operations
-- that write the chain. The number of events of a `saveMany` that a failure leaves stored, the answers
-- of the TPM and of the other ports, fresh identities and the clock are arguments. The log, the event
-- bus, the correlation and the field `merkleTree`, which is written only, are left out.
pub mod Sanitize
pub mod Commit
pub mod Process
pub mod Limits
pub mod Sync
pub mod Held
pub mod Queue
pub mod Chained
pub mod Kept
pub mod Boundary
pub mod Heal
pub mod Retention
mod Tests
pub mod History
use Prim.Native.String.{count}
use Prim.Native.String.{String}
use Prim.Native.String
use counter_terrorist.Values.{decimal_from}
use counter_terrorist.Merkle.{build_tree}
use counter_terrorist.Common.{
  Bool, List, Option, Result, [], false, if◌then◌else◌, length, ltb, none, not, ok, some, string_eq,
  take, true, ℕ, ◌++◌, ◌===◌, ◌>>=◌, ◌||◌, ◌∷◌,
}
use counter_terrorist.Canonical.{Fields, compute_hash}
use counter_terrorist.Merkle.{get_root}
use counter_terrorist.AuditVerifier.{AuditEvent, hash_input}
use counter_terrorist.Service.{Base, ensure_ready}
use counter_terrorist.Audit.Sanitize.{
  Value, Objects, sanitize_data_for_audit, missing, number, string,
}

pub data SystemState : Type 0 where
  normal : SystemState
  forensic_restricted : SystemState

-- The argument of `logEvent`; `data` is an object with its entries.
pub record Request : Type 0 where
  pub type : String
  pub severity : Option String
  pub caller : Option String
  pub message : String
  pub actor : Option Fields
  pub contents : Option (ℕ × List (String × Value))
  pub timestamp : Option String
  pub correlation_id : Option String
  pub from_audit : Bool

-- An element of `logQueue`.
pub record Entry : Type 0 where
  pub type : String
  pub severity : Option String
  pub caller : Option String
  pub message : String
  pub actor : Option Fields
  pub payload : Option Fields
  pub timestamp : Option String
  pub correlation_id : Option String

-- Where `processQueue` stands in the body of its `for`: before an entry, with `prevHash` read and the hash
-- and the signature of the first entry of `current` awaited, with an event appended and the Merkle leaf
-- awaited, with the WORM repository awaited, and with a flush of its own awaited.
pub data Turn : Type 0 where
  waiting : Turn
  sealing : String → Turn
  counting : AuditEvent → Turn
  mirroring : AuditEvent → Turn
  saving_batch : Turn

-- `current` is the rest of `currentQueue` in `processQueue`, `flushing` is `toFlush` in
-- `flushBuffer`, `committing` is `hashesToCommit` in `commitMerkleRoot`; `stored` and `worm` are what
-- the repositories were given, in that order.
pub record Audit : Type 0 where
  pub base : Base
  pub state : SystemState
  pub last_hash : String
  pub last_verified_hash : String
  pub log_queue : List Entry
  pub is_processing_queue : Bool
  pub current : List Entry
  pub turn : Turn
  pub audit_buffer : List AuditEvent
  pub is_flushing : Bool
  pub flushing : List AuditEvent
  pub current_session_hashes : List String
  pub is_committing_merkle : Bool
  pub committing : List String
  pub stored : List AuditEvent
  pub worm : List AuditEvent

abbrev pub genesis : String
genesis = "GENESIS"

unfoldable pub new_audit : Base → Audit
new_audit base = record {
  base = base;
  state = normal;
  last_hash = genesis;
  last_verified_hash = genesis;
  log_queue = [];
  is_processing_queue = false;
  current = [];
  turn = waiting;
  audit_buffer = [];
  is_flushing = false;
  flushing = [];
  current_session_hashes = [];
  is_committing_merkle = false;
  committing = [];
  stored = [];
  worm = [];
}

abbrev pub max_queue_depth : ℕ
max_queue_depth = 5000

abbrev pub max_merkle_buffer : ℕ
max_merkle_buffer = 5000

unfoldable pub is_critical : String → Bool
is_critical type = type === "CRITICAL" || type === "THREAT"

-- What the restricted state lets through.
unfoldable pub is_permitted : SystemState → String → Bool
unfolding is_critical
is_permitted normal type = true
is_permitted forensic_restricted type =
    is_critical type || type === "SUCCESS" || type === "MERKLE_COMMIT"

unfoldable pub sanitized : Objects → Option (ℕ × List (String × Value)) → Option Fields
sanitized heap none = none
sanitized heap (some (r, kvs)) = some (sanitize_data_for_audit heap r kvs)

unfoldable pub entry_of : Objects → Request → Entry
unfolding sanitized
entry_of heap r = record {
  type = r.type;
  severity = r.severity;
  caller = r.caller;
  message = r.message;
  actor = r.actor;
  payload = sanitized heap r.contents;
  timestamp = r.timestamp;
  correlation_id = r.correlation_id;
}

unfoldable pub enqueue_entry : Entry → Audit → Audit
enqueue_entry e s = record s { log_queue = s.log_queue ++ e ∷ [] }

-- The start of `processQueue`, and of each further turn of its `while`: it takes the whole queue.
unfoldable pub take_queue : Audit → Audit
take_queue s = record s { log_queue = []; current = s.log_queue; is_processing_queue = true }

unfoldable pub process_queue : Audit → Audit
unfolding take_queue
process_queue s = if s.is_processing_queue then s else take_queue s

-- The test of the `while`, when the array that was taken is done.
unfoldable pub turn_from : List Entry → Audit → Audit
unfolding take_queue
turn_from [] s = record s { is_processing_queue = false; current = [] }
turn_from (e ∷ es) s = take_queue s

unfoldable pub end_turn : Audit → Audit
unfolding turn_from
end_turn s = turn_from s.log_queue s

-- `logEvent` after `ensureReady`; `processQueue` starts if it does not run.
unfoldable pub accept_event : Objects → Request → Audit → Audit
unfolding is_permitted entry_of enqueue_entry process_queue
accept_event heap r s =
    if r.from_audit
    then s
    else if not (is_permitted s.state r.type)
    then s
    else if ltb max_queue_depth (length s.log_queue)
    then s
    else process_queue (enqueue_entry (entry_of heap r) s)

unfoldable pub log_event : Objects → Request → Audit → Result Audit String
unfolding accept_event ensure_ready
log_event heap r s = ensure_ready "AuditService" s.base >>= λ _. ok (accept_event heap r s)

-- `flushBuffer` up to its call of `saveMany`.
unfoldable pub take_buffer : List AuditEvent → Audit → Audit
take_buffer [] s = s
take_buffer (e ∷ es) s = record s { is_flushing = true; flushing = e ∷ es; audit_buffer = [] }

unfoldable pub begin_flush : Audit → Audit
unfolding take_buffer
begin_flush s = if s.is_flushing then s else take_buffer s.audit_buffer s

-- How `saveMany` ends: with all events stored, or by an exception after some of its chunks.
pub data Saving : Type 0 where
  done : Saving
  stopped_after : ℕ → Saving

-- A `processQueue` that awaits the flush goes on.
unfoldable pub resume : Turn → Turn
resume waiting = waiting
resume (sealing p) = sealing p
resume (counting e) = counting e
resume (mirroring e) = mirroring e
resume saving_batch = waiting

-- The rest of `flushBuffer`.
unfoldable pub end_flush : Saving → Audit → Audit
unfolding resume
end_flush done s = record s {
  stored = s.stored ++ s.flushing;
  flushing = [];
  is_flushing = false;
  turn = resume s.turn;
}
end_flush (stopped_after n) s = record s {
  stored = s.stored ++ take n s.flushing;
  audit_buffer = s.flushing ++ s.audit_buffer;
  flushing = [];
  is_flushing = false;
  turn = resume s.turn;
}
