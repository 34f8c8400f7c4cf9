-- ===== src/Audit/History.antt =====
-- The events that the service chains, newest first, with the history of the steps that led to a state:
-- each one is what a call does from one of its awaits to the next.
use Prim.Native.String.{String}
use counter_terrorist.Common.{Bool, List, Option, [], none, ok, some, string_eq, ◌++◌, ◌∷◌, ◌≡◌}
use counter_terrorist.Service.{Base}
use counter_terrorist.AuditVerifier.{AuditEvent}
use counter_terrorist.Audit.{
  Audit, Request, Saving, begin_flush, end_flush, log_event, new_audit, sealing,
}
use counter_terrorist.Audit.Commit.{end_commit, start_commit}
use counter_terrorist.Audit.Process.{Answers, process_entry}
use counter_terrorist.Audit.Sanitize.{Objects}
use counter_terrorist.Audit.Sync.{verify_chain_incremental, sync_verdict, save_event, set_head}

-- Where a call of `syncEvents` stands with an event: it passed the checks, the last one against this last
-- hash, and `save` is awaited; or it is stored, and the call goes on with the next step.
pub data SyncCall : Type 0 where
  checked : String → AuditEvent → SyncCall
  saved : String → AuditEvent → SyncCall

module _ (sha256_hex : String → String) (verify : Option (String → String → Bool)) where
  -- The steps: a call of `logEvent`, a stretch of `processQueue`, the two halves of a flush and of a commit,
  -- the three parts of a `syncEvents` with one event, of which any number of calls may be under way, and
  -- a check of the chain. The test of a known event in `syncEvents` only passes over events, and is left
  -- out here; so is a `save` that fails, after which the call does nothing more.
  pub data History (base : Base) : List AuditEvent → List SyncCall → Audit → Type 0 where
    fresh : History base [] [] (new_audit base)
    logged :
        {h : List AuditEvent} {c : List SyncCall} {s t : Audit} (heap : Objects) (r : Request)
        → History base h c s
        → log_event heap r s ≡ ok t
        → History base h c t
    processed :
        {h : List AuditEvent} {c : List SyncCall} {s t : Audit} {e : AuditEvent} (a : Answers)
        → History base h c s
        → process_entry sha256_hex a s ≡ (t, some e)
        → History base (e ∷ h) c t
    went_on :
        {h : List AuditEvent} {c : List SyncCall} {s t : Audit} (a : Answers)
        → History base h c s
        → process_entry sha256_hex a s ≡ (t, none)
        → History base h c t
    flush_begun :
        {h : List AuditEvent} {c : List SyncCall} {s : Audit}
        → History base h c s
        → History base h c (begin_flush s)
    flush_ended :
        {h : List AuditEvent} {c : List SyncCall} {s : Audit} (saving : Saving)
        → History base h c s
        → History base h c (end_flush saving s)
    commit_begun :
        {h : List AuditEvent} {c : List SyncCall} {s : Audit} (healthy : Option Bool)
        → History base h c s
        → History base h c (start_commit healthy s)
    commit_ended :
        {h : List AuditEvent} {c : List SyncCall} {s : Audit} (heap : Objects)
        (sign : Option (String → Option String))
        → History base h c s
        → History base h c (end_commit sha256_hex heap sign s)
    sync_checked :
        {h : List AuditEvent} {c : List SyncCall} {s : Audit} (e : AuditEvent)
        → History base h c s
        → sync_verdict sha256_hex verify s.last_hash e ≡ ok none
        → History base h (checked s.last_hash e ∷ c) s
    sync_saved :
        {h : List AuditEvent} {s : Audit} (b c : List SyncCall) (last_hash : String)
        (e : AuditEvent)
        → History base h (b ++ checked last_hash e ∷ c) s
        → History base h (b ++ saved last_hash e ∷ c) (save_event e s)
    adopted :
        {h : List AuditEvent} {s : Audit} (b c : List SyncCall) (last_hash : String)
        (e : AuditEvent)
        → History base h (b ++ saved last_hash e ∷ c) s
        → History base (e ∷ h) (b ++ c) (set_head e s)
    verified :
        {h : List AuditEvent} {c : List SyncCall} {s : Audit}
        → History base h c s
        → History base h c (verify_chain_incremental sha256_hex verify s).0

  -- Nothing changed the last hash while it was relied on: where an event is chained, it is still the one
  -- that its entry or its check read.
  unfoldable pub Undisturbed :
      {base : Base} {h : List AuditEvent} {c : List SyncCall} {s : Audit}
      → History base h c s
      → Type 0
  Undisturbed fresh = Unit
  Undisturbed (logged heap r p e) = Undisturbed p
  Undisturbed (processed {s} a p e) = (s.turn ≡ sealing s.last_hash) × Undisturbed p
  Undisturbed (went_on a p e) = Undisturbed p
  Undisturbed (flush_begun p) = Undisturbed p
  Undisturbed (flush_ended saving p) = Undisturbed p
  Undisturbed (commit_begun healthy p) = Undisturbed p
  Undisturbed (commit_ended heap sign p) = Undisturbed p
  Undisturbed (sync_checked e p v) = Undisturbed p
  Undisturbed (sync_saved b c last_hash e p) = Undisturbed p
  Undisturbed (adopted {s} b c last_hash e p) = (last_hash ≡ s.last_hash) × Undisturbed p
  Undisturbed (verified p) = Undisturbed p
