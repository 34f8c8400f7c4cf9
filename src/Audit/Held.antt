-- ===== src/Audit/Held.antt =====
-- The operations that leave the chain alone: the last hash and the events that wait or are stored.
use counter_terrorist.Merkle.{build_tree, get_root, verify}
use counter_terrorist.Service.{ensure_ready}
use Prim.Native.String.{String}
use counter_terrorist.Common.{
  Bool, Bool-cases, List, Option, Result, Result-cases, [], bind-ok, err, false, if_cases, inl, inr,
  leb, length, ltb, none, ok, ok_inj, refl, some, string_eq, subst, sym, true, ◌&&◌, ◌++◌, ◌===◌,
  ◌||◌, ◌∷◌, ◌≡◌, ◌⊎◌,
}
use counter_terrorist.AuditVerifier.{AuditEvent, verify_chain}
use counter_terrorist.Audit.{
  Audit, Request, accept_event, enqueue_entry, is_permitted, log_event, process_queue, take_queue,
  Entry, end_turn, is_critical, turn_from, Turn, begin_flush, counting, mirroring, saving_batch,
  sealing, waiting,
}
use counter_terrorist.Audit.Commit.{
  announce_root, begin_commit, commit_request, end_commit, end_committing, restore_hashes,
  signature_of, start_commit, settle_commit, take_hashes,
}
use counter_terrorist.Audit.Process.{
  Answers, add_session_hash, append_event, is_restricted, mirror, seal_entry, settle_entry,
  begin_entry, count_event, end_sealing, flush_full, process_entry, process_turn, put_back_entries,
}
use counter_terrorist.Audit.Sanitize.{Objects}
use counter_terrorist.Audit.Sync.{verify_chain_incremental, latest}

pub record Held : Type 0 where
  pub last_hash : String
  pub stored : List AuditEvent
  pub is_flushing : Bool
  pub flushing : List AuditEvent
  pub audit_buffer : List AuditEvent

abbrev pub held : Audit → Held
held s = record {
  last_hash = s.last_hash;
  stored = s.stored;
  is_flushing = s.is_flushing;
  flushing = s.flushing;
  audit_buffer = s.audit_buffer;
}

pub process_queue-held : (s : Audit) → held (process_queue s) ≡ held s
unfolding process_queue take_queue
process_queue-held s = elim (Bool-cases s.is_processing_queue) [
  | inl e ↦ rw e refl
  | inr e ↦ rw e refl
]

accept_event-held :
    (heap : Objects) (r : Request) (s : Audit) → held (accept_event heap r s) ≡ held s
unfolding accept_event enqueue_entry
accept_event-held heap r s = elim (Bool-cases r.from_audit) [
  | inl e ↦ rw e refl
  | inr e ↦ elim (Bool-cases (is_permitted s.state r.type)) [
    | inr f ↦ rw (e, f) refl
    | inl f ↦ elim (Bool-cases (ltb 5000 (length s.log_queue))) [
      | inl g ↦ rw (e, f, g) refl
      | inr g ↦ rw (e, f, g) (process_queue-held _)
    ]
  ]
]

pub log_event-held :
    (heap : Objects) (r : Request) (s t : Audit) → log_event heap r s ≡ ok t → held t ≡ held s
unfolding log_event ensure_ready
log_event-held heap r s t h =
    let (_, _, taken) =
      bind-ok (ensure_ready "AuditService" s.base) (λ _. ok (accept_event heap r s)) t h in
    rw (sym (ok_inj (accept_event heap r s) t taken)) (accept_event-held heap r s)

take_hashes-held : (hashes : List String) (s : Audit) → held (take_hashes hashes s) ≡ held s
unfolding take_hashes
take_hashes-held [] s = refl
take_hashes-held (h ∷ hs) s = refl

begin_commit-held : (s : Audit) → held (begin_commit s) ≡ held s
unfolding begin_commit
begin_commit-held s = elim (Bool-cases s.is_committing_merkle) [
  | inl e ↦ rw e refl
  | inr e ↦ simp e (take_hashes-held s.current_session_hashes s)
]

pub start_commit-held : (healthy : Option Bool) (s : Audit) → held (start_commit healthy s) ≡ held s
unfolding start_commit
start_commit-held none s = begin_commit-held s
start_commit-held (some true) s = begin_commit-held s
start_commit-held (some false) s = refl

settle_commit-held :
    (s : Audit) (r : Result Audit String)
    → ((t : Audit) → r ≡ ok t → held t ≡ held s)
    → held (settle_commit s r) ≡ held s
unfolding settle_commit end_committing restore_hashes
settle_commit-held s (ok t) same = rw (same t refl) refl
settle_commit-held s (err x) same = refl

module _ (sha256_hex : String → String) where
  announce_root-held :
      (heap : Objects) (sign : Option (String → Option String)) (s t : Audit)
      → announce_root sha256_hex heap sign s ≡ ok t
      → held t ≡ held s
  unfolding announce_root
  announce_root-held heap sign s t e =
      let root = get_root (build_tree sha256_hex s.committing) in
      let (signature, _, announced) =
        bind-ok (signature_of sign root)
          (λ signature. log_event heap (commit_request root (length s.committing) signature) s) t
          e in
      log_event-held heap (commit_request root (length s.committing) signature) s t announced

  pub end_commit-held :
      (heap : Objects) (sign : Option (String → Option String)) (s : Audit)
      → held (end_commit sha256_hex heap sign s) ≡ held s
  unfolding end_commit
  end_commit-held heap sign s =
      settle_commit-held s (announce_root sha256_hex heap sign s) (announce_root-held heap sign s)

  pub verify_chain_incremental-held :
      (verify : Option (String → String → Bool)) (s : Audit)
      → held (verify_chain_incremental sha256_hex verify s).0 ≡ held s
  unfolding verify_chain_incremental
  verify_chain_incremental-held verify s =
      elim (Bool-cases (s.last_hash === s.last_verified_hash)) [
        | inl e ↦ rw e refl
        | inr e ↦ elim (Result-cases (verify_chain sha256_hex verify (latest 100 s))) [
          | inr (x, f) ↦ rw (e, f) refl
          | inl (report, f) ↦ elim (Bool-cases report.valid) [
            | inl g ↦ rw (e, f, g) refl
            | inr g ↦ rw (e, f, g) refl
          ]
        ]
      ]

-- The queue of a step that chains nothing.
turn_from-held : (es : List Entry) (s : Audit) → held (turn_from es s) ≡ held s
unfolding turn_from take_queue
turn_from-held [] s = refl
turn_from-held (e ∷ es) s = refl

add_session_hash-held :
    (type hash : String) (s : Audit) → held (add_session_hash type hash s) ≡ held s
unfolding add_session_hash
add_session_hash-held type hash s = elim (Bool-cases (type === "MERKLE_COMMIT")) [
  | inl e ↦ rw e refl
  | inr e ↦ elim (Bool-cases (leb 5000 (length (s.current_session_hashes ++ hash ∷ [])))) [
    | inl f ↦ rw (e, f) (begin_commit-held _)
    | inr f ↦ rw (e, f) refl
  ]
]

mirror-held :
    (append : Option Bool) (e : AuditEvent) (s : Audit) → held (mirror append e s) ≡ held s
unfolding mirror
mirror-held none e s = refl
mirror-held (some b) e s =
    elim (Bool-cases ((is_critical e.type || e.type === "MERKLE_COMMIT") && b)) [
      | inl f ↦ rw f refl
      | inr f ↦ rw f refl
    ]

-- What an event that is appended changes.
abbrev pub pushed : AuditEvent → Held → Held
pushed e h = record h { last_hash = e.hash; audit_buffer = h.audit_buffer ++ e ∷ [] }

begin_entry-held : (es : List Entry) (s : Audit) → held (begin_entry es s) ≡ held s
unfolding begin_entry end_turn
begin_entry-held [] s = turn_from-held s.log_queue s
begin_entry-held (e ∷ es) s = refl

-- A step that chains nothing leaves all as it is, or starts a flush.
abbrev pub Stays : Audit → Audit → Type 0
Stays s t = (held t ≡ held s) ⊎ ((m : Audit) × (held m ≡ held s) × (held t ≡ held (begin_flush m)))

flush_full-Stays : (s m : Audit) → held m ≡ held s → Stays s (flush_full m)
unfolding flush_full
flush_full-Stays s m same =
    elim (Bool-cases (leb 100 (length m.audit_buffer) || is_restricted m.state)) [
      | inl f ↦ inr (m, same, rw f refl)
      | inr f ↦ inl (rw f same)
    ]

module _ (sha256_hex : String → String) where
  -- A step that chains an event: it was sealed to the hash that its entry read, and appended.
  abbrev pub Appends : Answers → Audit → Audit → AuditEvent → Type 0
  Appends a s t event =
      (prev_hash : String) × (e : Entry) × (es : List Entry) × (s.turn ≡ sealing prev_hash)
      × (s.current ≡ e ∷ es)
      × (seal_entry sha256_hex a prev_hash e ≡ ok event)
      × (t ≡ append_event event (record s { current = es }))

  abbrev pub Effect : Answers → Audit → Audit → Option AuditEvent → Type 0
  Effect a s t none = Stays s t
  Effect a s t (some event) = Appends a s t event

  settle_entry-Effect :
      (a : Answers) (prev_hash : String) (e : Entry) (es : List Entry) (s : Audit)
      (r : Result AuditEvent String)
      → s.turn ≡ sealing prev_hash
      → s.current ≡ e ∷ es
      → seal_entry sha256_hex a prev_hash e ≡ r
      → Effect a s (settle_entry sha256_hex e es s r).0 (settle_entry sha256_hex e es s r).1
  unfolding settle_entry put_back_entries
  settle_entry-Effect a prev_hash e es s (err x) turn current sealed = inl refl
  settle_entry-Effect a prev_hash e es s (ok event) turn current sealed =
      (prev_hash, e, es, turn, current, sealed, refl)

  end_sealing-Effect :
      (a : Answers) (prev_hash : String) (current : List Entry) (s : Audit)
      → s.turn ≡ sealing prev_hash
      → s.current ≡ current
      → Effect a s
          (end_sealing sha256_hex a prev_hash current s).0
          (end_sealing sha256_hex a prev_hash current s).1
  unfolding end_sealing
  end_sealing-Effect a prev_hash [] s turn same = inl refl
  end_sealing-Effect a prev_hash (e ∷ es) s turn same =
      settle_entry-Effect a prev_hash e es s (seal_entry sha256_hex a prev_hash e) turn same refl

  process_turn-Effect :
      (a : Answers) (turn : Turn) (s : Audit)
      → s.turn ≡ turn
      → Effect a s (process_turn sha256_hex a turn s).0 (process_turn sha256_hex a turn s).1
  unfolding process_turn count_event
  process_turn-Effect a waiting s same = inl (begin_entry-held s.current s)
  process_turn-Effect a (sealing p) s same = end_sealing-Effect a p s.current s same refl
  process_turn-Effect a (counting event) s same =
      inl (add_session_hash-held event.type event.hash s)
  process_turn-Effect a (mirroring event) s same =
      flush_full-Stays s (mirror a.worm_append event s) (mirror-held a.worm_append event s)
  process_turn-Effect a saving_batch s same = inl refl

  pub process_entry-Effect :
      (a : Answers) (s : Audit)
      → Effect a s (process_entry sha256_hex a s).0 (process_entry sha256_hex a s).1
  unfolding process_entry
  process_entry-Effect a s =
      elim (if_cases s.is_processing_queue (process_turn sha256_hex a s.turn s) (s, none)) [
        | inl e ↦
            subst (λ (r : Audit × Option AuditEvent). Effect a s r.0 r.1) (sym e)
              (process_turn-Effect a s.turn s refl)
        | inr e ↦ subst (λ (r : Audit × Option AuditEvent). Effect a s r.0 r.1) (sym e) (inl refl)
      ]

  pub process_entry-some :
      (a : Answers) (s t : Audit) (event : AuditEvent)
      → process_entry sha256_hex a s ≡ (t, some event)
      → Appends a s t event
  process_entry-some a s t event h =
      subst (λ (r : Audit × Option AuditEvent). Effect a s r.0 r.1) h (process_entry-Effect a s)

  pub process_entry-none :
      (a : Answers) (s t : Audit) → process_entry sha256_hex a s ≡ (t, none) → Stays s t
  process_entry-none a s t h =
      subst (λ (r : Audit × Option AuditEvent). Effect a s r.0 r.1) h (process_entry-Effect a s)
