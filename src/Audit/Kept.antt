-- ===== src/Audit/Kept.antt =====
-- No event that was chained is lost: it is stored, on its way to the store or waits for it.
use counter_terrorist.Registry.{logged}
use Prim.Native.String.{String}
use counter_terrorist.Common.{
  All, All-mono, Bool, Bool-cases, Has, Has-append_left, Has-append_right, List, Option, [], false,
  if_false, if_true, inl, inr, refl, string_eq, subst, sym, take, ◌++◌, ◌∷◌, ◌≡◌, ◌⊎◌,
}
use counter_terrorist.Service.{Base}
use counter_terrorist.Audit.{
  Audit, Saving, begin_flush, done, end_flush, new_audit, stopped_after, take_buffer,
}
use counter_terrorist.Audit.Commit.{start_commit, end_commit}
use counter_terrorist.Audit.Process.{append_event}
use counter_terrorist.Audit.Held.{
  Held, Stays, end_commit-held, held, log_event-held, process_entry-none, process_entry-some,
  pushed, start_commit-held, verify_chain_incremental-held,
}
use counter_terrorist.Audit.History.{
  adopted, commit_begun, commit_ended, flush_begun, flush_ended, fresh, logged, processed,
  sync_checked, sync_saved, verified, went_on,
}
use counter_terrorist.Audit.History.{History, SyncCall, checked, fresh, saved}
use counter_terrorist.Audit.Sync.{save_event, set_head, verify_chain_incremental}
use counter_terrorist.AuditVerifier.{AuditEvent}

-- An event is in one of the three places.
abbrev pub IsKept : Held → AuditEvent → Type 0
IsKept x e = Has e x.stored ⊎ (Has e x.flushing ⊎ Has e x.audit_buffer)

-- Nothing is on its way where no flush runs.
abbrev pub IsIdle : Held → Type 0
IsIdle x = x.is_flushing ≡ false → x.flushing ≡ []

-- A step that keeps events and does not leave a flush half done.
abbrev Safe : Audit → Audit → Type 0
Safe s t =
    IsIdle (held s) → IsIdle (held t) × ((e : AuditEvent) → IsKept (held s) e → IsKept (held t) e)

Safe-refl : (s : Audit) → Safe s s
Safe-refl s idle = (idle, λ e k. k)

Safe-trans : (s t u : Audit) → Safe s t → Safe t u → Safe s u
Safe-trans s t u f g idle =
    let (idle_t, keep) = f idle in
    let (idle_u, keep_on) = g idle_t in (idle_u, λ e k. keep_on e (keep e k))

take_buffer-Safe :
    (es : List AuditEvent) (s : Audit)
    → s.audit_buffer ≡ es
    → s.is_flushing ≡ false
    → Safe s (take_buffer es s)
unfolding take_buffer
take_buffer-Safe [] s same stopped idle = (idle, λ e k. k)
take_buffer-Safe (x ∷ xs) s same stopped idle = (λ h. absurd cc, λ e k. moved e k)
  where
    moved : (e : AuditEvent) → IsKept (held s) e → Has e s.stored ⊎ (Has e (x ∷ xs) ⊎ ⊥)
    moved e (inl k) = inl k
    moved e (inr (inl k)) = absurd (subst (λ l. Has e l) (idle stopped) k)
    moved e (inr (inr k)) = inr (inl (subst (λ l. Has e l) same k))

pub begin_flush-Safe : (s : Audit) → Safe s (begin_flush s)
unfolding begin_flush
begin_flush-Safe s = elim (Bool-cases s.is_flushing) [
  | inl e ↦
      subst (λ t. Safe s t) (sym (if_true s.is_flushing s (take_buffer s.audit_buffer s) e))
        (Safe-refl s)
  | inr e ↦
      subst (λ t. Safe s t) (sym (if_false s.is_flushing s (take_buffer s.audit_buffer s) e))
        (take_buffer-Safe s.audit_buffer s refl e)
]

pub end_flush-Safe : (saving : Saving) (s : Audit) → Safe s (end_flush saving s)
unfolding end_flush
end_flush-Safe done s idle = (λ h. refl, λ e k. stored e k)
  where
    stored :
        (e : AuditEvent)
        → IsKept (held s) e
        → Has e (s.stored ++ s.flushing) ⊎ (⊥ ⊎ Has e s.audit_buffer)
    stored e (inl k) = inl (Has-append_left e s.stored s.flushing k)
    stored e (inr (inl k)) = inl (Has-append_right e s.stored s.flushing k)
    stored e (inr (inr k)) = inr (inr k)
end_flush-Safe (stopped_after n) s idle = (λ h. refl, λ e k. waits e k)
  where
    waits :
        (e : AuditEvent)
        → IsKept (held s) e
        → Has e (s.stored ++ take n s.flushing) ⊎ (⊥ ⊎ Has e (s.flushing ++ s.audit_buffer))
    waits e (inl k) = inl (Has-append_left e s.stored (take n s.flushing) k)
    waits e (inr (inl k)) = inr (inr (Has-append_left e s.flushing s.audit_buffer k))
    waits e (inr (inr k)) = inr (inr (Has-append_right e s.flushing s.audit_buffer k))

held-Safe : (s t : Audit) → held t ≡ held s → Safe s t
held-Safe s t same idle =
    (subst IsIdle (sym same) idle, λ e k. subst (λ x. IsKept x e) (sym same) k)

Stays-Safe : (s t : Audit) → Stays s t → Safe s t
Stays-Safe s t (inl same) = held-Safe s t same
Stays-Safe s t (inr (m, same, flushed)) =
    Safe-trans s m t (held-Safe s m same)
      (Safe-trans m (begin_flush m) t (begin_flush-Safe m) (held-Safe (begin_flush m) t flushed))

-- An event that is appended joins those that wait.
append_event-Safe :
    (e : AuditEvent) (s : Audit) → Safe s (append_event e s) × IsKept (held (append_event e s)) e
unfolding append_event
append_event-Safe e s = (
  λ idle. (idle, λ f k. joined f k),
  inr (inr (Has-append_right e s.audit_buffer (e ∷ []) (inl refl))),
)
  where
    joined : (f : AuditEvent) → IsKept (held s) f → IsKept (pushed e (held s)) f
    joined f (inl k) = inl k
    joined f (inr (inl k)) = inr (inl k)
    joined f (inr (inr k)) = inr (inr (Has-append_left f s.audit_buffer (e ∷ []) k))

save_event-Safe : (e : AuditEvent) (s : Audit) → Safe s (save_event e s)
unfolding save_event
save_event-Safe e s idle = (idle, λ f k. stored f k)
  where
    stored :
        (f : AuditEvent)
        → IsKept (held s) f
        → Has f (s.stored ++ e ∷ []) ⊎ (Has f s.flushing ⊎ Has f s.audit_buffer)
    stored f (inl k) = inl (Has-append_left f s.stored (e ∷ []) k)
    stored f (inr k) = inr k

set_head-Safe : (e : AuditEvent) (s : Audit) → Safe s (set_head e s)
unfolding set_head
set_head-Safe e s idle = (idle, λ f k. k)

-- The event of a call of `syncEvents` that saved it is kept too.
abbrev IsKeptCall : Held → SyncCall → Type 0
IsKeptCall x (checked last_hash e) = Unit
IsKeptCall x (saved last_hash e) = IsKept x e

All-saved :
    (x : Held) (b c : List SyncCall) (last_hash : String) (e : AuditEvent)
    → IsKept x e
    → All (IsKeptCall x) (b ++ checked last_hash e ∷ c)
    → All (IsKeptCall x) (b ++ saved last_hash e ∷ c)
All-saved x [] c last_hash e kept (_, rest) = (kept, rest)
All-saved x (y ∷ b) c last_hash e kept (k, rest) = (k, All-saved x b c last_hash e kept rest)

All-taken :
    (x : Held) (b c : List SyncCall) (last_hash : String) (e : AuditEvent)
    → All (IsKeptCall x) (b ++ saved last_hash e ∷ c)
    → IsKept x e × All (IsKeptCall x) (b ++ c)
All-taken x [] c last_hash e (k, rest) = (k, rest)
All-taken x (y ∷ b) c last_hash e (k, rest) =
    let (found, others) = All-taken x b c last_hash e rest in (found, (k, others))

module _ (sha256_hex : String → String) (verify : Option (String → String → Bool)) where
  abbrev Holds : List AuditEvent → List SyncCall → Audit → Type 0
  Holds h c s = IsIdle (held s) × All (IsKept (held s)) h × All (IsKeptCall (held s)) c

  step-Holds :
      (h : List AuditEvent) (c : List SyncCall) (s t : Audit) → Safe s t → Holds h c s → Holds h c t
  step-Holds h c s t safe (idle, kept, calls) =
      let (idle_t, keep) = safe idle in
      (
        idle_t,
        All-mono (IsKept (held s)) (IsKept (held t)) keep h kept,
        All-mono (IsKeptCall (held s)) (IsKeptCall (held t)) (keep_call keep) c calls,
      )
    where
      keep_call :
          ((e : AuditEvent) → IsKept (held s) e → IsKept (held t) e)
          → (x : SyncCall) → IsKeptCall (held s) x
          → IsKeptCall (held t) x
      keep_call keep (checked last_hash e) k = tt
      keep_call keep (saved last_hash e) k = keep e k

  History-Holds :
      {base : Base} {h : List AuditEvent} {c : List SyncCall} {s : Audit}
      → History sha256_hex verify base h c s
      → Holds h c s
  unfolding new_audit save_event
  History-Holds fresh = (λ h. refl, tt, tt)
  History-Holds {h} {c} (logged {s} {t} heap r p e) =
      step-Holds h c s t (held-Safe s t (log_event-held heap r s t e)) (History-Holds p)
  History-Holds (processed {h} {c} {s} {t} {e} a p step) =
      let (_, _, es, _, _, _, same) = process_entry-some sha256_hex a s t e step in
      let taken = record s { current = es } in
      let (safe, here) = append_event-Safe e taken in
      let (idle, kept, calls) =
        step-Holds h c s t (subst (λ u. Safe s u) (sym same) safe) (History-Holds p) in
      (idle, (subst (λ u. IsKept (held u) e) (sym same) here, kept), calls)
  History-Holds {h} {c} (went_on {s} {t} a p step) =
      step-Holds h c s t (Stays-Safe s t (process_entry-none sha256_hex a s t step))
        (History-Holds p)
  History-Holds {h} {c} (flush_begun {s} p) =
      step-Holds h c s (begin_flush s) (begin_flush-Safe s) (History-Holds p)
  History-Holds {h} {c} (flush_ended {s} saving p) =
      step-Holds h c s (end_flush saving s) (end_flush-Safe saving s) (History-Holds p)
  History-Holds {h} {c} (commit_begun {s} healthy p) =
      step-Holds h c s (start_commit healthy s)
        (held-Safe s (start_commit healthy s) (start_commit-held healthy s)) (History-Holds p)
  History-Holds {h} {c} (commit_ended {s} heap sign p) =
      let t = end_commit sha256_hex heap sign s in
      step-Holds h c s t (held-Safe s t (end_commit-held sha256_hex heap sign s)) (History-Holds p)
  History-Holds (sync_checked e p passed) =
      let (idle, kept, calls) = History-Holds p in (idle, kept, (tt, calls))
  History-Holds {h} (sync_saved {s} b c last_hash e p) =
      let (idle, kept, calls) =
        step-Holds h (b ++ checked last_hash e ∷ c) s (save_event e s) (save_event-Safe e s)
          (History-Holds p) in
      (idle, kept, All-saved (held (save_event e s)) b c last_hash e (inl (newest s.stored)) calls)
    where
      newest : (es : List AuditEvent) → Has e (es ++ e ∷ [])
      newest es = Has-append_right e es (e ∷ []) (inl refl)
  History-Holds (adopted {h} {s} b c last_hash e p) =
      let (idle, kept, calls) =
        step-Holds h (b ++ saved last_hash e ∷ c) s (set_head e s) (set_head-Safe e s)
          (History-Holds p) in
      let (here, others) = All-taken (held (set_head e s)) b c last_hash e calls in
      (idle, (here, kept), others)
  History-Holds {h} {c} (verified {s} p) =
      let t = (verify_chain_incremental sha256_hex verify s).0 in
      step-Holds h c s t (held-Safe s t (verify_chain_incremental-held sha256_hex verify s))
        (History-Holds p)

  -- Whatever flushes fail, wholly or after some of the chunks, and whatever else runs between them:
  -- each event that the service chained is in the store, in a batch on its way there, or in the buffer
  -- for the next batch.
  pub History-IsKept :
      (base : Base) (h : List AuditEvent) (c : List SyncCall) (s : Audit)
      → History sha256_hex verify base h c s
      → All (IsKept (held s)) h
  History-IsKept base h c s past = (History-Holds past).1
