-- ===== src/Audit/Chained.antt =====
-- The history of the service is a chain that `verifyChain` accepts.
use counter_terrorist.Registry.{logged}
use Prim.Native.String.{String}
use counter_terrorist.Common.{
  ===_cases, ===_other, ===_refl, All, Bool, Bool-cases, List, Option, [], ap, bind-ok, inl, inr,
  length, none, ok, ok_inj, refl, some, some_not_none, string_eq, subst, sym, ◌++◌, ◌>>=◌, ◌∙◌, ◌∷◌,
  ◌≡◌, ◌⊎◌,
}
use counter_terrorist.Canonical.{compute_hash}
use counter_terrorist.Service.{Base}
use counter_terrorist.Audit.{
  Audit, Entry, Saving, Turn, begin_flush, counting, done, end_flush, mirroring, new_audit,
  saving_batch, sealing, stopped_after, take_buffer, waiting,
}
use counter_terrorist.Audit.Commit.{signature_of, end_commit, start_commit}
use counter_terrorist.Audit.Process.{Answers, append_event, draft, seal_entry}
use counter_terrorist.Audit.Held.{
  Held, Stays, end_commit-held, held, log_event-held, process_entry-none, process_entry-some,
  start_commit-held, verify_chain_incremental-held,
}
use counter_terrorist.Audit.History.{
  adopted, commit_begun, commit_ended, flush_begun, flush_ended, fresh, logged, processed,
  sync_checked, sync_saved, verified, went_on,
}
use counter_terrorist.Audit.History.{History, SyncCall, Undisturbed, checked, fresh, saved}
use counter_terrorist.Audit.Sync.{
  sync_verdict, check_synced, save_event, set_head, verify_chain_incremental,
}
use counter_terrorist.AuditVerifier.{AuditEvent, hash_input, verify_chain, intact}
use counter_terrorist.AuditVerifier.Sound.{
  IsSound, Chain, IsCheckpoint, IsSealedBy, verify_chain_iff,
}

-- The hash that the next event has to name.
abbrev pub newest_hash : List AuditEvent → String
newest_hash [] = "GENESIS"
newest_hash (e ∷ older) = e.hash

-- Each event names the one before it, or is marked as a boundary.
abbrev pub Linked : List AuditEvent → Type 0
Linked [] = Unit
Linked (e ∷ older) =
    ((e.prev_hash ≡ newest_hash older) ⊎ (e.prev_hash ≡ "TRUNCATED")) × Linked older

module _ (sha256_hex : String → String) (verify : Option (String → String → Bool)) where
  abbrev pub IsHashed : AuditEvent → Type 0
  IsHashed e = compute_hash sha256_hex (hash_input e) ≡ ok e.hash

  -- What the checks leave of an event of another node.
  check_synced-none :
      (last_hash expected : String) (e : AuditEvent)
      → check_synced verify last_hash expected e ≡ none
      → (e.hash ≡ expected) × ((e.prev_hash ≡ last_hash) ⊎ (e.prev_hash ≡ "TRUNCATED"))
  unfolding check_synced
  check_synced-none last_hash expected e h = elim (===_cases e.hash expected) [
    | inr other ↦ absurd (some_not_none _ (rw (===_other e.hash expected other) at h))
    | inl same ↦ elim (===_cases e.prev_hash "TRUNCATED") [
      | inl t ↦ (same, inr t)
      | inr u ↦ elim (===_cases e.prev_hash last_hash) [
        | inl l ↦ (same, inl l)
        | inr m ↦ absurd (
            some_not_none _ (
              rw
                (
                  (===_other e.prev_hash "TRUNCATED" u),
                  (===_other e.prev_hash last_hash m),
                  same,
                  ===_refl expected,
                )
                at h))
      ]
    ]
  ]

  pub sync_verdict-none :
      (last_hash : String) (e : AuditEvent)
      → sync_verdict sha256_hex verify last_hash e ≡ ok none
      → IsHashed e × ((e.prev_hash ≡ last_hash) ⊎ (e.prev_hash ≡ "TRUNCATED"))
  unfolding sync_verdict
  sync_verdict-none last_hash e h =
      let (expected, hashed, passed) =
        bind-ok (compute_hash sha256_hex (hash_input e))
          (λ expected. ok (check_synced verify last_hash expected e)) none h in
      let (same, link) = check_synced-none last_hash expected e (ok_inj _ _ passed) in
      (hashed ∙ ap ok (sym same), link)

  seal_entry-ok :
      (a : Answers) (prev_hash : String) (e : Entry) (event : AuditEvent)
      → seal_entry sha256_hex a prev_hash e ≡ ok event
      → IsHashed event × (event.prev_hash ≡ prev_hash)
  unfolding seal_entry draft hash_input
  seal_entry-ok a prev_hash e event h =
      let (hash, hashed, signing) =
        bind-ok (compute_hash sha256_hex (hash_input (draft a prev_hash e)))
          (λ hash. signature_of a.sign hash >>= λ signature.
            ok (record (draft a prev_hash e) { hash = hash; hw_signature = signature }))
          event h in
      let (signature, _, made) =
        bind-ok (signature_of a.sign hash)
          (λ signature. ok (record (draft a prev_hash e) { hash = hash; hw_signature = signature }))
          event signing in
      subst (λ x. IsHashed x × (x.prev_hash ≡ prev_hash)) (ok_inj _ _ made) (hashed, refl)

  take_buffer-last_hash :
      (es : List AuditEvent) (s : Audit) → (take_buffer es s).last_hash ≡ s.last_hash
  unfolding take_buffer
  take_buffer-last_hash [] s = refl
  take_buffer-last_hash (e ∷ es) s = refl

  begin_flush-last_hash : (s : Audit) → (begin_flush s).last_hash ≡ s.last_hash
  unfolding begin_flush
  begin_flush-last_hash s = elim (Bool-cases s.is_flushing) [
    | inl e ↦ rw e refl
    | inr e ↦ simp e (take_buffer-last_hash s.audit_buffer s)
  ]

  end_flush-last_hash : (saving : Saving) (s : Audit) → (end_flush saving s).last_hash ≡ s.last_hash
  unfolding end_flush
  end_flush-last_hash done s = refl
  end_flush-last_hash (stopped_after n) s = refl

  Stays-last_hash : (s t : Audit) → Stays s t → t.last_hash ≡ s.last_hash
  Stays-last_hash s t (inl same) = ap (λ (x : Held). x.last_hash) same
  Stays-last_hash s t (inr (m, same, flushed)) =
      ap (λ (x : Held). x.last_hash) flushed
      ∙ (begin_flush-last_hash m ∙ ap (λ (x : Held). x.last_hash) same)

  -- What the checks found of an event that a call of `syncEvents` works on.
  abbrev pub IsChecked : SyncCall → Type 0
  IsChecked (checked last_hash e) =
      IsHashed e × ((e.prev_hash ≡ last_hash) ⊎ (e.prev_hash ≡ "TRUNCATED"))
  IsChecked (saved last_hash e) =
      IsHashed e × ((e.prev_hash ≡ last_hash) ⊎ (e.prev_hash ≡ "TRUNCATED"))

  All-saved :
      (b c : List SyncCall) (last_hash : String) (e : AuditEvent)
      → All IsChecked (b ++ checked last_hash e ∷ c)
      → All IsChecked (b ++ saved last_hash e ∷ c)
  All-saved [] c last_hash e (x, rest) = (x, rest)
  All-saved (y ∷ b) c last_hash e (x, rest) = (x, All-saved b c last_hash e rest)

  All-taken :
      (b c : List SyncCall) (x : SyncCall)
      → All IsChecked (b ++ x ∷ c)
      → IsChecked x × All IsChecked (b ++ c)
  All-taken [] c x (y, rest) = (y, rest)
  All-taken (z ∷ b) c x (y, rest) =
      let (found, others) = All-taken b c x rest in (found, (y, others))

  -- What each step keeps, in whatever order.
  abbrev pub Keeps : List AuditEvent → List SyncCall → Audit → Type 0
  Keeps h c s = (s.last_hash ≡ newest_hash h) × All IsHashed h × All IsChecked c

  Keeps-last :
      (h : List AuditEvent) (c : List SyncCall) (s t : Audit)
      → t.last_hash ≡ s.last_hash
      → Keeps h c s
      → Keeps h c t
  Keeps-last h c s t same (last, hashed, calls) = (same ∙ last, hashed, calls)

  Keeps-held :
      (h : List AuditEvent) (c : List SyncCall) (s t : Audit)
      → held t ≡ held s
      → Keeps h c s
      → Keeps h c t
  Keeps-held h c s t same = Keeps-last h c s t (ap (λ (x : Held). x.last_hash) same)

  pub History-Keeps :
      {base : Base} {h : List AuditEvent} {c : List SyncCall} {s : Audit}
      → History sha256_hex verify base h c s
      → Keeps h c s
  unfolding new_audit append_event save_event set_head
  History-Keeps fresh = (refl, tt, tt)
  History-Keeps {h} {c} (logged {s} {t} heap r p e) =
      Keeps-held h c s t (log_event-held heap r s t e) (History-Keeps p)
  History-Keeps (processed {h} {c} {s} {t} {e} a p step) =
      let (last, hashed, calls) = History-Keeps p in
      let (prev_hash, entry, es, _, _, sealed, same) = process_entry-some sha256_hex a s t e step in
      let (good, _) = seal_entry-ok a prev_hash entry e sealed in
      (ap (λ (x : Audit). x.last_hash) same, (good, hashed), calls)
  History-Keeps {h} {c} (went_on {s} {t} a p step) =
      Keeps-last h c s t (Stays-last_hash s t (process_entry-none sha256_hex a s t step))
        (History-Keeps p)
  History-Keeps {h} {c} (flush_begun {s} p) =
      Keeps-last h c s (begin_flush s) (begin_flush-last_hash s) (History-Keeps p)
  History-Keeps {h} {c} (flush_ended {s} saving p) =
      Keeps-last h c s (end_flush saving s) (end_flush-last_hash saving s) (History-Keeps p)
  History-Keeps {h} {c} (commit_begun {s} healthy p) =
      Keeps-held h c s (start_commit healthy s) (start_commit-held healthy s) (History-Keeps p)
  History-Keeps {h} {c} (commit_ended {s} heap sign p) =
      Keeps-held h c s (end_commit sha256_hex heap sign s) (end_commit-held sha256_hex heap sign s)
        (History-Keeps p)
  History-Keeps (sync_checked {s} e p passed) =
      let (last, hashed, calls) = History-Keeps p in
      (last, hashed, (sync_verdict-none s.last_hash e passed, calls))
  History-Keeps (sync_saved b c last_hash e p) =
      let (last, hashed, calls) = History-Keeps p in (last, hashed, All-saved b c last_hash e calls)
  History-Keeps (adopted b c last_hash e p) =
      let (last, hashed, calls) = History-Keeps p in
      let (found, others) = All-taken b c (saved last_hash e) calls in
      (refl, (found.0, hashed), others)
  History-Keeps {h} {c} (verified {s} p) =
      Keeps-held h c s (verify_chain_incremental sha256_hex verify s).0
        (verify_chain_incremental-held sha256_hex verify s) (History-Keeps p)

  sealing_inj : (p q : String) → sealing p ≡ sealing q → p ≡ q
  sealing_inj p q h = ap read h
    where
      read : Turn → String
      read waiting = p
      read (sealing x) = x
      read (counting e) = p
      read (mirroring e) = p
      read saving_batch = p

  -- The links, where the last hash stayed while it was relied on.
  History-Linked :
      {base : Base} {h : List AuditEvent} {c : List SyncCall} {s : Audit}
      (p : History sha256_hex verify base h c s)
      → Undisturbed sha256_hex verify p
      → Linked h
  unfolding Undisturbed
  History-Linked fresh calm = tt
  History-Linked (logged heap r p e) calm = History-Linked p calm
  History-Linked (processed {h} {c} {s} {t} {e} a p step) (still, calm) =
      let (last, _, _) = History-Keeps p in
      let (prev_hash, entry, es, turn, _, sealed, _) = process_entry-some sha256_hex a s t e step in
      let (_, prev) = seal_entry-ok a prev_hash entry e sealed in
      let read : prev_hash ≡ s.last_hash = sealing_inj prev_hash s.last_hash (sym turn ∙ still) in
      (inl (prev ∙ (read ∙ last)), History-Linked p calm)
  History-Linked (went_on a p step) calm = History-Linked p calm
  History-Linked (flush_begun p) calm = History-Linked p calm
  History-Linked (flush_ended saving p) calm = History-Linked p calm
  History-Linked (commit_begun healthy p) calm = History-Linked p calm
  History-Linked (commit_ended heap sign p) calm = History-Linked p calm
  History-Linked (sync_checked e p passed) calm = History-Linked p calm
  History-Linked (sync_saved b c last_hash e p) calm = History-Linked p calm
  History-Linked (adopted {h} {s} b c last_hash e p) (still, calm) =
      let (last, _, calls) = History-Keeps p in
      let (found, _) = All-taken b c (saved last_hash e) calls in
      (linked_to (still ∙ last) found.1, History-Linked p calm)
    where
      linked_to :
          {n : String}
          → last_hash ≡ n
          → (e.prev_hash ≡ last_hash) ⊎ (e.prev_hash ≡ "TRUNCATED")
          → (e.prev_hash ≡ n) ⊎ (e.prev_hash ≡ "TRUNCATED")
      linked_to last (inl x) = inl (x ∙ last)
      linked_to last (inr x) = inr x
  History-Linked (verified p) calm = History-Linked p calm

  -- A checkpoint of a ledger that has no seal is what the verifier cannot accept.
  abbrev pub IsSealedCheckpoint : AuditEvent → Type 0
  IsSealedCheckpoint e = IsCheckpoint e → IsSealedBy e e.hw_signature verify

  hashed-IsSound :
      (e : AuditEvent) → IsHashed e → IsSealedCheckpoint e → IsSound sha256_hex verify e
  hashed-IsSound e hashed sealed = elim (===_cases e.type "CHECKPOINT") [
    | inl is ↦ inl (is, sealed is)
    | inr other ↦ inr (other, hashed)
  ]

  All-IsSound :
      (h : List AuditEvent)
      → All IsHashed h
      → All IsSealedCheckpoint h
      → All (IsSound sha256_hex verify) h
  All-IsSound [] hashed sealed = tt
  All-IsSound (e ∷ h) (x, hashed) (y, sealed) = (hashed-IsSound e x y, All-IsSound h hashed sealed)

  Linked-Chain :
      (e : AuditEvent) (h : List AuditEvent) → Linked (e ∷ h) → Chain sha256_hex verify (some e) h
  Linked-Chain e [] linked = tt
  Linked-Chain e (f ∷ h) (link, linked) = (inr link, Linked-Chain f h linked)

  All-Chain : (h : List AuditEvent) → Linked h → Chain sha256_hex verify none h
  All-Chain [] linked = tt
  All-Chain (e ∷ h) linked = (tt, Linked-Chain e h linked)

  -- The calls of `logEvent`, the stretches of the queue between its awaits, flushes and commits that succeed
  -- or fail and the parts of any number of `syncEvents` may interleave in whatever order: each event that
  -- was chained carries the hash of its contents. If moreover the last hash, where an event is chained,
  -- is still the one that its entry or its check read, and each checkpoint among the events carries a
  -- seal that the verifier accepts, then `verifyChain` of the events, newest first, reports them all
  -- checked and intact.
  pub verify_chain-History :
      (base : Base) (h : List AuditEvent) (c : List SyncCall) (s : Audit)
      (p : History sha256_hex verify base h c s)
      → All IsHashed h
        × (Undisturbed sha256_hex verify p
            → All IsSealedCheckpoint h
            → verify_chain sha256_hex verify h ≡ ok (intact (length h)))
  verify_chain-History base h c s p =
      let (_, hashed, _) = History-Keeps p in
      (
        hashed,
        λ calm sealed.
            (verify_chain_iff sha256_hex verify h).1
              (All-IsSound h hashed sealed, All-Chain h (History-Linked p calm)),
      )
