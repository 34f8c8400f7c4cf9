-- ===== src/Audit/Boundary.antt =====
-- What `syncEvents` takes from other nodes, and what a checkpoint does for the verifier.
use text.Mathlib.TextEquality.{eq_iff}
use Prim.Native.String.{String}
use counter_terrorist.Common.{
  ===_other, ===_refl, All, Bool, Bool-cases, List, Option, Result, [], arith, bind-ok, err, false,
  if◌then◌else◌, inl, inr, length, none, ok, ok_inj, refl, some, some_not_none, string_eq, sym,
  true, ◌++◌, ◌===◌, ◌>>=◌, ◌∙◌, ◌∷◌, ◌≡◌, ◌≢◌, ◌⊎◌,
}
use counter_terrorist.Canonical.{compute_hash}
use counter_terrorist.AuditVerifier.{AuditEvent, hash_input, verify_chain, intact}
use counter_terrorist.AuditVerifier.Sound.{IsSound, IsCheckpoint, IsSealedBy, verify_chain_iff}
use counter_terrorist.Audit.{Audit}
use counter_terrorist.Audit.Chained.{sync_verdict-none}
use counter_terrorist.Audit.Sync.{
  sync_verdict, check_boundary, check_synced, Refusal, adopt_event, sync_event,
}

module _ (sha256_hex : String → String) (verify : Option (String → String → Bool)) where
  -- The seal of a boundary: there is a TPM, and it accepts a signature that is there.
  abbrev pub IsSignedBy : Option (String → String → Bool) → String → Option String → Type 0
  IsSignedBy none hash signature = ⊥
  IsSignedBy (some check) hash none = ⊥
  IsSignedBy (some check) hash (some s) = (s ≢ "") × (check hash s ≡ true)

  -- The event goes on with the state's chain, or is a boundary and a signed checkpoint.
  abbrev pub Continues : String → AuditEvent → Type 0
  Continues last_hash e =
      (e.prev_hash ≡ last_hash)
      ⊎ ((e.prev_hash ≡ "TRUNCATED") × IsCheckpoint e × IsSignedBy verify e.hash e.hw_signature)

  check_boundary-none :
      (tpm : Option (String → String → Bool)) (hash : String) (signature : Option String)
      → check_boundary tpm hash signature ≡ none
      → IsSignedBy tpm hash signature
  unfolding check_boundary
  check_boundary-none none hash signature h = some_not_none _ h
  check_boundary-none (some check) hash none h = some_not_none _ h
  check_boundary-none (some check) hash (some s) h = ground (arith, eq_iff s "", h)

  check_synced-Continues :
      (last_hash expected : String) (e : AuditEvent)
      → check_synced verify last_hash expected e ≡ none
      → Continues last_hash e
  unfolding check_synced
  check_synced-Continues last_hash expected e h = elim (Bool-cases (e.hash === expected)) [
    | inr other ↦ absurd (some_not_none _ (rw other at h))
    | inl same ↦ elim (Bool-cases (e.prev_hash === "TRUNCATED")) [
      | inl t ↦ elim (Bool-cases (e.type === "CHECKPOINT")) [
        | inl is ↦ inr (
          (eq_iff e.prev_hash "TRUNCATED").0 t,
          (eq_iff e.type "CHECKPOINT").0 is,
          check_boundary-none verify e.hash e.hw_signature (rw (same, t, is) at h),
        )
        | inr is_not ↦ absurd (some_not_none _ (rw (same, t, is_not) at h))
      ]
      | inr u ↦ elim (Bool-cases (e.prev_hash === last_hash)) [
        | inl l ↦ inl ((eq_iff e.prev_hash last_hash).0 l)
        | inr m ↦ absurd (some_not_none _ (rw (same, u, m) at h))
      ]
    ]
  ]

  -- What one event of another node does to the state.
  abbrev pub Outcome : AuditEvent → Audit → Audit → Type 0
  Outcome e s t =
      (t ≡ s)
      ⊎ ((t ≡ adopt_event e s)
          × (compute_hash sha256_hex (hash_input e) ≡ ok e.hash)
          × Continues s.last_hash e)

  settled_cases :
      (saved : Bool) (e : AuditEvent) (s t : Audit) (verdict : Result (Option Refusal) String)
      → ◌≡◌ {A = Result Audit String}
          (verdict >>= λ v. elim v [
            | some refusal ↦ ok s
            | none ↦ if saved then ok (adopt_event e s) else err "save"
          ])
          (ok t)
      → (t ≡ s) ⊎ ((t ≡ adopt_event e s) × (verdict ≡ ok none))
  settled_cases saved e s t (err x) h = absurd cc
  settled_cases saved e s t (ok (some refusal)) h = inl (sym (ok_inj s t h))
  settled_cases true e s t (ok none) h = inr (sym (ok_inj (adopt_event e s) t h), refl)
  settled_cases false e s t (ok none) h = absurd cc

  -- Passed over, or taken after the checks.
  sync_event-cases :
      (saves : AuditEvent → Bool) (e : AuditEvent) (s t : Audit)
      → sync_event sha256_hex verify saves e s ≡ ok t
      → (t ≡ s)
        ⊎ ((t ≡ adopt_event e s)
            × ((e.hash === s.last_hash) ≡ false)
            × (sync_verdict sha256_hex verify s.last_hash e ≡ ok none))
  unfolding sync_event
  sync_event-cases saves e s t h = elim (Bool-cases (e.hash === s.last_hash)) [
    | inl known ↦ inl (sym (ok_inj s t (rw known at h)))
    | inr new ↦
        elim (settled_cases (saves e) e s t (sync_verdict sha256_hex verify s.last_hash e)
          (rw new at h)) [ inl same ↦ inl same | inr taken ↦ inr (taken.0, new, taken.1) ]
  ]

  sync_verdict-Continues :
      (last_hash : String) (e : AuditEvent)
      → sync_verdict sha256_hex verify last_hash e ≡ ok none
      → (compute_hash sha256_hex (hash_input e) ≡ ok e.hash) × Continues last_hash e
  unfolding sync_verdict
  sync_verdict-Continues last_hash e h =
      let (expected, hashed, passed) =
        bind-ok (compute_hash sha256_hex (hash_input e))
          (λ expected. ok (check_synced verify last_hash expected e)) none h in
      (
        (sync_verdict-none sha256_hex verify last_hash e h).0,
        check_synced-Continues last_hash expected e (ok_inj _ _ passed),
      )

  -- Where `syncEvents` gets past an event, the state is as before, or the event was stored and is the
  -- new head; the latter only if it carries the hash of its contents and either names the last hash or
  -- is a checkpoint marked as a boundary whose signature this node's TPM accepts.
  pub sync_event-Outcome :
      (saves : AuditEvent → Bool) (e : AuditEvent) (s t : Audit)
      → sync_event sha256_hex verify saves e s ≡ ok t
      → Outcome e s t
  sync_event-Outcome saves e s t h = elim (sync_event-cases saves e s t h) [
    | inl same ↦ inl same
    | inr taken ↦
        let (hashed, continues) = sync_verdict-Continues s.last_hash e taken.2 in
        inr (taken.0, hashed, continues)
  ]

  IsSound-middle :
      (later : List AuditEvent) (e : AuditEvent) (h : List AuditEvent)
      → All (IsSound sha256_hex verify) (later ++ e ∷ h)
      → IsSound sha256_hex verify e
  IsSound-middle [] e h (sound, _) = sound
  IsSound-middle (x ∷ later) e h (_, rest) = IsSound-middle later e h rest

  -- An event of another node that calls itself a checkpoint, carries the hash of its contents, which is not
  -- the last hash, no signature and as its `prevHash` the last hash, which is not `TRUNCATED`, is stored
  -- and becomes the head, where the repository takes it and nothing else runs meanwhile. `verifyChain`
  -- does not report a ledger with it as intact, whatever events stand before and after it.
  pub sync_event-unsigned_checkpoint :
      (saves : AuditEvent → Bool) (e : AuditEvent) (h : List AuditEvent) (s : Audit)
      → IsCheckpoint e
      → e.prev_hash ≡ s.last_hash
      → s.last_hash ≢ "TRUNCATED"
      → e.hw_signature ≡ none
      → compute_hash sha256_hex (hash_input e) ≡ ok e.hash
      → e.hash ≢ s.last_hash
      → saves e ≡ true
      → (sync_event sha256_hex verify saves e s ≡ ok (adopt_event e s))
        × ((later : List AuditEvent)
            → verify_chain sha256_hex verify (later ++ e ∷ h)
              ≢ ok (intact (length (later ++ e ∷ h))))
  unfolding sync_event sync_verdict check_synced
  sync_event-unsigned_checkpoint saves e h s is link other unsigned hashed new saved = (
    rw (===_other e.hash s.last_hash new) (
        rw hashed (
          rw
            (
              ===_refl e.hash,
              ===_other e.prev_hash "TRUNCATED" (λ p. other (sym link ∙ p)),
              (eq_iff e.prev_hash s.last_hash).1 link,
              saved,
            )
            refl)),
    λ later valid. unsealed e.hw_signature unsigned (
        IsSound-middle later e h ((verify_chain_iff sha256_hex verify (later ++ e ∷ h)).0 valid).0),
  )
    where
      not_marked : e.prev_hash ≡ "TRUNCATED" → ⊥
      not_marked p = other (sym link ∙ p)

      no_seal : (signature : Option String) → signature ≡ none → IsSealedBy e signature verify → ⊥
      no_seal none same sealed = not_marked sealed
      no_seal (some x) same sealed = some_not_none x same

      unsealed :
          (signature : Option String) → e.hw_signature ≡ none → IsSound sha256_hex verify e → ⊥
      unsealed signature none_there (inl (_, sealed)) = no_seal e.hw_signature none_there sealed
      unsealed signature none_there (inr (is_not, _)) = is_not is
