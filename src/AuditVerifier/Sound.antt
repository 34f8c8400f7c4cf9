-- ===== src/AuditVerifier/Sound.antt =====
-- The loop of `verifyChain` accepts exactly the ledgers whose events are sound and linked.
use Prim.Native.String.{count}
use text.Mathlib.TextEquality.{eq_iff}
use Prim.Native.String.{String}
use counter_terrorist.Common.{
  All, Bool, Bool-cases, List, Option, Result, [], ap, arith, err, inl, inr, length, none, ok,
  ok_inj, refl, some, string_eq, sym, true, ℕ, ◌+◌, ◌===◌, ◌>>=◌, ◌↔◌, ◌∷◌, ◌≡◌, ◌≢◌, ◌⊎◌,
}
use counter_terrorist.Canonical.{compute_hash}
use counter_terrorist.AuditVerifier.{
  AuditEvent, Break, Report, check_link, check_seal, hash_input, intact, or_else, check_event,
  verify_chain, verify_from,
}

abbrev pub IsCheckpoint : AuditEvent → Type 0
IsCheckpoint e = e.type ≡ "CHECKPOINT"

-- The seal of a checkpoint: checked by the TPM if there are both a signature and a TPM.
abbrev pub IsSealedBy : AuditEvent → Option String → Option (String → String → Bool) → Type 0
IsSealedBy e none tpm = e.prev_hash ≡ "TRUNCATED"
IsSealedBy e (some signature) none = e.prev_hash ≡ "TRUNCATED"
IsSealedBy e (some signature) (some verify) =
    ((signature ≡ "") × (e.prev_hash ≡ "TRUNCATED"))
    ⊎ ((signature ≢ "") × (verify e.hash signature ≡ true))

module _ (sha256_hex : String → String) (tpm : Option (String → String → Bool)) where
  -- What an event by itself must satisfy.
  abbrev pub IsSound : AuditEvent → Type 0
  IsSound e =
      (IsCheckpoint e × IsSealedBy e e.hw_signature tpm)
      ⊎ ((¬ IsCheckpoint e) × (compute_hash sha256_hex (hash_input e) ≡ ok e.hash))

  -- What an event must satisfy beside the one after it in time.
  abbrev pub IsLinked : AuditEvent → AuditEvent → Type 0
  IsLinked newer older =
      IsCheckpoint older ⊎ ((newer.prev_hash ≡ older.hash) ⊎ (newer.prev_hash ≡ "TRUNCATED"))

  abbrev pub IsLinkedAfter : Option AuditEvent → AuditEvent → Type 0
  IsLinkedAfter none e = Unit
  IsLinkedAfter (some newer) e = IsLinked newer e

  -- Each two neighbours of a ledger, newest first, are linked.
  abbrev pub Chain : Option AuditEvent → List AuditEvent → Type 0
  Chain prev [] = Unit
  Chain prev (e ∷ older) = IsLinkedAfter prev e × Chain (some e) older

  check_seal_iff :
      (e : AuditEvent) (signature : Option String) (verify : Option (String → String → Bool))
      → (check_seal e signature verify ≡ none) ↔ IsSealedBy e signature verify
  unfolding check_seal
  check_seal_iff e none verify = ground (arith, eq_iff e.prev_hash "TRUNCATED")
  check_seal_iff e (some s) none = ground (arith, eq_iff e.prev_hash "TRUNCATED")
  check_seal_iff e (some s) (some verify) =
      ground (arith, eq_iff e.prev_hash "TRUNCATED", eq_iff s "")

  check_link_iff :
      (prev : Option AuditEvent) (e : AuditEvent)
      → ¬ IsCheckpoint e
      → (check_link prev e ≡ none) ↔ IsLinkedAfter prev e
  unfolding check_link
  check_link_iff none e h = (λ _. tt, λ _. refl)
  check_link_iff (some p) e h =
      ground (arith, eq_iff p.prev_hash "TRUNCATED", eq_iff p.prev_hash e.hash)

  or_else_iff :
      (b : Option Break) (n m : ℕ) (rest : Result Report String)
      → (or_else b n rest ≡ ok (intact m)) ↔ ((b ≡ none) × (rest ≡ ok (intact m)))
  or_else_iff none n m rest = (λ h. (refl, h), λ h. h.1)
  or_else_iff (some b) n m rest = (λ h. cc, λ h. cc)

  linked_checkpoint :
      (prev : Option AuditEvent) (e : AuditEvent) → IsCheckpoint e → IsLinkedAfter prev e
  linked_checkpoint none e h = tt
  linked_checkpoint (some p) e h = inl h

  -- The branch of the loop for an event that is no checkpoint.
  check_hash_iff :
      (n m : ℕ) (prev : Option AuditEvent) (e : AuditEvent) (rest : Result Report String)
      (hashed : Result String String)
      → ¬ IsCheckpoint e
      → ((hashed >>= λ expected. or_else (check_event prev e expected) n rest) ≡ ok (intact m))
        ↔ ((hashed ≡ ok e.hash) × IsLinkedAfter prev e × (rest ≡ ok (intact m)))
  unfolding check_event
  check_hash_iff n m prev e rest (err x) h = (λ p. cc, λ p. cc p.0)
  check_hash_iff n m prev e rest (ok expected) h = elim (Bool-cases (e.hash === expected)) [
    | inr differ ↦
        rw differ (
          λ p. cc,
          λ p. absurd (ground (arith, eq_iff e.hash expected, ok_inj expected e.hash p.0)),
        )
    | inl same ↦
        let (out, into) = or_else_iff (check_link prev e) n m rest in
        let (linked, none_of) = check_link_iff prev e h in
        rw same (
          λ p. (ap ok (sym ((eq_iff e.hash expected).0 same)), linked (out p).0, (out p).1),
          λ p. into (none_of p.1, p.2),
        )
  ]

  verify_from_iff :
      (events : List AuditEvent) (n m : ℕ) (prev : Option AuditEvent)
      → m ≡ n + length events
      → (verify_from sha256_hex tpm n prev events ≡ ok (intact m))
        ↔ (All IsSound events × Chain prev events)
  unfolding verify_from
  verify_from_iff [] n m prev count = (λ _. (tt, tt), λ _. ground arith)
  verify_from_iff (e ∷ older) n m prev count =
      let (below, above) = verify_from_iff older (n + 1) m (some e) (omega arith) in
      let rest = verify_from sha256_hex tpm (n + 1) (some e) older in
      elim (Bool-cases (e.type === "CHECKPOINT")) [
        | inl is ↦
            let sealed = (eq_iff e.type "CHECKPOINT").0 is in
            let (out, into) = or_else_iff (check_seal e e.hw_signature tpm) (n + 1) m rest in
            let (seal, unseal) = check_seal_iff e e.hw_signature tpm in
            rw is (
              λ p. (
                (inl (sealed, seal (out p).0), (below (out p).1).0),
                (linked_checkpoint prev e sealed, (below (out p).1).1),
              ),
              λ p. into (unseal (seal_of e p.0.0 sealed), above (p.0.1, p.1.1)),
            )
        | inr is_not ↦
            let other : ¬ IsCheckpoint e =
              λ q. absurd (ground (arith, eq_iff e.type "CHECKPOINT", q)) in
            let (out, into) =
              check_hash_iff (n + 1) m prev e rest (compute_hash sha256_hex (hash_input e)) other in
            rw is_not (
              λ p.
                  ((inr (other, (out p).0), (below (out p).2).0), ((out p).1, (below (out p).2).1)),
              λ p. into (hash_of e p.0.0 other, p.1.0, above (p.0.1, p.1.1)),
            )
      ]
    where
      seal_of : (e : AuditEvent) → IsSound e → IsCheckpoint e → IsSealedBy e e.hw_signature tpm
      seal_of e (inl s) h = s.1
      seal_of e (inr s) h = absurd (s.0 h)

      hash_of :
          (e : AuditEvent)
          → IsSound e
          → ¬ IsCheckpoint e
          → compute_hash sha256_hex (hash_input e) ≡ ok e.hash
      hash_of e (inl s) h = absurd (h s.0)
      hash_of e (inr s) h = s.1

  -- `verifyChain` reports a valid ledger, with every event checked, exactly if every checkpoint is sealed
  -- (where it has a signature that is not empty and there is a TPM, the TPM accepts the signature for its
  -- hash; in each other case its `prevHash` is `TRUNCATED`), every other event carries the hash of its
  -- contents, and every event that is no checkpoint is the one whose hash the event after it names (unless
  -- that one is marked `TRUNCATED`).
  pub verify_chain_iff :
      (events : List AuditEvent)
      → (verify_chain sha256_hex tpm events ≡ ok (intact (length events)))
        ↔ (All IsSound events × Chain none events)
  unfolding verify_chain
  verify_chain_iff events = verify_from_iff events 0 (length events) none (omega arith)
