-- ===== src/AuditVerifier/Checkpoint.antt =====
-- What `verifyChain` does not look at: the hash of an unsigned checkpoint.
use text.Mathlib.TextEquality.{eq_iff}
use Prim.Native.String.{String}
use counter_terrorist.Common.{
  Bool, List, Option, [], none, refl, some, string_eq, ℕ, ◌++◌, ◌+◌, ◌∷◌, ◌≡◌,
}
use counter_terrorist.AuditVerifier.{
  AuditEvent, check_event, check_link, check_seal, check_unsigned, verify_chain, verify_from,
}
use counter_terrorist.AuditVerifier.Sound.{IsCheckpoint}

module _ (sha256_hex : String → String) (tpm : Option (String → String → Bool)) where
  after_checkpoint :
      (c : AuditEvent) (h : String) (n : ℕ) (older : List AuditEvent)
      → verify_from sha256_hex tpm n (some (record c { hash = h })) older
        ≡ verify_from sha256_hex tpm n (some c) older
  unfolding verify_from check_event check_link
  after_checkpoint c h n [] = refl
  after_checkpoint c h n (e ∷ older) = refl

  unsigned_seal :
      (e : AuditEvent) (signature : Option String)
      → signature ≡ none
      → check_seal e signature tpm ≡ check_unsigned e
  unfolding check_seal
  unsigned_seal e none h = refl
  unsigned_seal e (some s) h = cc

  at_checkpoint :
      (c : AuditEvent) (h : String) (n : ℕ) (prev : Option AuditEvent) (older : List AuditEvent)
      → IsCheckpoint c
      → c.hw_signature ≡ none
      → verify_from sha256_hex tpm n prev (record c { hash = h } ∷ older)
        ≡ verify_from sha256_hex tpm n prev (c ∷ older)
  unfolding verify_from check_unsigned
  at_checkpoint c h n prev older is unsigned =
      rw (after_checkpoint c h (n + 1) older, (eq_iff c.type "CHECKPOINT").1 is)
        (rw
          (
            unsigned_seal (record c { hash = h }) c.hw_signature unsigned,
            unsigned_seal c c.hw_signature unsigned,
          )
          refl)

  within :
      (front : List AuditEvent) (c : AuditEvent) (h : String) (n : ℕ) (prev : Option AuditEvent)
      (older : List AuditEvent)
      → IsCheckpoint c
      → c.hw_signature ≡ none
      → verify_from sha256_hex tpm n prev (front ++ record c { hash = h } ∷ older)
        ≡ verify_from sha256_hex tpm n prev (front ++ c ∷ older)
  unfolding verify_from
  within [] c h n prev older is unsigned = at_checkpoint c h n prev older is unsigned
  within (e ∷ front) c h n prev older is unsigned =
      rw (within front c h (n + 1) (some e) older is unsigned) refl

  -- Whatever hash an unsigned checkpoint carries, the report of `verifyChain` is the same: the hash
  -- is neither recomputed from the checkpoint nor compared with what the event after it names.
  pub verify_chain-checkpoint_hash :
      (front : List AuditEvent) (c : AuditEvent) (h : String) (older : List AuditEvent)
      → IsCheckpoint c
      → c.hw_signature ≡ none
      → verify_chain sha256_hex tpm (front ++ record c { hash = h } ∷ older)
        ≡ verify_chain sha256_hex tpm (front ++ c ∷ older)
  unfolding verify_chain
  verify_chain-checkpoint_hash front c h older is unsigned =
      within front c h 0 none older is unsigned
