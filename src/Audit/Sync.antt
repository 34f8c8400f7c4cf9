-- ===== src/Audit/Sync.antt =====
-- src/orchestrator/domain/analysis/audit.ts: `syncEvents` of `AuditService`, the checks of the chain
-- and its repair. Whether the repository takes an event is an argument.
use Prim.Native.String.{String}
use mathlib.Core.List.{reverse}
use counter_terrorist.Common.{
  Bool, List, Option, Result, [], err, if◌then◌else◌, none, not, ok, some, string_eq, take, ℕ, ◌++◌,
  ◌===◌, ◌>>=◌, ◌∷◌,
}
use counter_terrorist.Canonical.{Fields, compute_hash, field, end, str}
use counter_terrorist.AuditVerifier.{AuditEvent, hash_input, verify_chain}
use counter_terrorist.Audit.{Audit, forensic_restricted}
use counter_terrorist.Audit.Commit.{signature_of}

-- Why an event of another node is passed over.
pub data Refusal : Type 0 where
  checksum_mismatch : Refusal
  unverified_truncation : Refusal
  no_root_of_trust : Refusal
  no_signature : Refusal
  invalid_signature : Refusal
  chain_gap : Refusal

-- The signature of a truncation boundary.
unfoldable pub check_boundary :
    Option (String → String → Bool) → String → Option String → Option Refusal
check_boundary none hash signature = some no_root_of_trust
check_boundary (some verify) hash none = some no_signature
check_boundary (some verify) hash (some signature) =
    if signature === ""
    then some no_signature
    else if verify hash signature
    then none
    else some invalid_signature

-- The checks of one event, in their order, after its hash was computed.
unfoldable pub check_synced :
    Option (String → String → Bool) → String → String → AuditEvent → Option Refusal
unfolding check_boundary
check_synced verify last_hash expected e =
    if not (e.hash === expected)
    then some checksum_mismatch
    else if e.prev_hash === "TRUNCATED"
    then if e.type === "CHECKPOINT"
      then check_boundary verify e.hash e.hw_signature
      else some unverified_truncation
    else if e.prev_hash === last_hash
    then none
    else some chain_gap

-- What `save` does, and what follows once it is awaited.
unfoldable pub save_event : AuditEvent → Audit → Audit
save_event e s = record s { stored = s.stored ++ e ∷ [] }

unfoldable pub set_head : AuditEvent → Audit → Audit
set_head e s = record s { last_hash = e.hash }

-- Both, where nothing else runs while `save` is awaited.
unfoldable pub adopt_event : AuditEvent → Audit → Audit
unfolding save_event set_head
adopt_event e s = set_head e (save_event e s)

module _ (sha256_hex : String → String) (verify : Option (String → String → Bool)) where
  -- What the checks say of an event; the hash is computed first.
  unfoldable pub sync_verdict : String → AuditEvent → Result (Option Refusal) String
  unfolding check_synced
  sync_verdict last_hash e = compute_hash sha256_hex (hash_input e) >>= λ expected.
      ok (check_synced verify last_hash expected e)

  -- The body of the loop of `syncEvents` where nothing else runs in its awaits; `saves` says whether the
  -- repository takes the event. `History` takes its steps apart.
  unfoldable pub sync_event : (AuditEvent → Bool) → AuditEvent → Audit → Result Audit String
  unfolding sync_verdict adopt_event
  sync_event saves e s =
      let checked = sync_verdict s.last_hash e >>= λ verdict. elim verdict [
        | some refusal ↦ ok s
        | none ↦ if saves e then ok (adopt_event e s) else err "save"
      ] in
      if e.hash === s.last_hash then ok s else checked

  -- `syncEvents`: an exception ends it, and what was taken before stays.
  unfoldable pub sync_events : (AuditEvent → Bool) → List AuditEvent → Audit → Audit
  unfolding sync_event
  sync_events saves [] s = s
  sync_events saves (e ∷ es) s = elim (sync_event saves e s) [
    | ok next ↦ sync_events saves es next
    | err x ↦ s
  ]

-- What the repository has, newest first.
unfoldable pub latest : ℕ → Audit → List AuditEvent
latest limit s = take limit (reverse s.stored)

module _ (sha256_hex : String → String) (verify : Option (String → String → Bool)) where
  -- `verifyChainIncremental`, on the newest hundred events.
  unfoldable pub verify_chain_incremental : Audit → Audit × Result (Unit {0}) String
  unfolding latest
  verify_chain_incremental s =
      let checked : Audit × Result (Unit {0}) String =
        elim (verify_chain sha256_hex verify (latest 100 s)) [
          | err x ↦ (s, err x)
          | ok report ↦
              if report.valid
              then (record s { last_verified_hash = s.last_hash }, ok tt)
              else (s, err "AUDIT LEDGER TAMPERING DETECTED")
        ] in
      if s.last_hash === s.last_verified_hash then (s, ok tt) else checked

-- The checkpoint that `healDevChainBoundary` and `purgeExpired` write, without hash and signature.
unfoldable pub checkpoint_draft : String → String → String → String → Fields → AuditEvent
checkpoint_draft id timestamp caller message contents = record {
  id = id;
  timestamp = timestamp;
  type = "CHECKPOINT";
  severity = some "info";
  caller = some caller;
  message = message;
  actor = none;
  payload = some contents;
  hash = "";
  prev_hash = "TRUNCATED";
  hw_signature = none;
  correlation_id = none;
}

unfoldable pub heal_draft : String → String → AuditEvent
unfolding checkpoint_draft
heal_draft id now =
    checkpoint_draft id now "AUDIT:DEV_HEAL" "Dev Mode: Audit chain reset checkpoint inserted."
      (field "reason" (str "DEV_MODE_AUTO_HEAL") end)

module _ (sha256_hex : String → String) (sign : Option (String → Option String)) where
  unfoldable pub seal_checkpoint : AuditEvent → Result AuditEvent String
  unfolding signature_of
  seal_checkpoint e = compute_hash sha256_hex (hash_input e) >>= λ hash.
      signature_of sign hash >>= λ signature.
      ok (record e { hash = hash; hw_signature = signature })

  -- `healDevChainBoundary`; `saved` says whether the repository takes the checkpoint.
  unfoldable pub heal_dev_chain_boundary : String → String → Bool → Audit → Result Audit String
  unfolding seal_checkpoint heal_draft
  heal_dev_chain_boundary id now saved s = seal_checkpoint (heal_draft id now) >>= λ checkpoint.
      if saved
      then ok (record s {
        stored = s.stored ++ checkpoint ∷ [];
        last_hash = checkpoint.hash;
        last_verified_hash = checkpoint.hash;
      })
      else err "save"

  -- `restoreChainHead`: `heals` is the test of the mode and its switch.
  unfoldable pub restore_chain_head :
      Option (String → String → Bool)
      → Bool
      → String
      → String
      → Bool
      → Audit
      → Audit × Result (Unit {0}) String
  unfolding latest heal_dev_chain_boundary
  restore_chain_head verify heals id now saved s = elim (latest 1 s) [
    | [] ↦ (s, ok tt)
    | head ∷ _ ↦
        let restored = record s { last_hash = head.hash } in
        let checked : Audit × Result (Unit {0}) String =
          elim (verify_chain sha256_hex verify (latest 50 s)) [
            | err x ↦ (restored, err x)
            | ok report ↦
                if report.valid
                then (record restored { last_verified_hash = head.hash }, ok tt)
                else if heals
                then elim (heal_dev_chain_boundary id now saved restored) [
                  | ok healed ↦ (healed, ok tt)
                  | err x ↦ (restored, err x)
                ]
                else (
                  record restored { state = forensic_restricted },
                  err "CHAIN INTEGRITY FAILURE. TAMPERING DETECTED. FORCING EMERGENCY LOCKDOWN.",
                )
          ] in
        if head.hash === "" then (s, ok tt) else checked
  ]
