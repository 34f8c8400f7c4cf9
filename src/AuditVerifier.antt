-- ===== src/AuditVerifier.antt =====
-- src/orchestrator/domain/analysis/audit_verifier.ts: the class `AuditVerifier`, over the events of
-- src/orchestrator/domain/analysis/audit.ts. The stream of the repository is the list of its events,
-- newest first; the TPM port is the function that its `verify` computes, if there is one.
pub mod Sound
pub mod Tamper
pub mod Proof
pub mod Checkpoint
mod Tests
use mathlib.Core.List.{reverse}
use Prim.Native.String.{String}
use mathlib.Core.Option
use counter_terrorist.Common.{
  Bool, List, Option, Result, [], false, if◌then◌else◌, map, none, ok, some, string_eq, suc, true,
  ℕ, ◌+◌, ◌===◌, ◌>>=◌, ◌||◌, ◌∷◌,
}
use counter_terrorist.Canonical.{Json, Fields, compute_hash, end, field, obj, str, undefined}
use counter_terrorist.Merkle.{build_tree, get_proof, get_root, verify}

-- `actor` and `data` are objects where they are there. `formatted` and `merkleRoot`, which neither the
-- hash nor the verifier reads, are left out.
pub record AuditEvent : Type 0 where
  pub id : String
  pub timestamp : String
  pub type : String
  pub severity : Option String
  pub caller : Option String
  pub message : String
  pub actor : Option Fields
  pub payload : Option Fields
  pub hash : String
  pub prev_hash : String
  pub hw_signature : Option String
  pub correlation_id : Option String

pub record Break : Type 0 where
  pub event_id : String
  pub expected : String
  pub actual : String
  pub type : String

pub record Report : Type 0 where
  pub valid : Bool
  pub events_checked : ℕ
  pub broken_at : Option Break

abbrev pub optional_text : Option String → Json
optional_text none = undefined
optional_text (some s) = str s

abbrev pub optional_object : Option Fields → Json
optional_object none = undefined
optional_object (some fs) = obj fs

-- `hashInput`.
unfoldable pub hash_input : AuditEvent → Json
hash_input e = obj (
    field "id" (str e.id) (
      field "timestamp" (str e.timestamp) (
        field "type" (str e.type) (
          field "severity" (optional_text e.severity) (
            field "caller" (optional_text e.caller) (
              field "message" (str e.message) (
                field "actor" (optional_object e.actor) (
                  field "data" (optional_object e.payload) (
                    field "correlationId" (optional_text e.correlation_id)
                      (field "prevHash" (str e.prev_hash) end))))))))))

abbrev pub broken : ℕ → Break → Report
broken n b = record { valid = false; events_checked = n; broken_at = some b }

abbrev pub intact : ℕ → Report
intact n = record { valid = true; events_checked = n; broken_at = none }

-- A checkpoint without a seal that can be checked passes by the mark `TRUNCATED` alone.
check_unsigned : AuditEvent → Option Break
check_unsigned e =
    if e.prev_hash === "TRUNCATED"
    then none
    else some (record {
      event_id = e.id;
      expected = "TPM_SIGNATURE";
      actual = "UNSIGNED";
      type = "UNSIGNED_CHECKPOINT";
    })

-- The branch for a checkpoint, by `event.hwSignature` and `this.tpm`: what is wrong, if anything.
check_seal : AuditEvent → Option String → Option (String → String → Bool) → Option Break
unfolding check_unsigned
check_seal e none tpm = check_unsigned e
check_seal e (some signature) none = check_unsigned e
check_seal e (some signature) (some verify) =
    if signature === ""
    then check_unsigned e
    else if verify e.hash signature
    then none
    else some (record {
      event_id = e.id;
      expected = "VALID_TPM_SIG";
      actual = "INVALID_SIG";
      type = "CHECKPOINT_TAMPER";
    })

-- `prevEvent && prevEvent.prevHash !== event.hash && prevEvent.prevHash !== "TRUNCATED"`.
check_link : Option AuditEvent → AuditEvent → Option Break
check_link none e = none
check_link (some prev) e =
    if prev.prev_hash === e.hash || prev.prev_hash === "TRUNCATED"
    then none
    else some (record {
      event_id = prev.id;
      expected = e.hash;
      actual = prev.prev_hash;
      type = "CHAIN_BREAK";
    })

-- The branch for any other event: first its hash, then its link to the event after it.
check_event : Option AuditEvent → AuditEvent → String → Option Break
check_event prev e expected =
    if e.hash === expected
    then check_link prev e
    else some
        (record { event_id = e.id; expected = expected; actual = e.hash; type = "HASH_MISMATCH" })

abbrev or_else : Option Break → ℕ → Result Report String → Result Report String
or_else none n rest = rest
or_else (some b) n rest = ok (broken n b)

module _ (sha256_hex : String → String) (tpm : Option (String → String → Bool)) where
  -- The loop of `verifyChain`, with `eventsChecked` and `prevEvent`.
  verify_from : ℕ → Option AuditEvent → List AuditEvent → Result Report String
  unfolding check_seal check_event check_link
  verify_from n prev [] = ok (intact n)
  verify_from n prev (e ∷ older) =
      let rest = verify_from (n + 1) (some e) older in
      if e.type === "CHECKPOINT"
      then or_else (check_seal e e.hw_signature tpm) (n + 1) rest
      else (compute_hash sha256_hex (hash_input e) >>= λ expected.
          or_else (check_event prev e expected) (n + 1) rest)

  -- `verifyChain`, on the events that the stream yields.
  pub verify_chain : List AuditEvent → Result Report String
  unfolding verify_from
  verify_chain events = verify_from 0 none events

-- `indexOf`.
unfoldable pub index_of : String → List String → Option ℕ
index_of s [] = none
index_of s (t ∷ rest) = if t === s then some 0 else Option.map suc (index_of s rest)

pub record MerkleProof : Type 0 where
  pub leaf : String
  pub index : ℕ
  pub proof : List String
  pub root : String

-- `getMerkleProof`.
pub get_merkle_proof : (String → String) → String → List AuditEvent → Option MerkleProof
unfolding index_of
get_merkle_proof sha256_hex event_hash recent =
    let hashes = reverse (map (λ (e : AuditEvent). e.hash) recent) in
    let tree = build_tree sha256_hex hashes in
    Option.map
      (λ i. record { leaf = event_hash; index = i; proof = get_proof tree i; root = get_root tree })
      (index_of event_hash hashes)
