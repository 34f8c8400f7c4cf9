-- ===== src/AuditVerifier/Tests.antt =====
-- The verifier on a ledger of two events.
use text.Mathlib.TextEquality.{eq_iff}
use Prim.Native.String.{String}
use counter_terrorist.Common.{
  All, Bool-cases, List, [], arith, err, if◌then◌else◌, inl, inr, map, none, ok, refl, string_eq,
  ◌===◌, ◌↔◌, ◌∷◌, ◌≡◌, ◌≢◌, ◌⊎◌,
}
use Prim.Native.String
use counter_terrorist.Canonical.{compute_hash}
use counter_terrorist.AuditVerifier.{
  AuditEvent, get_merkle_proof, hash_input, verify_chain, intact, MerkleProof,
}
use counter_terrorist.AuditVerifier.Sound.{IsSound, Chain, verify_chain_iff}
use counter_terrorist.AuditVerifier.Tamper.{HashCollision, IsPlain, verify_chain_unique}
use counter_terrorist.AuditVerifier.Checkpoint.{verify_chain-checkpoint_hash}
use counter_terrorist.Merkle.{build_tree, get_proof, get_root, levels, proof_from, sibling, pair_up}

program : Unit {0}
unfolding verify_chain hash_input compute_hash get_merkle_proof get_root get_proof proof_from
    sibling build_tree levels pair_up
program = tt

-- A hash function for the tests: a mark, and the text itself.
abbrev mark : String → String
mark t = String.◌++◌ "#" t

abbrev entry : String → String → String → AuditEvent
entry id prev hash = record {
  id = id;
  timestamp = "2026";
  type = "SECURITY";
  severity = none;
  caller = none;
  message = "m";
  actor = none;
  payload = none;
  hash = hash;
  prev_hash = prev;
  hw_signature = none;
  correlation_id = none;
}

-- The text that is hashed: the keys are sorted, and absent properties print as `undefined`.
hashed_text :
    compute_hash mark (hash_input (entry "1" "GENESIS" ""))
    ≡ ok
        "#{\"actor\":undefined,\"caller\":undefined,\"correlationId\":undefined,\"data\":undefined,\"id\":\"1\",\"message\":\"m\",\"prevHash\":\"GENESIS\",\"severity\":undefined,\"timestamp\":\"2026\",\"type\":\"SECURITY\"}"
unfolding program
hashed_text = refl

abbrev digest : AuditEvent → String
digest e = elim (compute_hash mark (hash_input e)) [ ok h ↦ h | err x ↦ "" ]

-- A ledger of two events, newest first.
abbrev older : AuditEvent
older = entry "1" "GENESIS" (digest (entry "1" "GENESIS" ""))

abbrev newer : AuditEvent
newer = entry "2" older.hash (digest (entry "2" older.hash ""))

abbrev ledger : List AuditEvent
ledger = newer ∷ older ∷ []

ledger_verifies : verify_chain mark none ledger ≡ ok (intact 2)
unfolding program
ledger_verifies = refl

verify_chain_iff_example :
    (verify_chain mark none ledger ≡ ok (intact 2))
    ↔ (All (IsSound mark none) ledger × Chain mark none none ledger)
verify_chain_iff_example = verify_chain_iff mark none ledger

older-IsPlain : IsPlain older
older-IsPlain =
    (ground (arith, eq_iff "SECURITY" "CHECKPOINT"), ground (arith, eq_iff "GENESIS" "TRUNCATED"))

newer-IsPlain : IsPlain newer
unfolding program
newer-IsPlain = (
  ground (arith, eq_iff "SECURITY" "CHECKPOINT"),
  ground (arith, eq_iff newer.prev_hash "TRUNCATED"),
)

verify_chain_unique_example :
    (map hash_input ledger ≡ map hash_input ledger) ⊎ HashCollision mark ledger ledger
verify_chain_unique_example =
    verify_chain_unique mark none ledger ledger ledger_verifies ledger_verifies refl refl
      (newer-IsPlain, (older-IsPlain, tt)) (newer-IsPlain, (older-IsPlain, tt))

-- A hash of width 1 for the proof of inclusion.
abbrev toy : String → String
toy t = if t === "ab" then "p" else "q"

toy-ne-empty : (t : String) → toy t ≢ ""
toy-ne-empty t = elim (Bool-cases (t === "ab")) [
  | inl e ↦ rw e (ground (arith, eq_iff "p" ""))
  | inr e ↦ rw e (ground (arith, eq_iff "q" ""))
]

abbrev recent : List AuditEvent
recent = entry "2" "a" "b" ∷ entry "1" "GENESIS" "a" ∷ []

abbrev inclusion : MerkleProof
inclusion = record { leaf = "b"; index = 1; proof = "a" ∷ []; root = "p" }

abbrev seal : AuditEvent
seal = record (entry "0" "TRUNCATED" "s") { type = "CHECKPOINT" }

verify_chain-checkpoint_hash_example :
    verify_chain mark none (newer ∷ record seal { hash = "forged" } ∷ older ∷ [])
    ≡ verify_chain mark none (newer ∷ seal ∷ older ∷ [])
verify_chain-checkpoint_hash_example =
    verify_chain-checkpoint_hash mark none (newer ∷ []) seal "forged" (older ∷ []) refl refl
