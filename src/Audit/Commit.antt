-- ===== src/Audit/Commit.antt =====
-- src/orchestrator/domain/analysis/audit.ts: `commitMerkleRoot` of `AuditService`, in two halves
-- around the computation of the root.
use Prim.Native.String.{String}
use counter_terrorist.Common.{
  Bool, List, Option, Result, [], err, false, if◌then◌else◌, length, none, ok, some, string_eq, suc,
  texts, true, zero, ℕ, ◌++◌, ◌>>=◌, ◌∷◌,
}
use counter_terrorist.Values.{decimal_from}
use counter_terrorist.Merkle.{build_tree, get_root}
use counter_terrorist.Audit.{Audit, Request, log_event}
use counter_terrorist.Audit.Sanitize.{Objects, Value, missing, string, number}

unfoldable pub signature_of :
    Option (String → Option String) → String → Result (Option String) String
signature_of none hash = ok none
signature_of (some sign) hash = elim (sign hash) [
  | none ↦ err "sign"
  | some signature ↦ ok (some signature)
]

-- `commitMerkleRoot` after the check of the hardware, up to the computation of the root.
unfoldable pub take_hashes : List String → Audit → Audit
take_hashes [] s = s
take_hashes (h ∷ hs) s = record s {
  is_committing_merkle = true;
  committing = h ∷ hs;
  current_session_hashes = [];
}

unfoldable pub begin_commit : Audit → Audit
unfolding take_hashes
begin_commit s = if s.is_committing_merkle then s else take_hashes s.current_session_hashes s

-- `slice(0, n)`, on a text of whole code units.
unfoldable pub text_prefix : ℕ → String → String
text_prefix n String.[] = ""
text_prefix zero (String.◌∷◌ c t) = ""
text_prefix (suc n) (String.◌∷◌ c t) = String.◌∷◌ c (text_prefix n t)

abbrev optional_value : Option String → Value
optional_value none = missing
optional_value (some t) = string t

-- The event that announces a root.
unfoldable pub commit_request : String → ℕ → Option String → Request
unfolding text_prefix decimal_from
commit_request root event_count signature = record {
  type = "MERKLE_COMMIT";
  severity = some "info";
  caller = some "AUDIT:MERKLE";
  message = texts (
      "Merkle Root committed for "
      ∷ decimal_from (suc event_count) event_count
      ∷ " events: "
      ∷ text_prefix 12 root
      ∷ []);
  actor = none;
  contents = some (
    0,
    ("root", string root)
        ∷ ("eventCount", number (decimal_from (suc event_count) event_count))
        ∷ ("hwSignature", optional_value signature)
        ∷ [],
  );
  timestamp = none;
  correlation_id = none;
  from_audit = false;
}

-- The hashes of a commit that failed go back before the later ones.
unfoldable pub restore_hashes : Audit → Audit
restore_hashes s = record s {
  current_session_hashes = s.committing ++ s.current_session_hashes;
  committing = [];
  is_committing_merkle = false;
}

unfoldable pub end_committing : Audit → Audit
end_committing s = record s { committing = []; is_committing_merkle = false }

-- By what came of the `try`.
unfoldable pub settle_commit : Audit → Result Audit String → Audit
unfolding restore_hashes end_committing
settle_commit s (ok announced) = end_committing announced
settle_commit s (err x) = restore_hashes s

module _ (sha256_hex : String → String) where
  -- The `try` of `commitMerkleRoot`: root, signature and event.
  unfoldable pub announce_root :
      Objects → Option (String → Option String) → Audit → Result Audit String
  unfolding commit_request signature_of
  announce_root heap sign s =
      let root = get_root (build_tree sha256_hex s.committing) in
      signature_of sign root >>= λ signature.
      log_event heap (commit_request root (length s.committing) signature) s

  -- The rest of `commitMerkleRoot`.
  unfoldable pub end_commit : Objects → Option (String → Option String) → Audit → Audit
  unfolding announce_root settle_commit
  end_commit heap sign s = settle_commit s (announce_root heap sign s)

-- `commitMerkleRoot` up to the root; `healthy` is what `verifyIntegrity` answers where there is a TPM.
unfoldable pub start_commit : Option Bool → Audit → Audit
unfolding begin_commit
start_commit none s = begin_commit s
start_commit (some healthy) s = if healthy then begin_commit s else s
