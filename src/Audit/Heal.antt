-- ===== src/Audit/Heal.antt =====
-- What the checkpoint of `healDevChainBoundary` does for a ledger that the verifier refused.
use Prim.Native.String.{String}
use counter_terrorist.Common.{Bool, List, Option, length, ok, string_eq, ◌≡◌}
use counter_terrorist.AuditVerifier.{AuditEvent, verify_chain, intact}
use counter_terrorist.Audit.{Audit}

module _ (sha256_hex : String → String) (verify : Option (String → String → Bool)) where
  -- The ledger, newest first, is intact as a whole.
  abbrev pub IsIntact : List AuditEvent → Type 0
  IsIntact events = verify_chain sha256_hex verify events ≡ ok (intact (length events))
