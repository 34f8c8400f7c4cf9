-- ===== src/Ledger.antt =====
-- src/orchestrator/domain/analysis/ledger_service.ts: `LedgerService`. `JSON.stringify` of an event, whose
-- keys stand in the order in which its creator set them, and the digest are parameters. The messages
-- to the mesh are part of what `commit` returns.
pub mod Seals
pub mod Links
mod Tests
use Prim.Native.String.{String}
use counter_terrorist.Common.{
  Bool, List, Option, [], false, if◌then◌else◌, length, ltb, none, some, string_eq, suc, texts, ℕ,
  ◌++◌, ◌===◌, ◌||◌, ◌∷◌,
}
use counter_terrorist.AuditVerifier.{AuditEvent}
use counter_terrorist.Canonical.{json_text}
use counter_terrorist.Values.{decimal_from}

pub record LedgerEntry : Type 0 where
  pub index : ℕ
  pub timestamp : String
  pub event : AuditEvent
  pub prev_hash : String
  pub hash : String
  pub node_id : String

pub record Ledger : Type 0 where
  pub chain : List LedgerEntry
  pub last_hash : String

abbrev pub genesis : String
genesis = "GHOST_GENESIS"

unfoldable pub new_ledger : Ledger
new_ledger = record { chain = []; last_hash = genesis }

-- What the service knows of the mesh: the node's id, and whether it has active nodes.
pub record Mesh : Type 0 where
  pub node_id : String
  pub active_nodes : ℕ

-- `this.mesh?.getNodeId() || "local-node"`.
unfoldable pub node_of : Option Mesh → String
node_of none = "local-node"
node_of (some mesh) = if mesh.node_id === "" then "local-node" else mesh.node_id

unfoldable pub is_replicated : Option Mesh → Bool
is_replicated none = false
is_replicated (some mesh) = ltb 0 mesh.active_nodes

unfoldable pub has_hash : String → List LedgerEntry → Bool
has_hash h [] = false
has_hash h (e ∷ es) = e.hash === h || has_hash h es

module _ (sha256_hex : String → String) (json_of_event : AuditEvent → String) where
  -- `computeHash`.
  unfoldable pub compute_hash : LedgerEntry → String
  compute_hash e = sha256_hex (
      texts (
        "{\"index\":"
        ∷ decimal_from (suc e.index) e.index
        ∷ ",\"ts\":"
        ∷ json_text e.timestamp
        ∷ ",\"event\":"
        ∷ json_of_event e.event
        ∷ ",\"prev\":"
        ∷ json_text e.prev_hash
        ∷ ",\"node\":"
        ∷ json_text e.node_id
        ∷ "}"
        ∷ []))

  unfoldable pub append_entry : LedgerEntry → Ledger → Ledger
  append_entry e l = record { chain = l.chain ++ e ∷ []; last_hash = e.hash }

  -- The entry that `commit` makes.
  unfoldable pub next_entry : Option Mesh → String → AuditEvent → Ledger → LedgerEntry
  unfolding compute_hash node_of
  next_entry mesh timestamp event l =
      let draft : LedgerEntry = record {
        index = length l.chain;
        timestamp = timestamp;
        event = event;
        prev_hash = l.last_hash;
        hash = "";
        node_id = node_of mesh;
      } in
      record draft { hash = compute_hash draft }

  -- `commit`: the ledger, and the entry that is broadcast.
  unfoldable pub commit : Option Mesh → String → AuditEvent → Ledger → Ledger × Option LedgerEntry
  unfolding append_entry next_entry is_replicated
  commit mesh timestamp event l =
      let e = next_entry mesh timestamp event l in
      (append_entry e l, if is_replicated mesh then some e else none)

  -- `syncEntry`; a discontinuity is logged only.
  unfoldable pub sync_entry : LedgerEntry → Ledger → Ledger
  unfolding append_entry compute_hash has_hash
  sync_entry e l =
      if has_hash e.hash l.chain
      then l
      else if e.hash === compute_hash e
      then append_entry e l
      else l
