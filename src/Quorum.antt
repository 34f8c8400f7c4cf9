-- ===== src/Quorum.antt =====
-- src/orchestrator/domain/orchestration/mesh/consensus_manager.ts: the class `MeshConsensusManager`. The
-- peers' answers, whose signatures the mesh service checks, come as a list of votes in the order in
-- which they are recorded; the saga's record in the store is the state, and each vote is one of the
-- store's atomic updates.
pub mod Votes
mod Tests
use Prim.Native.String.{String}
use mathlib.Core.List.{foldl}
use counter_terrorist.Common.{
  Bool, List, [], false, if◌then◌else◌, leb, length, ltb, string_eq, suc, true, zero, ℕ, ◌&&◌, ◌*◌,
  ◌++◌, ◌+◌, ◌/◌, ◌===◌, ◌==◌, ◌||◌, ◌∷◌,
}

pub record MeshNode : Type 0 where
  pub id : String
  pub hostname : String
  pub address : String
  pub port : ℕ
  pub last_seen : ℕ
  pub verified : Bool

-- `n.verified && (now - n.lastSeen) < 600000`.
is_live : ℕ → MeshNode → Bool
is_live now n = n.verified && ltb now (n.last_seen + 600000)

-- `verifiedNodes`.
unfoldable pub verified_nodes : ℕ → List MeshNode → List MeshNode
unfolding is_live
verified_nodes now [] = []
verified_nodes now (n ∷ ns) =
    let rest = verified_nodes now ns in if is_live now n then n ∷ rest else rest

-- "Dynamic Quorum Thresholds", for N ≥ 2 nodes and the setting ALLOW_SMALL_QUORUM.
unfoldable pub quorum_threshold : Bool → ℕ → ℕ
quorum_threshold allow_small n =
    if n == 2 && allow_small then 1 else if leb 4 n then 2 * n / 3 + 1 else n / 2 + 1

pub data Status : Type 0 where
  pending approved denied : Status

pub record ConsensusSaga : Type 0 where
  pub action : String
  pub approvals : List String
  pub threshold : ℕ
  pub total : ℕ
  pub status : Status
  pub created_at : ℕ

-- The record that `requestQuorumCommand` writes before it asks the peers.
unfoldable pub new_saga : String → String → ℕ → ℕ → ℕ → ConsensusSaga
new_saga action node_id threshold total now = record {
  action = action;
  approvals = node_id ∷ [];
  threshold = threshold;
  total = total;
  status = pending;
  created_at = now;
}

unfoldable pub includes : String → List String → Bool
includes s [] = false
includes s (t ∷ rest) = t === s || includes s rest

-- `[...new Set([...approvals, id])]`, for approvals without repetition.
unfoldable pub add_approval : String → List String → List String
unfolding includes
add_approval s approvals = if includes s approvals then approvals else approvals ++ s ∷ []

-- One update of the saga's record by a valid vote: `break` unless it is pending.
unfoldable pub record_vote : ConsensusSaga → String → ConsensusSaga
unfolding add_approval
record_vote saga id = elim saga.status [
  | approved ↦ saga
  | denied ↦ saga
  | pending ↦
      let approvals = add_approval id saga.approvals in
      record saga {
        approvals = approvals;
        status = if leb saga.threshold (length approvals) then approved else pending;
      }
]

-- The loop of at most five attempts: each reads the record and writes it back unless another vote
-- came between, as the list says; what the other votes were is the list of their ids.
unfoldable pub vote_attempts : ℕ → List (List String) → ConsensusSaga → String → ConsensusSaga
unfolding record_vote
vote_attempts zero between saga id = saga
vote_attempts (suc left) [] saga id = record_vote saga id
vote_attempts (suc left) (others ∷ between) saga id =
    vote_attempts left between (foldl record_vote saga others) id

-- A peer's answer: whether it approves with a signature, and whether the signature is valid.
pub record Answer : Type 0 where
  pub peer : String
  pub approves : Bool
  pub is_valid : Bool

-- The answers that become votes.
unfoldable pub valid_votes : List Answer → List String
valid_votes [] = []
valid_votes (a ∷ answers) =
    let rest = valid_votes answers in if a.approves && a.is_valid then a.peer ∷ rest else rest

-- What `requestQuorumCommand` answers when all answers are in: a node on its own approves; without a
-- store each valid answer counts; with one the watcher sees the saga's status.
unfoldable pub request_quorum_command :
    Bool → Bool → Bool → String → String → ℕ → List MeshNode → List Answer → Bool
unfolding verified_nodes quorum_threshold new_saga record_vote valid_votes
request_quorum_command single_node allow_small has_kv action node_id now nodes answers =
    let n = length (verified_nodes now nodes) + 1 in
    let threshold = quorum_threshold allow_small n in
    let votes = valid_votes answers in
    let saga = foldl record_vote (new_saga action node_id threshold n now) votes in
    if single_node || n == 1
    then true
    else if has_kv
    then elim saga.status [ approved ↦ true | pending ↦ false | denied ↦ false ]
    else leb threshold (1 + length votes)
