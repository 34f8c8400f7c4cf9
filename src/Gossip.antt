-- ===== src/Gossip.antt =====
-- src/orchestrator/domain/orchestration/mesh/gossip_manager.ts: `MeshGossipManager`. The text and the
-- digest of a payload are parameters, as is what each send of an attempt returns; the sends of a
-- batch have no common state but the breakers, of which each node has its own.
pub mod Delivery
mod Tests
use Prim.Native.String.{String}
use counter_terrorist.Common.{
  Bool, List, Map, Option, Result, [], if◌then◌else◌, ltb, map_get, map_set, none, ok, some,
  string_eq, ℕ, ◌+◌, ◌∷◌,
}
use counter_terrorist.Bloom.{BloomFilter, new_filter, has, add}
use counter_terrorist.CircuitBreaker.{CircuitBreaker, execute, new_breaker, Options, or_zero}
use counter_terrorist.Quorum.{MeshNode}
use counter_terrorist.Retry.{Outcome, RetryOptions, retry}

-- A payload: its own properties as a text, and `hops` where it is a number.
pub record Payload : Type 0 where
  pub body : String
  pub hops : Option ℕ

pub record Gossip : Type 0 where
  pub gossip_cache : BloomFilter
  pub circuit_breakers : Map CircuitBreaker

unfoldable pub new_gossip : Gossip
new_gossip = record { gossip_cache = new_filter 10000 4; circuit_breakers = [] }

abbrev pub breaker_options : Options
breaker_options = record { failure_threshold = 3; reset_timeout_ms = 60000 }

-- What was sent to a node, and what the breaker answered for it.
pub record Sent : Type 0 where
  pub node : String
  pub payload : Payload
  pub answer : Result (Result (Unit {0}) String) String

-- `retry` for one node: three attempts if the payload has priority, else one.
unfoldable pub retry_options : Bool → RetryOptions
retry_options priority = record {
  max_attempts = if priority then 3 else 1;
  base_delay_ms = 200;
  max_delay_ms = none;
  factor = none;
}

unfoldable pub breaker_of : Option CircuitBreaker → CircuitBreaker
breaker_of none = new_breaker
breaker_of (some b) = b

unfoldable pub verified_ids : List MeshNode → List String
verified_ids [] = []
verified_ids (n ∷ ns) = let rest = verified_ids ns in if n.verified then n.id ∷ rest else rest

-- The answers of the peers to the attempts of one broadcast, the words that its waits draw, and the clock
-- at the two moments of each breaker: they are another broadcast's arguments anew.
module _ (send : String → ℕ → Result (Unit {0}) String) (words : String → ℕ → ℕ)
    (times : String → ℕ × ℕ) where
  -- The action for the breaker: `retry` returns its failure as a value, and never throws.
  unfoldable pub attempt : Bool → String → Result (Result (Unit {0}) String) String
  unfolding retry_options
  attempt priority id = ok (retry (send id) (words id) (retry_options priority)).result

  unfoldable pub send_one : Bool → Payload → String → Map CircuitBreaker → Map CircuitBreaker × Sent
  unfolding breaker_of attempt
  send_one priority payload id breakers =
      let (now, later) = times id in
      let (b, answer) =
        execute breaker_options now later (breaker_of (map_get id breakers))
          (attempt priority id) in
      (map_set id b breakers, record { node = id; payload = payload; answer = answer })

  unfoldable pub send_each :
      Bool → Payload → List String → Map CircuitBreaker → Map CircuitBreaker × List Sent
  unfolding send_one
  send_each priority payload [] breakers = (breakers, [])
  send_each priority payload (id ∷ ids) breakers =
      let (next, sent) = send_one priority payload id breakers in
      let (last, rest) = send_each priority payload ids next in (last, sent ∷ rest)

  -- `broadcast` of a payload that is new here.
  unfoldable pub broadcast_new : Bool → Payload → List MeshNode → Gossip → Gossip × List Sent
  unfolding send_each verified_ids
  broadcast_new priority payload nodes g =
      let hops = or_zero payload.hops + 1 in
      let next : Payload = record payload { hops = some hops } in
      let (breakers, sent) = send_each priority next (verified_ids nodes) g.circuit_breakers in
      if ltb 5 hops then (g, []) else (record g { circuit_breakers = breakers }, sent)

  -- `broadcast`.
  unfoldable pub broadcast :
      (Payload → String)
      → (String → String)
      → Bool
      → Payload
      → List MeshNode
      → Gossip
      → Gossip × List Sent
  unfolding broadcast_new
  broadcast json digest priority payload nodes g =
      let payload_hash = digest (json payload) in
      if has payload_hash g.gossip_cache
      then (g, [])
      else broadcast_new priority payload nodes
          (record g { gossip_cache = add payload_hash g.gossip_cache })
