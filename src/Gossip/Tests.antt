-- ===== src/Gossip/Tests.antt =====
-- A peer that never answers.
use Prim.Native.String.{String}
use counter_terrorist.Common.{List, Result, [], err, false, none, string_eq, true, ℕ, ◌∷◌}
use counter_terrorist.Quorum.{MeshNode}
use counter_terrorist.Gossip.{Payload, broadcast, new_gossip}
use counter_terrorist.Gossip.Delivery.{
  Broadcasts, begun, sent, Broadcasts-AllNew, AllNew, AllPassed,
}

abbrev silent : String → ℕ → Result (Unit {0}) String
silent id n = err "timeout"

abbrev words : String → ℕ → ℕ
words id n = 0

abbrev times : String → ℕ × ℕ
times id = (10, 20)

abbrev json : Payload → String
json p = p.body

abbrev digest : String → String
digest t = t

abbrev nodes : List MeshNode
nodes =
    record {
      id = "b";
      hostname = "b";
      address = "10.0.0.2";
      port = 8000;
      last_seen = 5;
      verified = true;
    }
    ∷ record {
      id = "c";
      hostname = "c";
      address = "10.0.0.3";
      port = 8000;
      last_seen = 5;
      verified = false;
    }
    ∷ []

abbrev payload : String → Payload
payload body = record { body = body; hops = none }

reached :
    Broadcasts json digest
      (broadcast silent words times json digest false (payload "x") nodes new_gossip).0
reached = sent silent words times false (payload "x") nodes begun

Broadcasts-AllNew_example :
    AllNew
      (broadcast silent words times json digest false
        (payload "x")
        nodes
        new_gossip).0.circuit_breakers
    × AllPassed
        (broadcast silent words times json digest true
          (payload "y")
          nodes
          (broadcast silent words times json digest false (payload "x") nodes new_gossip).0).1
Broadcasts-AllNew_example =
    Broadcasts-AllNew silent words times json digest true (payload "y") nodes reached
