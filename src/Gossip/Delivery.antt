-- ===== src/Gossip/Delivery.antt =====
-- What is sent, and what the breakers see.
use counter_terrorist.CircuitBreaker.Invariant.{execute-new_breaker}
use counter_terrorist.Retry.{retry}
use Prim.Native.String.{String}
use counter_terrorist.Common.{
  All, Bool, Bool-cases, List, Map, Result, [], ap, arith, false, if◌then◌else◌, inl, inr, ltb, map,
  map_get, map_set, ok, refl, some, string_eq, true, ℕ, ◌+◌, ◌===◌, ◌||◌, ◌∷◌, ◌≡◌,
}
use counter_terrorist.Bloom.{has, add}
use counter_terrorist.Bloom.Members.{IsFilter, add-has, add-IsFilter, new_filter-IsFilter}
use counter_terrorist.CircuitBreaker.{CircuitBreaker, new_breaker, or_zero}
use counter_terrorist.Quorum.{MeshNode}
use counter_terrorist.Gossip.{
  Gossip, Payload, Sent, attempt, breaker_of, breaker_options, retry_options, send_each, send_one,
  broadcast, broadcast_new, new_gossip, verified_ids,
}

-- Each breaker is as new.
abbrev pub AllNew : Map CircuitBreaker → Type 0
AllNew breakers = All (λ (p : String × CircuitBreaker). p.1 ≡ new_breaker) breakers

-- Each was answered by a value of `retry`, not by the breaker.
abbrev pub AllPassed : List Sent → Type 0
AllPassed sent = All (λ (s : Sent). (r : Result (Unit {0}) String) × (s.answer ≡ ok r)) sent

get-AllNew :
    (id : String) (m : Map CircuitBreaker) → AllNew m → breaker_of (map_get id m) ≡ new_breaker
unfolding breaker_of
get-AllNew id [] h = refl
get-AllNew id ((key, b) ∷ m) h = elim (Bool-cases (key === id)) [
  | inl e ↦ rw e h.0
  | inr n ↦ rw n (get-AllNew id m h.1)
]

set-AllNew : (id : String) (m : Map CircuitBreaker) → AllNew m → AllNew (map_set id new_breaker m)
set-AllNew id [] h = (refl, tt)
set-AllNew id ((key, b) ∷ m) h = elim (Bool-cases (key === id)) [
  | inl e ↦ rw e (refl, h.1)
  | inr n ↦ rw n (h.0, set-AllNew id m h.1)
]

abbrev pub IsFresh : Gossip → Type 0
IsFresh g = IsFilter g.gossip_cache × AllNew g.circuit_breakers

module _ (send : String → ℕ → Result (Unit {0}) String) (words : String → ℕ → ℕ)
    (times : String → ℕ × ℕ) where
  send_each-AllNew :
      (priority : Bool) (payload : Payload) (ids : List String) (m : Map CircuitBreaker)
      → AllNew m
      → AllNew (send_each send words times priority payload ids m).0
        × AllPassed (send_each send words times priority payload ids m).1
  unfolding send_each send_one attempt
  send_each-AllNew priority payload [] m h = (h, tt)
  send_each-AllNew priority payload (id ∷ ids) m h =
      let (new, passed) =
        send_each-AllNew priority payload ids (map_set id new_breaker m) (set-AllNew id m h) in
      rw (get-AllNew id m h) (
        rw
          (execute-new_breaker breaker_options (times id).0 (times id).1
            (retry (send id) (words id) (retry_options priority)).result)
          (new, ((_, refl), passed)))

  send_each-nodes :
      (priority : Bool) (payload : Payload) (ids : List String) (m : Map CircuitBreaker)
      → map (λ (s : Sent). s.node) (send_each send words times priority payload ids m).1 ≡ ids
  unfolding send_each send_one
  send_each-nodes priority payload [] m = refl
  send_each-nodes priority payload (id ∷ ids) m =
      ap (λ l. id ∷ l) (send_each-nodes priority payload ids _)

  broadcast_new-IsFresh :
      (priority : Bool) (payload : Payload) (nodes : List MeshNode) (g : Gossip)
      → IsFresh g
      → IsFresh (broadcast_new send words times priority payload nodes g).0
        × AllPassed (broadcast_new send words times priority payload nodes g).1
  unfolding broadcast_new
  broadcast_new-IsFresh priority payload nodes g fresh =
      let next : Payload = record payload { hops = some (or_zero payload.hops + 1) } in
      let (new, passed) =
        send_each-AllNew priority next (verified_ids nodes) g.circuit_breakers fresh.1 in
      elim (Bool-cases (ltb 5 (or_zero payload.hops + 1))) [
        | inl e ↦ rw e (fresh, tt)
        | inr n ↦ rw n ((fresh.0, new), passed)
      ]

  broadcast-IsFresh :
      (json : Payload → String) (digest : String → String) (priority : Bool) (payload : Payload)
      (nodes : List MeshNode) (g : Gossip)
      → IsFresh g
      → IsFresh (broadcast send words times json digest priority payload nodes g).0
        × AllPassed (broadcast send words times json digest priority payload nodes g).1
  unfolding broadcast
  broadcast-IsFresh json digest priority payload nodes g fresh =
      elim (Bool-cases (has (digest (json payload)) g.gossip_cache)) [
        | inl known ↦ rw known (fresh, tt)
        | inr new ↦ rw new (
            broadcast_new-IsFresh priority payload nodes _
              (add-IsFilter (digest (json payload)) g.gossip_cache fresh.0, fresh.1))
      ]

-- The managers that broadcasts make of a new one; in each the peers answer, the words are drawn and the
-- clock is read anew.
pub data Broadcasts (json : Payload → String) (digest : String → String) : Gossip → Type 0 where
  begun : Broadcasts json digest new_gossip
  sent :
      {g : Gossip} (send : String → ℕ → Result (Unit {0}) String) (words : String → ℕ → ℕ)
      (times : String → ℕ × ℕ) (priority : Bool) (payload : Payload) (nodes : List MeshNode)
      → Broadcasts json digest g
      → Broadcasts json digest (broadcast send words times json digest priority payload nodes g).0

Broadcasts-IsFresh :
    (json : Payload → String) (digest : String → String) {g : Gossip}
    → Broadcasts json digest g
    → IsFresh g
unfolding new_gossip
Broadcasts-IsFresh json digest begun = (new_filter-IsFilter 10000 4 (ground arith), tt)
Broadcasts-IsFresh json digest (sent {g} send words times priority payload nodes prior) =
    (broadcast-IsFresh send words times json digest priority payload nodes g
      (Broadcasts-IsFresh json digest prior)).0

module _ (send : String → ℕ → Result (Unit {0}) String) (words : String → ℕ → ℕ)
    (times : String → ℕ × ℕ) where
  -- However often the sends to a node fail, no breaker ever counts a failure: after any broadcasts, whatever
  -- the peers answered and whenever, each is as new, and in the next broadcast none of them answers for a
  -- send.
  pub Broadcasts-AllNew :
      (json : Payload → String) (digest : String → String) {g : Gossip} (priority : Bool)
      (payload : Payload) (nodes : List MeshNode)
      → Broadcasts json digest g
      → AllNew g.circuit_breakers
        × AllPassed (broadcast send words times json digest priority payload nodes g).1
  Broadcasts-AllNew json digest {g} priority payload nodes reach =
      let fresh = Broadcasts-IsFresh json digest reach in
      (fresh.1, (broadcast-IsFresh send words times json digest priority payload nodes g fresh).1)

  hops_bound : (n : ℕ) → ltb 5 (n + 1) ≡ ltb 4 n
  hops_bound n = ground arith

  broadcast_new-cache :
      (priority : Bool) (payload : Payload) (nodes : List MeshNode) (g : Gossip)
      → (broadcast_new send words times priority payload nodes g).0.gossip_cache ≡ g.gossip_cache
  unfolding broadcast_new
  broadcast_new-cache priority payload nodes g =
      elim (Bool-cases (ltb 5 (or_zero payload.hops + 1))) [ inl e ↦ rw e refl | inr n ↦ rw n refl ]

  broadcast_new-nodes :
      (priority : Bool) (payload : Payload) (nodes : List MeshNode) (g : Gossip)
      → map (λ (s : Sent). s.node) (broadcast_new send words times priority payload nodes g).1
        ≡ (if ltb 4 (or_zero payload.hops) then [] else verified_ids nodes)
  unfolding broadcast_new
  broadcast_new-nodes priority payload nodes g =
      let bound = hops_bound (or_zero payload.hops) in
      elim (Bool-cases (ltb 4 (or_zero payload.hops))) [
        | inl e ↦ rw (bound, e) refl
        | inr n ↦
            rw (bound, n)
              (send_each-nodes send words times priority _ (verified_ids nodes) g.circuit_breakers)
      ]

  broadcast_known :
      (json : Payload → String) (digest : String → String) (priority : Bool) (payload : Payload)
      (nodes : List MeshNode) (g : Gossip)
      → has (digest (json payload)) g.gossip_cache ≡ true
      → broadcast send words times json digest priority payload nodes g ≡ (g, [])
  unfolding broadcast
  broadcast_known json digest priority payload nodes g known = rw known refl

  broadcast_unknown :
      (json : Payload → String) (digest : String → String) (priority : Bool) (payload : Payload)
      (nodes : List MeshNode) (g : Gossip)
      → has (digest (json payload)) g.gossip_cache ≡ false
      → broadcast send words times json digest priority payload nodes g
        ≡ broadcast_new send words times priority payload nodes
            (record g { gossip_cache = add (digest (json payload)) g.gossip_cache })
  unfolding broadcast
  broadcast_unknown json digest priority payload nodes g new = rw new refl

  -- A broadcast of a payload with at most four hops, whose hash is not in the filter, goes to each
  -- verified node once and in their order; with five hops or more, or a hash in the filter, to none. The
  -- same broadcast at once after it goes to none.
  pub broadcast-nodes :
      (json : Payload → String) (digest : String → String) {g : Gossip} (priority : Bool)
      (payload : Payload) (nodes : List MeshNode)
      → Broadcasts json digest g
      → (map
            (λ (s : Sent). s.node)
            (broadcast send words times json digest priority payload nodes g).1
          ≡ (if has (digest (json payload)) g.gossip_cache || ltb 4 (or_zero payload.hops)
              then []
              else verified_ids nodes))
        × ((broadcast send words times json digest priority payload nodes
              (broadcast send words times json digest priority payload nodes g).0).1
            ≡ [])
  broadcast-nodes json digest {g} priority payload nodes reach =
      let hash = digest (json payload) in
      let filter = (Broadcasts-IsFresh json digest reach).0 in
      let seen : Gossip = record g { gossip_cache = add hash g.gossip_cache } in
      elim (Bool-cases (has hash g.gossip_cache)) [
        | inl known ↦
            let nothing = broadcast_known json digest priority payload nodes g known in
            rw (nothing, known) (refl, ap (λ (p : Gossip × List Sent). p.1) nothing)
        | inr new ↦
            let cached : has hash
                  (broadcast_new send words times priority payload nodes seen).0.gossip_cache
                ≡ true =
              rw (broadcast_new-cache priority payload nodes seen)
                (add-has hash g.gossip_cache filter) in
            rw (broadcast_unknown json digest priority payload nodes g new, new)
              (
                broadcast_new-nodes priority payload nodes seen,
                ap (λ (p : Gossip × List Sent). p.1)
                    (broadcast_known json digest priority payload nodes _ cached),
              )
      ]
