-- ===== src/RateLimit.antt =====
-- src/orchestrator/domain/identity/rate_limit.ts: the class `RateLimitService`. The memory tier is an
-- association list of the keys' states, in the order of the `Map`. A write to the store that is under
-- way is the amount that it carries; its end, and the store's entry, are given by the environment.
pub mod Window
pub mod Sync
mod Tests
use Prim.Native.String.{String}
use counter_terrorist.Common.{
  Bool, List, Option, Result, [], err, if◌then◌else◌, leb, ltb, max, none, not, ok, some, string_eq,
  ℕ, ◌*◌, ◌+◌, ◌-◌, ◌===◌, ◌||◌, ◌∷◌,
}

pub record RateLimitState : Type 0 where
  pub count : ℕ
  pub reset_at : ℕ
  pub synced : ℕ
  pub inflight : Option ℕ

pub record RateLimitStatus : Type 0 where
  pub allowed : Bool
  pub count : ℕ
  pub reset_at : ℕ
  pub retry_after_ms : ℕ

abbrev pub Tier : Type 0
Tier = List (String × RateLimitState)

-- `memoryTier.get`, `set` (a key that is there keeps its place) and `delete`.
unfoldable pub lookup : String → Tier → Option RateLimitState
lookup key [] = none
lookup key ((k, s) ∷ tier) = if k === key then some s else lookup key tier

unfoldable pub store : String → RateLimitState → Tier → Tier
store key s [] = (key, s) ∷ []
store key s ((k, t) ∷ tier) = if k === key then (k, s) ∷ tier else (k, t) ∷ store key s tier

-- `syncKey`: nothing while a write is under way or nothing is new; else a write of the new requests
-- starts, and they count as synced.
unfoldable pub sync_key : RateLimitState → RateLimitState
sync_key s = elim s.inflight [
  | some delta ↦ s
  | none ↦
      if leb s.count s.synced
      then s
      else record s { synced = s.count; inflight = some (s.count - s.synced) }
]

-- The write's `then` and `finally`, and its `catch` and `finally`, where the state is still the one
-- that the tier holds for the key.
unfoldable pub write_done : RateLimitState → RateLimitState
write_done s = record s { inflight = none }

unfoldable pub write_failed : RateLimitState → RateLimitState
write_failed s = elim s.inflight [
  | none ↦ s
  | some delta ↦ record s { synced = s.synced - delta; inflight = none }
]

-- `new state` of `checkLimit`: a missing or ended window starts afresh.
abbrev current : Option RateLimitState → ℕ → ℕ → RateLimitState
current none now window = record { count = 0; reset_at = now + window; synced = 0; inflight = none }
current (some s) now window =
    if ltb s.reset_at now
    then record { count = 0; reset_at = now + window; synced = 0; inflight = none }
    else s

abbrev status_of : ℕ → ℕ → RateLimitState → RateLimitStatus
status_of now limit s = record {
  allowed = leb s.count limit;
  count = s.count;
  reset_at = s.reset_at;
  retry_after_ms = s.reset_at - now;
}

-- `!allowed || state.count >= limit / 2`.
abbrev is_due : ℕ → RateLimitState → Bool
is_due limit s = not (leb s.count limit) || leb limit (2 * s.count)

-- `checkLimit`; `limit / 2` is not rounded in the source.
unfoldable pub check_limit : Tier → ℕ → String → ℕ → ℕ → Tier × RateLimitStatus
unfolding lookup store sync_key
check_limit tier now key limit window =
    let s = current (lookup key tier) now window in
    let counted = record s { count = s.count + 1 } in
    let kept = if is_due limit counted then sync_key counted else counted in
    (store key kept tier, status_of now limit counted)

-- `flushMemoryTier`: ended windows go, and what is left is synced where no write is under way (the
-- others are synced when their write has ended).
unfoldable pub flush : ℕ → Tier → Tier
unfolding sync_key
flush now [] = []
flush now ((k, s) ∷ tier) =
    let rest = flush now tier in if ltb s.reset_at now then rest else (k, sync_key s) ∷ rest

-- The entry of the store, and one attempt of `syncToKv`: what it writes, and for how long.
pub record Entry : Type 0 where
  pub count : ℕ
  pub reset_at : ℕ

abbrev fresh_or : Option Entry → ℕ → ℕ → ℕ → Entry
fresh_or none now delta reset_at = record { count = delta; reset_at = reset_at }
fresh_or (some e) now delta reset_at =
    if ltb e.reset_at now
    then record { count = delta; reset_at = reset_at }
    else record { count = e.count + delta; reset_at = max e.reset_at reset_at }

unfoldable pub push_attempt : Option Entry → ℕ → ℕ → ℕ → Bool → Result (Entry × ℕ) String
push_attempt entry now delta reset_at committed =
    let new = fresh_or entry now delta reset_at in
    if committed then ok (new, max 1000 (new.reset_at - now)) else err "KV contention during sync"
