-- ===== src/RateLimit/Window.antt =====
-- The decisions within one window.
use text.Mathlib.TextPositions.{eq_refl}
use text.Mathlib.TextEquality.{eq_iff}
use Prim.Native.String.{String}
use Prim.Native.String.{count}
use counter_terrorist.Common.{
  Bool, List, Option, [], ap, arith, false, if◌then◌else◌, leb, ltb, lt→ltb, none, refl, some,
  string_eq, true, ℕ, ◌+◌, ◌<◌, ◌===◌, ◌∷◌, ◌≡◌, ◌≢◌, ◌≤◌,
}
use counter_terrorist.RateLimit.{
  Tier, RateLimitState, RateLimitStatus, check_limit, lookup, store, sync_key, is_due, current,
}

-- A request of another key, or of this key at a time.
pub data Request : Type 0 where
  same : ℕ → Request
  other : String → ℕ → ℕ → ℕ → Request

module _ (key : String) (limit window : ℕ) where
  -- The statuses of the key's requests, in order, and the tier at the end.
  abbrev pub serve : List Request → Tier → Tier × List RateLimitStatus
  serve [] tier = (tier, [])
  serve (same now ∷ rs) tier =
      let (tier', status) = check_limit tier now key limit window in
      let (last, statuses) = serve rs tier' in (last, status ∷ statuses)
  serve (other k now l w ∷ rs) tier =
      let (tier', status) = check_limit tier now k l w in serve rs tier'

  -- The key's requests fall into the window that ends at the time; the others are of other keys.
  abbrev pub Within : ℕ → List Request → Type 0
  Within end [] = Unit
  Within end (same now ∷ rs) = (now ≤ end) × Within end rs
  Within end (other k now l w ∷ rs) = (k ≢ key) × Within end rs

  -- The n-th request of the window is counted as such, and allowed exactly up to the limit.
  abbrev pub Numbered : ℕ → ℕ → List RateLimitStatus → Type 0
  Numbered end n [] = Unit
  Numbered end n (s ∷ ss) =
      (s.count ≡ n + 1)
      × (s.allowed ≡ leb (n + 1) limit)
      × (s.reset_at ≡ end)
      × Numbered end (n + 1) ss

  -- What the tier knows of the key while n requests of the window have been served.
  abbrev Holds : ℕ → ℕ → Option RateLimitState → Type 0
  Holds end n none = ⊥
  Holds end n (some s) = (s.count ≡ n) × (s.reset_at ≡ end)

lookup-store :
    (k j : String) (s : RateLimitState) (tier : Tier)
    → lookup j (store k s tier) ≡ (if k === j then some s else lookup j tier)
unfolding lookup store
lookup-store k j s [] = refl
lookup-store k j s ((i, t) ∷ tier) =
    ground (arith, eq_iff k j, eq_iff i k, eq_iff i j, lookup-store k j s tier)

sync_key-Holds :
    (end n : ℕ) (s : RateLimitState)
    → (s.count ≡ n) × (s.reset_at ≡ end)
    → ((sync_key s).count ≡ n) × ((sync_key s).reset_at ≡ end)
unfolding sync_key
sync_key-Holds end n s h = ground arith

kept-Holds :
    (b : Bool) (n end : ℕ) (s : RateLimitState)
    → (s.count ≡ n) × (s.reset_at ≡ end)
    → ((if b then sync_key s else s).count ≡ n) × ((if b then sync_key s else s).reset_at ≡ end)
kept-Holds true n end s h = sync_key-Holds end n s h
kept-Holds false n end s h = h

module _ (key : String) (limit window : ℕ) where
  -- A request of the window, for a key whose state is there.
  serve_one :
      (end n now : ℕ) (tier : Tier) (s : RateLimitState)
      → lookup key tier ≡ some s
      → (s.count ≡ n) × (s.reset_at ≡ end)
      → now ≤ end
      → Holds key limit window end (n + 1) (lookup key (check_limit tier now key limit window).0)
        × ((check_limit tier now key limit window).1.count ≡ n + 1)
        × ((check_limit tier now key limit window).1.allowed ≡ leb (n + 1) limit)
        × ((check_limit tier now key limit window).1.reset_at ≡ end)
  unfolding check_limit
  serve_one end n now tier s found h early =
      let live : ltb s.reset_at now ≡ false = ground arith in
      let counted : RateLimitState = record s { count = s.count + 1 } in
      let next : (counted.count ≡ n + 1) × (counted.reset_at ≡ end) = (omega arith, h.1) in
      rw (lookup-store, eq_refl key)
        (rw found (
          rw live (
            kept-Holds (is_due limit counted) (n + 1) end counted next,
            next.0,
            ap (λ t. leb t limit) next.0,
            h.1,
          )))

  serve_held :
      (end n now : ℕ) (tier : Tier)
      → Holds key limit window end n (lookup key tier)
      → now ≤ end
      → Holds key limit window end (n + 1) (lookup key (check_limit tier now key limit window).0)
        × ((check_limit tier now key limit window).1.count ≡ n + 1)
        × ((check_limit tier now key limit window).1.allowed ≡ leb (n + 1) limit)
        × ((check_limit tier now key limit window).1.reset_at ≡ end)
  serve_held end n now tier h early = split (lookup key tier) refl h
    where
      split :
          (o : Option RateLimitState)
          → lookup key tier ≡ o
          → Holds key limit window end n o
          → Holds key limit window end
              (n + 1)
              (lookup key (check_limit tier now key limit window).0)
            × ((check_limit tier now key limit window).1.count ≡ n + 1)
            × ((check_limit tier now key limit window).1.allowed ≡ leb (n + 1) limit)
            × ((check_limit tier now key limit window).1.reset_at ≡ end)
      split none e k = absurd k
      split (some s) e k = serve_one end n now tier s e k early

  -- A request of another key leaves the key's state as it is.
  serve_other :
      (k : String) (now l w : ℕ) (tier : Tier)
      → k ≢ key
      → lookup key (check_limit tier now k l w).0 ≡ lookup key tier
  unfolding check_limit
  serve_other k now l w tier h = rw lookup-store (ground (arith, eq_iff k key))

  serve-Numbered :
      (end : ℕ) (rs : List Request) (n : ℕ) (tier : Tier)
      → Within key limit window end rs
      → Holds key limit window end n (lookup key tier)
      → Numbered key limit window end n (serve key limit window rs tier).1
  serve-Numbered end [] n tier w h = tt
  serve-Numbered end (same now ∷ rs) n tier (early, w) h =
      let (held, count, allowed, reset) = serve_held end n now tier h early in
      (
        count,
        allowed,
        reset,
        serve-Numbered end rs (n + 1) (check_limit tier now key limit window).0 w held,
      )
  serve-Numbered end (other k now l v ∷ rs) n tier (ne, w) h =
      serve-Numbered end rs n (check_limit tier now k l v).0 w
        (rw (serve_other k now l v tier ne) h)

  -- No window of the key is open at the time.
  abbrev pub IsEnded : ℕ → Option RateLimitState → Type 0
  IsEnded now none = Unit
  IsEnded now (some s) = s.reset_at < now

  current-ended :
      (o : Option RateLimitState) (now : ℕ)
      → IsEnded now o
      → current o now window
        ≡ record { count = 0; reset_at = now + window; synced = 0; inflight = none }
  current-ended none now h = refl
  current-ended (some s) now h = rw (lt→ltb _ _ h) refl

  serve_first :
      (now : ℕ) (tier : Tier)
      → IsEnded now (lookup key tier)
      → Holds key limit window
          (now + window)
          1
          (lookup key (check_limit tier now key limit window).0)
        × ((check_limit tier now key limit window).1.count ≡ 1)
        × ((check_limit tier now key limit window).1.allowed ≡ leb 1 limit)
        × ((check_limit tier now key limit window).1.reset_at ≡ now + window)
  unfolding check_limit
  serve_first now tier h =
      let counted : RateLimitState = record {
        count = 1;
        reset_at = now + window;
        synced = 0;
        inflight = none;
      } in
      rw (lookup-store, eq_refl key)
        (rw (current-ended (lookup key tier) now h) (
          kept-Holds (is_due limit counted) 1 (now + window) counted (refl, refl),
          refl,
          refl,
          refl,
        ))

  -- From a request that finds no open window of its key, and while the requests of the key fall
  -- into the window that it opens, the n-th of them is counted as the n-th and allowed exactly for n
  -- up to the limit, whatever requests of other keys come between.
  pub serve_window :
      (now : ℕ) (rs : List Request) (tier : Tier)
      → IsEnded now (lookup key tier)
      → Within key limit window (now + window) rs
      → Numbered key limit window (now + window) 0 (serve key limit window (same now ∷ rs) tier).1
  serve_window now rs tier h w =
      let (held, count, allowed, reset) = serve_first now tier h in
      (
        count,
        allowed,
        reset,
        serve-Numbered (now + window) rs 1 (check_limit tier now key limit window).0 w held,
      )
