-- ===== src/RateLimit/Sync.antt =====
-- The store gets every request of a window, and none twice.
use counter_terrorist.Common.{Option, arith, none, refl, some, string_eq, ℕ, ◌+◌, ◌≡◌, ◌≤◌}
use counter_terrorist.RateLimit.{RateLimitState, sync_key, write_done, write_failed}

-- The state of a key's window, and how much of it the store has taken over.
pub record Ledger : Type 0 where
  pub state : RateLimitState
  pub pushed : ℕ

abbrev pub amount : Option ℕ → ℕ
amount none = 0
amount (some d) = d

-- What can happen to a window, in any order: a request is counted, the service syncs (on a request
-- that is due, or in a flush), the write that is under way succeeds or fails.
pub data Step : Ledger → Ledger → Type 0 where
  request :
      (l : Ledger) → Step l (record l { state = record (l.state) { count = l.state.count + 1 } })
  sync : (l : Ledger) → Step l (record l { state = sync_key l.state })
  done :
      (l : Ledger)
      → Step l (record { state = write_done l.state; pushed = l.pushed + amount l.state.inflight })
  failed : (l : Ledger) → Step l (record l { state = write_failed l.state })

pub data Reach (reset_at : ℕ) : Ledger → Type 0 where
  start : Reach reset_at (record {
    state = record { count = 0; reset_at = reset_at; synced = 0; inflight = none };
    pushed = 0;
  })
  next : {l m : Ledger} → Reach reset_at l → Step l m → Reach reset_at m

pub record IsConserved (l : Ledger) : Type 0 where
  pub accounted : l.state.synced ≡ l.pushed + amount l.state.inflight
  pub within : l.state.synced ≤ l.state.count

Step-IsConserved : {l m : Ledger} → Step l m → IsConserved l → IsConserved m
unfolding sync_key write_done write_failed
Step-IsConserved (request l) h = ground arith
Step-IsConserved (sync l) h = ground arith
Step-IsConserved (done l) h = ground arith
Step-IsConserved (failed l) h = ground arith

pub Reach-IsConserved : {reset_at : ℕ} {l : Ledger} → Reach reset_at l → IsConserved l
Reach-IsConserved start = record { accounted = refl; within = omega arith }
Reach-IsConserved (next r s) = Step-IsConserved s (Reach-IsConserved r)

-- The write under way, a sync and its write: three steps after which the store has every request.
abbrev pub drain : Ledger → Ledger
drain l =
    let a : Ledger = record {
      state = write_done l.state;
      pushed = l.pushed + amount l.state.inflight;
    } in
    let b : Ledger = record a { state = sync_key a.state } in
    record { state = write_done b.state; pushed = b.pushed + amount b.state.inflight }

-- From any reachable window, if its write and the next one succeed, the store has taken over
-- exactly the requests of the window.
pub drain_complete :
    {reset_at : ℕ} {l : Ledger} → Reach reset_at l → (drain l).pushed ≡ l.state.count
unfolding sync_key write_done
drain_complete {l = l} r = let h = Reach-IsConserved r in ground arith
