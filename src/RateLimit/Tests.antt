-- ===== src/RateLimit/Tests.antt =====
-- Two requests a window.
use text.Mathlib.TextEquality.{eq_iff}
use counter_terrorist.Common.{List, [], arith, false, map, none, refl, string_eq, true, ◌∷◌, ◌≡◌}
use counter_terrorist.RateLimit.{RateLimitStatus, check_limit, lookup, sync_key}
use counter_terrorist.RateLimit.Window.{Request, Numbered, other, same, serve, serve_window}
use counter_terrorist.RateLimit.Sync.{Ledger}

abbrev requests : List Request
requests = same 1200 ∷ other "10.0.0.2" 1300 5 1000 ∷ same 2000 ∷ []

allowed_run :
    map (λ (s : RateLimitStatus). s.allowed) (serve "10.0.0.1" 2 1000 (same 1000 ∷ requests) []).1
    ≡ true ∷ true ∷ false ∷ []
unfolding check_limit
allowed_run = refl

serve_window_example :
    Numbered "10.0.0.1" 2 1000 2000 0 (serve "10.0.0.1" 2 1000 (same 1000 ∷ requests) []).1
unfolding lookup
serve_window_example =
    serve_window "10.0.0.1" 2 1000 1000 requests [] tt
      (omega arith, (ground (arith, eq_iff "10.0.0.2" "10.0.0.1"), (omega arith, tt)))

abbrev empty : Ledger
empty = record {
  state = record { count = 0; reset_at = 9; synced = 0; inflight = none };
  pushed = 0;
}

abbrev one : Ledger
one = record empty { state = record (empty.state) { count = 1 } }

abbrev syncing : Ledger
syncing = record one { state = sync_key one.state }
