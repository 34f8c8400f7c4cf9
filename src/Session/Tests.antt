-- ===== src/Session/Tests.antt =====
-- Sessions in a repository of two entries.
use Prim.Native.String.{String}
use mathlib.Core.Bool.{false≢true}
use counter_terrorist.Common.{
  List, [], arith, false, length, none, ok, refl, string_eq, true, ℕ, ◌*◌, ◌+◌, ◌<◌, ◌∷◌, ◌≡◌, ◌≤◌,
}
use counter_terrorist.Repository.{Repository, Store, is_permitted, kv_list}
use counter_terrorist.Repository.Kv.{kv_repository}
use counter_terrorist.Session.{
  Session, create_session, refused, revoke_session, valid, validate_csrf, validate_session, viewer,
}
use counter_terrorist.Session.Lifetime.{create_session-lifetime}
use counter_terrorist.Session.Cleanup.{expired}

abbrev session : String → ℕ → Session
session id expires_at = record {
  id = id;
  user_id = "ada";
  role = viewer;
  created_at = 10;
  expires_at = expires_at;
  last_seen = 10;
  csrf_token = "t";
  metadata = none;
}

abbrev store : Store Session
store = record {
  prefix = "session";
  is_read_only = false;
  entries = ("a", session "a" 100) ∷ ("b", session "b" 20) ∷ [];
}

abbrev repo : Repository Session (Store Session)
repo = kv_repository

writable : repo.is_open store ≡ true
unfolding kv_repository is_permitted
writable = refl

abbrev mark : String → List ℕ
mark t = 17 ∷ 255 ∷ []

create_session-lifetime_example :
    (t : Store Session) × (made : Session) × (create_session repo 24 "c" "token" "eve" viewer none
        10 store
      ≡ ok (t, made))
    × (validate_csrf repo mark "c" "token" t ≡ true)
    × ((at later : ℕ)
        → at ≤ 10 + 24 * 3600000
        → (u : Store Session) × (validate_session repo at later "c" t
            ≡ ok (u, valid (record made { last_seen = later }))))
    × ((at later : ℕ)
        → 10 + 24 * 3600000 < at
        → (u : Store Session) × (validate_session repo at later "c" t
            ≡ ok (u, refused "Session expired")))
    × ((at later : ℕ)
        → (u : Store Session) × (revoke_session repo "c" t ≡ ok u)
          × (validate_session repo at later "c" u ≡ ok (u, refused "Session not found")))
create_session-lifetime_example =
    create_session-lifetime repo mark 24 "c" "token" "eve" viewer none 10 store writable
      (λ e. false≢true ((string_eq.same_iff "token" "").1 e)) (ground arith, (ground arith, tt))

expired_test : length (expired 50 (repo.list store)) ≡ 1
unfolding kv_repository kv_list
expired_test = refl
