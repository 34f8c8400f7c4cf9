-- ===== src/Session.antt =====
-- src/orchestrator/domain/identity/session.ts: `SessionService`, over any repository of sessions. Times
-- are milliseconds, as `getTime` of the ISO texts gives them; ids and tokens that the platform draws
-- are arguments. `mac` is the parameter of Validation's `secure_compare`.
pub mod Lifetime
pub mod Cleanup
mod Tests
use Prim.Native.String.{String}
use Prim.Native.String.{count}
use counter_terrorist.Common.{
  Bool, List, Option, Result, [], false, if◌then◌else◌, ltb, none, ok, some, string_eq, ℕ, ◌*◌, ◌+◌,
  ◌===◌, ◌>>=◌, ◌∷◌,
}
use counter_terrorist.Canonical.{Fields}
use counter_terrorist.Validation.{secure_compare}
use counter_terrorist.Repository.{Repository}

pub data Role : Type 0 where
  admin operator viewer mesh_peer : Role

pub record Session : Type 0 where
  pub id : String
  pub user_id : String
  pub role : Role
  pub created_at : ℕ
  pub expires_at : ℕ
  pub last_seen : ℕ
  pub csrf_token : String
  pub metadata : Option Fields

-- What `validateSession` answers.
pub data Validation : Type 0 where
  valid : Session → Validation
  refused : String → Validation

-- The session that `createSession` makes.
unfoldable pub make_session : ℕ → String → String → String → Role → Option Fields → ℕ → Session
make_session ttl_hours id csrf_token user_id role metadata now = record {
  id = id;
  user_id = user_id;
  role = role;
  created_at = now;
  expires_at = now + ttl_hours * 60 * 60 * 1000;
  last_seen = now;
  csrf_token = csrf_token;
  metadata = metadata;
}

-- `validateCsrf` for a stored session.
unfoldable pub csrf_matches : (String → List ℕ) → String → Option Session → Bool
csrf_matches mac token none = false
csrf_matches mac token (some session) =
    if token === "" then false else secure_compare mac (some session.csrf_token) (some token)

module _ {S : Type 0} (repo : Repository Session S) where
  -- `createSession`.
  unfoldable pub create_session :
      ℕ → String → String → String → Role → Option Fields → ℕ → S → Result (S × Session) String
  unfolding make_session
  create_session ttl_hours id csrf_token user_id role metadata now s =
      let session = make_session ttl_hours id csrf_token user_id role metadata now in
      repo.save session.id session s >>= λ t. ok (t, session)

  -- `validateSession` for a stored session; the clock is read again for `lastSeen`.
  unfoldable pub validate_stored :
      ℕ → ℕ → String → Option Session → S → Result (S × Validation) String
  validate_stored now later id none s = ok (s, refused "Session not found")
  validate_stored now later id (some session) s =
      let seen : Session = record session { last_seen = later } in
      if ltb session.expires_at now
      then (repo.delete id s >>= λ t. ok (t, refused "Session expired"))
      else (repo.save seen.id seen s >>= λ t. ok (t, valid seen))

  -- `validateSession`.
  unfoldable pub validate_session : ℕ → ℕ → String → S → Result (S × Validation) String
  unfolding validate_stored
  validate_session now later id s = validate_stored now later id (repo.get id s) s

  -- `validateCsrf`.
  unfoldable pub validate_csrf : (String → List ℕ) → String → String → S → Bool
  unfolding csrf_matches
  validate_csrf mac id token s = csrf_matches mac token (repo.get id s)

  -- `revokeSession`.
  unfoldable pub revoke_session : String → S → Result S String
  revoke_session id s = repo.delete id s

  -- The loop of `cleanupExpired` over the listed sessions, with the count so far.
  unfoldable pub cleanup_each : ℕ → List Session → S → ℕ → Result (S × ℕ) String
  cleanup_each now [] s count = ok (s, count)
  cleanup_each now (session ∷ sessions) s count =
      if ltb session.expires_at now
      then (repo.delete session.id s >>= λ t. cleanup_each now sessions t (count + 1))
      else cleanup_each now sessions s count

  -- `cleanupExpired`.
  unfoldable pub cleanup_expired : ℕ → S → Result (S × ℕ) String
  unfolding cleanup_each
  cleanup_expired now s = cleanup_each now (repo.list s) s 0
