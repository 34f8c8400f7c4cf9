-- ===== src/Session/Lifetime.antt =====
-- A session from its creation to its end.
use counter_terrorist.Canonical.{Fields}
use Prim.Native.String.{String}
use counter_terrorist.Common.{
  ===_other, List, Option, arith, false, ltb, none, ok, refl, some, string_eq, true, ℕ, ◌*◌, ◌+◌,
  ◌<◌, ◌≡◌, ◌≢◌, ◌≤◌,
}
use counter_terrorist.Validation.Compare.{IsBytes, secure_compare_self}
use counter_terrorist.Repository.{Repository}
use counter_terrorist.Session.{
  Session, Role, create_session, csrf_matches, make_session, refused, revoke_session, valid,
  validate_csrf, validate_session, validate_stored,
}

module _ {S : Type 0} (repo : Repository Session S) where
  -- While writes are open, a session that is stored under its id is valid until it expires, with its
  -- `lastSeen` renewed and its end unchanged; later it is refused and no longer stored.
  pub validate_session-stored :
      (now later : ℕ) (session : Session) (s : S)
      → repo.is_open s ≡ true
      → repo.get session.id s ≡ some session
      → (now ≤ session.expires_at
          → (t : S) × (validate_session repo now later session.id s
              ≡ ok (t, valid (record session { last_seen = later })))
            × (repo.get session.id t ≡ some (record session { last_seen = later }))
            × (repo.is_open t ≡ true))
        × (session.expires_at < now
            → (t : S) × (validate_session repo now later session.id s
                ≡ ok (t, refused "Session expired"))
              × (repo.get session.id t ≡ none)
              × (repo.is_open t ≡ true))
  unfolding validate_session validate_stored
  validate_session-stored now later session s writable stored = (
    (λ le.
        let alive : ltb session.expires_at now ≡ false = ground arith in
        let seen : Session = record session { last_seen = later } in
        let (t, saved, still, found, _) = repo.save_lem session.id seen s writable in
        (t, rw stored (rw alive (rw saved refl)), found, still)),
    λ lt.
        let over : ltb session.expires_at now ≡ true = ground arith in
        let (t, deleted, still, gone, _) = repo.delete_lem session.id s writable in
        (t, rw stored (rw over (rw deleted refl)), gone, still),
  )

  -- While writes are open, a new session is stored, and validated at any time from its creation to
  -- `ttlHours` later; it is refused at any time after that, and once it is revoked. Its token is
  -- accepted, if it is not empty and its HMAC is an array of bytes.
  pub create_session-lifetime :
      (mac : String → List ℕ) (ttl_hours : ℕ) (id csrf_token user_id : String) (role : Role)
      (metadata : Option Fields) (now : ℕ) (s : S)
      → repo.is_open s ≡ true
      → csrf_token ≢ ""
      → IsBytes (mac csrf_token)
      → (t : S) × (session : Session) × (create_session repo ttl_hours id csrf_token user_id role
            metadata now s
          ≡ ok (t, session))
        × (validate_csrf repo mac id csrf_token t ≡ true)
        × ((at later : ℕ)
            → at ≤ now + ttl_hours * 3600000
            → (u : S) × (validate_session repo at later id t
                ≡ ok (u, valid (record session { last_seen = later }))))
        × ((at later : ℕ)
            → now + ttl_hours * 3600000 < at
            → (u : S) × (validate_session repo at later id t ≡ ok (u, refused "Session expired")))
        × ((at later : ℕ)
            → (u : S) × (revoke_session repo id t ≡ ok u)
              × (validate_session repo at later id u ≡ ok (u, refused "Session not found")))
  unfolding create_session make_session validate_csrf csrf_matches revoke_session validate_session
      validate_stored
  create_session-lifetime mac ttl_hours id csrf_token user_id role metadata now s writable
        some_token bytes =
      let session = make_session ttl_hours id csrf_token user_id role metadata now in
      let (t, saved, still, found, _) = repo.save_lem id session s writable in
      let end : session.expires_at ≡ now + ttl_hours * 3600000 = omega arith in
      let (u, deleted, _, gone, _) = repo.delete_lem id t still in
      (
        t,
        session,
        rw saved refl,
        rw found (
            rw (===_other csrf_token "" some_token)
              (secure_compare_self mac csrf_token none bytes).0),
        (λ at later le.
            let (v, done, _, _) =
              (validate_session-stored at later session t still found).0 (omega (arith, le, end)) in
            (v, done)),
        (λ at later lt.
            let (v, done, _, _) =
              (validate_session-stored at later session t still found).1 (omega (arith, lt, end)) in
            (v, done)),
        λ at later. (u, deleted, rw gone refl),
      )
