-- ===== src/Session/Cleanup.antt =====
-- What the cleanup removes.
use native.Mathlib.Nat.{add-zero}
use Prim.Native.String.{String}
use Prim.Native.String.{count}
use counter_terrorist.Common.{
  ===_cases, All, Bool-cases, List, [], ap, arith, if◌then◌else◌, inl, inr, length, ltb, none, ok,
  refl, string_eq, suc, true, ℕ, ◌+◌, ◌∙◌, ◌∷◌, ◌≡◌, ◌≢◌,
}
use counter_terrorist.Repository.{Repository}
use counter_terrorist.Session.{Session, cleanup_each, cleanup_expired}

-- The expired ones among the sessions.
abbrev pub expired : ℕ → List Session → List Session
expired now [] = []
expired now (session ∷ sessions) =
    let rest = expired now sessions in if ltb session.expires_at now then session ∷ rest else rest

module _ {S : Type 0} (repo : Repository Session S) where
  -- From one state to another, those sessions are gone and no other id is touched.
  abbrev pub IsRemoved : List Session → S → S → Type 0
  IsRemoved gone s t =
      All (λ (session : Session). repo.get session.id t ≡ none) gone
      × ((id : String)
          → All (λ (session : Session). session.id ≢ id) gone
          → repo.get id t ≡ repo.get id s)
      × ((id : String) → repo.get id s ≡ none → repo.get id t ≡ none)

  IsRemoved-cons :
      (session : Session) (gone : List Session) (s t u : S)
      → repo.get session.id t ≡ none
      → ((id : String) → session.id ≢ id → repo.get id t ≡ repo.get id s)
      → IsRemoved gone t u
      → IsRemoved (session ∷ gone) s u
  IsRemoved-cons session gone s t u none_here others (all_gone, same, stays) = (
    (stays session.id none_here, all_gone),
    (λ id n. same id n.1 ∙ others id n.0),
    λ id h.
        stays id
          (elim (===_cases session.id id) [ inl e ↦ rw e at none_here | inr n ↦ others id n ∙ h ]),
  )

  cleanup_each-removes :
      (now : ℕ) (sessions : List Session) (s : S) (count : ℕ)
      → repo.is_open s ≡ true
      → (t : S) × (cleanup_each repo now sessions s count
          ≡ ok (t, count + length (expired now sessions)))
        × IsRemoved (expired now sessions) s t
  unfolding cleanup_each
  cleanup_each-removes now [] s count writable =
      (s, rw (add-zero count) refl, (tt, (λ id n. refl), λ id h. h))
  cleanup_each-removes now (session ∷ sessions) s count writable =
      elim (Bool-cases (ltb session.expires_at now)) [
        | inl over ↦
            let (t, deleted, still, gone, others) = repo.delete_lem session.id s writable in
            let (u, rest, removed) = cleanup_each-removes now sessions t (count + 1) still in
            let shift : count + 1 + length (expired now sessions)
                ≡ count + suc (length (expired now sessions)) =
              omega arith in
            rw over (
              u,
              rw deleted (rest ∙ ap (λ n. ok (u, n)) shift),
              IsRemoved-cons session (expired now sessions) s t u gone others removed,
            )
        | inr alive ↦ rw alive (cleanup_each-removes now sessions s count writable)
      ]

  -- While writes are open, the cleanup removes exactly the listed sessions whose time is over, touches
  -- no session under another id, and answers their number.
  pub cleanup_expired-removes :
      (now : ℕ) (s : S)
      → repo.is_open s ≡ true
      → (t : S) × (cleanup_expired repo now s ≡ ok (t, length (expired now (repo.list s))))
        × IsRemoved (expired now (repo.list s)) s t
  unfolding cleanup_expired
  cleanup_expired-removes now s writable =
      let (t, done, removed) = cleanup_each-removes now (repo.list s) s 0 writable in
      let shift : 0 + length (expired now (repo.list s)) ≡ length (expired now (repo.list s)) =
        omega arith in
      (t, done ∙ ap (λ n. ok (t, n)) shift, removed)
