-- ===== src/Ledger/Seals.antt =====
-- What holds of a ledger with entries of its own and of other nodes.
use counter_terrorist.AuditVerifier.{AuditEvent}
use Prim.Native.String.{String}
use counter_terrorist.Common.{
  ===_refl, All, All-append, Bool-cases, List, Option, [], arith, inl, inr, refl, string_eq, sym,
  true, ◌++◌, ◌===◌, ◌∷◌, ◌≡◌,
}
use counter_terrorist.Ledger.{
  Ledger, LedgerEntry, Mesh, append_entry, commit, compute_hash, genesis, has_hash, new_ledger,
  next_entry, sync_entry,
}

-- The hash of the last entry, or the genesis.
abbrev pub head_hash : String → List LedgerEntry → String
head_hash h [] = h
head_hash h (e ∷ es) = head_hash e.hash es

pub head_hash-append :
    (h : String) (es : List LedgerEntry) (e : LedgerEntry) → head_hash h (es ++ e ∷ []) ≡ e.hash
head_hash-append h [] e = refl
head_hash-append h (x ∷ es) e = head_hash-append x.hash es e

has_hash-append :
    (h : String) (es : List LedgerEntry) (e : LedgerEntry)
    → e.hash ≡ h
    → has_hash h (es ++ e ∷ []) ≡ true
unfolding has_hash
has_hash-append h [] e same = rw same (rw (===_refl h) refl)
has_hash-append h (x ∷ es) e same = let later = has_hash-append h es e same in ground arith

module _ (sha256_hex : String → String) (json_of_event : AuditEvent → String) where
  -- Each entry has the hash that is computed for it, and the ledger the hash of its last entry.
  abbrev pub IsSealed : Ledger → Type 0
  IsSealed l =
      All (λ e. e.hash ≡ compute_hash sha256_hex json_of_event e) l.chain
      × (l.last_hash ≡ head_hash genesis l.chain)

  -- The ledgers that commits, and entries received from others, make of a new one.
  pub data Reach : Ledger → Type 0 where
    start : Reach new_ledger
    committed :
        {l : Ledger} (mesh : Option Mesh) (timestamp : String) (event : AuditEvent)
        → Reach l
        → Reach (commit sha256_hex json_of_event mesh timestamp event l).0
    synced :
        {l : Ledger} (e : LedgerEntry) → Reach l → Reach (sync_entry sha256_hex json_of_event e l)

  append-IsSealed :
      (e : LedgerEntry) (l : Ledger)
      → e.hash ≡ compute_hash sha256_hex json_of_event e
      → IsSealed l
      → IsSealed (append_entry sha256_hex json_of_event e l)
  unfolding append_entry
  append-IsSealed e l own (sealed, last) =
      (All-append _ l.chain (e ∷ []) sealed (own, tt), sym (head_hash-append genesis l.chain e))

  sync_entry-IsSealed :
      (e : LedgerEntry) (l : Ledger)
      → IsSealed l
      → IsSealed (sync_entry sha256_hex json_of_event e l)
  unfolding sync_entry
  sync_entry-IsSealed e l sealed = elim (Bool-cases (has_hash e.hash l.chain)) [
    | inl known ↦ rw known sealed
    | inr new ↦ rw new (elim (Bool-cases (e.hash === compute_hash sha256_hex json_of_event e)) [
      | inl own ↦ rw own (append-IsSealed e l ((string_eq.same_iff _ _).0 own) sealed)
      | inr other ↦ rw other sealed
    ])
  ]

  -- Whatever entries other nodes send, each entry of the ledger has the hash that is computed for it,
  -- and the hash that the next commit will link to is that of the last entry, or the genesis.
  pub Reach-IsSealed : {l : Ledger} → Reach l → IsSealed l
  unfolding commit next_entry compute_hash new_ledger
  Reach-IsSealed start = (tt, refl)
  Reach-IsSealed (committed {l} mesh timestamp event prior) =
      append-IsSealed (next_entry sha256_hex json_of_event mesh timestamp event l) l refl
        (Reach-IsSealed prior)
  Reach-IsSealed (synced {l} e prior) = sync_entry-IsSealed e l (Reach-IsSealed prior)

  -- An entry that is received a second time changes nothing.
  pub sync_entry_twice :
      (e : LedgerEntry) (l : Ledger)
      → sync_entry sha256_hex json_of_event e (sync_entry sha256_hex json_of_event e l)
        ≡ sync_entry sha256_hex json_of_event e l
  unfolding sync_entry append_entry
  sync_entry_twice e l = elim (Bool-cases (has_hash e.hash l.chain)) [
    | inl known ↦ rw known (rw known refl)
    | inr new ↦ rw new (elim (Bool-cases (e.hash === compute_hash sha256_hex json_of_event e)) [
      | inl own ↦ rw own (rw (has_hash-append e.hash l.chain e refl) refl)
      | inr other ↦ rw other (rw new refl)
    ])
  ]
