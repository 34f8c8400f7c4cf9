-- ===== src/Ledger/Links.antt =====
-- The chain of a node that takes no entries from others, and what one that does accepts.
use counter_terrorist.Ledger.Seals.{head_hash-append, head_hash}
use counter_terrorist.AuditVerifier.{AuditEvent}
use Prim.Native.String.{String}
use counter_terrorist.Common.{
  List, Option, [], arith, false, length, refl, string_eq, sym, true, ℕ, ◌++◌, ◌+◌, ◌===◌, ◌∷◌, ◌≡◌,
  ◌≢◌,
}
use counter_terrorist.Ledger.{
  Ledger, LedgerEntry, Mesh, append_entry, commit, compute_hash, genesis, has_hash, new_ledger,
  next_entry, sync_entry,
}

-- From that index and hash on, indices count up and each entry names the hash of the one before it.
abbrev pub IsLinked : ℕ → String → List LedgerEntry → Type 0
IsLinked n h [] = Unit
IsLinked n h (e ∷ es) = (e.index ≡ n) × (e.prev_hash ≡ h) × IsLinked (n + 1) e.hash es

IsLinked-append :
    (n : ℕ) (h : String) (es : List LedgerEntry) (e : LedgerEntry)
    → IsLinked n h es
    → e.index ≡ n + length es
    → e.prev_hash ≡ head_hash h es
    → IsLinked n h (es ++ e ∷ [])
IsLinked-append n h [] e linked index prev = (omega (arith, index), prev, tt)
IsLinked-append n h (x ∷ es) e linked index prev =
    (linked.0, linked.1, IsLinked-append (n + 1) x.hash es e linked.2 (omega (arith, index)) prev)

IsLinked-last :
    (n : ℕ) (h : String) (es : List LedgerEntry) (e : LedgerEntry)
    → IsLinked n h (es ++ e ∷ [])
    → e.prev_hash ≡ head_hash h es
IsLinked-last n h [] e linked = linked.1
IsLinked-last n h (x ∷ es) e linked = IsLinked-last (n + 1) x.hash es e linked.2

module _ (sha256_hex : String → String) (json_of_event : AuditEvent → String) where
  -- Commits of these events at these times.
  unfoldable pub commit_all : Option Mesh → List (String × AuditEvent) → Ledger → Ledger
  commit_all mesh [] l = l
  commit_all mesh ((timestamp, event) ∷ events) l =
      commit_all mesh events (commit sha256_hex json_of_event mesh timestamp event l).0

  IsChain : Ledger → Type 0
  IsChain l = IsLinked 0 genesis l.chain × (l.last_hash ≡ head_hash genesis l.chain)

  commit-IsChain :
      (mesh : Option Mesh) (timestamp : String) (event : AuditEvent) (l : Ledger)
      → IsChain l
      → IsChain (commit sha256_hex json_of_event mesh timestamp event l).0
  unfolding IsChain commit append_entry next_entry
  commit-IsChain mesh timestamp event l (linked, last) = (
    IsLinked-append 0 genesis l.chain _ linked (omega arith) last,
    sym (head_hash-append genesis l.chain _),
  )

  commit_all-IsChain :
      (mesh : Option Mesh) (events : List (String × AuditEvent)) (l : Ledger)
      → IsChain l
      → IsChain (commit_all mesh events l)
  unfolding commit_all
  commit_all-IsChain mesh [] l h = h
  commit_all-IsChain mesh ((timestamp, event) ∷ events) l h =
      commit_all-IsChain mesh events _ (commit-IsChain mesh timestamp event l h)

  -- The chain that commits alone make of a new ledger is numbered from 0, and each entry names the
  -- hash of the one before it, the first one the genesis.
  pub commit_all-IsLinked :
      (mesh : Option Mesh) (events : List (String × AuditEvent))
      → IsLinked 0 genesis (commit_all mesh events new_ledger).chain
  unfolding IsChain new_ledger
  commit_all-IsLinked mesh events = (commit_all-IsChain mesh events new_ledger (tt, refl)).0

  -- An entry of another node with its own hash, which the ledger does not have and which does not name the
  -- hash of the last entry, is appended and becomes the head, and the chain is no longer linked.
  pub sync_entry-gap :
      (e : LedgerEntry) (l : Ledger)
      → has_hash e.hash l.chain ≡ false
      → e.hash ≡ compute_hash sha256_hex json_of_event e
      → e.prev_hash ≢ head_hash genesis l.chain
      → ((sync_entry sha256_hex json_of_event e l).chain ≡ l.chain ++ e ∷ [])
        × ((sync_entry sha256_hex json_of_event e l).last_hash ≡ e.hash)
        × (¬ IsLinked 0 genesis (sync_entry sha256_hex json_of_event e l).chain)
  unfolding sync_entry append_entry
  sync_entry-gap e l new own gap =
      let same : (e.hash === compute_hash sha256_hex json_of_event e) ≡ true =
        (string_eq.same_iff _ _).1 own in
      rw (new, same) (refl, refl, λ linked. gap (IsLinked-last 0 genesis l.chain e linked))
