-- ===== src/AuditVerifier/Proof.antt =====
-- The inclusion proof of an event.
use text.Mathlib.TextEquality.{eq_iff}
use mathlib.Core.List.{reverse}
use Prim.Native.String.{String}
use counter_terrorist.Common.{
  All, List, [], arith, length, map, refl, some, string_eq, suc, true, zero, ℕ, ◌<◌, ◌∷◌, ◌≡◌, ◌≢◌,
}
use mathlib.Core.Option
use counter_terrorist.AuditVerifier.{AuditEvent, index_of, MerkleProof, get_merkle_proof}
use counter_terrorist.Merkle.{build_tree, at, get_proof, get_root, verify}
use counter_terrorist.Merkle.Inclusion.{verify-get_proof}

-- The place that `indexOf` gives is in range and holds the text.
index_of_found :
    (s : String) (l : List String) (i : ℕ) → index_of s l ≡ some i → (i < length l) × (at l i ≡ s)
unfolding index_of
index_of_found s [] i h = cc
index_of_found s (t ∷ l) zero h = (omega arith, ground (arith, eq_iff t s))
index_of_found s (t ∷ l) (suc i) h =
    let (lt, here) = index_of_found s l i (ground (arith, eq_iff t s)) in (omega arith, here)

found_proof :
    (sha256_hex : String → String) (s : String) (hashes : List String) (i : ℕ)
    → ((t : String) → sha256_hex t ≢ "")
    → All (λ t. t ≢ "") hashes
    → index_of s hashes ≡ some i
    → verify sha256_hex
        (get_root (build_tree sha256_hex hashes))
        s
        i
        (get_proof (build_tree sha256_hex hashes) i)
      ≡ true
found_proof sha256_hex s [] i hashed full found = absurd (elim (index_of_found s [] i found).0 [ ])
found_proof sha256_hex s (x ∷ xs) i hashed full found =
    let (lt, here) = index_of_found s (x ∷ xs) i found in
    rw here at (verify-get_proof sha256_hex x xs i hashed full lt)

-- The proof that `getMerkleProof` gives for the hash of an event is for that hash, and passes the
-- check of `MerkleTree.verify` against the root that it comes with, if no hash is the empty text.
pub verify-get_merkle_proof :
    (sha256_hex : String → String) (event_hash : String) (recent : List AuditEvent)
    (p : MerkleProof)
    → ((t : String) → sha256_hex t ≢ "")
    → All (λ t. t ≢ "") (reverse (map (λ (e : AuditEvent). e.hash) recent))
    → get_merkle_proof sha256_hex event_hash recent ≡ some p
    → (p.leaf ≡ event_hash) × (verify sha256_hex p.root event_hash p.index p.proof ≡ true)
unfolding get_merkle_proof
verify-get_merkle_proof sha256_hex event_hash recent p hashed full h =
    let (i, found, same) = (Option.map-eq-some_iff _ _).0 h in
    rw (← same) (refl, found_proof sha256_hex event_hash _ i hashed full found)
