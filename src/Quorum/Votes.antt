-- ===== src/Quorum/Votes.antt =====
-- When a saga is approved.
use Prim.Native.String.{String}
use mathlib.Core.List.{foldl}
use counter_terrorist.Common.{
  Bool-cases, List, [], ap, arith, false, has_key, if_false, if_true, if◌then◌else◌, inl, inr, leb,
  leb→le, length, length-append, refl, string_eq, subst, true, ℕ, ◌++◌, ◌+◌, ◌<◌, ◌===◌, ◌||◌, ◌↔◌,
  ◌∙◌, ◌∷◌, ◌≡◌, ◌≤◌,
}
use counter_terrorist.Quorum.{
  ConsensusSaga, add_approval, approved, pending, record_vote, Status, new_saga, includes,
}

-- The different ids among approvals and votes.
abbrev distinct : List String → List String → List String
distinct approvals votes = foldl (λ l v. add_approval v l) approvals votes

add_approval_grows : (v : String) (l : List String) → length l ≤ length (add_approval v l)
unfolding add_approval
add_approval_grows v l = ground (arith, length-append {0} l (v ∷ []))

distinct_grows : (votes l : List String) → length l ≤ length (distinct l votes)
distinct_grows [] l = omega arith
distinct_grows (v ∷ votes) l =
    omega (arith, add_approval_grows v l, distinct_grows votes (add_approval v l))

-- A saga that is no longer pending takes no more votes.
frozen :
    (votes : List String) (saga : ConsensusSaga)
    → saga.status ≡ approved
    → foldl record_vote saga votes ≡ saga
unfolding record_vote
frozen [] saga h = refl
frozen (v ∷ votes) saga h =
    let stays : record_vote saga v ≡ saga = ground arith in
    ap (λ s. foldl record_vote s votes) stays ∙ frozen votes saga h

record_vote-pending :
    (saga : ConsensusSaga) (v : String)
    → saga.status ≡ pending
    → record_vote saga v ≡ record saga {
      approvals = add_approval v saga.approvals;
      status =
          if leb saga.threshold (length (add_approval v saga.approvals)) then approved else pending;
    }
unfolding record_vote
record_vote-pending saga v h = rw (h, record_vote) refl

-- A pending saga after its next vote.
voted : ConsensusSaga → String → Status → ConsensusSaga
voted saga v status = record saga { approvals = add_approval v saga.approvals; status = status }

record_vote_reached :
    (saga : ConsensusSaga) (v : String)
    → saga.status ≡ pending
    → saga.threshold ≤ length (add_approval v saga.approvals)
    → record_vote saga v ≡ voted saga v approved
unfolding voted
record_vote_reached saga v h reached =
    let e : leb saga.threshold (length (add_approval v saga.approvals)) ≡ true = ground arith in
    rw (record_vote-pending saga v h) (rw e refl)

record_vote_short :
    (saga : ConsensusSaga) (v : String)
    → saga.status ≡ pending
    → length (add_approval v saga.approvals) < saga.threshold
    → record_vote saga v ≡ voted saga v pending
unfolding voted
record_vote_short saga v h short =
    let e : leb saga.threshold (length (add_approval v saga.approvals)) ≡ false = ground arith in
    rw (record_vote-pending saga v h) (rw e refl)

vote_first :
    (saga next : ConsensusSaga) (v : String) (votes : List String)
    → record_vote saga v ≡ next
    → foldl record_vote saga (v ∷ votes) ≡ foldl record_vote next votes
vote_first saga next v votes e = ap (λ s. foldl record_vote s votes) e

-- The votes of a saga against the number of its different approvals.
abbrev CountsVotes : List String → ConsensusSaga → Type 0
CountsVotes votes saga =
    ((foldl record_vote saga votes).status ≡ approved)
    ↔ (saga.threshold ≤ length (distinct saga.approvals votes))

-- The first vote, with what holds of the later ones.
first_counts :
    (v : String) (votes : List String) (saga : ConsensusSaga)
    → saga.status ≡ pending
    → (length (add_approval v saga.approvals) < saga.threshold
        → CountsVotes votes (voted saga v pending))
    → CountsVotes (v ∷ votes) saga
unfolding voted
first_counts v votes saga h later =
    elim (Bool-cases (leb saga.threshold (length (add_approval v saga.approvals)))) [
      | inl e ↦
          let reached = leb→le _ _ e in
          let after : (foldl record_vote saga (v ∷ votes)).status ≡ approved =
            ap (λ (s : ConsensusSaga). s.status)
              (vote_first saga _ v votes (record_vote_reached saga v h reached)
                ∙ frozen votes (voted saga v approved) refl) in
          (
            λ _. omega (arith, reached, distinct_grows votes (add_approval v saga.approvals)),
            λ _. after,
          )
      | inr e ↦
          let under : length (add_approval v saga.approvals) < saga.threshold = ground arith in
          rw (vote_first saga _ v votes (record_vote_short saga v h under)) (later under)
    ]

-- With approvals below the threshold.
short_counts :
    (votes : List String) (saga : ConsensusSaga)
    → saga.status ≡ pending
    → length saga.approvals < saga.threshold
    → CountsVotes votes saga
unfolding voted
short_counts [] saga h short = (λ e. absurd (cc), λ le. absurd (omega (arith, short)))
short_counts (v ∷ votes) saga h short =
    first_counts v votes saga h λ under. short_counts votes (voted saga v pending) refl under

-- How many ids there are that are not among those seen, nor earlier in the list.
unfoldable pub count_different : List String → List String → ℕ
count_different seen [] = 0
count_different seen (v ∷ votes) =
    let rest = count_different (v ∷ seen) votes in if has_key v seen then rest else rest + 1

includes-append :
    (x : String) (l : List String) (v : String)
    → includes x (l ++ v ∷ []) ≡ (v === x || includes x l)
unfolding includes
includes-append x [] v = refl
includes-append x (y ∷ l) v = ground (arith, includes-append x l v)

-- Approvals and seen ids with the same members.
abbrev SameMembers : List String → List String → Type 0
SameMembers approvals seen = (x : String) → includes x approvals ≡ has_key x seen

length-distinct :
    (votes approvals seen : List String)
    → SameMembers approvals seen
    → length (distinct approvals votes) ≡ length approvals + count_different seen votes
unfolding count_different add_approval
length-distinct [] approvals seen same = omega arith
length-distinct (v ∷ votes) approvals seen same = elim (Bool-cases (has_key v seen)) [
  | inl known ↦
      let kept : add_approval v approvals ≡ approvals = add_known known in
      let again : SameMembers approvals (v ∷ seen) = λ x. old x known in
      rw (kept, known) (length-distinct votes approvals (v ∷ seen) again)
  | inr new ↦
      let grown : add_approval v approvals ≡ approvals ++ v ∷ [] = add_new new in
      let more : SameMembers (approvals ++ v ∷ []) (v ∷ seen) =
        λ x. includes-append x approvals v ∙ ap (λ q. v === x || q) (same x) in
      let rest = length-distinct votes (approvals ++ v ∷ []) (v ∷ seen) more in
      rw (grown, new) (omega (arith, rest, length-append {0} approvals (v ∷ [])))
]
  where
    add_known : has_key v seen ≡ true → add_approval v approvals ≡ approvals
    add_known known =
        if_true (includes v approvals) approvals (approvals ++ v ∷ []) (same v ∙ known)

    add_new : has_key v seen ≡ false → add_approval v approvals ≡ approvals ++ v ∷ []
    add_new new = if_false (includes v approvals) approvals (approvals ++ v ∷ []) (same v ∙ new)

    old : (x : String) → has_key v seen ≡ true → includes x approvals ≡ has_key x (v ∷ seen)
    old x known = elim (Bool-cases (v === x)) [
      | inr other ↦ same x ∙ rw other refl
      | inl is ↦
          let there : has_key x seen ≡ true =
            subst (λ y. has_key y seen ≡ true) ((string_eq.same_iff v x).0 is) known in
          same x ∙ (there ∙ rw is refl)
    ]

-- The saga of a node is approved by the votes of its peers, whatever their order and however often
-- a peer votes, exactly if the number of different ids among the node's own and those of the votes
-- reaches the threshold; this for at least one vote.
pub approved_iff :
    (action node_id : String) (threshold total now : ℕ) (v : String) (votes : List String)
    → ((foldl record_vote (new_saga action node_id threshold total now) (v ∷ votes)).status
        ≡ approved)
      ↔ (threshold ≤ count_different [] (node_id ∷ v ∷ votes))
unfolding new_saga voted count_different includes
approved_iff action node_id threshold total now v votes =
    let counted : length (distinct (node_id ∷ []) (v ∷ votes))
        ≡ 1 + count_different (node_id ∷ []) (v ∷ votes) =
      length-distinct (v ∷ votes) (node_id ∷ []) (node_id ∷ []) (λ x. refl) in
    let (out, into) =
      first_counts v votes (new_saga action node_id threshold total now) refl λ under.
        short_counts votes (voted (new_saga action node_id threshold total now) v pending) refl
          under in
    (λ is. omega (arith, out is, counted), λ le. into (omega (arith, le, counted)))
