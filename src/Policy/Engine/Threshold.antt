-- ===== src/Policy/Engine/Threshold.antt =====
-- The threshold that a score reaches, whatever updates the policy has seen.
use Prim.Native.String.{String}
use counter_terrorist.Common.{
  All, All-mono, Bool, Bool-cases, List, Option, [], ap, arith, inl, inr, leb, leb→le, none, refl,
  some, ℕ, ◌++◌, ◌<◌, ◌∷◌, ◌≡◌, ◌≤◌, ◌⊎◌,
}
use counter_terrorist.Policy.Engine.{
  SecurityPolicy, ThresholdRule, PolicyUpdate, by_thresholds, first_reached, insert_threshold,
  new_policy, set_shadow_mode, sort_thresholds, update_policy, default_policy, given, updated,
}

-- The policies that an engine can hold.
pub data Reach : SecurityPolicy → Type 0 where
  start :
      (strict shadow_env : Option String) (u : PolicyUpdate)
      → Reach (new_policy strict shadow_env u)
  update : {p : SecurityPolicy} (u : PolicyUpdate) → Reach p → Reach (update_policy p u)
  mode : {p : SecurityPolicy} (value : Bool) → Reach p → Reach (set_shadow_mode p value)

-- The highest score first.
abbrev pub IsSorted : List ThresholdRule → Type 0
IsSorted [] = Unit
IsSorted (r ∷ rs) = All (λ (s : ThresholdRule). s.score ≤ r.score) rs × IsSorted rs

insert-All :
    (P : ThresholdRule → Type 0) (r : ThresholdRule) (rs : List ThresholdRule)
    → P r
    → All P rs
    → All P (insert_threshold r rs)
unfolding insert_threshold
insert-All P r [] p h = (p, tt)
insert-All P r (s ∷ rs) p (q, h) = elim (Bool-cases (leb s.score r.score)) [
  | inl le ↦ rw le (p, (q, h))
  | inr lt ↦ rw lt (q, insert-All P r rs p h)
]

insert-IsSorted :
    (r : ThresholdRule) (rs : List ThresholdRule) → IsSorted rs → IsSorted (insert_threshold r rs)
unfolding insert_threshold
insert-IsSorted r [] h = (tt, tt)
insert-IsSorted r (s ∷ rs) (below, h) = elim (Bool-cases (leb s.score r.score)) [
  | inl le ↦
      let le' = leb→le s.score r.score le in
      rw le ((le', All-mono _ _ (λ t q. omega (arith, le')) rs below), (below, h))
  | inr lt ↦ rw lt (insert-All _ r rs (ground arith) below, insert-IsSorted r rs h)
]

sort-IsSorted : (rs : List ThresholdRule) → IsSorted (sort_thresholds rs)
unfolding sort_thresholds
sort-IsSorted [] = tt
sort-IsSorted (r ∷ rs) = insert-IsSorted r (sort_thresholds rs) (sort-IsSorted rs)

updated-IsSorted : (p : SecurityPolicy) (u : PolicyUpdate) → IsSorted (updated p u).thresholds
unfolding updated
updated-IsSorted p u = sort-IsSorted (given u.thresholds p.thresholds)

Reach-IsSorted : {p : SecurityPolicy} → Reach p → IsSorted p.thresholds
unfolding new_policy update_policy set_shadow_mode
Reach-IsSorted (start strict shadow_env u) = updated-IsSorted (default_policy strict shadow_env) u
Reach-IsSorted (update {p = q} u r) = updated-IsSorted q u
Reach-IsSorted (mode value r) = Reach-IsSorted r

-- The threshold is one of the list that the score reaches, and no other that it reaches is higher.
pub record IsHighest (score : ℕ) (thresholds : List ThresholdRule) (t : ThresholdRule)
    : Type 0 where
  pub before : List ThresholdRule
  pub after : List ThresholdRule
  pub place : thresholds ≡ before ++ t ∷ after
  pub reached : t.score ≤ score
  pub highest : All (λ (r : ThresholdRule). (score < r.score) ⊎ (r.score ≤ t.score)) thresholds

abbrev pub Reaches : ℕ → List ThresholdRule → Option ThresholdRule → Type 0
Reaches score thresholds none = All (λ (r : ThresholdRule). score < r.score) thresholds
Reaches score thresholds (some t) = IsHighest score thresholds t

first_reached-Reaches :
    (score : ℕ) (rs : List ThresholdRule) → IsSorted rs → Reaches score rs (first_reached score rs)
unfolding first_reached
first_reached-Reaches score [] h = tt
first_reached-Reaches score (r ∷ rs) (below, h) = elim (Bool-cases (leb r.score score)) [
  | inl le ↦ rw le (record {
    before = [];
    after = rs;
    place = refl;
    reached = leb→le r.score score le;
    highest = (inr (omega arith), All-mono _ _ (λ t q. inr q) rs below);
  })
  | inr lt ↦ rw lt (skip (first_reached score rs) (ground arith) (first_reached-Reaches score rs h))
]
  where
    skip :
        (o : Option ThresholdRule) → score < r.score → Reaches score rs o → Reaches score (r ∷ rs) o
    skip none p q = (p, q)
    skip (some t) p q = record {
      before = r ∷ q.before;
      after = q.after;
      place = ap (λ l. r ∷ l) q.place;
      reached = q.reached;
      highest = (inl p, q.highest);
    }

-- Whatever policy an engine starts from and whatever updates it gets, in any order: the action that
-- it takes by the thresholds alone is that of the highest threshold that the score reaches; where
-- the score reaches none, it is the default action at score 0.
pub by_thresholds-IsHighest :
    {p : SecurityPolicy} (score : ℕ)
    → Reach p
    → IsHighest score p.thresholds (by_thresholds p score)
      ⊎ (All (λ (r : ThresholdRule). score < r.score) p.thresholds
          × (by_thresholds p score ≡ record {
            score = 0;
            action = p.default_action;
            description = "Baseline operational state";
          }))
unfolding by_thresholds
by_thresholds-IsHighest {p} score r =
    split (first_reached score p.thresholds) refl
      (first_reached-Reaches score p.thresholds (Reach-IsSorted r))
  where
    split :
        (o : Option ThresholdRule)
        → first_reached score p.thresholds ≡ o
        → Reaches score p.thresholds o
        → IsHighest score p.thresholds (by_thresholds p score)
          ⊎ (All (λ (r : ThresholdRule). score < r.score) p.thresholds
              × (by_thresholds p score ≡ record {
                score = 0;
                action = p.default_action;
                description = "Baseline operational state";
              }))
    split none e q = inr (q, ground arith)
    split (some t) e q = let same : by_thresholds p score ≡ t = ground arith in inl (rw same q)
