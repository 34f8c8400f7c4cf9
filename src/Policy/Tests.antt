-- ===== src/Policy/Tests.antt =====
-- The policy engine on a few rules and the default thresholds.
use counter_terrorist.Policy.Engine.Threshold.{start, by_thresholds-IsHighest, IsHighest}
use counter_terrorist.Policy.Best.{evaluate-IsChoice, IsChoice}
use Prim.Native.String.{String}
use counter_terrorist.Common.{All, Bool, List, Option, [], none, refl, some, ℕ, ◌<◌, ◌∷◌, ◌≡◌, ◌⊎◌}
use counter_terrorist.Policy.{
  Rule, Facts, Operator, and_all, block, eq_op, evaluate, evaluate_rule, ge_op, gt_op, lt_op,
}
use counter_terrorist.Values.{Value, num, scalar, text}
use counter_terrorist.Policy.Engine.{ThresholdRule, PolicyUpdate, by_thresholds, new_policy}

-- A stand-in for the platform's expressions: it throws for every pattern.
abbrev no_regex : String → String → Option Bool
no_regex pattern s = none

abbrev rule : String → Operator → Value → ℕ → Rule
rule id operator value priority = record {
  id = id;
  name = id;
  description = "test";
  conditions = record { field = "score"; operator = operator; value = value } ∷ [];
  conjunction = and_all;
  action = block;
  priority = priority;
}

abbrev rules : List Rule
rules =
    rule "low" gt_op (scalar (num 10)) 1
    ∷ rule "first" ge_op (scalar (text "20")) 7
    ∷ rule "second" lt_op (scalar (num 99)) 7
    ∷ rule "other" eq_op (scalar (text "20")) 9
    ∷ []

abbrev facts : Facts
facts = ("score", scalar (num 20)) ∷ []

chosen : evaluate no_regex rules facts ≡ some (some (rule "first" ge_op (scalar (text "20")) 7))
unfolding evaluate evaluate_rule
chosen = refl

evaluate-IsChoice_example :
    IsChoice no_regex facts rules (some (rule "first" ge_op (scalar (text "20")) 7))
evaluate-IsChoice_example =
    evaluate-IsChoice no_regex facts rules (some (rule "first" ge_op (scalar (text "20")) 7)) chosen

abbrev nothing : PolicyUpdate
nothing = record {
  version = none;
  thresholds = none;
  rules = none;
  default_action = none;
  strict_mode = none;
  shadow_mode = none;
  public_key = none;
}

by_thresholds-IsHighest_example :
    IsHighest 70
      (new_policy none none nothing).thresholds
      (by_thresholds (new_policy none none nothing) 70)
    ⊎ (All (λ (r : ThresholdRule). 70 < r.score) (new_policy none none nothing).thresholds
        × (by_thresholds (new_policy none none nothing) 70 ≡ record {
          score = 0;
          action = (new_policy none none nothing).default_action;
          description = "Baseline operational state";
        }))
by_thresholds-IsHighest_example = by_thresholds-IsHighest 70 (start none none nothing)
