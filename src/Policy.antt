-- ===== src/Policy.antt =====
-- src/orchestrator/domain/orchestration/policy_dsl.ts: the class `PolicyDSL`, over the values of Values.
-- The platform's regular expressions are the parameter `test_regex`, where `none` is an exception.
pub mod Best
pub mod Engine
mod Tests
use counter_terrorist.Values.{
  Scalar, Value, flag, less, less_eq, list, list_includes, num, scalar, strict_eq, text,
  text_includes, value_text,
}
use Prim.Native.Nat.{Ordering}
use Prim.Native.String.{String}
use Prim.Native.String
use Prim.Native.Char.{code}
use counter_terrorist.Common.{
  Bool, List, Option, [], false, if◌then◌else◌, leb, none, not, some, string_eq, true, ℕ, ◌===◌,
  ◌∷◌,
}

pub data Operator : Type 0 where
  eq_op ne_op gt_op lt_op ge_op le_op contains matches : Operator

pub data RemediationAction : Type 0 where
  log watch shadow block isolate lockdown : RemediationAction

pub data Conjunction : Type 0 where
  and_all or_any : Conjunction

pub record Condition : Type 0 where
  pub field : String
  pub operator : Operator
  pub value : Value

pub record Rule : Type 0 where
  pub id : String
  pub name : String
  pub description : String
  pub conditions : List Condition
  pub conjunction : Conjunction
  pub action : RemediationAction
  pub priority : ℕ

abbrev pub Facts : Type 0
Facts = List (String × Value)

-- `facts[field]`; `none` is `undefined`.
unfoldable pub fact : String → Facts → Option Value
fact field [] = none
fact field ((k, v) ∷ facts) = if k === field then some v else fact field facts

-- The stable `sort((a, b) => b.priority - a.priority)`.
insert_rule : Rule → List Rule → List Rule
insert_rule r [] = r ∷ []
insert_rule r (s ∷ rs) = if leb s.priority r.priority then r ∷ s ∷ rs else s ∷ insert_rule r rs

sort_rules : List Rule → List Rule
unfolding insert_rule
sort_rules [] = []
sort_rules (r ∷ rs) = insert_rule r (sort_rules rs)

abbrev pub first : List Rule → Option Rule
first [] = none
first (r ∷ rs) = some r

module _ (test_regex : String → String → Option Bool) where
  -- The `switch` of `evaluateCondition`, for a fact that is there.
  apply : Operator → Value → Value → Option Bool
  unfolding strict_eq less less_eq list_includes text_includes value_text
  apply eq_op a b = some (strict_eq a b)
  apply ne_op a b = some (not (strict_eq a b))
  apply gt_op a b = some (less b a)
  apply lt_op a b = some (less a b)
  apply ge_op a b = some (less_eq b a)
  apply le_op a b = some (less_eq a b)
  apply contains (list l) b = some (list_includes l b)
  apply contains (scalar (text s)) b = some (text_includes s (value_text b))
  apply contains (scalar (num n)) b = some false
  apply contains (scalar (flag f)) b = some false
  apply matches (scalar (text s)) b = test_regex (value_text b) s
  apply matches (scalar (num n)) b = some false
  apply matches (scalar (flag f)) b = some false
  apply matches (list l) b = some false

  -- `evaluateCondition`.
  unfoldable pub evaluate_condition : Condition → Facts → Option Bool
  unfolding apply fact
  evaluate_condition c facts = elim (fact c.field facts) [
    | none ↦ some false
    | some v ↦ apply c.operator v c.value
  ]

  -- `every` and `some` stop at the first condition that decides.
  every_from : List Condition → Facts → Option Bool
  every_from [] facts = some true
  every_from (c ∷ cs) facts =
      let rest = every_from cs facts in
      elim (evaluate_condition c facts) [ none ↦ none | some true ↦ rest | some false ↦ some false ]

  some_from : List Condition → Facts → Option Bool
  some_from [] facts = some false
  some_from (c ∷ cs) facts =
      let rest = some_from cs facts in
      elim (evaluate_condition c facts) [ none ↦ none | some true ↦ some true | some false ↦ rest ]

  by_conjunction : Conjunction → List Condition → Facts → Option Bool
  unfolding every_from some_from evaluate_condition
  by_conjunction and_all cs facts = every_from cs facts
  by_conjunction or_any cs facts = some_from cs facts

  -- `evaluateRule`.
  unfoldable pub evaluate_rule : Rule → Facts → Option Bool
  unfolding by_conjunction
  evaluate_rule r facts = by_conjunction r.conjunction r.conditions facts

  -- `rules.filter(…)`.
  matching : List Rule → Facts → Option (List Rule)
  matching [] facts = some []
  matching (r ∷ rs) facts =
      let rest = matching rs facts in
      elim (evaluate_rule r facts) [
        | none ↦ none
        | some b ↦ elim rest [ none ↦ none | some ms ↦ some (if b then r ∷ ms else ms) ]
      ]

  -- `PolicyDSL.evaluate`; the outer `none` is an exception.
  unfoldable pub evaluate : List Rule → Facts → Option (Option Rule)
  unfolding matching sort_rules
  evaluate rules facts = elim (matching rules facts) [
    | none ↦ none
    | some ms ↦ some (first (sort_rules ms))
  ]
