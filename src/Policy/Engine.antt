-- ===== src/Policy/Engine.antt =====
-- src/orchestrator/domain/orchestration/policy_engine.ts: the class `PolicyEngine`. Scores are
-- non-negative whole numbers; what the log says is left out.
pub mod Threshold
use Prim.Native.String.{String}
use Prim.Native.String
use counter_terrorist.Common.{
  Bool, List, Option, [], false, if◌then◌else◌, leb, none, not, some, string_eq, ℕ, ◌++◌, ◌===◌,
  ◌∷◌,
}
use counter_terrorist.Policy.{
  Rule, Facts, RemediationAction, block, evaluate, isolate, lockdown, log, shadow, watch,
}
use counter_terrorist.Values.{Value, num, scalar}

pub record ThresholdRule : Type 0 where
  pub score : ℕ
  pub action : RemediationAction
  pub description : String

pub record SecurityPolicy : Type 0 where
  pub version : String
  pub thresholds : List ThresholdRule
  pub rules : List Rule
  pub default_action : RemediationAction
  pub strict_mode : Bool
  pub shadow_mode : Bool
  pub public_key : Option String

-- `Partial<SecurityPolicy>`: a field is there or is not.
pub record PolicyUpdate : Type 0 where
  pub version : Option String
  pub thresholds : Option (List ThresholdRule)
  pub rules : Option (List Rule)
  pub default_action : Option RemediationAction
  pub strict_mode : Option Bool
  pub shadow_mode : Option Bool
  pub public_key : Option String

abbrev given {ℓ} : {A : Type ℓ} → Option A → A → A
given none a = a
given (some b) a = b

abbrev given_key : Option String → Option String → Option String
given_key none k = k
given_key (some b) k = some b

-- The stable `thresholds.sort((a, b) => b.score - a.score)`.
insert_threshold : ThresholdRule → List ThresholdRule → List ThresholdRule
insert_threshold r [] = r ∷ []
insert_threshold r (s ∷ rs) = if leb s.score r.score then r ∷ s ∷ rs else s ∷ insert_threshold r rs

sort_thresholds : List ThresholdRule → List ThresholdRule
unfolding insert_threshold
sort_thresholds [] = []
sort_thresholds (r ∷ rs) = insert_threshold r (sort_thresholds rs)

-- `{ ...policy, ...update }`, with the thresholds sorted.
pub updated : SecurityPolicy → PolicyUpdate → SecurityPolicy
unfolding sort_thresholds
updated p u = record {
  version = given u.version p.version;
  thresholds = sort_thresholds (given u.thresholds p.thresholds);
  rules = given u.rules p.rules;
  default_action = given u.default_action p.default_action;
  strict_mode = given u.strict_mode p.strict_mode;
  shadow_mode = given u.shadow_mode p.shadow_mode;
  public_key = given_key u.public_key p.public_key;
}

abbrev threshold : ℕ → RemediationAction → String → ThresholdRule
threshold score action description = record {
  score = score;
  action = action;
  description = description;
}

abbrev is_text : Option String → String → Bool
is_text none s = false
is_text (some t) s = t === s

-- The default policy, by what `getEnv` gives for the two modes (nothing if there is no config).
default_policy : Option String → Option String → SecurityPolicy
default_policy strict shadow_env = record {
  version = "1.2.0";
  thresholds =
      threshold 10 watch "Increase forensic sampling rate"
      ∷ threshold 30 shadow "Redirect to deceptive mirror world"
      ∷ threshold 60 block "Local firewall IP rejection"
      ∷ threshold 90 isolate "Full node network isolation"
      ∷ threshold 100 lockdown "Mesh-wide quorum lockdown"
      ∷ [];
  rules = [];
  default_action = log;
  strict_mode = is_text strict "true";
  shadow_mode = not (is_text shadow_env "false");
  public_key = none;
}

-- `constructor`.
pub new_policy : Option String → Option String → PolicyUpdate → SecurityPolicy
new_policy strict shadow_env initial = updated (default_policy strict shadow_env) initial

-- `updatePolicy`.
pub update_policy : SecurityPolicy → PolicyUpdate → SecurityPolicy
update_policy p u = updated p u

-- `setShadowMode` and `isShadowMode`.
pub set_shadow_mode : SecurityPolicy → Bool → SecurityPolicy
set_shadow_mode p value = record p { shadow_mode = value }

pub is_shadow_mode : SecurityPolicy → Bool
is_shadow_mode p = p.shadow_mode

-- `{ ...context, score }`.
set_fact : String → Value → Facts → Facts
set_fact k v [] = (k, v) ∷ []
set_fact k v ((j, w) ∷ facts) = if j === k then (k, v) ∷ facts else (j, w) ∷ set_fact k v facts

-- The loop over the thresholds.
first_reached : ℕ → List ThresholdRule → Option ThresholdRule
first_reached score [] = none
first_reached score (r ∷ rs) = if leb r.score score then some r else first_reached score rs

pub by_thresholds : SecurityPolicy → ℕ → ThresholdRule
unfolding first_reached
by_thresholds p score = elim (first_reached score p.thresholds) [
  | some r ↦ r
  | none ↦ threshold 0 p.default_action "Baseline operational state"
]

abbrev pub of_rule : Rule → ThresholdRule
of_rule r =
    threshold r.priority r.action
      (String.◌++◌ "DSL Match: " (String.◌++◌ r.name (String.◌++◌ " - " r.description)))

module _ (test_regex : String → String → Option Bool) where
  -- The rules, where there are a context and rules; the outer `none` is an exception.
  by_rules : SecurityPolicy → ℕ → Option Facts → Option (Option Rule)
  unfolding set_fact
  by_rules p score none = some none
  by_rules p score (some context) = elim p.rules [
    | [] ↦ some none
    | r ∷ rs ↦ evaluate test_regex (r ∷ rs) (set_fact "score" (scalar (num score)) context)
  ]

  -- `PolicyEngine.evaluate`.
  pub evaluate_policy : SecurityPolicy → ℕ → Option Facts → Option ThresholdRule
  unfolding by_rules
  evaluate_policy p score context = elim (by_rules p score context) [
    | none ↦ none
    | some (some r) ↦ some (of_rule r)
    | some none ↦ some (by_thresholds p score)
  ]
