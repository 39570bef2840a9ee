-- ===== src/Policy/Engine.antt =====
-- The rules: `Engine`, `Evaluate`, `Explain` and the order of the policies in policy/engine.go,
-- `Policy` and `Rule` of config/config.go. The lock of the engine makes each call one step.
pub mod Order
pub mod Selection
pub mod Explain
use flux7_mesh.Base.{
  ℕ, suc, ◌+◌, Bool, true, false, Option, none, some, List, [], ◌∷◌, ◌++◌, if◌then◌else◌, ltb, Text,
  codes, text_eq, contains_any,
}
use flux7_mesh.Match.{glob, glob_any}
use flux7_mesh.Policy.Value.{FloatOps, Params}
use flux7_mesh.Policy.Condition.{Operator, Condition, evaluate_condition}

-- What a rule, a decision or a floor says; `other` is any string but the three.
pub data Action : Type 0 where
  allow human_approval deny : Action
  other : Text → Action

abbrev pub action_text : Action → Text
action_text allow = codes "allow"
action_text human_approval = codes "human_approval"
action_text deny = codes "deny"
action_text (other s) = s

pub record Rule (N : Type 0) : Type 0 where
  pub tools : List Text
  pub action : Action
  pub condition : Option (Condition N)

pub record Policy (N : Type 0) : Type 0 where
  pub name : Text
  pub agent : Text
  pub rules : List (Rule N)
  pub source_file : Text

pub record Decision : Type 0 where
  pub action : Action
  pub rule : Text
  pub reason : Text

pub record Engine (N : Type 0) : Type 0 where
  pub policies : List (Policy N)

-- An exact name, a pattern, the catch-all.
unfoldable pub agent_specificity : Text → ℕ
unfolding text_eq
agent_specificity pattern =
    if text_eq pattern (codes "*") then 0 else if contains_any pattern (codes "*?") then 1 else 2

module _ {N : Type 0} where
  -- A policy goes before those that are not more specific: the sort is stable.
  unfoldable pub add_policy : Policy N → List (Policy N) → List (Policy N)
  add_policy p [] = p ∷ []
  add_policy p (q ∷ qs) =
      if ltb (agent_specificity p.agent) (agent_specificity q.agent)
      then q ∷ add_policy p qs
      else p ∷ q ∷ qs

  unfoldable pub sort_policies : List (Policy N) → List (Policy N)
  unfolding add_policy
  sort_policies [] = []
  sort_policies (p ∷ ps) = add_policy p (sort_policies ps)

  unfoldable pub new_engine : List (Policy N) → Engine N
  unfolding sort_policies
  new_engine policies = record { policies = sort_policies policies }

  unfoldable pub reload : Engine N → List (Policy N) → Engine N
  unfolding sort_policies
  reload e policies = record e { policies = sort_policies policies }

abbrev pub match_agent : Text → Text → Bool
match_agent pattern agent = glob pattern agent

abbrev pub match_tool : List Text → Text → Bool
match_tool tools tool = glob_any tools tool

abbrev pub default_deny : Decision
default_deny = record {
  action = deny;
  rule = codes "default";
  reason = codes "no matching policy — fail closed";
}

pub decision_reason : Text → Text → Action → Text
decision_reason policy tool action =
    codes "policy=" ++ policy ++ codes " tool=" ++ tool ++ codes " action=" ++ action_text action

module _ {N : Type 0} (ops : FloatOps N) where
  abbrev pub condition_met : Option (Condition N) → Params N → Bool
  condition_met none params = true
  condition_met (some c) params = evaluate_condition ops c params

  -- The rule decides the call.
  abbrev pub applies : Text → Params N → Rule N → Bool
  applies tool params r =
      if match_tool r.tools tool then condition_met r.condition params else false

  abbrev pub decision_of : Policy N → Text → Rule N → Decision
  decision_of pol tool r = record {
    action = r.action;
    rule = pol.name;
    reason = decision_reason pol.name tool r.action;
  }

  -- The inner loop of `Evaluate`.
  unfoldable pub evaluate_rules : Policy N → Text → Params N → List (Rule N) → Option Decision
  evaluate_rules pol tool params [] = none
  evaluate_rules pol tool params (r ∷ rs) =
      if applies tool params r
      then some (decision_of pol tool r)
      else evaluate_rules pol tool params rs

  -- The outer loop.
  unfoldable pub evaluate_policies : Text → Text → Params N → List (Policy N) → Decision
  unfolding evaluate_rules
  evaluate_policies agent tool params [] = default_deny
  evaluate_policies agent tool params (pol ∷ pols) =
      let rest = evaluate_policies agent tool params pols in
      elim (match_agent pol.agent agent) [
        | false ↦ rest
        | true ↦ elim (evaluate_rules pol tool params pol.rules) [ some d ↦ d | none ↦ rest ]
      ]

  unfoldable pub evaluate : Engine N → Text → Text → Params N → Decision
  unfolding evaluate_policies
  evaluate e agent tool params = evaluate_policies agent tool params e.policies

pub record ConditionalRule : Type 0 where
  pub action : Action
  pub rule : Text
  pub field : Text
  pub operator : Operator

-- `rule_index` is none where the source has -1, at the default deny.
pub record StaticDecision : Type 0 where
  pub action : Action
  pub rule : Text
  pub conditional : List ConditionalRule
  pub source_file : Text
  pub rule_index : Option ℕ
  pub policy_agent : Text

abbrev pub static_default : List ConditionalRule → StaticDecision
static_default out = record {
  action = deny;
  rule = codes "default";
  conditional = out;
  source_file = [];
  rule_index = none;
  policy_agent = [];
}

module _ {N : Type 0} where
  abbrev pub conditional_of : Policy N → Rule N → Condition N → ConditionalRule
  conditional_of pol r c = record {
    action = r.action;
    rule = pol.name;
    field = c.field;
    operator = c.operator;
  }

  -- The inner loop of `Explain` from rule `i` on: the conditional rules met so far, and the rule
  -- that decides with its index.
  unfoldable pub explain_rules :
      Policy N
      → Text
      → ℕ
      → List (Rule N)
      → List ConditionalRule
      → List ConditionalRule × Option (ℕ × Rule N)
  explain_rules pol tool i [] out = (out, none)
  explain_rules pol tool i (r ∷ rs) out =
      let skipped = explain_rules pol tool (suc i) rs out in
      elim (match_tool r.tools tool) [
        | false ↦ skipped
        | true ↦ elim r.condition [
          | none ↦ (out, some (i, r))
          | some c ↦ explain_rules pol tool (suc i) rs (out ++ conditional_of pol r c ∷ [])
        ]
      ]

  abbrev pub static_of : Policy N → ℕ × Rule N → List ConditionalRule → StaticDecision
  static_of pol (i, r) out = record {
    action = r.action;
    rule = pol.name;
    conditional = out;
    source_file = pol.source_file;
    rule_index = some i;
    policy_agent = pol.agent;
  }

  unfoldable pub explain_policies :
      Text → Text → List (Policy N) → List ConditionalRule → StaticDecision
  unfolding explain_rules
  explain_policies agent tool [] out = static_default out
  explain_policies agent tool (pol ∷ pols) out =
      let skipped = explain_policies agent tool pols out in
      elim (match_agent pol.agent agent) [
        | false ↦ skipped
        | true ↦
            let (out', found) = explain_rules pol tool 0 pol.rules out in
            elim found [
              | some ir ↦ static_of pol ir out'
              | none ↦ explain_policies agent tool pols out'
            ]
      ]

  unfoldable pub explain : Engine N → Text → Text → StaticDecision
  unfolding explain_policies
  explain e agent tool = explain_policies agent tool e.policies []
