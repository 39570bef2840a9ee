-- ===== src/Policy/Engine/Explain.antt =====
-- `Explain` foretells `Evaluate`: the decision is that of a conditional rule it lists, or the one
-- that it gives for the case that no condition holds.
use flux7_mesh.Base.{
  ℕ, suc, ◌≡◌, refl, subst, ◌⊎◌, inl, inr, true, Option, none, some, List, [], ◌∷◌, ◌++◌,
  Bool-cases, Option-cases, Text, Any,
}
use flux7_mesh.Policy.Value.{FloatOps, Params}
use flux7_mesh.Policy.Engine.{
  Rule, Policy, Decision, Engine, ConditionalRule, StaticDecision, match_agent, match_tool, applies,
  decision_of, conditional_of, evaluate_rules, evaluate_policies, evaluate, explain_rules,
  explain_policies, explain,
}

Any-append_left {ℓ} : {A : Type ℓ} (P : A → Type 0) (xs ys : List A) → Any P xs → Any P (xs ++ ys)
Any-append_left P (x ∷ xs) ys (inl h) = inl h
Any-append_left P (x ∷ xs) ys (inr h) = inr (Any-append_left P xs ys h)
Any-append_left P [] ys h = absurd h

Any-append_last {ℓ} :
    {A : Type ℓ} (P : A → Type 0) (xs : List A) (x : A) → P x → Any P (xs ++ x ∷ [])
Any-append_last P [] x h = inl h
Any-append_last P (y ∷ xs) x h = inr (Any-append_last P xs x h)

-- The decision has the action of the listed rule and names its policy.
abbrev pub IsOf : Decision → ConditionalRule → Type 0
IsOf d c = (d.action ≡ c.action) × (d.rule ≡ c.rule)

module _ {N : Type 0} (pol : Policy N) (tool : Text) where
  -- What was listed stays listed.
  explain_rules_mono :
      (P : ConditionalRule → Type 0) (i : ℕ) (rs : List (Rule N)) (out : List ConditionalRule)
      → Any P out
      → Any P (explain_rules pol tool i rs out).0
  unfolding explain_rules
  explain_rules_mono P i [] out h = h
  explain_rules_mono P i (r ∷ rs) out h = elim (Bool-cases (match_tool r.tools tool)) [
    | inr miss ↦ rw (miss, explain_rules) (explain_rules_mono P (suc i) rs out h)
    | inl hit ↦ elim (Option-cases r.condition) [
      | inl e ↦ rw (hit, e, explain_rules) h
      | inr (c, e) ↦
          rw (hit, e, explain_rules)
            (explain_rules_mono P (suc i) rs _
              (Any-append_left P out (conditional_of pol r c ∷ []) h))
    ]
  ]

module _ {N : Type 0} (agent tool : Text) where
  explain_policies_mono :
      (P : ConditionalRule → Type 0) (ps : List (Policy N)) (out : List ConditionalRule)
      → Any P out
      → Any P (explain_policies agent tool ps out).conditional
  unfolding explain_policies
  explain_policies_mono P [] out h = h
  explain_policies_mono P (pol ∷ ps) out h = elim (Bool-cases (match_agent pol.agent agent)) [
    | inr foreign ↦ rw (foreign, explain_policies) (explain_policies_mono P ps out h)
    | inl names ↦ elim (Option-cases (explain_rules pol tool 0 pol.rules out).1) [
      | inl e ↦
          rw (names, e, explain_policies)
            (explain_policies_mono P ps _ (explain_rules_mono pol tool P 0 pol.rules out h))
      | inr (ir, e) ↦
          rw (names, e, explain_policies) (explain_rules_mono pol tool P 0 pol.rules out h)
    ]
  ]

module _ {N : Type 0} (ops : FloatOps N) (tool : Text) (params : Params N) (pol : Policy N) where
  -- What `explain_rules` says of the decision of the same rules.
  abbrev Foretold : Option Decision → List ConditionalRule × Option (ℕ × Rule N) → Type 0
  Foretold none (out, found) = found ≡ none
  Foretold (some d) (out, found) =
      Any (IsOf d) out
      ⊎ ((ir : ℕ × Rule N) × (found ≡ some ir) × (d.action ≡ ir.1.action) × (d.rule ≡ pol.name))

  explain_rules-Foretold :
      (i : ℕ) (rs : List (Rule N)) (out : List ConditionalRule)
      → Foretold (evaluate_rules ops pol tool params rs) (explain_rules pol tool i rs out)
  unfolding explain_rules evaluate_rules
  explain_rules-Foretold i [] out = refl
  explain_rules-Foretold i (r ∷ rs) out = elim (Bool-cases (match_tool r.tools tool)) [
    | inr miss ↦ rw (miss, explain_rules) (explain_rules-Foretold (suc i) rs out)
    | inl hit ↦ elim (Option-cases r.condition) [
      | inl e ↦ rw (hit, e, explain_rules) (inr ((i, r), refl, refl, refl))
      | inr (c, e) ↦ elim (Bool-cases (applies ops tool params r)) [
        | inl met ↦
            rw (met, hit, e, explain_rules)
              (inl (
                explain_rules_mono pol tool (IsOf (decision_of ops pol tool r)) (suc i) rs _
                  (Any-append_last _ out (conditional_of pol r c) (refl, refl))))
        | inr unmet ↦ rw (unmet, hit, e, explain_rules) (explain_rules-Foretold (suc i) rs _)
      ]
    ]
  ]

module _ {N : Type 0} (ops : FloatOps N) (agent tool : Text) (params : Params N) where
  -- The decision is that of a listed rule, or the fallthrough one.
  abbrev pub IsForetold : Decision → StaticDecision → Type 0
  IsForetold d s = Any (IsOf d) s.conditional ⊎ ((d.action ≡ s.action) × (d.rule ≡ s.rule))

  -- One policy that names the agent, from what is known of its rules and of the policies after it.
  policy-IsForetold :
      (pol : Policy N) (ps : List (Policy N)) (out : List ConditionalRule) (d : Option Decision)
      → match_agent pol.agent agent ≡ true
      → evaluate_rules ops pol tool params pol.rules ≡ d
      → Foretold ops tool params pol d (explain_rules pol tool 0 pol.rules out)
      → ((o : List ConditionalRule)
          → IsForetold
              (evaluate_policies ops agent tool params ps)
              (explain_policies agent tool ps o))
      → IsForetold
          (evaluate_policies ops agent tool params (pol ∷ ps))
          (explain_policies agent tool (pol ∷ ps) out)
  unfolding evaluate_policies explain_policies
  policy-IsForetold pol ps out none names e h rest =
      rw (names, h, e, evaluate_policies, explain_policies) (rest _)
  policy-IsForetold pol ps out (some d) names e (inr (ir, found, act, name)) rest =
      rw (names, found, e, evaluate_policies, explain_policies) (inr (act, name))
  policy-IsForetold pol ps out (some d) names e (inl listed) rest =
      elim (Option-cases (explain_rules pol tool 0 pol.rules out).1) [
        | inl n ↦
            rw (names, n, e, evaluate_policies, explain_policies)
              (inl (explain_policies_mono agent tool (IsOf d) ps _ listed))
        | inr (ir, found) ↦ rw (names, found, e, evaluate_policies, explain_policies) (inl listed)
      ]

  evaluate_policies-IsForetold :
      (ps : List (Policy N)) (out : List ConditionalRule)
      → IsForetold (evaluate_policies ops agent tool params ps) (explain_policies agent tool ps out)
  unfolding evaluate_policies explain_policies
  evaluate_policies-IsForetold [] out = inr (refl, refl)
  evaluate_policies-IsForetold (pol ∷ ps) out = elim (Bool-cases (match_agent pol.agent agent)) [
    | inr foreign ↦
        rw (foreign, evaluate_policies, explain_policies) (evaluate_policies-IsForetold ps out)
    | inl names ↦
        policy-IsForetold pol ps out _ names refl
          (explain_rules-Foretold ops tool params pol 0 pol.rules out)
          (evaluate_policies-IsForetold ps)
  ]

  -- For all arguments, the call's decision has the action and the policy of one of the conditional
  -- rules that `explain` lists, or those that `explain` gives as the outcome.
  pub evaluate-IsForetold :
      (e : Engine N) → IsForetold (evaluate ops e agent tool params) (explain e agent tool)
  unfolding evaluate explain
  evaluate-IsForetold e = evaluate_policies-IsForetold e.policies []

  -- Where `explain` lists no conditional rule, its action is that of every call.
  pub evaluate-explain :
      (e : Engine N)
      → (explain e agent tool).conditional ≡ []
      → ((evaluate ops e agent tool params).action ≡ (explain e agent tool).action)
        × ((evaluate ops e agent tool params).rule ≡ (explain e agent tool).rule)
  evaluate-explain e none_listed = elim (evaluate-IsForetold e) [
    | inl listed ↦ absurd (subst (Any (IsOf (evaluate ops e agent tool params))) none_listed listed)
    | inr same ↦ same
  ]
