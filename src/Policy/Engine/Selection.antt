-- ===== src/Policy/Engine/Selection.antt =====
-- `Evaluate` picks the first rule, in the order of the policies and of their rules, that names the
-- agent and the tool and whose condition holds; without one it denies.
use flux7_mesh.Base.{
  ◌≡◌, refl, ap, ◌⊎◌, inl, inr, true, false, none, some, List, [], ◌∷◌, ◌++◌, arith, Bool-cases,
  Text, All,
}
use flux7_mesh.Policy.Value.{FloatOps, Params}
use flux7_mesh.Policy.Engine.{
  Rule, Policy, Decision, Engine, match_agent, applies, decision_of, default_deny, evaluate_rules,
  evaluate_policies, evaluate,
}

module _ {N : Type 0} (ops : FloatOps N) (agent tool : Text) (params : Params N) where
  -- No rule of the list decides the call.
  abbrev pub NoRule : List (Rule N) → Type 0
  NoRule rs = All (λ r. applies ops tool params r ≡ false) rs

  -- The policy does not name the agent, or none of its rules decides the call.
  abbrev pub Silent : Policy N → Type 0
  Silent pol = (match_agent pol.agent agent ≡ false) ⊎ NoRule pol.rules

  -- `d` comes from the first rule of the list that decides the call.
  abbrev pub FromRule : Policy N → List (Rule N) → Decision → Type 0
  FromRule pol rs d =
      (before : List (Rule N)) × (r : Rule N) × (after : List (Rule N)) × (rs ≡ before ++ r ∷ after)
      × NoRule before
      × (applies ops tool params r ≡ true)
      × (d ≡ decision_of ops pol tool r)

  -- `d` comes from the first policy that is not silent.
  abbrev pub FromPolicy : List (Policy N) → Decision → Type 0
  FromPolicy ps d =
      (before : List (Policy N)) × (pol : Policy N) × (after : List (Policy N)) × (ps
        ≡ before ++ pol ∷ after)
      × All Silent before
      × (match_agent pol.agent agent ≡ true)
      × FromRule pol pol.rules d

  evaluate_rules-FromRule :
      (pol : Policy N) (rs : List (Rule N))
      → ((evaluate_rules ops pol tool params rs ≡ none) × NoRule rs)
        ⊎ ((d : Decision) × (evaluate_rules ops pol tool params rs ≡ some d) × FromRule pol rs d)
  unfolding evaluate_rules
  evaluate_rules-FromRule pol [] = inl (refl, tt)
  evaluate_rules-FromRule pol (r ∷ rs) = elim (Bool-cases (applies ops tool params r)) [
    | inl hit ↦ inr (decision_of ops pol tool r, rw hit, ([], r, rs, refl, tt, hit, refl))
    | inr miss ↦ elim (evaluate_rules-FromRule pol rs) [
      | inl (e, h) ↦ inl (rw miss e, (miss, h))
      | inr (d, e, (before, s, after, same, h, hit, is)) ↦
          inr (d, rw miss e, (r ∷ before, s, after, ap (◌∷◌ r) same, (miss, h), hit, is))
    ]
  ]

  -- One more policy in front that is silent.
  FromPolicy-cons :
      (pol : Policy N) (ps : List (Policy N)) (d : Decision)
      → Silent pol
      → FromPolicy ps d
      → FromPolicy (pol ∷ ps) d
  FromPolicy-cons pol ps d quiet (before, p, after, same, silent, names, from) =
      (pol ∷ before, p, after, ap (◌∷◌ pol) same, (quiet, silent), names, from)

  abbrev Chosen : List (Policy N) → Decision → Type 0
  Chosen ps d = (All Silent ps × (d ≡ default_deny)) ⊎ FromPolicy ps d

  Chosen-cons :
      (pol : Policy N) (ps : List (Policy N)) (d : Decision)
      → Silent pol
      → Chosen ps d
      → Chosen (pol ∷ ps) d
  Chosen-cons pol ps d quiet (inl (silent, e)) = inl ((quiet, silent), e)
  Chosen-cons pol ps d quiet (inr from) = inr (FromPolicy-cons pol ps d quiet from)

  evaluate_policies-foreign :
      (pol : Policy N) (ps : List (Policy N))
      → match_agent pol.agent agent ≡ false
      → evaluate_policies ops agent tool params (pol ∷ ps)
        ≡ evaluate_policies ops agent tool params ps
  unfolding evaluate_policies
  evaluate_policies-foreign pol ps h = ground arith

  evaluate_policies-silent :
      (pol : Policy N) (ps : List (Policy N))
      → match_agent pol.agent agent ≡ true
      → evaluate_rules ops pol tool params pol.rules ≡ none
      → evaluate_policies ops agent tool params (pol ∷ ps)
        ≡ evaluate_policies ops agent tool params ps
  unfolding evaluate_policies
  evaluate_policies-silent pol ps h e = ground arith

  evaluate_policies-hit :
      (pol : Policy N) (ps : List (Policy N)) (d : Decision)
      → match_agent pol.agent agent ≡ true
      → evaluate_rules ops pol tool params pol.rules ≡ some d
      → evaluate_policies ops agent tool params (pol ∷ ps) ≡ d
  unfolding evaluate_policies
  evaluate_policies-hit pol ps d h e = ground arith

  evaluate_policies-Chosen :
      (ps : List (Policy N)) → Chosen ps (evaluate_policies ops agent tool params ps)
  evaluate_policies-Chosen [] = inl (tt, unfold evaluate_policies in refl)
  evaluate_policies-Chosen (pol ∷ ps) = elim (Bool-cases (match_agent pol.agent agent)) [
    | inr foreign ↦
        rw (evaluate_policies-foreign pol ps foreign)
          (Chosen-cons pol ps _ (inl foreign) (evaluate_policies-Chosen ps))
    | inl names ↦ elim (evaluate_rules-FromRule pol pol.rules) [
      | inl (e, h) ↦
          rw (evaluate_policies-silent pol ps names e)
            (Chosen-cons pol ps _ (inr h) (evaluate_policies-Chosen ps))
      | inr (d, e, from) ↦
          rw (evaluate_policies-hit pol ps d names e) (inr ([], pol, ps, refl, tt, names, from))
    ]
  ]

  -- Either no rule decides the call and it is denied by default, or the decision is that of the
  -- first rule, in the order of the engine's policies, that names the agent and the tool and whose
  -- condition holds.
  pub evaluate_first_match :
      (e : Engine N)
      → (All Silent e.policies × (evaluate ops e agent tool params ≡ default_deny))
        ⊎ FromPolicy e.policies (evaluate ops e agent tool params)
  unfolding evaluate
  evaluate_first_match e = evaluate_policies-Chosen e.policies
