-- ===== src/Tests/PolicyTests.antt =====
-- Policies at work.
use flux7_mesh.Base.{ℕ, ◌≤◌, ◌≡◌, refl, ◌⊎◌, true, false, not, ◌&&◌, [], codes, All}
use flux7_mesh.Policy.Condition.{not_contains, evaluate_condition}
use flux7_mesh.Policy.Condition.Polarity.{is_evaluable, evaluate_condition-negation}
use flux7_mesh.Policy.Engine.{
  allow, Policy, Decision, default_deny, evaluate, explain, new_engine, match_agent,
}
use flux7_mesh.Policy.Engine.Selection.{Silent, FromPolicy, FromRule, evaluate_first_match}
use flux7_mesh.Policy.Engine.Order.{specificity, evaluate_most_specific}
use flux7_mesh.Policy.Engine.Explain.{IsForetold, evaluate-IsForetold}
use flux7_mesh.Tests.Samples.{ops, no_etc, etc_path, declared_policies, engine, bob, fs_read}

evaluate_condition-negation_example :
    (evaluate_condition ops (record no_etc { operator = not_contains }) etc_path
      ≡ (is_evaluable ops no_etc etc_path && not (evaluate_condition ops no_etc etc_path)))
    × ((evaluate_condition ops no_etc etc_path && not (is_evaluable ops no_etc etc_path)) ≡ false)
evaluate_condition-negation_example =
    evaluate_condition-negation ops no_etc not_contains etc_path refl

evaluate_first_match_example :
    (All (Silent ops bob fs_read etc_path) engine.policies
      × (evaluate ops engine bob fs_read etc_path ≡ default_deny))
    ⊎ FromPolicy ops bob fs_read etc_path engine.policies (evaluate ops engine bob fs_read etc_path)
evaluate_first_match_example = evaluate_first_match ops bob fs_read etc_path engine

evaluate_most_specific_example :
    ((evaluate ops (new_engine declared_policies) bob fs_read etc_path ≡ default_deny)
      × All (Silent ops bob fs_read etc_path) declared_policies)
    ⊎ ((pol : Policy ℕ) × (match_agent pol.agent bob ≡ true)
        × FromRule ops bob fs_read etc_path pol pol.rules
            (evaluate ops (new_engine declared_policies) bob fs_read etc_path)
        × All
            (λ p. Silent ops bob fs_read etc_path p ⊎ (specificity p ≤ specificity pol))
            declared_policies)
evaluate_most_specific_example = evaluate_most_specific ops bob fs_read etc_path declared_policies

evaluate-IsForetold_example :
    IsForetold ops bob fs_read etc_path
      (evaluate ops engine bob fs_read etc_path)
      (explain engine bob fs_read)
evaluate-IsForetold_example = evaluate-IsForetold ops bob fs_read etc_path engine

abbrev allowed : Decision
allowed = record { action = allow; rule = codes "everyone"; reason = [] }
