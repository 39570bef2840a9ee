-- ===== src/Policy/Engine/Order.antt =====
-- The order in which the engine keeps its policies.
use flux7_mesh.Base.{
  ℕ, ◌≤◌, ◌≡◌, refl, ◌⊎◌, inl, inr, true, List, [], ◌∷◌, ◌++◌, arith, ltb, ◌==◌, Bool-cases, Text,
  All, keep,
}
use mathlib.Core.List.{Perm}
use mathlib.Core.List.Perm
use flux7_mesh.Policy.Value.{FloatOps, Params}
use flux7_mesh.Policy.Engine.{
  Policy, agent_specificity, add_policy, sort_policies, new_engine, match_agent, default_deny,
  evaluate,
}
use flux7_mesh.Policy.Engine.Selection.{Silent, FromRule, evaluate_first_match}

module _ {N : Type 0} where
  abbrev pub specificity : Policy N → ℕ
  specificity p = agent_specificity p.agent

  -- No policy of the list is more specific than `n`.
  abbrev pub AtMost : ℕ → List (Policy N) → Type 0
  AtMost n ps = All (λ p. specificity p ≤ n) ps

  -- The more specific policies come first.
  abbrev pub IsRanked : List (Policy N) → Type 0
  IsRanked [] = Unit
  IsRanked (p ∷ ps) = AtMost (specificity p) ps × IsRanked ps

  abbrev pub of_rank : ℕ → List (Policy N) → List (Policy N)
  of_rank k = keep (λ p. specificity p == k)

  AtMost-mono : (m n : ℕ) (ps : List (Policy N)) → m ≤ n → AtMost m ps → AtMost n ps
  AtMost-mono m n [] h a = tt
  AtMost-mono m n (p ∷ ps) h a = (omega arith, AtMost-mono m n ps h a.1)

  add_policy-AtMost :
      (n : ℕ) (p : Policy N) (ps : List (Policy N))
      → specificity p ≤ n
      → AtMost n ps
      → AtMost n (add_policy p ps)
  unfolding add_policy
  add_policy-AtMost n p [] h a = (h, tt)
  add_policy-AtMost n p (q ∷ qs) h a = ground (arith, add_policy-AtMost n p qs h a.1)

  add_policy-IsRanked :
      (p : Policy N) (ps : List (Policy N)) → IsRanked ps → IsRanked (add_policy p ps)
  unfolding add_policy
  add_policy-IsRanked p [] r = (tt, tt)
  add_policy-IsRanked p (q ∷ qs) r = ground (
    arith,
    add_policy-IsRanked p qs r.1,
    add_policy-AtMost (specificity q) p qs,
    AtMost-mono (specificity q) (specificity p) qs,
  )

  sort_policies-IsRanked : (ps : List (Policy N)) → IsRanked (sort_policies ps)
  unfolding sort_policies
  sort_policies-IsRanked [] = tt
  sort_policies-IsRanked (p ∷ ps) =
      add_policy-IsRanked p (sort_policies ps) (sort_policies-IsRanked ps)

  add_policy-perm : (p : Policy N) (ps : List (Policy N)) → Perm (add_policy p ps) (p ∷ ps)
  unfolding add_policy
  add_policy-perm p [] = Perm.refl _
  add_policy-perm p (q ∷ qs) = elim (Bool-cases (ltb (specificity p) (specificity q))) [
    | inl less ↦ rw less (Perm.trans (Perm.cons q (add_policy-perm p qs)) (Perm.swap p q qs))
    | inr more ↦ rw more (Perm.refl _)
  ]

  sort_policies-perm : (ps : List (Policy N)) → Perm (sort_policies ps) ps
  unfolding sort_policies
  sort_policies-perm [] = Perm.refl _
  sort_policies-perm (p ∷ ps) =
      Perm.trans (add_policy-perm p (sort_policies ps)) (Perm.cons p (sort_policies-perm ps))

  add_policy-of_rank :
      (k : ℕ) (p : Policy N) (ps : List (Policy N))
      → of_rank k (add_policy p ps) ≡ of_rank k (p ∷ ps)
  unfolding add_policy
  add_policy-of_rank k p [] = refl
  add_policy-of_rank k p (q ∷ qs) = ground (arith, add_policy-of_rank k p qs)

  sort_policies-of_rank :
      (k : ℕ) (ps : List (Policy N)) → of_rank k (sort_policies ps) ≡ of_rank k ps
  unfolding sort_policies
  sort_policies-of_rank k [] = refl
  sort_policies-of_rank k (p ∷ ps) =
      ground (arith, add_policy-of_rank k p (sort_policies ps), sort_policies-of_rank k ps)

  -- A new engine holds the given policies, the more specific ones first; policies of one
  -- specificity keep their order.
  pub new_engine_order :
      (ps : List (Policy N))
      → Perm (new_engine ps).policies ps
        × IsRanked (new_engine ps).policies
        × ((k : ℕ) → of_rank k (new_engine ps).policies ≡ of_rank k ps)
  unfolding new_engine
  new_engine_order ps =
      (sort_policies-perm ps, sort_policies-IsRanked ps, λ k. sort_policies-of_rank k ps)

  IsRanked-after :
      (before : List (Policy N)) (p : Policy N) (after : List (Policy N))
      → IsRanked (before ++ p ∷ after)
      → AtMost (specificity p) after
  IsRanked-after [] p after r = r.0
  IsRanked-after (q ∷ qs) p after r = IsRanked-after qs p after r.1

  All-add_policy :
      (P : Policy N → Type 0) (p : Policy N) (ps : List (Policy N))
      → All P (add_policy p ps)
      → P p × All P ps
  unfolding add_policy
  All-add_policy P p [] h = h
  All-add_policy P p (q ∷ qs) h = ground (arith, All-add_policy P p qs)

  All-sort_policies :
      (P : Policy N → Type 0) (ps : List (Policy N)) → All P (sort_policies ps) → All P ps
  unfolding sort_policies
  All-sort_policies P [] h = tt
  All-sort_policies P (p ∷ ps) h =
      let both = All-add_policy P p (sort_policies ps) h in (both.0, All-sort_policies P ps both.1)

  All-new_engine :
      (P : Policy N → Type 0) (ps : List (Policy N)) → All P (new_engine ps).policies → All P ps
  unfolding new_engine
  All-new_engine P ps h = All-sort_policies P ps h

  All-append :
      (P : Policy N → Type 0) (xs ys : List (Policy N)) → All P xs → All P ys → All P (xs ++ ys)
  All-append P [] ys hx hy = hy
  All-append P (x ∷ xs) ys hx hy = (hx.0, All-append P xs ys hx.1 hy)

  All-mono :
      (P Q : Policy N → Type 0) (ps : List (Policy N))
      → ((p : Policy N) → P p → Q p)
      → All P ps
      → All Q ps
  All-mono P Q [] f h = tt
  All-mono P Q (p ∷ ps) f h = (f p h.0, All-mono P Q ps f h.1)

module _ {N : Type 0} (ops : FloatOps N) (agent tool : Text) (params : Params N) where
  -- Whatever order the policies are declared in, the call is decided by a policy that no other
  -- policy with a rule for the call exceeds in specificity: a policy that is more specific than the
  -- one that decides is silent.
  pub evaluate_most_specific :
      (ps : List (Policy N))
      → ((evaluate ops (new_engine ps) agent tool params ≡ default_deny)
          × All (Silent ops agent tool params) ps)
        ⊎ ((pol : Policy N) × (match_agent pol.agent agent ≡ true)
            × FromRule ops agent tool params pol pol.rules
                (evaluate ops (new_engine ps) agent tool params)
            × All (λ p. Silent ops agent tool params p ⊎ (specificity p ≤ specificity pol)) ps)
  evaluate_most_specific ps = elim (evaluate_first_match ops agent tool params (new_engine ps)) [
    | inl (silent, e) ↦ inl (e, All-new_engine _ ps silent)
    | inr (before, pol, after, same, silent, names, from) ↦ inr (
      pol,
      names,
      from,
      All-new_engine _ ps (
          rw same (
            All-append _ before (pol ∷ after) (All-mono _ _ before (λ p q. inl q) silent) (
              inr (omega arith),
              All-mono _ _ after (λ p q. inr q)
                  (IsRanked-after before pol after (rw same at (new_engine_order ps).1)),
            ))),
    )
  ]
