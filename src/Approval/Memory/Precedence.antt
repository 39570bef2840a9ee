-- ===== src/Approval/Memory/Precedence.antt =====
-- What past decisions approve, and that automatic decisions are none of them.
use flux7_mesh.Approval.{approved, Resolution}
use flux7_mesh.Policy.Value.{Params}
use flux7_mesh.Base.{
  if◌then◌else◌, is_empty, sym, ap, ◌∙◌, to_lower, is_some, text_eq, count, any, refl, inl, inr,
  true, false, none, some, [], Bool, List, Option, ℕ, Bool-cases, Option-cases, Text, codes, ◌≤◌,
  ◌≡◌, ◌&&◌, ◌∷◌, arith,
}
use flux7_mesh.Approval.Memory.{
  query_failed, no_server, subject, resolver_kind, approve, escalate, may_approve, scope_of,
  fact_of, approve, write_decision, verdict_on, try_auto_resolve_safe, try_auto_resolve, precedents,
  Reason, count_tags, Reader, Fact, Automation, auto_resolve, AutoResult,
}

module _ (list : List Text → Option Text) where
  -- Enough human approvals of the tool and agent are known, and no refusal.
  abbrev pub HasPrecedents : Option Reader → Text → Text → Type 0
  HasPrecedents reader tool agent =
      (m : Reader) × (granted : ℕ) × (reader ≡ some m)
      × (precedents list reader tool agent ≡ some (granted, 0))
      × (m.min ≤ granted)

  auto_resolve_approves :
      (reader : Option Reader) (tool agent : Text) (why : Reason)
      → auto_resolve list reader tool agent ≡ approve why
      → HasPrecedents reader tool agent
  unfolding auto_resolve precedents verdict_on
  auto_resolve_approves none tool agent why h = absurd (ground arith)
  auto_resolve_approves (some m) tool agent why h =
      elim (Option-cases
        (count_tags list (codes "approved" ∷ codes "by:human" ∷ scope_of tool agent))) [
          | inl e ↦ absurd (ground arith)
          | inr (granted, e) ↦
              elim (Option-cases (count_tags list (codes "denied" ∷ scope_of tool agent))) [
                | inl f ↦ absurd (ground arith)
                | inr (refused, f) ↦ (m, granted, refl, ground arith, ground arith)
              ]
        ]

module _ {N : Type 0} (list : List Text → Option Text) (reason_text : Reason → Text)
    (confident : N) where
  -- A call is approved without a human only where auto-approval is on and allowed for the tool, no
  -- injection was found in the arguments, and mem7 knows enough human approvals of the tool for the
  -- agent and no refusal of it.
  pub try_auto_resolve_safe-some :
      (injected : Params N → Bool) (now : ℕ) (id agent tool : Text) (params : Params N)
      (a : Automation) (r : Resolution N) (f : Option Fact)
      → try_auto_resolve_safe list reason_text confident injected now id agent tool params a
        ≡ some (r, f)
      → (a.auto_approve ≡ true)
        × (may_approve a tool ≡ true)
        × (injected params ≡ false)
        × HasPrecedents list a.reader tool agent
  unfolding try_auto_resolve_safe try_auto_resolve
  try_auto_resolve_safe-some injected now id agent tool params a r f h =
      elim (Bool-cases (is_some a.reader)) [
        | inr off ↦ absurd (ground arith)
        | inl on ↦ by_result (auto_resolve list a.reader tool agent) refl
      ]
    where
      by_result :
          (result : AutoResult)
          → auto_resolve list a.reader tool agent ≡ result
          → (a.auto_approve ≡ true)
            × (may_approve a tool ≡ true)
            × (injected params ≡ false)
            × HasPrecedents list a.reader tool agent
      by_result (escalate why) e = absurd (ground arith)
      by_result (approve why) e =
          let known = auto_resolve_approves list a.reader tool agent why e in
          (ground arith, ground arith, ground arith, known)

-- All the tags are among those of the fact.
abbrev pub carries : List Text → Fact → Bool
carries [] f = true
carries (t ∷ ts) f = any (λ x. text_eq x t) f.tags && carries ts f

-- mem7 answers how many facts carry every tag.
abbrev pub Answers : (List Text → Option Text) → List Fact → Type 0
Answers list facts = (tags : List Text) → count_tags list tags ≡ some (count (carries tags) facts)

module _ {N : Type 0} where
  -- The fact of an automatic decision carries neither the tag of a human nor that of a refusal.
  automatic_tags :
      (id agent tool : Text) (r : Resolution N)
      → text_eq tool (codes "by:human") ≡ false
      → text_eq tool (codes "denied") ≡ false
      → r.status ≡ approved
      → r.resolved_by ≡ codes "supervisor:mem7"
      → (any (λ x. text_eq x (codes "by:human")) (fact_of (subject id agent tool) r).tags ≡ false)
        × (any (λ x. text_eq x (codes "denied")) (fact_of (subject id agent tool) r).tags ≡ false)
  unfolding fact_of text_eq resolver_kind to_lower
  automatic_tags id [] tool r human refusal final by = rw (final, by, human, refusal) (refl, refl)
  automatic_tags id (c ∷ agent) tool r human refusal final by =
      rw (final, by, human, refusal) (refl, refl)

-- What `auto_resolve` makes of the two answers.
abbrev on_counts : Reader → Option ℕ → Option ℕ → AutoResult
on_counts m first second = if is_empty m.url then escalate no_server else elim first [
  | none ↦ escalate query_failed
  | some granted ↦ elim second [
    | none ↦ escalate query_failed
    | some refused ↦ verdict_on m.min granted refused
  ]
]

module _ {N : Type 0} (reason_text : Reason → Text) (confident : N) where
  written :
      (list : List Text → Option Text) (now : ℕ) (id agent tool : Text) (a : Automation)
      (r : Resolution N) (f : Fact) (result : AutoResult)
      → auto_resolve list a.reader tool agent ≡ result
      → try_auto_resolve list reason_text confident now id agent tool a ≡ some (r, some f)
      → (r.status ≡ approved)
        × (r.resolved_by ≡ codes "supervisor:mem7")
        × (f ≡ fact_of (subject id agent tool) r)
  unfolding try_auto_resolve write_decision
  written list now id agent tool a r f (escalate why) e h = absurd (ground arith)
  written list now id agent tool a r f (approve why) e h = elim (Bool-cases (is_some a.reader)) [
    | inr off ↦ absurd (ground arith)
    | inl on ↦ elim (Option-cases a.writer_url) [
      | inl unset ↦ absurd (ground arith)
      | inr (url, set) ↦ elim (Bool-cases (is_empty url)) [
        | inl blank ↦ absurd (ground arith)
        | inr there ↦ ground arith
      ]
    ]
  ]

  count-one_more :
      (tags : List Text) (f : Fact) (facts : List Fact)
      → carries tags f ≡ false
      → count (carries tags) (f ∷ facts) ≡ count (carries tags) facts
  count-one_more tags f facts h = rw h refl

  -- An automatic decision is no precedent for the next one: after its fact is stored, mem7 decides on
  -- every tool and agent as before, if it answers with the number of facts that carry every tag. The
  -- tool that was approved must not be called "by:human" or "denied", as the name is a tag too.
  pub try_auto_resolve-auto_resolve :
      (list list' : List Text → Option Text) (facts : List Fact) (now : ℕ) (id agent tool : Text)
      (a : Automation) (r : Resolution N) (f : Fact)
      → Answers list facts
      → Answers list' (f ∷ facts)
      → text_eq tool (codes "by:human") ≡ false
      → text_eq tool (codes "denied") ≡ false
      → try_auto_resolve list reason_text confident now id agent tool a ≡ some (r, some f)
      → (reader : Option Reader) (tool' agent' : Text)
      → auto_resolve list' reader tool' agent' ≡ auto_resolve list reader tool' agent'
  unfolding auto_resolve
  try_auto_resolve-auto_resolve list list' facts now id agent tool a r f before after human refusal
        h none tool' agent' =
      refl
  try_auto_resolve-auto_resolve list list' facts now id agent tool a r f before after human refusal
        h (some m) tool' agent' =
      let (final, by, same) =
        written list now id agent tool a r f (auto_resolve list a.reader tool agent) refl h in
      let (no_human, no_refusal) = automatic_tags id agent tool r human refusal final by in
      let asked = codes "approved" ∷ codes "by:human" ∷ scope_of tool' agent' in
      let refused = codes "denied" ∷ scope_of tool' agent' in
      let not_asked : carries asked f ≡ false = rw same (ground arith) in
      let not_refused : carries refused f ≡ false = rw same (ground arith) in
      let first : count_tags list' asked ≡ count_tags list asked =
        after asked ∙ ap some (count-one_more asked f facts not_asked) ∙ sym (before asked) in
      let second : count_tags list' refused ≡ count_tags list refused =
        after refused
        ∙ ap some (count-one_more refused f facts not_refused)
        ∙ sym (before refused) in
      ap (λ o. on_counts m o (count_tags list' refused)) first
      ∙ ap (on_counts m (count_tags list asked)) second
