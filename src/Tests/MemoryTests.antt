-- ===== src/Tests/MemoryTests.antt =====
-- Past decisions at work: mem7 answers with a number of facts.
use flux7_mesh.Policy.Value.{end}
use flux7_mesh.Approval.Memory.Precedence.{
  try_auto_resolve_safe-some, try_auto_resolve-auto_resolve, carries, HasPrecedents, Answers,
}
use flux7_mesh.Tests.Samples.{bob, fs_read}
use flux7_mesh.Approval.Memory.{
  try_auto_resolve, try_auto_resolve_safe, subject, fact_of, Fact, Automation, may_approve,
  auto_resolve,
}
use flux7_mesh.Approval.{approved}
use flux7_mesh.Base.{
  text_eq, count, zero, suc, refl, inl, inr, true, false, none, some, [], List, Option, ℕ,
  Bool-cases, Text, codes, ◌≡◌, ◌∷◌,
}
use flux7_mesh.Approval
use flux7_mesh.Approval.Memory.{count_tags}

abbrev fact : Fact
fact = record {
  key = codes "decision.fs.read.1";
  value = codes "approved fs.read";
  tags = codes "decision" ∷ fs_read ∷ codes "approved" ∷ codes "by:human" ∷ codes "agent:bob" ∷ [];
}

abbrev answer : ℕ → Text
answer zero = []
answer (suc zero) = codes "1 memory:"
answer (suc (suc n)) = codes "2 memories:"

abbrev answers : List Fact → List Text → Option Text
answers facts tags = some (answer (count (carries tags) facts))

one-Answers : (f : Fact) → Answers (answers (f ∷ [])) (f ∷ [])
unfolding count_tags
one-Answers f tags = elim (Bool-cases (carries tags f)) [ inl a ↦ rw a refl | inr a ↦ rw a refl ]

two-Answers : (f g : Fact) → Answers (answers (f ∷ g ∷ [])) (f ∷ g ∷ [])
unfolding count_tags
two-Answers f g tags = elim (Bool-cases (carries tags f)) [
  | inl a ↦ elim (Bool-cases (carries tags g)) [ inl b ↦ rw (a, b) refl | inr b ↦ rw (a, b) refl ]
  | inr a ↦ elim (Bool-cases (carries tags g)) [ inl b ↦ rw (a, b) refl | inr b ↦ rw (a, b) refl ]
]

abbrev automation : Automation
automation = record {
  reader = some (record { url = codes "mem7"; min = 1 });
  writer_url = some (codes "mem7");
  auto_approve = true;
  auto_approvable = none;
}

abbrev granted : Approval.Resolution ℕ
granted = record {
  status = approved;
  resolved_by = codes "supervisor:mem7";
  resolved_at = 9;
  reasoning = codes "known";
  confidence = some 1;
}

abbrev granted_fact : Fact
granted_fact = fact_of (subject (codes "7") bob fs_read) granted

try_auto_resolve_safe-some_example :
    (automation.auto_approve ≡ true)
    × (may_approve automation fs_read ≡ true)
    × (false ≡ false)
    × HasPrecedents (answers (fact ∷ [])) automation.reader fs_read bob
unfolding try_auto_resolve_safe
try_auto_resolve_safe-some_example =
    try_auto_resolve_safe-some (answers (fact ∷ [])) (λ why. codes "known") 1 (λ params. false) 9
      (codes "7") bob fs_read end automation granted (some granted_fact) refl

try_auto_resolve-auto_resolve_example :
    auto_resolve (answers (granted_fact ∷ fact ∷ [])) automation.reader fs_read bob
    ≡ auto_resolve (answers (fact ∷ [])) automation.reader fs_read bob
unfolding text_eq try_auto_resolve
try_auto_resolve-auto_resolve_example =
    try_auto_resolve-auto_resolve (λ why. codes "known") 1 (answers (fact ∷ []))
      (answers (granted_fact ∷ fact ∷ [])) (fact ∷ []) 9 (codes "7") bob fs_read automation granted
      granted_fact (one-Answers fact) (two-Answers granted_fact fact) refl refl refl
      automation.reader fs_read bob
