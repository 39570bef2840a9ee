-- ===== src/Approval/Memory.antt =====
-- approval/memory.go, and `TryAutoResolve`, `TryAutoResolveSafe` and `Precedents` of approval/store.go:
-- approvals from past decisions. The mem7 server is a parameter: `list` answers the tags of a
-- `memory_list`, none for an error. Its texts, and the regular expression that reads a line of a
-- listing, are parameters too.
pub mod Precedence
pub mod Listing
use flux7_mesh.Base.{
  trim_space, contains, to_lower, ltb, leb, has_prefix, split, is_empty, text_eq, is_some, true,
  false, not, none, some, [], Bool, List, Option, ℕ, if◌then◌else◌, Text, codes, ◌+◌, ◌-◌, ◌*◌,
  ◌&&◌, ◌||◌, ◌∷◌, ◌++◌, ◌==◌,
}
use flux7_mesh.Policy.Value.{end, Params, text_lt}
use flux7_mesh.Approval.{Status, pending, approved, denied, timed_out, Resolution, PendingApproval}

-- The reader has a URL, and the human approvals that a precedent needs.
pub record Reader : Type 0 where
  pub url : Text
  pub min : ℕ

unfoldable pub new_reader : Text → ℕ → Reader
new_reader url min = record { url = url; min = if min == 0 then 3 else min }

unfoldable pub set_min_approvals : ℕ → Reader → Reader
set_min_approvals n m = if ltb 0 n then record m { min = n } else m

pub data Reason : Type 0 where
  no_server query_failed : Reason
  refusals too_few : ℕ → ℕ → Reason
  enough : ℕ → Reason

pub data AutoResult : Type 0 where
  approve escalate : Reason → AutoResult

unfoldable pub verdict_on : ℕ → ℕ → ℕ → AutoResult
verdict_on min granted refused =
    if ltb 0 refused
    then escalate (refusals granted refused)
    else if leb min granted
    then approve (enough granted)
    else escalate (too_few granted min)

abbrev pub is_digit : ℕ → Bool
is_digit c = leb b'0' c && leb c b'9'

-- The number that the text starts with, if it does, and the rest.
abbrev pub leading_number : ℕ → Text → ℕ × Text
leading_number n [] = (n, [])
leading_number n (c ∷ s) =
    let more = leading_number (n * 10 + (c - b'0')) s in if is_digit c then more else (n, c ∷ s)

-- A line of the form "3 memories:", by the regular expression `listCount`.
unfoldable pub count_line : Text → Option ℕ
count_line [] = none
count_line (c ∷ s) =
    let (n, rest) = leading_number 0 (c ∷ s) in
    if is_digit c && (has_prefix rest (codes " memory:") || has_prefix rest (codes " memories:"))
    then some n
    else none

abbrev pub first_count : List Text → Option ℕ
first_count [] = none
first_count (l ∷ ls) = elim (count_line l) [ some n ↦ some n | none ↦ first_count ls ]

abbrev pub max_int : ℕ
max_int = 9_223_372_036_854_775_807

-- The number of facts that an answer of mem7 reports, none if it says something else.
unfoldable pub read_count : Text → Option ℕ
unfolding count_line split contains trim_space
read_count answer = elim (first_count (split 10 answer)) [
  | some n ↦ if leb n max_int then some n else none
  | none ↦
      if contains answer (codes "No memories found") || is_empty (trim_space answer)
      then some 0
      else none
]

abbrev pub scope_of : Text → Text → List Text
scope_of tool agent =
    codes "decision" ∷ tool ∷ (if is_empty agent then [] else (codes "agent:" ++ agent) ∷ [])

module _ (list : List Text → Option Text) where
  unfoldable pub count_tags : List Text → Option ℕ
  unfolding read_count
  count_tags tags = elim (list tags) [ none ↦ none | some answer ↦ read_count answer ]

  unfoldable pub auto_resolve : Option Reader → Text → Text → AutoResult
  unfolding count_tags verdict_on
  auto_resolve none tool agent = escalate no_server
  auto_resolve (some m) tool agent =
      if is_empty m.url
      then escalate no_server
      else elim (count_tags (codes "approved" ∷ codes "by:human" ∷ scope_of tool agent)) [
        | none ↦ escalate query_failed
        | some granted ↦ elim (count_tags (codes "denied" ∷ scope_of tool agent)) [
          | none ↦ escalate query_failed
          | some refused ↦ verdict_on m.min granted refused
        ]
      ]

  -- The counts that `auto_resolve` decides on.
  unfoldable pub precedents : Option Reader → Text → Text → Option (ℕ × ℕ)
  unfolding count_tags
  precedents none tool agent = none
  precedents (some m) tool agent =
      if is_empty m.url
      then none
      else elim (count_tags (codes "approved" ∷ codes "by:human" ∷ scope_of tool agent)) [
        | none ↦ none
        | some granted ↦ elim (count_tags (codes "denied" ∷ scope_of tool agent)) [
          | none ↦ none
          | some refused ↦ some (granted, refused)
        ]
      ]

-- Who settled a decision.
unfoldable pub resolver_kind : Text → Text
unfolding text_eq has_prefix to_lower
resolver_kind resolver =
    let v = to_lower resolver in
    if text_eq v (codes "supervisor:mem7")
    then codes "mem7"
    else if has_prefix v (codes "supervisor:")
        || (has_prefix v (codes "auto:") || has_prefix v (codes "bot:"))
    then codes "supervisor"
    else if has_prefix v (codes "system:")
    then codes "system"
    else codes "human"

abbrev pub status_tag : Status → Text
status_tag pending = codes "pending"
status_tag approved = codes "approved"
status_tag denied = codes "denied"
status_tag timed_out = codes "timeout"

abbrev action_word : Status → Text
action_word denied = codes "rejected"
action_word timed_out = codes "timed out"
action_word st = codes "approved"

-- A fact as mem7 stores it.
pub record Fact : Type 0 where
  pub key : Text
  pub value : Text
  pub tags : List Text

module _ {N : Type 0} where
  -- `WriteDecision` of a writer with a URL. The dash of the text is U+2014.
  unfoldable pub fact_of : PendingApproval N → Resolution N → Fact
  unfolding resolver_kind
  fact_of pa r = record {
    key = codes "decision." ++ pa.tool ++ codes "." ++ pa.id;
    value =
        action_word r.status
        ++ codes " by "
        ++ r.resolved_by
        ++ codes " "
        ++ (226 ∷ 128 ∷ 148 ∷ [])
        ++ codes " agent:"
        ++ pa.agent_id
        ++ codes " tool:"
        ++ pa.tool
        ++ (if is_empty r.reasoning then [] else codes " reason:" ++ r.reasoning);
    tags =
        codes "decision"
        ∷ status_tag r.status
        ∷ pa.tool
        ∷ (codes "by:" ++ resolver_kind r.resolved_by)
        ∷ (if is_empty pa.agent_id then [] else (codes "agent:" ++ pa.agent_id) ∷ []);
  }

  unfoldable pub write_decision : Option Text → PendingApproval N → Resolution N → Option Fact
  unfolding fact_of
  write_decision none pa r = none
  write_decision (some url) pa r = if is_empty url then none else some (fact_of pa r)

-- What of the approval store decides on its own: its reader and the URL of its writer, whether
-- auto-approval is on, and which tools it is for, all if there is no such test.
pub record Automation : Type 0 where
  pub reader : Option Reader
  pub writer_url : Option Text
  pub auto_approve : Bool
  pub auto_approvable : Option (Text → Bool)

abbrev pub may_approve : Automation → Text → Bool
may_approve a tool = elim a.auto_approvable [ none ↦ true | some p ↦ p tool ]

module _ {N : Type 0} where
  -- The approval that stands for an automatic decision, of which nothing else is set.
  abbrev pub subject : Text → Text → Text → PendingApproval N
  subject id agent tool = record {
    id = id;
    agent_id = agent;
    tool = tool;
    params = end;
    policy_rule = [];
    trace_id = [];
    callback_url = [];
    status = pending;
    created_at = 0;
    resolved_by = [];
    resolved_at = 0;
    reasoning = [];
    confidence = none;
    result = [];
  }

module _ {N : Type 0} (list : List Text → Option Text) (reason_text : Reason → Text)
    (confident : N) where
  -- The resolution, and the fact that is written of it. The ID of the fact is random.
  unfoldable pub try_auto_resolve :
      ℕ → Text → Text → Text → Automation → Option (Resolution N × Option Fact)
  unfolding auto_resolve write_decision
  try_auto_resolve now id agent tool a =
      if not (is_some a.reader) then none else elim (auto_resolve list a.reader tool agent) [
        | escalate why ↦ none
        | approve why ↦
            let r : Resolution N = record {
              status = approved;
              resolved_by = codes "supervisor:mem7";
              resolved_at = now;
              reasoning = reason_text why;
              confidence = some confident;
            } in
            some (r, write_decision a.writer_url (subject id agent tool) r)
      ]

  -- `injected` is `DetectInjection`.
  unfoldable pub try_auto_resolve_safe :
      (Params N → Bool)
      → ℕ
      → Text
      → Text
      → Text
      → Params N
      → Automation
      → Option (Resolution N × Option Fact)
  unfolding try_auto_resolve
  try_auto_resolve_safe injected now id agent tool params a =
      if not a.auto_approve
      then none
      else if not (may_approve a tool)
      then none
      else if injected params
      then none
      else try_auto_resolve now id agent tool a
