-- ===== src/Approval/Memory/Listing.antt =====
-- `ListPrecedents` and `ForgetPrecedents` of approval/memory.go and `Precedents` of approval/store.go:
-- what mem7 remembers, for each tool and agent. The regular expression `listLine` is the parameter
-- `parse_line`: the tool, the tags and the time of a line.
use flux7_mesh.Identity.{trim_prefix}
use flux7_mesh.Policy.Value.{text_lt}
use flux7_mesh.Base.{
  refl, has_prefix, lookup, count, trim_space, split, leb, is_empty, Map, text_eq, insert, suc, inl,
  inr, false, none, some, [], map, arith, Bool, List, Option, ℕ, Option-cases, if◌then◌else◌, Text,
  codes, ◌+◌, ◌≡◌, ◌&&◌, ◌||◌, ◌∷◌, ◌++◌, ◌==◌,
}
use flux7_mesh.Approval.Memory.{Automation, Reader, may_approve}

pub record Precedent : Type 0 where
  pub tool : Text
  pub agent : Text
  pub human_approved : ℕ
  pub other_approved : ℕ
  pub refused : ℕ
  pub untagged : ℕ
  pub last : Text

-- What the tags of a line say. The last tag of a kind counts.
pub record Tags : Type 0 where
  pub status : Text
  pub settled_by : Text
  pub agent : Text

unfoldable pub read_tags : Tags → List Text → Tags
unfolding trim_space trim_prefix has_prefix
read_tags seen [] = seen
read_tags seen (raw ∷ rest) =
    let tag = trim_space raw in
    let next : Tags =
      if text_eq tag (codes "approved")
        || (text_eq tag (codes "denied") || text_eq tag (codes "timeout"))
      then record seen { status = tag }
      else if has_prefix tag (codes "by:")
      then record seen { settled_by = trim_prefix tag (codes "by:") }
      else if has_prefix tag (codes "agent:")
      then record seen { agent = trim_prefix tag (codes "agent:") }
      else seen in
    read_tags next rest

-- One decision more.
unfoldable pub counted : Tags → Text → Precedent → Precedent
unfolding text_lt
counted tags at p =
    let p' : Precedent =
      if text_eq tags.status (codes "denied")
      then record p { refused = suc p.refused }
      else if text_eq tags.status (codes "approved") && text_eq tags.settled_by (codes "human")
      then record p { human_approved = suc p.human_approved }
      else if text_eq tags.status (codes "approved") && is_empty tags.settled_by
      then record p { untagged = suc p.untagged }
      else if text_eq tags.status (codes "approved")
      then record p { other_approved = suc p.other_approved }
      else p in
    if text_lt p.last at then record p' { last = at } else p'

abbrev new_precedent : Text → Text → Precedent
new_precedent tool agent = record {
  tool = tool;
  agent = agent;
  human_approved = 0;
  other_approved = 0;
  refused = 0;
  untagged = 0;
  last = [];
}

abbrev key_of : Text → Text → Text
key_of tool agent = tool ++ 0 ∷ agent

module _ (parse_line : Text → Option (Text × Text × Text)) where
  -- The lines of the listing, in the order in which a tool and agent are first seen.
  unfoldable pub group_lines : Map Precedent → List Text → Map Precedent
  unfolding trim_space read_tags counted split insert lookup
  group_lines m [] = m
  group_lines m (line ∷ lines) = elim (parse_line (trim_space line)) [
    | none ↦ group_lines m lines
    | some (tool, tags, at) ↦
        let seen =
          read_tags (record { status = []; settled_by = []; agent = [] }) (split b',' tags) in
        let key = key_of tool seen.agent in
        let p : Precedent = elim (lookup key m) [
          | none ↦ new_precedent tool seen.agent
          | some p ↦ p
        ] in
        group_lines (insert key (counted seen at p) m) lines
  ]

  -- `answer` is what mem7 lists, none for an error.
  unfoldable pub list_precedents : Option Text → Option Reader → Option (List Precedent)
  unfolding group_lines split
  list_precedents answer none = none
  list_precedents answer (some m) = if is_empty m.url then none else elim answer [
    | none ↦ none
    | some text ↦ some (map (λ e. e.1) (group_lines [] (split 10 text)))
  ]

  -- Each with whether the tool may be approved from precedents, and whether the next call would be.
  unfoldable pub judge_precedents :
      Option Text → Automation → Option (List (Precedent × Bool × Bool))
  unfolding list_precedents
  judge_precedents answer a = elim a.reader [
    | none ↦ none
    | some m ↦ elim (list_precedents answer a.reader) [
      | none ↦ none
      | some ps ↦ some (
          map
            (λ p. (
              p,
              may_approve a p.tool,
              may_approve a p.tool && (p.refused == 0 && leb m.min p.human_approved),
            ))
            ps)
    ]
  ]

-- The tags of the facts that mem7 is told to forget.
unfoldable pub forget_precedents : Option Reader → Text → Text → Option (List Text)
forget_precedents none tool agent = none
forget_precedents (some m) tool agent =
    if is_empty m.url
    then none
    else if is_empty tool || is_empty agent
    then none
    else some (codes "decision" ∷ tool ∷ (codes "agent:" ++ agent) ∷ [])

abbrev total : Precedent → ℕ
total p = p.human_approved + p.other_approved + p.refused + p.untagged

abbrev pub total_of : Map Precedent → ℕ
total_of [] = 0
total_of ((key, p) ∷ m) = total p + total_of m

-- The line reports an approval or a refusal.
abbrev pub is_decision : (Text → Option (Text × Text × Text)) → Text → Bool
is_decision parse_line line = elim (parse_line (trim_space line)) [
  | none ↦ false
  | some (tool, tags, at) ↦
      let seen =
        read_tags (record { status = []; settled_by = []; agent = [] }) (split b',' tags) in
      text_eq seen.status (codes "denied") || text_eq seen.status (codes "approved")
]

total-counted :
    (tags : Tags) (at : Text) (p : Precedent)
    → total (counted tags at p)
      ≡ total p
        + (if text_eq tags.status (codes "denied") || text_eq tags.status (codes "approved")
            then 1
            else 0)
unfolding counted
total-counted tags at p = ground arith

total_of-insert :
    (key : Text) (p : Precedent) (m : Map Precedent)
    → total_of (insert key p m) + (elim (lookup key m) [ none ↦ 0 | some q ↦ total q ])
      ≡ total_of m + total p
unfolding insert lookup
total_of-insert key p [] = omega arith
total_of-insert key p ((j, q) ∷ m) = ground (arith, total_of-insert key p m)

-- Every line of the listing that reports an approval or a refusal is counted once, in one column of
-- one tool and agent.
pub group_lines_total :
    (parse_line : Text → Option (Text × Text × Text)) (m : Map Precedent) (lines : List Text)
    → total_of (group_lines parse_line m lines) ≡ total_of m + count (is_decision parse_line) lines
unfolding group_lines
group_lines_total parse_line m [] = omega arith
group_lines_total parse_line m (line ∷ lines) = elim (Option-cases (parse_line (trim_space line))) [
  | inl e ↦ ground (arith, group_lines_total parse_line m lines)
  | inr ((tool, tags, at), e) ↦
      let seen =
        read_tags (record { status = []; settled_by = []; agent = [] }) (split b',' tags) in
      let key = key_of tool seen.agent in
      let p : Precedent = elim (lookup key m) [
        | none ↦ new_precedent tool seen.agent
        | some p ↦ p
      ] in
      let goes : group_lines parse_line m (line ∷ lines)
          ≡ group_lines parse_line (insert key (counted seen at p) m) lines =
        rw (group_lines, e) refl in
      let rest = group_lines_total parse_line (insert key (counted seen at p) m) lines in
      let one = total_of-insert key (counted seen at p) m in
      let more = total-counted seen at p in
      let before : (elim (lookup key m) as (λ o. ℕ) [ none ↦ 0 | some q ↦ total q ]) ≡ total p =
        elim (Option-cases (lookup key m)) [ inl f ↦ rw f refl | inr (q, f) ↦ rw f refl ] in
      let counts : count (is_decision parse_line) (line ∷ lines)
          ≡ (if text_eq seen.status (codes "denied") || text_eq seen.status (codes "approved")
              then 1
              else 0)
            + count (is_decision parse_line) lines =
        let here : is_decision parse_line line
            ≡ (text_eq seen.status (codes "denied") || text_eq seen.status (codes "approved")) =
          rw (is_decision, e) refl in
        rw here (ground arith) in
      rw goes (omega (arith, rest, one, more, before, counts))
]
