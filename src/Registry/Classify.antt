-- ===== src/Registry/Classify.antt =====
-- registry/classify.go: the guess of what a tool does, from what its upstream declares.
pub mod Suggestion
use flux7_mesh.Identity.{trim_prefix}
use flux7_mesh.Policy.Engine.{human_approval, Action, allow}
use flux7_mesh.Base.{
  refl, inl, inr, Bool-cases, text_eq, any, is_empty, to_lower, to_upper, String, true, false, not,
  none, some, [], map, arith, Bool, List, Option, ℕ, if◌then◌else◌, Text, codes, ◌≡◌, ◌↔◌, ◌&&◌,
  ◌||◌, ◌∷◌, ◌++◌, ◌==◌,
}
use flux7_mesh.Registry.{Param, Annotations, Tool}

pub data Family : Type 0 where
  named generic : Family

pub data Access : Type 0 where
  read write unknown : Access

-- A signal that was used.
pub data Reason : Type 0 where
  dispatcher no_signal : Reason
  language_argument run_argument http_method annotation name_verb : Text → Reason

pub record Classification : Type 0 where
  pub family : Family
  pub access : Access
  pub reasons : List Reason

abbrev action_for : Family → Access → Action
action_for named read = allow
action_for _ _ = human_approval

unfoldable pub suggested_action : Classification → Action
suggested_action c = action_for c.family c.access

abbrev pub words : List String → List Text
words [] = []
words (w ∷ ws) = codes w ∷ words ws

abbrev pub read_verbs : List Text
read_verbs = words (
    "get" ∷ "list" ∷ "find" ∷ "search" ∷ "read" ∷ "describe" ∷ "show" ∷ "fetch" ∷ "query" ∷ "view"
    ∷ "lookup" ∷ "inspect" ∷ "info" ∷ "tree" ∷ "status" ∷ "whoami" ∷ "count" ∷ "stat" ∷ "logs"
    ∷ "recall" ∷ [])

abbrev pub write_verbs : List Text
write_verbs = words (
    "create" ∷ "update" ∷ "delete" ∷ "remove" ∷ "send" ∷ "write" ∷ "edit" ∷ "move" ∷ "set" ∷ "put"
    ∷ "post" ∷ "patch" ∷ "execute" ∷ "exec" ∷ "run" ∷ "deploy" ∷ "drop" ∷ "insert" ∷ "upload"
    ∷ "modify" ∷ "rename" ∷ "archive" ∷ "trash" ∷ "apply" ∷ "destroy" ∷ "kill" ∷ "stop" ∷ "start"
    ∷ "restart" ∷ "push" ∷ "publish" ∷ "forget" ∷ "store" ∷ "save" ∷ "mark" ∷ "recover" ∷ "cast"
    ∷ "approve" ∷ "deny" ∷ "revoke" ∷ "purge" ∷ "prune" ∷ "draft" ∷ [])

abbrev pub language_params : List Text
language_params =
    words
      ("code" ∷ "script" ∷ "sql" ∷ "command" ∷ "cmd" ∷ "statement" ∷ "program" ∷ "expression" ∷ [])

abbrev pub run_verbs : List Text
run_verbs = words ("execute" ∷ "exec" ∷ "run" ∷ "sql" ∷ [])

abbrev pub is_in : List Text → Text → Bool
is_in set w = any (λ x. text_eq x w) set

unfoldable pub has_any : List Text → List Text → Bool
has_any tokens set = any (is_in set) tokens

-- The text after its first dot, or all of it.
abbrev pub after_dot : Text → Option Text
after_dot [] = none
after_dot (c ∷ s) = if c == b'.' then some s else after_dot s

abbrev pub is_separator : ℕ → Bool
is_separator c = any (λ x. c == x) (b'_' ∷ b'-' ∷ b'.' ∷ b' ' ∷ b'/' ∷ [])

-- strings.FieldsFunc: the parts between separators that are not empty.
abbrev pub fields_of : Text → Text → List Text
fields_of cur [] = if is_empty cur then [] else cur ∷ []
fields_of cur (c ∷ s) =
    let closed = fields_of [] s in
    let longer = fields_of (cur ++ c ∷ []) s in
    if is_separator c then (if is_empty cur then closed else cur ∷ closed) else longer

-- The name without its namespace, in words.
unfoldable pub name_tokens : Tool → List Text
unfolding trim_prefix to_lower
name_tokens t =
    let name =
      if is_empty t.mcp_server
      then elim (after_dot t.name) [ none ↦ t.name | some s ↦ s ]
      else trim_prefix t.name (t.mcp_server ++ codes ".") in
    fields_of [] (to_lower name)

-- The signal that a parameter of type string gives of a generic tool.
unfoldable pub param_signal : List Text → Param → Option Reason
unfolding to_lower has_any
param_signal tokens p =
    let name = to_lower p.name in
    if not (is_empty p.param_type) && not (text_eq p.param_type (codes "string"))
    then none
    else if is_in language_params name
    then some (language_argument p.name)
    else if text_eq name (codes "query") && has_any tokens run_verbs
    then some (run_argument p.name)
    else none

unfoldable pub family_signals : List Text → List Param → List Reason
unfolding param_signal
family_signals tokens [] = []
family_signals tokens (p ∷ ps) =
    let rest = family_signals tokens ps in
    elim (param_signal tokens p) [ none ↦ rest | some r ↦ r ∷ rest ]

-- Signals of access: each is one of a write, of a read, or neither.
pub record Signal : Type 0 where
  pub writes : Bool
  pub reads : Bool
  pub reason : Reason

abbrev signal : Bool → Bool → Reason → Signal
signal w r reason = record { writes = w; reads = r; reason = reason }

unfoldable pub method_signals : Text → List Signal
unfolding to_upper
method_signals method =
    let m = to_upper method in
    if is_empty m
    then []
    else if is_in (words ("GET" ∷ "HEAD" ∷ "OPTIONS" ∷ [])) m
    then signal false true (http_method m) ∷ []
    else signal true false (http_method m) ∷ []

abbrev hint_signal : Option Bool → List Signal → List Signal → List Signal
hint_signal none yes_signals no_signals = []
hint_signal (some true) yes_signals no_signals = yes_signals
hint_signal (some false) yes_signals no_signals = no_signals

unfoldable pub annotation_signals : Option Annotations → List Signal
annotation_signals none = []
annotation_signals (some a) =
    hint_signal a.read_only (signal false true (annotation (codes "readOnlyHint=true")) ∷ [])
      (signal true false (annotation (codes "readOnlyHint=false")) ∷ [])
    ++ hint_signal a.destructive
        (signal true false (annotation (codes "destructiveHint=true")) ∷ []) []
    ++ hint_signal a.open_world
        (signal false false (annotation (codes "openWorldHint=true: reaches outside systems")) ∷ [])
        []

unfoldable pub verb_signals : List Text → List Signal
verb_signals [] = []
verb_signals (w ∷ ws) =
    let rest = verb_signals ws in
    if is_in write_verbs w
    then signal true false (name_verb w) ∷ rest
    else if is_in read_verbs w
    then signal false true (name_verb w) ∷ rest
    else rest

abbrev pub access_signals : Tool → List Signal
access_signals t =
    method_signals t.method ++ annotation_signals t.annotations ++ verb_signals (name_tokens t)

abbrev pub dispatch_signals : Tool → List Reason
dispatch_signals t = elim t.cli_meta [
  | none ↦ []
  | some m ↦ if m.is_catch_all then dispatcher ∷ [] else []
]

-- A signal of a write outweighs those of reads.
unfoldable pub classify : Option Tool → Classification
unfolding name_tokens family_signals method_signals annotation_signals verb_signals
classify none = record { family = named; access = unknown; reasons = [] }
classify (some t) =
    let generics = dispatch_signals t ++ family_signals (name_tokens t) t.params in
    let signals = access_signals t in
    let seen = generics ++ map (λ s. s.reason) signals in
    record {
      family = elim generics [ [] ↦ named | r ∷ rs ↦ generic ];
      access =
          if any (λ s. s.writes) signals
          then write
          else if any (λ s. s.reads) signals
          then read
          else unknown;
      reasons = if any (λ s. s.writes || s.reads) signals then seen else seen ++ no_signal ∷ [];
    }
