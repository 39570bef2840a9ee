-- ===== src/Registry/Resolution.antt =====
-- Which tool a name stands for.
use flux7_mesh.Base.{◌≡◌, refl, false, none, some, [], ◌∷◌, ◌++◌, arith, ◌==◌, Text, lookup, All}
use flux7_mesh.Registry.{
  Registry, get, before_last_dot, dispatcher_of, find_dispatcher, resolve_cli, resolve_tool,
}

-- No dot in the text.
abbrev pub HasNoDot : Text → Type 0
HasNoDot s = All (λ c. (c == b'.') ≡ false) s

before_last_dot-none : (s : Text) → HasNoDot s → before_last_dot s ≡ none
unfolding before_last_dot
before_last_dot-none [] h = refl
before_last_dot-none (c ∷ s) h = ground (arith, before_last_dot-none s)

before_last_dot-append : (p s : Text) → HasNoDot s → before_last_dot (p ++ b'.' ∷ s) ≡ some p
unfolding before_last_dot
before_last_dot-append [] s h = ground (arith, before_last_dot-none s)
before_last_dot-append (c ∷ p) s h = ground (arith, before_last_dot-append p s)

-- A name that is registered stands for its own tool. A name that is not, `cli.command` with no dot
-- in the command, stands for the dispatcher of `cli`, if there is one: an undeclared command has
-- the dispatcher's floor.
pub resolve_tool_dispatch :
    (cli command : Text) (r : Registry)
    → HasNoDot command
    → resolve_tool (cli ++ b'.' ∷ command) r ≡ elim (lookup (cli ++ b'.' ∷ command) r.tools) [
      | some t ↦ some t
      | none ↦ lookup (dispatcher_of cli) r.tools
    ]
unfolding resolve_tool get resolve_cli find_dispatcher
resolve_tool_dispatch cli command r h = ground (arith, before_last_dot-append cli command h)
