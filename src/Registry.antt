-- ===== src/Registry.antt =====
-- registry/registry.go, and `ResolveCLI` of registry/cli.go: the tools that were discovered. The
-- lock makes a call one step. Durations are nanoseconds; HTTP headers are left out.
pub mod Resolution
pub mod Classify
use flux7_mesh.Base.{
  ℕ, Bool, true, false, Option, none, some, List, [], ◌∷◌, ◌++◌, if◌then◌else◌, ◌==◌, Text, codes,
  text_eq, Map, lookup, insert, delete, map,
}
use flux7_mesh.Policy.Engine.{Action}
use flux7_mesh.Policy.Tighten.{no_floor}

-- `in` is a word of the language, so the place of a parameter is its `location`.
pub record Param : Type 0 where
  pub name : Text
  pub location : Text
  pub param_type : Text
  pub required : Bool
  pub raw_schema : Text

pub record Annotations : Type 0 where
  pub read_only : Option Bool
  pub destructive : Option Bool
  pub idempotent : Option Bool
  pub open_world : Option Bool

pub record CliToolMeta : Type 0 where
  pub bin : Text
  pub command : Text
  pub allowed_args : Option (List Text)
  pub timeout : ℕ
  pub working_dir : Text
  pub env : Map Text
  pub strict : Bool
  pub default_action : Action
  pub is_catch_all : Bool

pub record Tool : Type 0 where
  pub name : Text
  pub description : Text
  pub method : Text
  pub path : Text
  pub base_url : Text
  pub params : List Param
  pub source : Text
  pub mcp_server : Text
  pub cli_meta : Option CliToolMeta
  pub annotations : Option Annotations

-- The floor of the dynamic dispatcher of a CLI tool; no tool has no floor.
unfoldable pub dispatch_floor : Option Tool → Action
dispatch_floor none = no_floor
dispatch_floor (some t) = elim t.cli_meta [
  | none ↦ no_floor
  | some m ↦ if m.is_catch_all then m.default_action else no_floor
]

pub record Registry : Type 0 where
  pub tools : Map Tool

unfoldable pub get : Text → Registry → Option Tool
get name r = lookup name r.tools

unfoldable pub all_tools : Registry → List Tool
all_tools r = map (λ e. e.1) r.tools

unfoldable pub remove : Text → Registry → Registry
remove name r = record r { tools = delete name r.tools }

unfoldable pub load_manual : Tool → Registry → Registry
load_manual t r = record r { tools = insert t.name t r.tools }

-- The text before its last dot.
unfoldable pub before_last_dot : Text → Option Text
before_last_dot [] = none
before_last_dot (c ∷ s) = elim (before_last_dot s) [
  | some p ↦ some (c ∷ p)
  | none ↦ if c == b'.' then some [] else none
]

abbrev pub dispatcher_of : Text → Text
dispatcher_of prefix = prefix ++ codes ".__dispatch"

-- The fallback of `ResolveCLI`: the dispatcher of the name's prefix.
unfoldable pub find_dispatcher : Text → Registry → Option Tool
unfolding before_last_dot
find_dispatcher name r = elim (before_last_dot name) [
  | none ↦ none
  | some prefix ↦ lookup (dispatcher_of prefix) r.tools
]

unfoldable pub resolve_cli : Text → Registry → Option Tool
unfolding find_dispatcher
resolve_cli name r = elim (lookup name r.tools) [
  | none ↦ find_dispatcher name r
  | some t ↦ if text_eq t.source (codes "cli") then some t else find_dispatcher name r
]

-- How the call path finds a tool: by its name, then as a CLI tool.
unfoldable pub resolve_tool : Text → Registry → Option Tool
unfolding get resolve_cli
resolve_tool name r = elim (get name r) [ some t ↦ some t | none ↦ resolve_cli name r ]
