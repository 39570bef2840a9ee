-- ===== src/Pin.antt =====
-- pin/pin.go: fingerprints of the tools that an upstream MCP server declares, trusted on first use.
-- The JSON encoding and SHA-256 are the parameter `hash`; which database writes fail is an argument
-- of the calls that write. Pins are loaded from the database before the first call.
pub mod FirstUse
pub mod Changes
use flux7_mesh.Base.{
  ℕ, Bool, true, false, not, ◌&&◌, Option, none, some, List, [], ◌∷◌, ◌++◌, if◌then◌else◌, Text,
  text_eq, is_some, keep, Map, lookup, insert,
}
use flux7_mesh.Policy.Value.{text_lt}
use flux7_mesh.Policy.Engine.{Action, human_approval, deny}
use flux7_mesh.Policy.Tighten.{no_floor}
use flux7_mesh.Registry.{Param, Annotations, Tool}

-- `unseen` is the empty status, of a tool that pinning does not cover.
pub data Status : Type 0 where
  pinned new changed unseen : Status

-- The least permissive action that a status tolerates.
unfoldable pub status_floor : Status → Action
status_floor new = deny
status_floor changed = human_approval
status_floor _ = no_floor

pub record Entry : Type 0 where
  pub fingerprint : Text
  pub description : Text
  pub pinned_at : ℕ

pub record View : Type 0 where
  pub tool : Text
  pub server : Text
  pub status : Status
  pub pinned : Text
  pub current : Text
  pub pinned_at : ℕ
  pub fingerprint : Text

pub record Store : Type 0 where
  pub pins : Map Entry
  pub servers : Map Bool
  pub current : Map View

-- What is hashed of a parameter and of a tool.
pub record HashedParam : Type 0 where
  pub name : Text
  pub param_type : Text
  pub required : Bool
  pub schema : Text

pub record Declared : Type 0 where
  pub description : Text
  pub params : List HashedParam
  pub annotations : Option Annotations

abbrev pub hashed_param : Param → HashedParam
hashed_param p = record {
  name = p.name;
  param_type = p.param_type;
  required = p.required;
  schema = p.raw_schema;
}

unfoldable pub add_param : HashedParam → List HashedParam → List HashedParam
add_param p [] = p ∷ []
add_param p (q ∷ qs) = if text_lt q.name p.name then q ∷ add_param p qs else p ∷ q ∷ qs

-- The parameters by name.
unfoldable pub sort_params : List Param → List HashedParam
unfolding add_param
sort_params [] = []
sort_params (p ∷ ps) = add_param (hashed_param p) (sort_params ps)

unfoldable pub declared : Tool → Declared
unfolding sort_params
declared t = record {
  description = t.description;
  params = sort_params t.params;
  annotations = t.annotations;
}

abbrev pub new_store : Store
new_store = record { pins = []; servers = []; current = [] }

abbrev pub knows : Text → Store → Bool
knows server s = is_some (lookup server s.servers)

-- `pinLocked` when its write succeeds.
unfoldable pub pin_locked : ℕ → Text → Text → Text → Text → Store → Store
pin_locked now server tool fp description s = record s {
  pins =
      insert tool (record { fingerprint = fp; description = description; pinned_at = now }) s.pins;
  servers = insert server true s.servers;
}

abbrev pub view_of : Text → Tool → Text → Status → Text → ℕ → View
view_of server t fp status was at = record {
  tool = t.name;
  server = server;
  status = status;
  pinned = was;
  current = t.description;
  pinned_at = at;
  fingerprint = fp;
}

-- The tool against its pin, if it has one.
unfoldable pub compare_pin : Text → Tool → Text → Option Entry → View
compare_pin server t fp none = view_of server t fp new [] 0
compare_pin server t fp (some e) =
    if text_eq e.fingerprint fp
    then view_of server t fp pinned [] e.pinned_at
    else view_of server t fp changed e.description e.pinned_at

module _ (hash : Declared → Text) where
  unfoldable pub fingerprint : Tool → Text
  unfolding declared
  fingerprint t = hash (declared t)

  abbrev pub see : Text → Tool → Store → Store
  see server t s = record s {
    current = insert t.name (compare_pin server t (fingerprint t) (lookup t.name s.pins)) s.current;
  }

  -- The loop of `Observe`; the tool whose write failed ends it.
  unfoldable pub observe_tools :
      ℕ → (Text → Bool) → Bool → Text → List Tool → Store → Option Text × Store
  unfolding pin_locked compare_pin
  observe_tools now db_fails first_sight server [] s = (none, s)
  observe_tools now db_fails first_sight server (t ∷ ts) s =
      let trusted = pin_locked now server t.name (fingerprint t) t.description s in
      let onward = observe_tools now db_fails first_sight server ts (see server t trusted) in
      let compared = observe_tools now db_fails first_sight server ts (see server t s) in
      if first_sight then if db_fails t.name then (some t.name, s) else onward else compared

  unfoldable pub observe : ℕ → (Text → Bool) → Text → List Tool → Store → Option Text × Store
  unfolding observe_tools
  observe now db_fails server tools s =
      observe_tools now db_fails (not (knows server s)) server tools s

unfoldable pub status_of : Text → Store → Status
status_of tool s = elim (lookup tool s.current) [ none ↦ unseen | some v ↦ v.status ]

unfoldable pub floor : Text → Store → Action
unfolding status_floor status_of
floor tool s = status_floor (status_of tool s)

abbrev is_pinned : Status → Bool
is_pinned pinned = true
is_pinned _ = false

abbrev add_view : View → List View → List View
add_view v [] = v ∷ []
add_view v (w ∷ ws) = if text_lt w.tool v.tool then w ∷ add_view v ws else v ∷ w ∷ ws

-- The tools that are new or changed, by name.
unfoldable pub pending_views : Map View → List View
pending_views [] = []
pending_views ((k, v) ∷ m) =
    if is_pinned v.status then pending_views m else add_view v (pending_views m)

unfoldable pub pending : Store → List View
unfolding pending_views
pending s = pending_views s.current

pub data AcceptError : Type 0 where
  not_loaded : Text → AcceptError
  pin_failed : Text → AcceptError

-- The views as they were, the error that ended the loop, and the store.
unfoldable pub accept :
    ℕ → (Text → Bool) → List Text → List View → Store → List View × Option AcceptError × Store
unfolding pin_locked
accept now db_fails [] before s = (before, none, s)
accept now db_fails (name ∷ names) before s = elim (lookup name s.current) [
  | none ↦ (before, some (not_loaded name), s)
  | some v ↦ elim (db_fails name) [
    | true ↦ (before, some (pin_failed name), s)
    | false ↦
        let s' = pin_locked now v.server name v.fingerprint v.current s in
        let v' = record v { status = pinned; pinned = []; pinned_at = now } in
        accept now db_fails names (before ++ v ∷ [])
          (record s' { current = insert name v' s'.current })
  ]
]
