-- ===== src/Mcp/Catalog.antt =====
-- `handleToolsList`, `deniedOnly` and `handleCatalog` of mcp/server.go: what an agent sees of the
-- tools. The schemas and descriptions of the tools and the programs behind them are left out.
use flux7_mesh.Base.{
  ◌||◌, Bool, true, not, ◌&&◌, Option, none, some, List, [], ◌∷◌, ◌++◌, map, keep, if◌then◌else◌,
  ◌==◌, Text, codes, text_eq, is_empty, to_lower,
}
use flux7_mesh.Policy.Value.{FloatOps, Params, end, text_lt}
use flux7_mesh.Policy.Engine.{allow, Action, ConditionalRule, explain}
use flux7_mesh.Policy.Tighten.{tighten}
use flux7_mesh.Registry.{Tool, all_tools}
use flux7_mesh.Proxy.Calls.{is_deny}
use flux7_mesh.Mcp.{
  Server, Reply, catalogued, CatalogEntry, CatalogGroup, text_arg, tool_floor, decision_on,
  is_supervisor_agent,
}

-- The action that a rule's action ends in, below the floor.
abbrev pub final_action : Action → Action → Action
final_action least act = (tighten (record { action = act; rule = []; reason = [] }) least).action

-- The loop of `deniedOnly` over the conditional rules.
unfoldable pub all_denied : Action → List ConditionalRule → Bool
unfolding tighten
all_denied least [] = true
all_denied least (c ∷ cs) = is_deny (final_action least c.action) && all_denied least cs

module _ {N : Type 0} where
  unfoldable pub denied_only : Server N → Tool → Bool
  unfolding tool_floor explain all_denied
  denied_only s t =
      let foretold = explain s.mesh.engine s.agent_id t.name in
      let least = tool_floor s t in
      s.hide_denied
      && (is_deny (final_action least foretold.action) && all_denied least foretold.conditional)

  -- The names that `tools/list` answers with.
  unfoldable pub handle_tools_list : Server N → List Text
  unfolding denied_only all_tools is_supervisor_agent
  handle_tools_list s =
      let for_operators = λ (names : List Text). if is_supervisor_agent s then names else [] in
      map (λ t. t.name) (keep (λ t. not (denied_only s t)) (all_tools s.mesh.registry))
      ++ for_operators (codes "approval.resolve" ∷ codes "approval.pending" ∷ [])
      ++ (codes "grant.list" ∷ [])
      ++ for_operators (codes "grant.create" ∷ codes "grant.revoke" ∷ [])
      ++ (codes "mesh.catalog" ∷ [])

unfoldable pub before_dot : Text → Option Text
before_dot [] = none
before_dot (c ∷ s) =
    let rest = before_dot s in
    if c == b'.' then some [] else elim rest [ none ↦ none | some p ↦ some (c ∷ p) ]

-- The group of a tool in the catalogue.
unfoldable pub group_of : Tool → Text
unfolding before_dot
group_of t =
    if text_eq t.source (codes "mcp")
    then t.mcp_server
    else if text_eq t.source (codes "cli")
    then elim (before_dot t.name) [ none ↦ t.name | some [] ↦ t.name | some (c ∷ p) ↦ c ∷ p ]
    else codes "openapi"

-- A tool in its group, the groups by their keys and the tools by their names.
unfoldable pub add_tool : CatalogEntry → List CatalogEntry → List CatalogEntry
unfolding text_lt
add_tool e [] = e ∷ []
add_tool e (f ∷ fs) =
    let later = f ∷ add_tool e fs in if text_lt f.name e.name then later else e ∷ f ∷ fs

unfoldable pub add_to_group : Text → CatalogEntry → List CatalogGroup → List CatalogGroup
unfolding add_tool text_lt
add_to_group key e [] = record { key = key; tools = e ∷ [] } ∷ []
add_to_group key e (g ∷ gs) =
    let later = g ∷ add_to_group key e gs in
    if text_eq g.key key
    then record g { tools = add_tool e g.tools } ∷ gs
    else if text_lt g.key key
    then later
    else record { key = key; tools = e ∷ [] } ∷ g ∷ gs

module _ {N : Type 0} (ops : FloatOps N) where
  -- Each tool with the decision on a call of it that has no arguments.
  unfoldable pub catalog : Text → Server N → List Tool → List CatalogGroup
  unfolding group_of decision_on add_to_group
  catalog wanted s [] = []
  catalog wanted s (t ∷ ts) =
      let rest = catalog wanted s ts in
      if not (is_empty wanted) && not (text_eq (to_lower (group_of t)) wanted)
      then rest
      else add_to_group (group_of t)
          (record { name = t.name; action = (decision_on ops s t.name end t).action }) rest

abbrev virtual_entry : Text → CatalogEntry
virtual_entry name = record { name = name; action = allow }

-- The group of the virtual tools, in the place of a group of that name.
abbrev virtual_group : CatalogGroup
virtual_group = record {
  key = codes "mesh";
  tools =
      virtual_entry (codes "approval.pending")
      ∷ virtual_entry (codes "approval.resolve")
      ∷ virtual_entry (codes "grant.create")
      ∷ virtual_entry (codes "grant.list")
      ∷ virtual_entry (codes "grant.revoke")
      ∷ virtual_entry (codes "mesh.catalog")
      ∷ [];
}

unfoldable pub put_group : CatalogGroup → List CatalogGroup → List CatalogGroup
unfolding text_lt
put_group v [] = v ∷ []
put_group v (g ∷ gs) =
    let later = g ∷ put_group v gs in
    if text_eq g.key v.key then v ∷ gs else if text_lt g.key v.key then later else v ∷ g ∷ gs

module _ {N : Type 0} (ops : FloatOps N) where
  unfoldable pub handle_catalog : Params N → Server N → Reply N
  unfolding text_arg catalog all_tools put_group
  handle_catalog args s =
      let wanted = to_lower (text_arg (codes "source") args) in
      let groups = catalog ops wanted s (all_tools s.mesh.registry) in
      catalogued (
        if is_empty wanted || text_eq wanted (codes "mesh")
        then put_group virtual_group groups
        else groups)
