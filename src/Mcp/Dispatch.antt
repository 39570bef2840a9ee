-- ===== src/Mcp/Dispatch.antt =====
-- `handleToolsCall` of mcp/server.go: the virtual tools, of which those that change approvals and
-- grants are for supervisors, then the tools of the registry.
use flux7_mesh.Base.{Option, none, some, if◌then◌else◌, Text, codes, text_eq, is_empty}
use flux7_mesh.Policy.Value.{FloatOps, Params}
use flux7_mesh.Grant.{Duration}
use flux7_mesh.Proxy.Mesh.{Printer}
use flux7_mesh.Mcp.{
  Server, Request, Reply, failed, invalid_params, method_not_found, is_supervisor_agent, Backend,
}
use flux7_mesh.Mcp.Calls.{call_registered}
use flux7_mesh.Mcp.Catalog.{handle_catalog}
use flux7_mesh.Mcp.Governance.{
  handle_approval_resolve, handle_approval_pending, handle_grant_create, handle_grant_list,
  handle_grant_revoke,
}

pub data Virtual : Type 0 where
  approval_resolve approval_pending grant_create grant_list grant_revoke mesh_catalog : Virtual

-- The virtual tool that a name stands for.
unfoldable pub virtual_of : Text → Option Virtual
virtual_of name =
    if text_eq name (codes "approval.resolve")
    then some approval_resolve
    else if text_eq name (codes "approval.pending")
    then some approval_pending
    else if text_eq name (codes "grant.create")
    then some grant_create
    else if text_eq name (codes "grant.list")
    then some grant_list
    else if text_eq name (codes "grant.revoke")
    then some grant_revoke
    else if text_eq name (codes "mesh.catalog")
    then some mesh_catalog
    else none

module _ {N : Type 0} where
  abbrev pub for_supervisor : Server N → Reply N × Server N → Reply N × Server N
  for_supervisor s answer = if is_supervisor_agent s then answer else (failed method_not_found, s)

module _ {N : Type 0} (ops : FloatOps N) (show : Printer N) (marshal : Params N → Option Text)
    (parse_duration : Text → Option Duration) (forward : Backend N) where
  unfoldable pub call_virtual : Virtual → Request N → Server N → Reply N × Server N
  unfolding is_supervisor_agent handle_approval_resolve handle_approval_pending handle_grant_create
      handle_grant_list handle_grant_revoke handle_catalog
  call_virtual approval_resolve q s = for_supervisor s (handle_approval_resolve forward q s)
  call_virtual approval_pending q s = for_supervisor s (handle_approval_pending s, s)
  call_virtual grant_create q s = for_supervisor s (handle_grant_create parse_duration q s)
  call_virtual grant_list q s = (handle_grant_list q.now s, s)
  call_virtual grant_revoke q s = for_supervisor s (handle_grant_revoke q.arguments s)
  call_virtual mesh_catalog q s = (handle_catalog ops q.arguments s, s)

  unfoldable pub handle_tools_call : Request N → Server N → Reply N × Server N
  unfolding virtual_of call_virtual call_registered
  handle_tools_call q s =
      if is_empty q.name then (failed invalid_params, s) else elim (virtual_of q.name) [
        | some v ↦ call_virtual v q s
        | none ↦ call_registered ops show marshal forward q s
      ]
