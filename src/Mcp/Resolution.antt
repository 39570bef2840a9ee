-- ===== src/Mcp/Resolution.antt =====
-- `handleResolution` of mcp/server.go, and the end of a call that waited for its approval.
use flux7_mesh.Base.{[], Text, none, some}
use flux7_mesh.Registry
use flux7_mesh.Approval.{
  Status, pending, approved, denied, timed_out, Resolution, PendingApproval, claim,
}
use flux7_mesh.Approval
use flux7_mesh.Proxy.Completion.{note_resolution}
use flux7_mesh.Mcp.{
  Server, Request, Reply, denied_by, gone, unexpected, asks, crashed, Backend, retraced, run_traced,
}
use flux7_mesh.Mcp

module _ {N : Type 0} where
  -- The request in a trace context that has the trace alone, as the backend is called.
  abbrev pub in_trace : Text → Request N → Request N
  in_trace trace q = record q { trace_id = trace; span_id = []; parent_span_id = [] }

module _ {N : Type 0} (forward : Backend N) where
  -- The tool is looked up by its name alone.
  unfoldable pub handle_resolution : Request N → Resolution N → Server N → Reply N × Server N
  unfolding retraced run_traced
  handle_resolution q r s =
      let noted = retraced q.trace_id (note_resolution r) s in
      elim r.status [
        | pending ↦ (unexpected, noted)
        | denied ↦ (denied_by r.reasoning, noted)
        | timed_out ↦ (Mcp.timed_out, noted)
        | approved ↦ elim (Registry.get q.name noted.mesh.registry) [
          | none ↦ (gone q.name, noted)
          | some t ↦
              run_traced forward (in_trace q.trace_id q) t q.arguments s.agent_id q.trace_id noted
        ]
      ]

module _ {N : Type 0} where
  abbrev pub with_approvals : Approval.Store N → Server N → Server N
  with_approvals st s = record s { mesh = record s.mesh { approvals = some st } }
