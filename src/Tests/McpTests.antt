-- ===== src/Tests/McpTests.antt =====
-- Requests over MCP at work: agents that share the mesh of the other tests.
use flux7_mesh.Policy.Engine.{evaluate, Decision, human_approval}
use flux7_mesh.Policy.Tighten.{tighten}
use flux7_mesh.Pin.{status_floor}
use flux7_mesh.Match.{glob, glob_any}
use flux7_mesh.Proxy.Floors.{pin_status, apply_floors}
use flux7_mesh.Base.{
  contains, arith, ℕ, ◌≡◌, ◌≢◌, refl, true, false, none, some, [], ◌∷◌, Text, codes, text_eq,
  lookup,
}
use flux7_mesh.Policy.Value.{Params, end}
use flux7_mesh.Registry.{dispatch_floor, resolve_tool, Tool}
use flux7_mesh.Approval
use flux7_mesh.Approval.{find_key, PendingApproval, approved, is_claimed, mark_claimed, approve}
use flux7_mesh.Mcp.{Reply, is_supervisor_agent, Server, Request, ran, Backend}
use flux7_mesh.Mcp.Calls.{use_approved, call_registered, end_of_wait, stop_for}
use flux7_mesh.Mcp.Clearance.{IsCleared, call_registered_ran}
use flux7_mesh.Mcp.Retry.{end_of_wait-once, approve_pending_call-use_approved}
use flux7_mesh.Mcp.Governance.{approve_pending_call}
use flux7_mesh.Mcp.Powers.{IsPowerless, handle_tools_call-IsPowerless}
use flux7_mesh.Mcp.Dispatch.{handle_tools_call}
use flux7_mesh.Tests.Samples.{ops, bob, fs_read, tool_named}
use flux7_mesh.Tests.ApprovalTests.{marshal, two, first_id, ann_approves, settled_as, waiting_for}
use flux7_mesh.Tests.ProxyTests.{mesh, show}

abbrev pub server : Server ℕ
server = record {
  mesh = mesh;
  with_handler = true;
  agent_id = codes "ann";
  user_id = [];
  session_id = [];
  hide_denied = true;
  supervisor_mode = false;
  supervisor_agents = codes "sup" ∷ [];
  approval_channel = codes "queue";
  approval_wait = 0;
  store_wait = 2;
}

abbrev request : Text → Request ℕ
request name = record {
  now = 9;
  name = name;
  arguments = end;
  trace_id = codes "t2";
  span_id = [];
  parent_span_id = [];
  approval_id = codes "3";
  grant_id = codes "g";
  query = none;
  precedent = none;
  prompt = none;
}

abbrev backend : Backend ℕ
backend q t args agent = (200, [])

call_registered_ran_example :
    ((stop_for (request fs_read) server).0 ≡ none)
    × IsCleared ops marshal (request fs_read) (tool_named fs_read) server
    × (◌≡◌ {A = Params ℕ} end end)
    × (codes "ann" ≡ codes "ann")
unfolding call_registered resolve_tool lookup text_eq apply_floors status_floor pin_status tighten
    dispatch_floor evaluate glob glob_any contains
call_registered_ran_example =
    call_registered_ran ops show marshal backend (request fs_read) server (tool_named fs_read) end
      (codes "ann") [] refl

abbrev unlisted : Tool
unlisted = tool_named (codes "db.drop")

abbrev with_unlisted : Server ℕ
with_unlisted = record server {
  mesh = record mesh { registry = record { tools = (codes "db.drop", unlisted) ∷ [] } };
}

handle_tools_call-IsPowerless_example :
    IsPowerless
      (request (codes "grant.create"))
      server
      (handle_tools_call ops show marshal
        (λ d. none)
        backend
        (request (codes "grant.create"))
        server).1
unfolding is_supervisor_agent glob_any
handle_tools_call-IsPowerless_example =
    handle_tools_call-IsPowerless ops show marshal (λ d. none) backend
      (request (codes "grant.create")) server refl

end_of_wait-once_example :
    ((r : Approval.Resolution ℕ) × (some ann_approves ≡ some r) × (r.status ≡ approved))
    × (is_claimed first_id two ≡ false)
    × (is_claimed first_id (mark_claimed first_id two) ≡ true)
    × ((end_of_wait backend
          (request fs_read)
          11
          (settled_as approved first_id)
          (some ann_approves)
          (mark_claimed first_id two)
          server).0
        ≢ ran (tool_named fs_read) end (codes "ann") [])
unfolding lookup end_of_wait flux7_mesh.Registry.get text_eq
end_of_wait-once_example =
    end_of_wait-once backend (request fs_read) (request fs_read) 10 11
      (settled_as approved first_id) (settled_as approved first_id) (some ann_approves)
      (some ann_approves) two (mark_claimed first_id two) server server (tool_named fs_read)
      (tool_named fs_read) end end (codes "ann") (codes "ann") [] [] refl refl refl

abbrev one_waits : Approval.Store ℕ
one_waits = record two { entries = (first_id, waiting_for first_id) ∷ [] }

abbrev supervisor : Server ℕ
supervisor = record server { agent_id = codes "sup" }

abbrev by_bob : Server ℕ
by_bob = record server { agent_id = bob }

abbrev asks_human : Decision
asks_human = record { action = human_approval; rule = codes "r"; reason = [] }

approve_pending_call-use_approved_example :
    let st' = (approve 9 first_id (codes "mcp:sup") one_waits).1 in
    ((approve_pending_call backend
        (request (codes "approval.resolve"))
        first_id
        (waiting_for first_id)
        one_waits
        supervisor).1.mesh.approvals
      ≡ some st')
    × (is_claimed first_id st' ≡ false)
    × ((done : Reply ℕ × Server ℕ) × (use_approved marshal backend
            (request fs_read)
            asks_human
            st'
            by_bob
          ≡ some done)
        × ((again : Text) × (done.0 ≡ ran (tool_named fs_read) end bob again)))
unfolding lookup find_key text_eq approve_pending_call flux7_mesh.Registry.get
approve_pending_call-use_approved_example =
    approve_pending_call-use_approved marshal backend (request (codes "approval.resolve"))
      (request fs_read) first_id first_id (codes "args") (waiting_for first_id) one_waits supervisor
      by_bob (tool_named fs_read) (tool_named fs_read) end bob [] asks_human refl refl refl refl
      refl refl refl refl (omega arith) refl refl
