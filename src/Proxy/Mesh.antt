-- ===== src/Proxy/Mesh.antt =====
-- The state of `Handler` in proxy/handler.go, a request, and what is recorded of it. The texts that
-- errors print are the fields of `Printer`; a request has one clock reading. Latencies and token
-- counts are left out.
use flux7_mesh.Base.{ℕ, Bool, Option, none, some, [], ◌++◌, Text, codes}
use flux7_mesh.Policy.Value.{Params}
use flux7_mesh.Policy.Engine.{Engine}
use flux7_mesh.Registry.{Registry}
use flux7_mesh.Grant.{Grant}
use flux7_mesh.Grant
use flux7_mesh.Halt.{Halt, Query, match_halt}
use flux7_mesh.Halt
use flux7_mesh.RateLimit.{Limiter, Denial}
use flux7_mesh.Pin
use flux7_mesh.Approval
use flux7_mesh.Trace.{Entry, record_entry}
use flux7_mesh.Trace
use flux7_mesh.Identity.{Identity, AuthError, Validate, named, anonymous}

-- None for a store that is nil.
pub record Mesh (N : Type 0) : Type 0 where
  pub registry : Registry
  pub engine : Engine N
  pub pins : Option Pin.Store
  pub traces : Trace.Store N
  pub approvals : Option (Approval.Store N)
  pub limiter : Option Limiter
  pub grants : Option Grant.Store
  pub halts : Option Halt.Store
  pub validator : Option Validate
  pub allow_legacy : Bool
  pub require_auth : Bool

-- `body` is none if it is no JSON. `approval_id` is the random ID of a new approval, `query` what
-- the database of the halts answers, and `precedent` what `TryAutoResolveSafe` answers.
pub record Call (N : Type 0) : Type 0 where
  pub now : ℕ
  pub authorization : Text
  pub tool : Text
  pub session : Text
  pub trace_id : Text
  pub span_id : Text
  pub parent_span_id : Text
  pub callback_url : Text
  pub body : Option (Params N)
  pub approval_id : Text
  pub query : Query
  pub precedent : Option Text

pub record Printer (N : Type 0) : Type 0 where
  pub auth_text : AuthError → Text
  pub halt_text : Halt → Text
  pub denial_text : Denial → Text
  pub grant_text : Grant → Text
  pub params_text : Params N → Text

module _ {N : Type 0} where
  -- The entry that every branch of a handler starts from.
  unfoldable pub entry_of : Call N → Identity → Params N → Text → Text → Entry N
  entry_of c who params policy rule = record {
    trace_id = c.trace_id;
    session_id = c.session;
    agent_id = who.agent_id;
    user_id = who.user_id;
    tool = c.tool;
    params = params;
    policy = policy;
    policy_rule = rule;
    status_code = 0;
    error = [];
    timestamp = 0;
    grant_id = [];
    parent_trace_id = [];
    span_id = c.span_id;
    parent_span_id = c.parent_span_id;
    approval_id = [];
    approval_status = [];
    approved_by = [];
    supervisor_reasoning = [];
    supervisor_confidence = none;
    revision = 0;
  }

  unfoldable pub recording : Call N → Entry N → Mesh N → Mesh N
  recording c e m = record m { traces = record_entry c.now c.trace_id e m.traces }

  -- `RecordRefused`: the agent is anonymous, whatever name was claimed.
  unfoldable pub record_refused : Call N → Params N → Text → Text → ℕ → Mesh N → Mesh N
  unfolding recording
  record_refused c params rule reason status m =
      recording c
        (record (entry_of c (named anonymous) params (codes "deny") rule) {
          status_code = status;
          error = reason;
        })
        m

  -- `RecordHalted`.
  unfoldable pub record_halted : Call N → Identity → Params N → Text → Halt → Mesh N → Mesh N
  unfolding recording
  record_halted c who params message h m =
      recording c
        (record (entry_of c who params (codes "halted") (codes "halt:" ++ h.id)) {
          error = message;
        })
        m

  -- `HaltFor`: the stop that the call falls under. The store may read its database again.
  unfoldable pub halt_for : ℕ → Query → Text → Text → Mesh N → Option Halt × Mesh N
  halt_for now query agent session m = elim m.halts [
    | none ↦ (none, m)
    | some s ↦
        let (found, s') = match_halt now query agent session s in
        (found, record m { halts = some s' })
  ]
