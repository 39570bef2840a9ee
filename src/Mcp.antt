-- ===== src/Mcp.antt =====
-- mcp/server.go: the server that agents reach over MCP. This file has its state, a request of
-- `tools/call`, its reply, and what runs a tool. The server shares the stores of the proxy's handler,
-- as the commands set it up; `with_handler` is false for a server with no handler. One clock reading
-- serves for each request. Latencies, token counts and the texts of results are left out.
pub mod Resolution
pub mod Calls
pub mod Governance
pub mod Dispatch
pub mod Catalog
pub mod Ways
pub mod Clearance
pub mod Retry
pub mod Powers
pub mod Hidden
pub mod Sessions
use flux7_mesh.Base.{
  ℕ, Bool, true, false, Option, none, some, List, [], ◌∷◌, if◌then◌else◌, Text, codes, text_eq,
  is_empty,
}
use flux7_mesh.Match.{glob_any}
use flux7_mesh.Policy.Value.{FloatOps, Params, Value, str, get_field, obj}
use flux7_mesh.Policy.Engine.{Action, Decision, evaluate}
use flux7_mesh.Policy.Tighten.{tighten}
use flux7_mesh.Registry.{Tool, dispatch_floor}
use flux7_mesh.Halt.{Halt, Query}
use flux7_mesh.Trace.{Entry}
use flux7_mesh.Identity.{Identity}
use flux7_mesh.Proxy.Mesh.{Mesh, Call, entry_of, recording}
use flux7_mesh.Proxy.Floors.{apply_floors}
use flux7_mesh.Proxy.Floors
use flux7_mesh.Proxy.Completion.{updating, note_backend}

-- `store_wait` is what `Wait` of the approval store answers.
pub record Server (N : Type 0) : Type 0 where
  pub mesh : Mesh N
  pub with_handler : Bool
  pub agent_id : Text
  pub user_id : Text
  pub session_id : Text
  pub hide_denied : Bool
  pub supervisor_mode : Bool
  pub supervisor_agents : List Text
  pub approval_channel : Text
  pub approval_wait : ℕ
  pub store_wait : ℕ

-- A request of `tools/call`. `prompt` is what the terminal answers, none where there is none;
-- `precedent` is what `TryAutoResolveSafe` answers, and the IDs are random.
pub record Request (N : Type 0) : Type 0 where
  pub now : ℕ
  pub name : Text
  pub arguments : Params N
  pub trace_id : Text
  pub span_id : Text
  pub parent_span_id : Text
  pub approval_id : Text
  pub grant_id : Text
  pub query : Query
  pub precedent : Option Text
  pub prompt : Option (Bool × Text)

pub data RpcCode : Type 0 where
  invalid_params method_not_found internal_error server_error : RpcCode

pub record CatalogEntry : Type 0 where
  pub name : Text
  pub action : Action

pub record CatalogGroup : Type 0 where
  pub key : Text
  pub tools : List CatalogEntry

-- What a request ends in. `ran` has the tool, the agent that it ran for and the backend's error;
-- `blocks` and `briefly` wait for the resolution of an approval, the latter for a limited time.
pub data Reply (N : Type 0) : Type 0 where
  failed : RpcCode → Reply N
  stopped : Halt → Reply N
  refused : Text → Reply N
  denied_by : Text → Reply N
  denied_before : Text → Text → Reply N
  no_terminal no_store : Reply N
  asks : Text → ℕ → Reply N
  blocks briefly : Text → Reply N
  ran : Tool → Params N → Text → Text → Reply N
  gone : Text → Reply N
  timed_out unexpected crashed : Reply N
  cannot_resolve not_executed : Reply N
  listed : List Text → Reply N
  catalogued : List CatalogGroup → Reply N

-- `approvalChannelAction`: whether the terminal is asked, and whether nothing else may be.
unfoldable pub approval_channel_action : Text → Bool × Bool
approval_channel_action channel =
    if text_eq channel (codes "queue")
    then (false, false)
    else if text_eq channel (codes "tty")
    then (true, true)
    else (true, false)

module _ {N : Type 0} where
  unfoldable pub is_supervisor_agent : Server N → Bool
  is_supervisor_agent s = glob_any s.supervisor_agents s.agent_id

  abbrev text_of : Value N → Text
  text_of (str t) = t
  text_of _ = []

  -- `args[key].(string)`, empty for another type or a missing key.
  unfoldable pub text_arg : Text → Params N → Text
  unfolding get_field
  text_arg key args = text_of (get_field key args)

  -- The request as the handler's stores see it.
  abbrev pub as_call : Request N → Server N → Call N
  as_call q s = record {
    now = q.now;
    authorization = [];
    tool = q.name;
    session = s.session_id;
    trace_id = q.trace_id;
    span_id = q.span_id;
    parent_span_id = q.parent_span_id;
    callback_url = [];
    body = some q.arguments;
    approval_id = q.approval_id;
    query = q.query;
    precedent = q.precedent;
  }

  abbrev pub caller : Server N → Identity
  caller s = record { agent_id = s.agent_id; user_id = s.user_id }

  -- The trace entry of the request.
  unfoldable pub entry_for : Request N → Server N → Text → Text → Entry N
  unfolding entry_of
  entry_for q s policy rule = entry_of (as_call q s) (caller s) q.arguments policy rule

  unfoldable pub traced : Request N → Entry N → Server N → Server N
  unfolding recording
  traced q e s = record s { mesh = recording (as_call q s) e s.mesh }

  unfoldable pub retraced : Text → (Entry N → Entry N) → Server N → Server N
  unfolding updating
  retraced id change s = record s { mesh = updating id change s.mesh }

  unfoldable pub tool_floor : Server N → Tool → Action
  tool_floor s t =
      if s.with_handler then Floors.floor s.mesh.pins (some t) else dispatch_floor (some t)

  unfoldable pub apply_tool_floors : Server N → Decision → Tool → Decision
  apply_tool_floors s d t =
      if s.with_handler
      then apply_floors s.mesh.pins d (some t)
      else tighten d (dispatch_floor (some t))

module _ {N : Type 0} (ops : FloatOps N) where
  -- The decision on a call, before any approval.
  unfoldable pub decision_on : Server N → Text → Params N → Tool → Decision
  unfolding apply_tool_floors
  decision_on s name args t =
      apply_tool_floors s (evaluate ops s.mesh.engine s.agent_id name args) t

-- What the backend answers: a status and the text of an error.
abbrev pub Backend : Type 0 → Type 0
Backend N = Request N → Tool → Params N → Text → ℕ × Text

module _ {N : Type 0} (forward : Backend N) where
  -- `ForwardAs`, and its result in the trace of the call. A server with no handler crashes.
  unfoldable pub run_traced :
      Request N → Tool → Params N → Text → Text → Server N → Reply N × Server N
  unfolding retraced
  run_traced q t args agent trace s =
      if s.with_handler
      then (let (status, err) = forward q t args agent in
          (ran t args agent err, retraced trace (note_backend status err) s))
      else (crashed, s)
