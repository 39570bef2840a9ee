-- ===== src/Proxy/Admin.antt =====
-- The control plane of proxy/handler.go: `ServeHTTP`'s routes, the guard of `admin`, and the endpoints
-- of approvals and grants. net.ParseIP with IsLoopback and time.ParseDuration are parameters; of a
-- request the fields that these endpoints read are modelled.
use flux7_mesh.Identity.{trim_prefix}
use flux7_mesh.Base.{
  contains, has_suffix, has_prefix, text_eq, is_empty, refl, true, false, not, none, some, [], Bool,
  List, Option, ℕ, if◌then◌else◌, Text, codes, ◌≡◌, ◌&&◌, ◌||◌, ◌∷◌, ◌++◌, ◌==◌,
}
pub mod Guard
use flux7_mesh.Approval
use flux7_mesh.Approval.{Status, approved, denied, ResolveOpts, not_found, already_resolved}
use flux7_mesh.Grant.{Grant, Duration, Origin, add_with_origin, list_active, revoke}
use flux7_mesh.Proxy.Mesh.{Mesh}

pub data Route : Type 0 where
  decide tool_call list_tools mcp_servers health version mcp : Route
  tool_decisions pins_pending pins_accept policy_edit traces trace_verify trace_why otel_traces :
      Route
  list_approvals get_approval_settings put_approval_settings precedents forget_precedents : Route
  get_approval approve_action deny_action list_grants create_grant revoke_grant : Route
  list_halts create_halt resume_halt list_sessions session_events policies metrics : Route
  no_route : Route

abbrev is_get : Text → Text → Text → Bool
is_get method path want = text_eq method (codes "GET") && text_eq path want

abbrev is_post : Text → Text → Text → Bool
is_post method path want = text_eq method (codes "POST") && text_eq path want

abbrev starts : Text → Text → Text → Text → Bool
starts method want path prefix = text_eq method want && has_prefix path prefix

-- `mcp_on` says that the MCP endpoint is configured.
unfoldable pub route_of : Bool → Text → Text → Route
unfolding text_eq has_prefix has_suffix contains trim_prefix
route_of mcp_on method path =
    if is_post method path (codes "/decide")
    then decide
    else if starts method (codes "POST") path (codes "/tool/")
    then tool_call
    else if is_get method path (codes "/tools")
    then list_tools
    else if is_get method path (codes "/mcp-servers")
    then mcp_servers
    else if is_get method path (codes "/health")
    then health
    else if is_get method path (codes "/version")
    then version
    else if text_eq path (codes "/mcp") && mcp_on
    then mcp
    else if is_get method path (codes "/tools/decisions")
    then tool_decisions
    else if is_get method path (codes "/tools/pins")
    then pins_pending
    else if is_post method path (codes "/tools/pins/accept")
    then pins_accept
    else if starts method (codes "PUT") path (codes "/policies/")
    then policy_edit
    else if is_get method path (codes "/traces")
    then traces
    else if is_get method path (codes "/traces/verify")
    then trace_verify
    else if starts method (codes "GET") path (codes "/traces/") && has_suffix path (codes "/why")
    then trace_why
    else if is_get method path (codes "/otel-traces")
    then otel_traces
    else if is_get method path (codes "/approvals")
    then list_approvals
    else if is_get method path (codes "/approvals/settings")
    then get_approval_settings
    else if text_eq method (codes "PUT") && text_eq path (codes "/approvals/settings")
    then put_approval_settings
    else if is_get method path (codes "/approvals/precedents")
    then precedents
    else if is_post method path (codes "/approvals/precedents/forget")
    then forget_precedents
    else if starts method (codes "GET") path (codes "/approvals/")
        && not (contains (trim_prefix path (codes "/approvals/")) (codes "/"))
    then get_approval
    else if starts method (codes "POST") path (codes "/approvals/")
        && has_suffix path (codes "/approve")
    then approve_action
    else if starts method (codes "POST") path (codes "/approvals/")
        && has_suffix path (codes "/deny")
    then deny_action
    else if is_get method path (codes "/grants")
    then list_grants
    else if is_post method path (codes "/grants")
    then create_grant
    else if starts method (codes "DELETE") path (codes "/grants/")
    then revoke_grant
    else if is_get method path (codes "/halts")
    then list_halts
    else if is_post method path (codes "/halts")
    then create_halt
    else if starts method (codes "POST") path (codes "/halts/") && has_suffix path (codes "/resume")
    then resume_halt
    else if is_get method path (codes "/sessions")
    then list_sessions
    else if starts method (codes "GET") path (codes "/sessions/")
    then session_events
    else if is_get method path (codes "/policies")
    then policies
    else if is_get method path (codes "/metrics")
    then metrics
    else no_route

-- The routes that `admin` does not guard.
abbrev pub is_open : Route → Bool
is_open decide = true
is_open tool_call = true
is_open list_tools = true
is_open mcp_servers = true
is_open health = true
is_open version = true
is_open mcp = true
is_open no_route = true
is_open r = false

pub record GrantRequest : Type 0 where
  pub agent : Text
  pub tools : Text
  pub duration : Text
  pub approval_id : Text
  pub trace_id : Text

-- `grant` is the body as a request for a grant, none if it is no JSON; `resolve` is the body as a
-- resolution, whose fields are empty where it is none. The ID of a new grant is random.
pub record Request (N : Type 0) : Type 0 where
  pub now : ℕ
  pub method : Text
  pub path : Text
  pub remote : Text
  pub authorization : Text
  pub resolve : ResolveOpts N
  pub grant : Option GrantRequest
  pub grant_id : Text

abbrev pub first_part : Text → Text
first_part [] = []
first_part (c ∷ s) = if c == b'/' then [] else c ∷ first_part s

module _ {N : Type 0} where
  -- `handleResolveAction`; the answer is a status.
  unfoldable pub handle_resolve_action : Status → Request N → Mesh N → ℕ × Mesh N
  unfolding trim_prefix Approval.resolve
  handle_resolve_action status r m = elim m.approvals [
    | none ↦ (404, m)
    | some s ↦
        let id = first_part (trim_prefix r.path (codes "/approvals/")) in
        let by =
          if is_empty r.resolve.resolved_by
          then codes "http:" ++ r.remote
          else r.resolve.resolved_by in
        let (error, s') =
          Approval.resolve r.now id status (record r.resolve { resolved_by = by }) s in
        let m' = record m { approvals = some s' } in
        elim error [
          | none ↦ (200, m')
          | some not_found ↦ (404, m')
          | some already_resolved ↦ (409, m')
        ]
  ]

  unfoldable pub handle_list_grants : ℕ → Mesh N → List Grant
  unfolding list_active
  handle_list_grants now m = elim m.grants [ none ↦ [] | some gs ↦ list_active now gs ]

  unfoldable pub handle_revoke_grant : Request N → Mesh N → ℕ × Mesh N
  unfolding trim_prefix revoke
  handle_revoke_grant r m = elim m.grants [
    | none ↦ (404, m)
    | some gs ↦
        let (revoked, gs') = revoke (trim_prefix r.path (codes "/grants/")) gs in
        if revoked then (200, record m { grants = some gs' }) else (404, m)
  ]

module _ {N : Type 0} (parse_duration : Text → Option Duration) where
  unfoldable pub handle_create_grant : Request N → Mesh N → ℕ × Mesh N
  unfolding add_with_origin
  handle_create_grant r m = elim m.grants [
    | none ↦ (500, m)
    | some gs ↦ elim r.grant [
      | none ↦ (400, m)
      | some g ↦
          if is_empty g.agent || (is_empty g.tools || is_empty g.duration)
          then (400, m)
          else elim (parse_duration g.duration) [
            | none ↦ (400, m)
            | some d ↦ (
              201,
              record m {
                grants =
                    some
                      (add_with_origin r.now r.grant_id g.agent g.tools (codes "http:" ++ r.remote)
                        d (record { approval_id = g.approval_id; trace_id = g.trace_id }) gs).1;
              },
            )
          ]
    ]
  ]

module _ {N : Type 0} (is_loopback : Text → Bool) where
  -- Without a token, loopback callers alone are authorized; `subtleConstEq` compares texts.
  unfoldable pub admin_authorized : Text → Request N → Bool
  unfolding trim_prefix text_eq
  admin_authorized token r =
      if is_empty token
      then is_loopback r.remote
      else text_eq (trim_prefix r.authorization (codes "Bearer ")) token

module _ {N : Type 0} (is_loopback : Text → Bool) (parse_duration : Text → Option Duration)
    (others : Route → Request N → Mesh N → ℕ × Mesh N) where
  -- The endpoints of this file, and `others` for the rest.
  unfoldable pub endpoint : Route → Request N → Mesh N → ℕ × Mesh N
  unfolding handle_resolve_action handle_create_grant handle_revoke_grant
  endpoint approve_action r m = handle_resolve_action approved r m
  endpoint deny_action r m = handle_resolve_action denied r m
  endpoint create_grant r m = handle_create_grant parse_duration r m
  endpoint revoke_grant r m = handle_revoke_grant r m
  endpoint no_route r m = (404, m)
  endpoint route r m = others route r m

  unfoldable pub serve_http : Bool → Text → Request N → Mesh N → ℕ × Mesh N
  unfolding route_of admin_authorized endpoint
  serve_http mcp_on token r m =
      let route = route_of mcp_on r.method r.path in
      if is_open route || admin_authorized is_loopback token r then endpoint route r m else (401, m)
