-- ===== src/Mcp/Governance.antt =====
-- The virtual tools of mcp/server.go that read or change approvals and grants:
-- `handleApprovalResolve`, `handleApprovalPending`, `handleGrantCreate`, `handleGrantList` and
-- `handleGrantRevoke`. `time.ParseDuration` is the parameter `parse_duration`.
use flux7_mesh.Base.{
  ℕ, ◌*◌, Bool, false, not, ◌&&◌, ◌||◌, Option, none, some, [], ◌∷◌, ◌++◌, map, if◌then◌else◌, ltb,
  Text, codes, text_eq, is_empty,
}
use flux7_mesh.Policy.Value.{Params}
use flux7_mesh.Registry
use flux7_mesh.Grant.{Grant, Duration, ahead, back, Origin, add_with_origin, revoke, list_active}
use flux7_mesh.Grant
use flux7_mesh.Approval.{
  Status, approved, denied, PendingApproval, ResolveError, approve, deny, list_pending,
}
use flux7_mesh.Approval
use flux7_mesh.Trace.{Entry}
use flux7_mesh.Proxy.Completion.{note_backend}
use flux7_mesh.Mcp.{
  Server, Request, Reply, failed, cannot_resolve, not_executed, gone, no_store, listed, crashed,
  ran, invalid_params, internal_error, server_error, text_arg, retraced, Backend,
}
use flux7_mesh.Mcp.Resolution.{in_trace, with_approvals}

abbrev pub max_grant_duration : ℕ
max_grant_duration = 24 * 3_600_000_000_000

abbrev pub is_too_long : Duration → Bool
is_too_long (ahead d) = ltb max_grant_duration d
is_too_long (back d) = false

module _ {N : Type 0} where
  abbrev pub resolver_of : Server N → Text
  resolver_of s = codes "mcp:" ++ s.agent_id

  -- The trace of the call that the approval is for, if it has one.
  abbrev pub retraced_for : PendingApproval N → (Entry N → Entry N) → Server N → Server N
  retraced_for pa change s = if is_empty pa.trace_id then s else retraced pa.trace_id change s

  abbrev pub note_settled : Text → Text → Entry N → Entry N
  note_settled status by e = record e { approval_status = status; approved_by = by }

  unfoldable pub deny_pending_call :
      ℕ → Text → PendingApproval N → Approval.Store N → Server N → Reply N × Server N
  unfolding deny retraced
  deny_pending_call now id pa st s =
      let (error, st') = deny now id (resolver_of s) st in
      let s' = with_approvals st' s in
      elim error [
        | some e ↦ (cannot_resolve, s')
        | none ↦ (not_executed, retraced_for pa (note_settled (codes "denied") (resolver_of s)) s')
      ]

  unfoldable pub handle_approval_pending : Server N → Reply N
  unfolding list_pending
  handle_approval_pending s = elim s.mesh.approvals [
    | none ↦ no_store
    | some st ↦ listed (map (λ pa. pa.id) (list_pending st))
  ]

  unfoldable pub handle_grant_list : ℕ → Server N → Reply N
  unfolding list_active
  handle_grant_list now s = elim (if s.with_handler then s.mesh.grants else none) [
    | none ↦ no_store
    | some gs ↦ listed (map (λ g. g.id) (list_active now gs))
  ]

  abbrev pub with_grants : Grant.Store → Server N → Server N
  with_grants gs s = record s { mesh = record s.mesh { grants = some gs } }

  -- `Revoke` takes an ID or a prefix of it.
  unfoldable pub handle_grant_revoke : Params N → Server N → Reply N × Server N
  unfolding text_arg revoke
  handle_grant_revoke args s = elim (if s.with_handler then s.mesh.grants else none) [
    | none ↦ (failed internal_error, s)
    | some gs ↦
        let id = text_arg (codes "id") args in
        let (revoked, gs') = revoke id gs in
        if is_empty id
        then (failed invalid_params, s)
        else if revoked
        then (listed (id ∷ []), with_grants gs' s)
        else (failed invalid_params, s)
  ]

module _ {N : Type 0} (forward : Backend N) where
  -- The approved call runs here, for the agent that asked.
  unfoldable pub replay : Request N → PendingApproval N → Server N → Reply N × Server N
  unfolding retraced
  replay q pa s = elim (Registry.get pa.tool s.mesh.registry) [
    | none ↦ (gone pa.tool, s)
    | some t ↦
        if s.with_handler
        then (let (status, err) = forward (in_trace [] q) t pa.params pa.agent_id in
            (
              ran t pa.params pa.agent_id err,
              retraced_for pa
                  (λ e. note_backend status err (note_settled (codes "approved") (resolver_of s) e))
                  s,
            ))
        else (crashed, s)
  ]

  unfoldable pub approve_pending_call :
      Request N → Text → PendingApproval N → Approval.Store N → Server N → Reply N × Server N
  unfolding approve replay
  approve_pending_call q id pa st s =
      let (error, st') = approve q.now id (resolver_of s) st in
      let s' = with_approvals st' s in
      elim error [ some e ↦ (cannot_resolve, s') | none ↦ replay q pa s' ]

  unfoldable pub handle_approval_resolve : Request N → Server N → Reply N × Server N
  unfolding text_arg deny_pending_call approve_pending_call
  handle_approval_resolve q s =
      let id = text_arg (codes "id") q.arguments in
      let decision = text_arg (codes "decision") q.arguments in
      let approves = text_eq decision (codes "approve") in
      if is_empty id
      then (failed invalid_params, s)
      else if not approves && not (text_eq decision (codes "deny"))
      then (failed invalid_params, s)
      else elim s.mesh.approvals [
        | none ↦ (failed server_error, s)
        | some st ↦ elim (Approval.get id st) [
          | none ↦ (failed invalid_params, s)
          | some pa ↦
              if approves
              then approve_pending_call q id pa st s
              else deny_pending_call q.now id pa st s
        ]
      ]

module _ {N : Type 0} (parse_duration : Text → Option Duration) where
  -- A grant for the agent named, or for the caller.
  unfoldable pub handle_grant_create : Request N → Server N → Reply N × Server N
  unfolding text_arg add_with_origin
  handle_grant_create q s = elim (if s.with_handler then s.mesh.grants else none) [
    | none ↦ (failed internal_error, s)
    | some gs ↦
        let tools = text_arg (codes "tools") q.arguments in
        let duration = text_arg (codes "duration") q.arguments in
        let named = text_arg (codes "agent") q.arguments in
        if is_empty tools || is_empty duration
        then (failed invalid_params, s)
        else elim (parse_duration duration) [
          | none ↦ (failed invalid_params, s)
          | some d ↦
              let (g, gs') =
                add_with_origin q.now q.grant_id (if is_empty named then s.agent_id else named)
                  tools (resolver_of s) d
                  (record {
                    approval_id = text_arg (codes "approval_id") q.arguments;
                    trace_id = text_arg (codes "trace_id") q.arguments;
                  })
                  gs in
              if is_too_long d
              then (failed invalid_params, s)
              else (listed (g.id ∷ []), with_grants gs' s)
        ]
  ]
