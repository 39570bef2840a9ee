-- ===== src/Mcp/Calls.antt =====
-- `handleToolsCall` of mcp/server.go for a tool that is not virtual: the emergency stop, the tool, the
-- decision, and the ways to an approval. The JSON encoding of the arguments is `marshal`.
use flux7_mesh.Base.{
  is_empty, ℕ, ◌-◌, ◌+◌, Bool, ◌&&◌, Option, none, some, [], if◌then◌else◌, ltb, ◌==◌, Text, codes,
  is_some,
}
use flux7_mesh.Policy.Value.{FloatOps, Params}
use flux7_mesh.Policy.Engine.{allow, Decision}
use flux7_mesh.Registry.{Tool, resolve_tool}
use flux7_mesh.Approval.{approved, denied, Resolution, PendingApproval, submit_with_trace, claim}
use flux7_mesh.Approval
use flux7_mesh.Approval.Settled.{claim_approved, claim_denied, find_pending}
use flux7_mesh.Halt.{Halt}
use flux7_mesh.Trace.{Entry}
use flux7_mesh.Proxy.Mesh.{Printer, halt_for, record_halted}
use flux7_mesh.Proxy.Calls.{is_deny, needs_human}
use flux7_mesh.Mcp.{
  Server, Request, Reply, failed, stopped, refused, denied_by, denied_before, no_terminal, no_store,
  asks, blocks, briefly, crashed, ran, invalid_params, Backend, as_call, caller, entry_for, traced,
  retraced, approval_channel_action, decision_on, run_traced,
}
use flux7_mesh.Mcp.Resolution.{handle_resolution, with_approvals}

-- The time that a waiting approval has left.
abbrev pub time_left : ℕ → ℕ → ℕ → ℕ
time_left timeout now created_at = timeout + created_at - now

module _ {N : Type 0} where
  -- Past decisions approve the call, if there is a store of approvals.
  unfoldable pub lift_precedent : Request N → Server N → Decision → Decision
  lift_precedent q s d =
      if needs_human d.action && is_some s.mesh.approvals
      then elim q.precedent [
        | none ↦ d
        | some reason ↦ record { action = allow; rule = codes "supervisor:mem7"; reason = reason }
      ]
      else d

  -- The resolution that an approval claimed by its agent's retry stands for.
  abbrev pub settled_as_approved : PendingApproval N → Resolution N
  settled_as_approved pa = record {
    status = approved;
    resolved_by = pa.resolved_by;
    resolved_at = pa.resolved_at;
    reasoning = [];
    confidence = none;
  }

  -- The configured wait; the server's own comes first.
  abbrev pub wait_of : Server N → ℕ
  wait_of s = if s.approval_wait == 0 then s.store_wait else s.approval_wait

  -- A new approval: the supervisor's call blocks on it, another waits a little or is told to retry.
  unfoldable pub submit_call :
      Request N → Decision → Approval.Store N → Server N → Reply N × Server N
  unfolding traced entry_for submit_with_trace
  submit_call q d st s =
      let (pa, st') =
        submit_with_trace q.now q.approval_id s.agent_id q.name d.rule q.arguments [] q.trace_id
          st in
      let s' =
        traced q (record (entry_for q s (codes "human_approval") d.rule) { approval_id = pa.id })
          (with_approvals st' s) in
      (
        if s.supervisor_mode
            then blocks pa.id
            else if ltb 0 (wait_of s)
            then briefly pa.id
            else asks pa.id (time_left st.timeout q.now pa.created_at),
        s',
      )

module _ {N : Type 0} (forward : Backend N) where
  -- The terminal's answer settles the call.
  unfoldable pub settle_at_terminal :
      Request N → Decision → Tool → Bool → Text → Server N → Reply N × Server N
  unfolding traced entry_for retraced run_traced
  settle_at_terminal q d t approves by s =
      let noted = traced q (entry_for q s (codes "human_approval") d.rule) s in
      let mark =
        λ (status : Text) (e : Entry N). record e { approval_status = status; approved_by = by } in
      if approves
      then run_traced forward q t q.arguments s.agent_id q.trace_id
          (retraced q.trace_id (mark (codes "approved")) noted)
      else (denied_by by, retraced q.trace_id (mark (codes "denied")) noted)

  -- The call is allowed: it is forwarded, then recorded.
  unfoldable pub run_allowed : Request N → Decision → Tool → Server N → Reply N × Server N
  unfolding traced entry_for
  run_allowed q d t s =
      if s.with_handler
      then (let (status, err) = forward q t q.arguments s.agent_id in
          (
            ran t q.arguments s.agent_id err,
            traced q
                (record (entry_for q s (codes "allow") d.rule) {
                  status_code = status;
                  error = err;
                })
                s,
          ))
      else (crashed, s)

module _ {N : Type 0} (marshal : Params N → Option Text) where
  -- The retry of a denied call learns it once; the retry of a waiting one meets its approval.
  unfoldable pub queue_call :
      Request N → Decision → Approval.Store N → Server N → Reply N × Server N
  unfolding claim_denied find_pending submit_call
  queue_call q d st s =
      if s.supervisor_mode
      then submit_call q d st s
      else (let (refusal, st') =
            claim_denied marshal q.now s.agent_id q.name q.arguments st.timeout st in
          elim refusal [
            | some pa ↦ (
              denied_before (if is_empty pa.resolved_by then codes "a human" else pa.resolved_by)
                  pa.id,
              with_approvals st' s,
            )
            | none ↦ elim (find_pending marshal s.agent_id q.name q.arguments st) [
              | some pa ↦ (asks pa.id (time_left st.timeout q.now pa.created_at), s)
              | none ↦ submit_call q d st s
            ]
          ])

module _ {N : Type 0} (marshal : Params N → Option Text) (forward : Backend N) where
  -- The retry of an approved call runs on that approval.
  unfoldable pub use_approved :
      Request N → Decision → Approval.Store N → Server N → Option (Reply N × Server N)
  unfolding claim_approved handle_resolution traced entry_for
  use_approved q d st s =
      let (claimed, st') =
        claim_approved marshal q.now s.agent_id q.name q.arguments st.timeout st in
      elim claimed [
        | none ↦ none
        | some pa ↦ some (
            handle_resolution forward q (settled_as_approved pa) (
              traced q
                (record (entry_for q s (codes "human_approval") d.rule) { approval_id = pa.id })
                (with_approvals st' s)))
      ]

  -- The approval store, after the terminal.
  unfoldable pub ask_store : Request N → Decision → Server N → Reply N × Server N
  unfolding use_approved queue_call traced entry_for
  ask_store q d s = elim s.mesh.approvals [
    | none ↦ (no_store, traced q (entry_for q s (codes "human_approval") d.rule) s)
    | some st ↦ elim (if s.supervisor_mode then none else use_approved q d st s) [
      | some done ↦ done
      | none ↦ queue_call marshal q d st s
    ]
  ]

  -- The routes to an approval, by the configured channel.
  unfoldable pub ask_approval : Request N → Decision → Tool → Server N → Reply N × Server N
  unfolding approval_channel_action settle_at_terminal traced entry_for ask_store
  ask_approval q d t s =
      let (try_terminal, fail_closed) = approval_channel_action s.approval_channel in
      elim (if try_terminal then q.prompt else none) [
        | some (approves, by) ↦ settle_at_terminal forward q d t approves by s
        | none ↦
            if fail_closed
            then (
              no_terminal,
              traced q
                  (record (entry_for q s (codes "human_approval") d.rule) {
                    approval_status = codes "denied";
                    approved_by = codes "channel:tty-unavailable";
                  })
                  s,
            )
            else ask_store q d s
      ]

module _ {N : Type 0} (ops : FloatOps N) (marshal : Params N → Option Text)
    (forward : Backend N) where
  unfoldable pub decide_call : Request N → Tool → Server N → Reply N × Server N
  unfolding decision_on lift_precedent ask_approval run_allowed traced entry_for
  decide_call q t s =
      let d = decision_on ops s q.name q.arguments t in
      let lifted = lift_precedent q s d in
      if is_deny d.action
      then (refused d.reason, traced q (entry_for q s (codes "deny") d.rule) s)
      else if needs_human lifted.action
      then ask_approval marshal forward q lifted t s
      else run_allowed forward q lifted t s

module _ {N : Type 0} where
  -- `HaltFor`, of a server with a handler.
  unfoldable pub stop_for : Request N → Server N → Option Halt × Server N
  unfolding halt_for
  stop_for q s =
      if s.with_handler
      then (let (found, m) = halt_for q.now q.query s.agent_id s.session_id s.mesh in
          (found, record s { mesh = m }))
      else (none, s)

module _ {N : Type 0} (ops : FloatOps N) (show : Printer N) (marshal : Params N → Option Text)
    (forward : Backend N) where
  unfoldable pub call_registered : Request N → Server N → Reply N × Server N
  unfolding stop_for record_halted decide_call
  call_registered q s =
      let (found, s') = stop_for q s in
      elim found [
        | some h ↦ (
          stopped h,
          record s' {
            mesh = record_halted (as_call q s) (caller s) q.arguments (show.halt_text h) h s'.mesh;
          },
        )
        | none ↦ elim (resolve_tool q.name s'.mesh.registry) [
          | none ↦ (failed invalid_params, s')
          | some t ↦ decide_call ops marshal forward q t s'
        ]
      ]

-- The end of a call that blocked on its approval, or that waited a short time for it: `received` is
-- the resolution that came in time.
module _ {N : Type 0} (forward : Backend N) where
  unfoldable pub end_of_block : Request N → Resolution N → Server N → Reply N × Server N
  unfolding handle_resolution
  end_of_block q r s = handle_resolution forward q r s

  -- The approval is claimed, so that no retry runs it again.
  unfoldable pub end_of_wait :
      Request N
      → ℕ
      → PendingApproval N
      → Option (Resolution N)
      → Approval.Store N
      → Server N
      → Reply N × Server N
  unfolding claim handle_resolution
  end_of_wait q later pa received st s =
      let left : Reply N = asks pa.id (time_left st.timeout later pa.created_at) in
      elim received [
        | none ↦ (left, s)
        | some r ↦
            let (mine, st') = claim pa.id st in
            if mine then handle_resolution forward q r (with_approvals st' s) else (left, s)
      ]
