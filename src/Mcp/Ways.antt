-- ===== src/Mcp/Ways.antt =====
-- Where a call over MCP that asks for an approval runs: the ways to the backend.
use flux7_mesh.Proxy.Completion.{updating}
use flux7_mesh.Base.{
  codes, ◌≡◌, ◌≢◌, refl, sym, ◌∙◌, ap, ◌⊎◌, inl, inr, true, false, Option, none, some, arith,
  if◌then◌else◌, Bool-cases, Option-cases, Text,
}
use flux7_mesh.Policy.Value.{Params}
use flux7_mesh.Policy.Engine.{Decision}
use flux7_mesh.Registry.{Registry, Tool, resolve_tool}
use flux7_mesh.Registry
use flux7_mesh.Approval.{Status, pending, approved, denied, timed_out, Resolution, PendingApproval}
use flux7_mesh.Approval
use flux7_mesh.Trace
use flux7_mesh.Approval.Settled.{claim_approved}
use flux7_mesh.Mcp.{
  retraced, entry_for, traced, Server, Request, Reply, ran, Backend, approval_channel_action,
  run_traced,
}
use flux7_mesh.Mcp.Resolution.{handle_resolution, with_approvals}
use flux7_mesh.Mcp.Calls.{
  settled_as_approved, submit_call, use_approved, queue_call, ask_store, settle_at_terminal,
  ask_approval,
}

module _ {N : Type 0} (forward : Backend N) where
  -- The reply says that the tool ran with the request's arguments for the caller.
  abbrev pub IsRunOf : Request N → Server N → Tool → Reply N → Type 0
  IsRunOf q s t reply = (err : Text) × (reply ≡ ran t q.arguments s.agent_id err)

  by_status :
      (q : Request N) (r : Resolution N) (s : Server N) (t : Tool) (args : Params N)
      (agent err : Text) (st : Status)
      → r.status ≡ st
      → (handle_resolution forward q r s).0 ≡ ran t args agent err
      → (st ≡ approved)
        × (Registry.get q.name s.mesh.registry ≡ some t)
        × (args ≡ q.arguments)
        × (agent ≡ s.agent_id)
  unfolding handle_resolution run_traced
  by_status q r s t args agent err pending e h = absurd (ground arith)
  by_status q r s t args agent err denied e h = absurd (ground arith)
  by_status q r s t args agent err timed_out e h = absurd (ground arith)
  by_status q r s t args agent err approved e h = ground arith

  -- A resolution changes the traces alone.
  pub handle_resolution-keeps :
      (q : Request N) (r : Resolution N) (s : Server N) (st : Status)
      → r.status ≡ st
      → (traces : Trace.Store N) × ((handle_resolution forward q r s).1
          ≡ record s { mesh = record s.mesh { traces = traces } })
  unfolding handle_resolution run_traced retraced updating
  handle_resolution-keeps q r s pending e =
      ((handle_resolution forward q r s).1.mesh.traces, rw (handle_resolution, e) refl)
  handle_resolution-keeps q r s denied e =
      ((handle_resolution forward q r s).1.mesh.traces, rw (handle_resolution, e) refl)
  handle_resolution-keeps q r s timed_out e =
      ((handle_resolution forward q r s).1.mesh.traces, rw (handle_resolution, e) refl)
  handle_resolution-keeps q r s approved e =
      elim (Option-cases (Registry.get q.name s.mesh.registry)) [
        | inl missing ↦ (
          (handle_resolution forward q r s).1.mesh.traces,
          rw (handle_resolution, e, missing) refl,
        )
        | inr (t, found) ↦ elim (Bool-cases s.with_handler) [
          | inl has ↦ (
            (handle_resolution forward q r s).1.mesh.traces,
            rw (handle_resolution, e, found, run_traced, has) refl,
          )
          | inr bare ↦ (
            (handle_resolution forward q r s).1.mesh.traces,
            rw (handle_resolution, e, found, run_traced, bare) refl,
          )
        ]
      ]

  -- What runs on a resolution was approved, and is the tool that has the name.
  pub handle_resolution_ran :
      (q : Request N) (r : Resolution N) (s : Server N) (t : Tool) (args : Params N)
      (agent err : Text)
      → (handle_resolution forward q r s).0 ≡ ran t args agent err
      → (r.status ≡ approved)
        × (Registry.get q.name s.mesh.registry ≡ some t)
        × (args ≡ q.arguments)
        × (agent ≡ s.agent_id)
  handle_resolution_ran q r s t args agent err h = by_status q r s t args agent err r.status refl h

module _ {N : Type 0} where
  submit_call_stops :
      (q : Request N) (d : Decision) (st : Approval.Store N) (s : Server N) (t : Tool)
      (args : Params N) (agent err : Text)
      → (submit_call q d st s).0 ≢ ran t args agent err
  unfolding submit_call
  submit_call_stops q d st s t args agent err h = ground arith

module _ {N : Type 0} (marshal : Params N → Option Text) where
  queue_call_stops :
      (q : Request N) (d : Decision) (st : Approval.Store N) (s : Server N) (t : Tool)
      (args : Params N) (agent err : Text)
      → (queue_call marshal q d st s).0 ≢ ran t args agent err
  unfolding queue_call
  queue_call_stops q d st s t args agent err h =
      ground (arith, submit_call_stops q d st s t args agent err)

module _ {N : Type 0} (marshal : Params N → Option Text) where
  -- An approval of exactly this call by its agent was approved, and no call has used it.
  abbrev pub HasApproval : Request N → Server N → Type 0
  HasApproval q s =
      (st : Approval.Store N) × (pa : PendingApproval N) × (s.mesh.approvals ≡ some st)
      × (s.supervisor_mode ≡ false)
      × ((claim_approved marshal q.now s.agent_id q.name q.arguments st.timeout st).0 ≡ some pa)

  use_approved_ran :
      (forward : Backend N) (q : Request N) (d : Decision) (st : Approval.Store N) (s : Server N)
      (t : Tool) (args : Params N) (agent err : Text) (done : Reply N × Server N)
      → use_approved marshal forward q d st s ≡ some done
      → done.0 ≡ ran t args agent err
      → ((pa : PendingApproval N) × ((claim_approved marshal q.now s.agent_id q.name q.arguments
              st.timeout st).0
            ≡ some pa))
        × (Registry.get q.name s.mesh.registry ≡ some t)
        × (args ≡ q.arguments)
        × (agent ≡ s.agent_id)
  unfolding use_approved traced
  use_approved_ran forward q d st s t args agent err done e h =
      let claiming = claim_approved marshal q.now s.agent_id q.name q.arguments st.timeout st in
      elim (Option-cases claiming.0) [
        | inl missing ↦
            let goes : use_approved marshal forward q d st s ≡ none =
              rw (use_approved, missing) refl in
            absurd (ground arith)
        | inr (pa, found) ↦
            let s' =
              traced q
                (record (entry_for q s (codes "human_approval") d.rule) { approval_id = pa.id })
                (with_approvals claiming.1 s) in
            let goes : use_approved marshal forward q d st s
                ≡ some (handle_resolution forward q (settled_as_approved pa) s') =
              rw (use_approved, found) refl in
            let same : handle_resolution forward q (settled_as_approved pa) s' ≡ done =
              ground arith in
            let (_, tool, args_same, agent_same) =
              handle_resolution_ran forward q (settled_as_approved pa) s' t args agent err
                (ap (λ x. x.0) same ∙ h) in
            ((pa, found), tool, args_same, agent_same)
      ]

  ask_store_ran :
      (forward : Backend N) (q : Request N) (d : Decision) (s : Server N) (t : Tool)
      (args : Params N) (agent err : Text)
      → (ask_store marshal forward q d s).0 ≡ ran t args agent err
      → HasApproval q s
        × (Registry.get q.name s.mesh.registry ≡ some t)
        × (args ≡ q.arguments)
        × (agent ≡ s.agent_id)
  unfolding ask_store
  ask_store_ran forward q d s t args agent err h = elim (Option-cases s.mesh.approvals) [
    | inl off ↦ absurd (ground arith)
    | inr (st, on) ↦ elim (Bool-cases s.supervisor_mode) [
      | inl blocking ↦ absurd (ground (arith, queue_call_stops marshal q d st s t args agent err))
      | inr free ↦ elim (Option-cases (use_approved marshal forward q d st s)) [
        | inl missing ↦ absurd (ground (arith, queue_call_stops marshal q d st s t args agent err))
        | inr (done, used) ↦
            let goes : (ask_store marshal forward q d s).0 ≡ done.0 = ground arith in
            let ((pa, found), tool, args_same, agent_same) =
              use_approved_ran forward q d st s t args agent err done used (sym goes ∙ h) in
            ((st, pa, on, free, found), tool, args_same, agent_same)
      ]
    ]
  ]

  -- The user approved the call at the terminal, which the channel allows to ask.
  abbrev pub IsApprovedAtTerminal : Request N → Server N → Type 0
  IsApprovedAtTerminal q s =
      (by : Text) × (q.prompt ≡ some (true, by))
      × ((approval_channel_action s.approval_channel).0 ≡ true)

  pub ask_approval_ran :
      (forward : Backend N) (q : Request N) (d : Decision) (u : Tool) (s : Server N) (t : Tool)
      (args : Params N) (agent err : Text)
      → (ask_approval marshal forward q d u s).0 ≡ ran t args agent err
      → (((IsApprovedAtTerminal q s) × (t ≡ u))
          ⊎ (HasApproval q s × (Registry.get q.name s.mesh.registry ≡ some t)))
        × (args ≡ q.arguments)
        × (agent ≡ s.agent_id)
  unfolding ask_approval settle_at_terminal run_traced
  ask_approval_ran forward q d u s t args agent err h =
      elim (Option-cases
        (if (approval_channel_action s.approval_channel).0 then q.prompt else none)) [
          | inl unanswered ↦ elim (Bool-cases (approval_channel_action s.approval_channel).1) [
            | inl closed ↦ absurd (ground arith)
            | inr falls ↦
                let goes : (ask_approval marshal forward q d u s).0
                    ≡ (ask_store marshal forward q d s).0 =
                  ground arith in
                let (has, tool, args_same, agent_same) =
                  ask_store_ran forward q d s t args agent err (sym goes ∙ h) in
                (inr (has, tool), args_same, agent_same)
          ]
          | inr ((approves, by), answered) ↦ ground arith
        ]
