-- ===== src/Mcp/Powers.antt =====
-- What the agents that are no supervisors can change over MCP.
use flux7_mesh.Mcp.Clearance.{stop_for-keeps}
use flux7_mesh.Grant.{Duration}
use flux7_mesh.Approval.Settled.{
  is_claimable, find_pending, find_entry, claim_denied, claim_approved, claim_settled,
}
use flux7_mesh.Mcp.Ways.{handle_resolution-keeps}
use flux7_mesh.Policy.Value.{FloatOps, Params}
use flux7_mesh.Policy.Engine.{Decision}
use flux7_mesh.Registry.{resolve_tool, Tool}
use flux7_mesh.Proxy.Mesh.{record_halted, Printer, recording}
use flux7_mesh.Mcp.Resolution.{with_approvals, handle_resolution}
use flux7_mesh.Proxy.Completion.{updating}
use flux7_mesh.Approval.{approved, denied, Status, PendingApproval, submit_with_trace, Resolution}
use flux7_mesh.Mcp.Calls.{
  stop_for, lift_precedent, run_allowed, call_registered, decide_call, settled_as_approved,
  use_approved, settle_at_terminal, queue_call, ask_store, ask_approval, submit_call,
}
use flux7_mesh.Approval
use flux7_mesh.Base.{
  is_empty, codes, ℕ, lookup-insert, Option, none, some, [], ap, ◌∙◌, Bool-cases, Option-cases, inl,
  inr, arith, lookup, false, text_eq, Map, Text, ◌≡◌, refl,
}
use flux7_mesh.Mcp.{
  decision_on, is_supervisor_agent, Reply, entry_for, traced, retraced, run_traced, Backend, Server,
  Request,
}
use flux7_mesh.Mcp.Dispatch.{
  approval_resolve, approval_pending, grant_create, grant_list, grant_revoke, mesh_catalog,
  virtual_of, Virtual, call_virtual, handle_tools_call,
}

module _ {N : Type 0} where
  abbrev pub entries_of : Server N → Map (PendingApproval N)
  entries_of s = elim s.mesh.approvals [ none ↦ [] | some st ↦ st.entries ]

  -- The grants stay, and so does every approval but the new one.
  abbrev pub IsPowerless : Request N → Server N → Server N → Type 0
  IsPowerless q s s' =
      (s'.mesh.grants ≡ s.mesh.grants)
      × ((id : Text)
          → text_eq q.approval_id id ≡ false
          → lookup id (entries_of s') ≡ lookup id (entries_of s))

  submit_call-IsPowerless :
      (q : Request N) (d : Decision) (st : Approval.Store N) (s : Server N)
      → s.mesh.approvals ≡ some st
      → IsPowerless q s (submit_call q d st s).1
  unfolding submit_call submit_with_trace traced recording
  submit_call-IsPowerless q d st s e =
      (refl, λ id other. lookup-insert q.approval_id id _ st.entries ∙ rw (other, e) refl)

  run_traced-IsPowerless :
      (forward : Backend N) (q r : Request N) (t : Tool) (args : Params N) (agent trace : Text)
      (s : Server N)
      → IsPowerless q s (run_traced forward r t args agent trace s).1
  unfolding run_traced retraced updating
  run_traced-IsPowerless forward q r t args agent trace s = ground arith

  handle_resolution-IsPowerless :
      (forward : Backend N) (q : Request N) (r : Resolution N) (s : Server N)
      → IsPowerless q s (handle_resolution forward q r s).1
  handle_resolution-IsPowerless forward q r s =
      let (traces, kept) = handle_resolution-keeps forward q r s r.status refl in
      rw kept (refl, λ id other. refl)

  claim_settled-entries :
      (marshal : Params N → Option Text) (st : Status) (now : ℕ) (agent tool : Text)
      (params : Params N) (window : ℕ) (s : Approval.Store N)
      → (claim_settled marshal st now agent tool params window s).1.entries ≡ s.entries
  unfolding claim_settled
  claim_settled-entries marshal st now agent tool params window s =
      elim (Option-cases (marshal params)) [
        | inl e ↦ ground arith
        | inr (want, e) ↦
            elim (Option-cases
              (find_entry (is_claimable marshal st now agent tool want window s) s.entries)) [
                | inl none_found ↦ ground arith
                | inr ((id, pa), found) ↦ ground arith
              ]
      ]

module _ {N : Type 0} (marshal : Params N → Option Text) where
  queue_call-IsPowerless :
      (q : Request N) (d : Decision) (st : Approval.Store N) (s : Server N)
      → s.mesh.approvals ≡ some st
      → IsPowerless q s (queue_call marshal q d st s).1
  unfolding queue_call claim_denied
  queue_call-IsPowerless q d st s e =
      let submitting = submit_call-IsPowerless q d st s e in
      elim (Bool-cases s.supervisor_mode) [
        | inl blocking ↦ rw (queue_call, blocking) submitting
        | inr free ↦
            let claiming = claim_denied marshal q.now s.agent_id q.name q.arguments st.timeout st in
            let kept =
              claim_settled-entries marshal denied q.now s.agent_id q.name q.arguments st.timeout
                st in
            elim (Option-cases claiming.0) [
              | inr (pa, told) ↦ rw (queue_call, free, told) (refl, λ id other. rw (kept, e) refl)
              | inl untold ↦
                  elim (Option-cases (find_pending marshal s.agent_id q.name q.arguments st)) [
                    | inr (pa, waits) ↦
                        rw (queue_call, free, untold, waits) (refl, λ id other. refl)
                    | inl unknown ↦ rw (queue_call, free, untold, unknown) submitting
                  ]
            ]
      ]

module _ {N : Type 0} (marshal : Params N → Option Text) (forward : Backend N) where
  use_approved-IsPowerless :
      (q : Request N) (d : Decision) (st : Approval.Store N) (s : Server N)
      (done : Reply N × Server N)
      → s.mesh.approvals ≡ some st
      → use_approved marshal forward q d st s ≡ some done
      → IsPowerless q s done.1
  unfolding use_approved claim_approved traced recording
  use_approved-IsPowerless q d st s done e h =
      let claiming = claim_approved marshal q.now s.agent_id q.name q.arguments st.timeout st in
      let kept =
        claim_settled-entries marshal approved q.now s.agent_id q.name q.arguments st.timeout st in
      elim (Option-cases claiming.0) [
        | inl missing ↦
            let goes : use_approved marshal forward q d st s ≡ none =
              rw (use_approved, missing) refl in
            absurd (ground arith)
        | inr (pa, found) ↦
            let s' =
              traced q
                (record (entry_for q s (codes "human_approval") d.rule) { approval_id = pa.id })
                (with_approvals claiming.1 s) in
            let goes : use_approved marshal forward q d st s
                ≡ some (handle_resolution forward q (settled_as_approved pa) s') =
              rw (use_approved, found) refl in
            let same : handle_resolution forward q (settled_as_approved pa) s' ≡ done =
              ground arith in
            let (grants, entries) =
              handle_resolution-IsPowerless forward q (settled_as_approved pa) s' in
            rw (← same) (grants, λ id other. entries id other ∙ rw (kept, e) refl)
      ]

  ask_store-IsPowerless :
      (q : Request N) (d : Decision) (s : Server N)
      → IsPowerless q s (ask_store marshal forward q d s).1
  unfolding ask_store traced recording
  ask_store-IsPowerless q d s = elim (Option-cases s.mesh.approvals) [
    | inl off ↦
        let goes : (ask_store marshal forward q d s).1
            ≡ traced q (entry_for q s (codes "human_approval") d.rule) s =
          ground arith in
        rw goes (refl, λ id other. refl)
    | inr (st, on) ↦
        let queueing = queue_call-IsPowerless marshal q d st s on in
        elim (Bool-cases s.supervisor_mode) [
          | inl blocking ↦
              let goes : (ask_store marshal forward q d s).1 ≡ (queue_call marshal q d st s).1 =
                ground arith in
              rw goes queueing
          | inr free ↦ elim (Option-cases (use_approved marshal forward q d st s)) [
            | inl missing ↦
                let goes : (ask_store marshal forward q d s).1 ≡ (queue_call marshal q d st s).1 =
                  ground arith in
                rw goes queueing
            | inr (done, used) ↦
                let goes : (ask_store marshal forward q d s).1 ≡ done.1 = ground arith in
                rw goes (use_approved-IsPowerless q d st s done on used)
          ]
        ]
  ]

  ask_approval-IsPowerless :
      (q : Request N) (d : Decision) (t : Tool) (s : Server N)
      → IsPowerless q s (ask_approval marshal forward q d t s).1
  unfolding ask_approval settle_at_terminal traced recording
  ask_approval-IsPowerless q d t s = ground (arith, ask_store-IsPowerless q d s)

module _ {N : Type 0} (ops : FloatOps N) (marshal : Params N → Option Text)
    (forward : Backend N) where
  decide_call-IsPowerless :
      (q : Request N) (t : Tool) (s : Server N)
      → IsPowerless q s (decide_call ops marshal forward q t s).1
  unfolding decide_call run_allowed traced recording
  decide_call-IsPowerless q t s =
      let lifted = lift_precedent q s (decision_on ops s q.name q.arguments t) in
      ground (arith, ask_approval-IsPowerless marshal forward q lifted t s)

module _ {N : Type 0} (ops : FloatOps N) (show : Printer N) (marshal : Params N → Option Text)
    (forward : Backend N) where
  call_registered-IsPowerless :
      (q : Request N) (s : Server N)
      → IsPowerless q s (call_registered ops show marshal forward q s).1
  unfolding call_registered record_halted recording
  call_registered-IsPowerless q s =
      let (halts, kept) = stop_for-keeps q s in
      let s' = record s { mesh = record s.mesh { halts = halts } } in
      elim (Option-cases (stop_for q s).0) [
        | inr (stop, e) ↦
            rw (call_registered, e)
              (ap (λ x. x.mesh.grants) kept, λ id other. ap (λ x. lookup id (entries_of x)) kept)
        | inl e ↦ elim (Option-cases (resolve_tool q.name s.mesh.registry)) [
          | inl missing ↦
              let stays : (call_registered ops show marshal forward q s).1 ≡ (stop_for q s).1 =
                rw (call_registered, e, kept, missing) kept in
              rw stays
                (ap (λ x. x.mesh.grants) kept, λ id other. ap (λ x. lookup id (entries_of x)) kept)
          | inr (t, found) ↦
              let goes : (call_registered ops show marshal forward q s).1
                  ≡ (decide_call ops marshal forward q t s').1 =
                rw (call_registered, e, kept, found)
                  (ap (λ x. (decide_call ops marshal forward q t x).1) kept) in
              rw goes (decide_call-IsPowerless ops marshal forward q t s')
        ]
      ]

module _ {N : Type 0} (ops : FloatOps N) (show : Printer N) (marshal : Params N → Option Text)
    (parse_duration : Text → Option Duration) (forward : Backend N) where
  by_virtual :
      (v : Virtual) (q : Request N) (s : Server N)
      → is_supervisor_agent s ≡ false
      → (call_virtual ops show marshal parse_duration forward v q s).1 ≡ s
  unfolding call_virtual
  by_virtual approval_resolve q s h = rw (call_virtual, h) refl
  by_virtual approval_pending q s h = rw (call_virtual, h) refl
  by_virtual grant_create q s h = rw (call_virtual, h) refl
  by_virtual grant_list q s h = refl
  by_virtual grant_revoke q s h = rw (call_virtual, h) refl
  by_virtual mesh_catalog q s h = refl

  -- No call of an agent that is no supervisor, of whatever name and arguments, adds or removes a grant,
  -- or settles or changes an approval: it can open the one with the request's fresh ID alone.
  pub handle_tools_call-IsPowerless :
      (q : Request N) (s : Server N)
      → is_supervisor_agent s ≡ false
      → IsPowerless q s (handle_tools_call ops show marshal parse_duration forward q s).1
  unfolding handle_tools_call
  handle_tools_call-IsPowerless q s h = elim (Bool-cases (is_empty q.name)) [
    | inl unnamed ↦ rw (handle_tools_call, unnamed) (refl, λ id other. refl)
    | inr named ↦ elim (Option-cases (virtual_of q.name)) [
      | inr (v, e) ↦
          let goes : (handle_tools_call ops show marshal parse_duration forward q s).1 ≡ s =
            rw (handle_tools_call, named, e) (by_virtual v q s h) in
          rw goes (refl, λ id other. refl)
      | inl e ↦
          rw (handle_tools_call, named, e)
            (call_registered-IsPowerless ops show marshal forward q s)
    ]
  ]
