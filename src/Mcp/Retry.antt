-- ===== src/Mcp/Retry.antt =====
-- How often an approval over MCP runs its call.
use flux7_mesh.Policy.Engine.{Decision}
use flux7_mesh.Proxy.Completion.{updating}
use flux7_mesh.Mcp.Governance.{replay, resolver_of, approve_pending_call}
use flux7_mesh.Mcp.Resolution.{in_trace, with_approvals, handle_resolution}
use flux7_mesh.Base.{
  codes, subst, ◌≢◌, lookup-insert, insert, text_eq_refl, ◌+◌, ◌≤◌, text_eq_iff, text_eq, ◌≡◌, refl,
  sym, ◌∙◌, ap, inl, inr, Option, none, some, arith, Bool-cases, Option-cases, Text, true, false,
  [], ◌∷◌, ℕ, lookup, Map, Bool, is_some,
}
use flux7_mesh.Policy.Value.{Params}
use flux7_mesh.Approval
use flux7_mesh.Registry
use flux7_mesh.Approval.{
  has_status, resolve, resolve_found, resolved_with, find_key, approve, mark_claimed, is_claimed,
  approved, pending, PendingApproval, Resolution,
}
use flux7_mesh.Approval.Settled.{claim_settled, find_entry, is_claimable, claim_approved}
use flux7_mesh.Mcp.{
  entry_for, Reply, retraced, traced, run_traced, cannot_resolve, Tool, Server, Request, ran,
  Backend,
}
use flux7_mesh.Mcp.Calls.{settled_as_approved, use_approved, end_of_wait}
use flux7_mesh.Mcp.Ways.{handle_resolution-keeps, handle_resolution_ran}

module _ {N : Type 0} where
  -- The map's entry of a key is found by a test that it passes, if it does.
  find_entry-lookup :
      (p : Text → PendingApproval N → Bool) (id : Text) (pa : PendingApproval N)
      (m : Map (PendingApproval N))
      → lookup id m ≡ some pa
      → p id pa ≡ true
      → is_some (find_entry p m) ≡ true
  unfolding find_entry lookup
  find_entry-lookup p id pa [] h hit = absurd (ground arith)
  find_entry-lookup p id pa ((key, w) ∷ m) h hit = elim (Bool-cases (text_eq key id)) [
    | inl here ↦
        let same : key ≡ id = (text_eq_iff key id).0 here in
        let value : w ≡ pa = ground arith in
        let found : p key w ≡ true = rw (same, value) hit in ground arith
    | inr there ↦ ground (arith, find_entry-lookup p id pa m)
  ]

  is_claimed-mark_claimed :
      (id : Text) (st : Approval.Store N) → is_claimed id (mark_claimed id st) ≡ true
  is_claimed-mark_claimed id st =
      let marked : lookup id (insert id true st.claimed) ≡ some true =
        lookup-insert id id true st.claimed ∙ rw (text_eq_refl id) refl in
      rw (is_claimed, marked) refl

module _ {N : Type 0} (forward : Backend N) where
  end_of_wait_ran :
      (q : Request N) (later : ℕ) (pa : PendingApproval N) (received : Option (Resolution N))
      (st : Approval.Store N) (s : Server N) (t : Tool) (args : Params N) (agent err : Text)
      → (end_of_wait forward q later pa received st s).0 ≡ ran t args agent err
      → ((r : Resolution N) × (received ≡ some r) × (r.status ≡ approved))
        × (is_claimed pa.id st ≡ false)
        × (end_of_wait forward q later pa received st s).1.mesh.approvals
          ≡ some (mark_claimed pa.id st)
  unfolding end_of_wait handle_resolution
  end_of_wait_ran q later pa none st s t args agent err h = absurd (ground arith)
  end_of_wait_ran q later pa (some r) st s t args agent err h =
      elim (Bool-cases (is_claimed pa.id st)) [
        | inl used ↦ absurd (ground arith)
        | inr free ↦
            let goes : end_of_wait forward q later pa (some r) st s
                ≡ handle_resolution forward q r (with_approvals (mark_claimed pa.id st) s) =
              ground arith in
            let (final, _, _, _) =
              handle_resolution_ran forward q r (with_approvals (mark_claimed pa.id st) s) t args
                agent err (ap (λ x. x.0) (sym goes) ∙ h) in
            (
              (r, refl, final),
              free,
              (ap (λ x. x.1.mesh.approvals) goes
                  ∙ ap (λ x. x.mesh.approvals)
                      (handle_resolution-keeps forward q r
                        (with_approvals (mark_claimed pa.id st) s) r.status refl).1),
            )
      ]

  -- Two calls that wait for one approval do not run one after the other: a call that ran after its
  -- wait had an approved resolution and found the approval not claimed; the store it leaves has it
  -- claimed, and no call that waits for the approval with that ID runs on that store, whatever
  -- resolution it receives.
  pub end_of_wait-once :
      (q q' : Request N) (later later' : ℕ) (pa pa' : PendingApproval N)
      (received received' : Option (Resolution N)) (st st' : Approval.Store N) (s s' : Server N)
      (t t' : Tool) (args args' : Params N) (agent agent' err err' : Text)
      → (end_of_wait forward q later pa received st s).0 ≡ ran t args agent err
      → (end_of_wait forward q later pa received st s).1.mesh.approvals ≡ some st'
      → pa'.id ≡ pa.id
      → ((r : Resolution N) × (received ≡ some r) × (r.status ≡ approved))
        × (is_claimed pa.id st ≡ false)
        × (is_claimed pa.id st' ≡ true)
        × ((end_of_wait forward q' later' pa' received' st' s').0 ≢ ran t' args' agent' err')
  end_of_wait-once q q' later later' pa pa' received received' st st' s s' t t' args args' agent
        agent' err err' h left same =
      let (sent, free, marked) = end_of_wait_ran q later pa received st s t args agent err h in
      let is : mark_claimed pa.id st ≡ st' = ground arith in
      let used : is_claimed pa.id st' ≡ true =
        subst (λ x. is_claimed pa.id x ≡ true) is (is_claimed-mark_claimed pa.id st) in
      (
        sent,
        free,
        used,
        λ again.
            let (_, free', _) =
              end_of_wait_ran q' later' pa' received' st' s' t' args' agent' err' again in
            absurd (ground arith),
      )

module _ {N : Type 0} (marshal : Params N → Option Text) where
  -- An approved entry of the map is claimed by a call with its agent, tool and arguments.
  claim_approved-some :
      (now window : ℕ) (key want : Text) (pa : PendingApproval N) (args : Params N)
      (st : Approval.Store N)
      → lookup key st.entries ≡ some pa
      → pa.status ≡ approved
      → is_claimed key st ≡ false
      → now ≤ window + pa.resolved_at
      → marshal pa.params ≡ some want
      → marshal args ≡ some want
      → is_some (claim_approved marshal now pa.agent_id pa.tool args window st).0 ≡ true
  unfolding claim_approved claim_settled
  claim_approved-some now window key want pa args st here final free fresh kept sent =
      let test = is_claimable marshal approved now pa.agent_id pa.tool want window st in
      let hit : test key pa ≡ true =
        rw (final, free, kept)
          (ground (arith, text_eq_refl pa.agent_id, text_eq_refl pa.tool, text_eq_refl want)) in
      let found = find_entry-lookup test key pa st.entries here hit in
      elim (Option-cases (find_entry test st.entries)) [
        | inl missing ↦ absurd (ground arith)
        | inr (entry, e) ↦ ground arith
      ]

module _ {N : Type 0} (forward : Backend N) where
  replay-keeps :
      (q : Request N) (pa : PendingApproval N) (s : Server N)
      → (replay forward q pa s).1.mesh.approvals ≡ s.mesh.approvals
  unfolding replay flux7_mesh.Mcp.retraced updating
  replay-keeps q pa s = ground arith

module _ {N : Type 0} (marshal : Params N → Option Text) (forward : Backend N) where
  approve_pending_call-claim_approved :
      (q : Request N) (id key want : Text) (pa : PendingApproval N) (st : Approval.Store N)
      (s : Server N) (t : Tool) (args retried : Params N) (agent err : Text) (later window : ℕ)
      → find_key id st ≡ some key
      → lookup key st.entries ≡ some pa
      → is_claimed key st ≡ false
      → marshal pa.params ≡ some want
      → marshal retried ≡ some want
      → later ≤ window + q.now
      → (approve_pending_call forward q id pa st s).0 ≡ ran t args agent err
      → let st' = (approve q.now id (resolver_of s) st).1 in
        ((approve_pending_call forward q id pa st s).1.mesh.approvals ≡ some st')
        × (is_some (claim_approved marshal later pa.agent_id pa.tool retried window st').0 ≡ true)
  unfolding approve_pending_call
  approve_pending_call-claim_approved q id key want pa st s t args retried agent err later window
        found here free kept sent fresh h =
      let settled = resolved_with q.now approved (Approval.by (resolver_of s)) pa in
      let st' : Approval.Store N = record st { entries = insert key settled st.entries } in
      let settling : approve q.now id (resolver_of s) st
          ≡ resolve_found q.now approved (Approval.by (resolver_of s)) key (some pa) st =
        rw (approve, resolve, found, here) refl in
      elim (Bool-cases (has_status pending pa)) [
        | inr over ↦
            let stops : (approve_pending_call forward q id pa st s).0 ≡ cannot_resolve =
              rw (approve_pending_call, settling, resolve_found, over) refl in
            absurd (ground arith)
        | inl waits ↦
            let goes : approve q.now id (resolver_of s) st ≡ (none, st') =
              settling ∙ rw (resolve_found, waits) refl in
            let key_here : lookup key st'.entries ≡ some settled =
              lookup-insert key key settled st.entries ∙ rw (text_eq_refl key) refl in
            (
              rw (approve_pending_call, ap (λ x. x.0) goes)
                  (replay-keeps forward q pa
                    (with_approvals (approve q.now id (resolver_of s) st).1 s)),
              rw goes (
                  claim_approved-some marshal later window key want settled retried st' key_here
                    refl free fresh kept sent),
            )
      ]

module _ {N : Type 0} (marshal : Params N → Option Text) (forward : Backend N) where
  handle_resolution_runs :
      (q : Request N) (r : Resolution N) (s : Server N) (t : Tool)
      → r.status ≡ approved
      → Registry.get q.name s.mesh.registry ≡ some t
      → s.with_handler ≡ true
      → (err : Text) × ((handle_resolution forward q r s).0 ≡ ran t q.arguments s.agent_id err)
  unfolding handle_resolution run_traced retraced updating
  handle_resolution_runs q r s t final found has =
      ((forward (in_trace q.trace_id q) t q.arguments s.agent_id).1, ground arith)

  -- A request whose agent, tool and arguments some approved and unclaimed approval has runs on it, if
  -- its tool is still there.
  use_approved_ran :
      (q : Request N) (d : Decision) (st : Approval.Store N) (s : Server N) (t : Tool)
      → is_some (claim_approved marshal q.now s.agent_id q.name q.arguments st.timeout st).0 ≡ true
      → Registry.get q.name s.mesh.registry ≡ some t
      → s.with_handler ≡ true
      → (done : Reply N × Server N) × (use_approved marshal forward q d st s ≡ some done)
        × ((err : Text) × (done.0 ≡ ran t q.arguments s.agent_id err))
  unfolding use_approved
  use_approved_ran q d st s t claimed there has =
      elim (Option-cases
        (claim_approved marshal q.now s.agent_id q.name q.arguments st.timeout st).0) [
          | inl missing ↦ absurd (ground arith)
          | inr (pa, found) ↦
              let st' =
                (claim_approved marshal q.now s.agent_id q.name q.arguments st.timeout st).1 in
              let s' =
                traced q
                  (record (entry_for q s (codes "human_approval") d.rule) { approval_id = pa.id })
                  (with_approvals st' s) in
              (
                handle_resolution forward q (settled_as_approved pa) s',
                rw (use_approved, found) refl,
                handle_resolution_runs q (settled_as_approved pa) s' t refl there has,
              )
        ]

  approve-keeps :
      (now : ℕ) (id key resolver : Text) (st : Approval.Store N)
      → ((approve now id resolver st).1.timeout ≡ st.timeout)
        × (is_claimed key (approve now id resolver st).1 ≡ is_claimed key st)
  unfolding approve resolve resolve_found
  approve-keeps now id key resolver st =
      let claims : (approve now id resolver st).1.claimed ≡ st.claimed = ground arith in
      (ground arith, ap (λ m. elim (lookup key m) [ none ↦ false | some b ↦ b ]) claims)

  -- A call that `approval.resolve` approves and runs can run a second time: the approval, where it
  -- was not claimed before, is not claimed after it. A request of the same agent for the same tool with
  -- the same arguments finds an approved call when it looks for one in the store that
  -- `approval.resolve` leaves, within the timeout of the store, and runs it, if the tool is still
  -- there. That the request comes so far is assumed: a halt, the policy, the terminal or the
  -- supervisor mode may stop it before.
  pub approve_pending_call-use_approved :
      (q q' : Request N) (id key want : Text) (pa : PendingApproval N) (st : Approval.Store N)
      (s s' : Server N) (t t' : Tool) (args : Params N) (agent err : Text) (d : Decision)
      → find_key id st ≡ some key
      → lookup key st.entries ≡ some pa
      → is_claimed key st ≡ false
      → marshal pa.params ≡ some want
      → (approve_pending_call forward q id pa st s).0 ≡ ran t args agent err
      → q'.name ≡ pa.tool
      → s'.agent_id ≡ pa.agent_id
      → marshal q'.arguments ≡ some want
      → q'.now ≤ st.timeout + q.now
      → Registry.get q'.name s'.mesh.registry ≡ some t'
      → s'.with_handler ≡ true
      → let st' = (approve q.now id (resolver_of s) st).1 in
        ((approve_pending_call forward q id pa st s).1.mesh.approvals ≡ some st')
        × (is_claimed key st' ≡ false)
        × ((done : Reply N × Server N) × (use_approved marshal forward q' d st' s' ≡ some done)
            × ((again : Text) × (done.0 ≡ ran t' q'.arguments s'.agent_id again)))
  approve_pending_call-use_approved q q' id key want pa st s s' t t' args agent err d found here
        free kept first tool who sent fresh there has =
      let st' = (approve q.now id (resolver_of s) st).1 in
      let (left, claimed) =
        approve_pending_call-claim_approved marshal forward q id key want pa st s t args
          q'.arguments agent err q'.now st.timeout found here free kept sent fresh first in
      let (same, claims) = approve-keeps q.now id key (resolver_of s) st in
      (
        left,
        claims ∙ free,
        use_approved_ran q' d st' s' t' (rw (same, tool, who) claimed) there has,
      )
