-- ===== src/Proxy/Halts.antt =====
-- proxy/halts.go: what starting and lifting an emergency stop does to the mesh. The JSON body is
-- decoded into the arguments, and the caller is named.
pub mod Stops
use flux7_mesh.Base.{
  ℕ, suc, Bool, true, false, not, ◌&&◌, ◌||◌, Option, none, some, List, [], ◌∷◌, ◌++◌, ◌⊎◌, inl,
  inr, if◌then◌else◌, Text, codes, text_eq, is_empty, any, map,
}
use flux7_mesh.Match.{glob}
use flux7_mesh.Policy.Value.{Value, str, arr, Items, nil, cons, Params, field, end}
use flux7_mesh.Grant.{Grant, revoke_where, restore}
use flux7_mesh.Grant
use flux7_mesh.Grant.Revocation.{restore_all}
use flux7_mesh.Halt.{
  Scope, everything, by_agent, by_session, unknown, HaltError, not_found, Halt, Query, start,
  record_revoked, resume,
}
use flux7_mesh.Halt
use flux7_mesh.Approval.{PendingApproval, deny, list_pending}
use flux7_mesh.Approval
use flux7_mesh.Trace.{Entry, query_by_session, record_entry}
use flux7_mesh.Trace
use flux7_mesh.Proxy.Mesh.{Mesh}

-- The grants that a stop takes away: all of them, the agent's, or none.
unfoldable pub selects_grant : Halt → Grant → Bool
selects_grant h g = elim h.scope [
  | everything ↦ true
  | by_agent ↦ text_eq g.agent h.target || glob h.target g.agent
  | by_session ↦ false
  | unknown s ↦ false
]

-- The million newest calls of the session are read.
abbrev pub session_window : ℕ
session_window = 1000000

abbrev pub scope_text : Scope → Text
scope_text everything = codes "all"
scope_text by_agent = codes "agent"
scope_text by_session = codes "session"
scope_text (unknown s) = s

-- `RecordRevoked` is called if grants were revoked.
abbrev pub recorded_in : Option Halt.Store → Text → List Grant → Option Halt.Store
recorded_in halts id [] = halts
recorded_in halts id (g ∷ gs) = elim halts [
  | none ↦ none
  | some s ↦ some (record_revoked id (g ∷ gs) s)
]

-- The grants that come back, and the store with them.
unfoldable pub restore_into : ℕ → List Grant → Option Grant.Store → List Text × Option Grant.Store
unfolding restore_all
restore_into now gs none = ([], none)
restore_into now gs (some s) = let (restored, s') = restore_all now gs s in (restored, some s')

module _ {N : Type 0} where
  -- `revokeGrantsFor`: the grants revoked, and the mesh without them.
  unfoldable pub revoke_grants_for : ℕ → Halt → Mesh N → List Grant × Mesh N
  unfolding selects_grant
  revoke_grants_for now h m = elim m.grants [
    | none ↦ ([], m)
    | some s ↦
        let (revoked, s') = revoke_where now (selects_grant h) s in
        (revoked, record m { grants = some s' })
  ]

  -- A waiting approval is in the scope of the stop.
  unfoldable pub in_scope : Halt → List (Entry N) → PendingApproval N → Bool
  in_scope h session pa = elim h.scope [
    | by_session ↦ not (is_empty pa.trace_id) && any (λ e. text_eq e.trace_id pa.trace_id) session
    | _ ↦ Halt.covers h pa.agent_id []
  ]

  -- The loop of `denyPendingFor`: the IDs denied, and the store after it.
  unfoldable pub deny_each :
      ℕ
      → Halt
      → List (Entry N)
      → List (PendingApproval N)
      → Approval.Store N
      → List Text × Approval.Store N
  unfolding in_scope
  deny_each now h session [] s = ([], s)
  deny_each now h session (pa ∷ pas) s =
      let (err, s') = deny now pa.id (codes "halt:" ++ h.id) s in
      let after = deny_each now h session pas s' in
      let past = deny_each now h session pas s in
      if in_scope h session pa
      then elim err [ none ↦ (pa.id ∷ after.0, after.1) | some e ↦ after ]
      else past

  unfoldable pub deny_pending_for : ℕ → Halt → Mesh N → List Text × Mesh N
  unfolding deny_each
  deny_pending_for now h m = elim m.approvals [
    | none ↦ ([], m)
    | some s ↦
        let session = query_by_session h.target session_window m.traces in
        let (denied, s') = deny_each now h session (list_pending s) s in
        (denied, record m { approvals = some s' })
  ]

  unfoldable pub items_of : List Text → Items N
  items_of [] = nil
  items_of (t ∷ ts) = cons (str t) (items_of ts)

  abbrev pub texts : List Text → Value N
  texts ts = arr (items_of ts)

  -- The entry of the control plane that both handlers record.
  abbrev pub control_entry : Text → Text → Text → Params N → ℕ → ℕ → Entry N
  control_entry trace by tool params status now = record {
    trace_id = trace;
    session_id = [];
    agent_id = by;
    user_id = [];
    tool = tool;
    params = params;
    policy = codes "allow";
    policy_rule = codes "control-plane";
    status_code = status;
    error = [];
    timestamp = now;
    grant_id = [];
    parent_trace_id = [];
    span_id = [];
    parent_span_id = [];
    approval_id = [];
    approval_status = [];
    approved_by = [];
    supervisor_reasoning = [];
    supervisor_confidence = none;
    revision = 0;
  }

  abbrev pub halt_params : Halt → List Grant → List Text → Params N
  halt_params h revoked denied = field (codes "halt_id") (str h.id) (
      field (codes "scope") (str (scope_text h.scope)) (
        field (codes "target") (str h.target) (
          field (codes "reason") (str h.reason) (
            field (codes "revoked_grants") (texts (map (λ g. g.id) revoked))
              (field (codes "denied_approvals") (texts denied) end)))))

  -- What follows a stop that is new: grants, then approvals, then the record.
  unfoldable pub enact : ℕ → Text → Text → Halt → Mesh N → Mesh N
  unfolding revoke_grants_for deny_pending_for
  enact now trace by h m =
      let (revoked, m1) = revoke_grants_for now h m in
      let m2 = record m1 { halts = recorded_in m1.halts h.id revoked } in
      let (denied, m3) = deny_pending_for now h m2 in
      record m3 {
        traces =
            record_entry now trace
              (control_entry trace by (codes "mesh.halt") (halt_params h revoked denied) 201 now)
              m3.traces;
      }

  -- `handleCreateHalt` of a body that is JSON: the status, and the mesh.
  unfoldable pub handle_create_halt :
      ℕ → Text → Text → Query → Bool → Scope → Text → Text → Text → Mesh N → ℕ × Mesh N
  unfolding enact
  handle_create_halt now id trace query db_err scope target reason by m = elim m.halts [
    | none ↦ (501, m)
    | some s ↦
        let (answer, s') = start now id query db_err scope target reason by s in
        elim answer [
          | inl e ↦ (400, record m { halts = some s' })
          | inr (h, created) ↦
              let m' = record m { halts = some s' } in
              if created then (201, enact now trace by h m') else (200, m')
        ]
  ]

  abbrev pub resume_params : Halt → List Text → Params N
  resume_params h restored = field (codes "halt_id") (str h.id) (
      field (codes "scope") (str (scope_text h.scope)) (
        field (codes "target") (str h.target)
          (field (codes "restored_grants") (texts restored) end)))

  unfoldable pub handle_resume_halt : ℕ → Text → Text → Query → Bool → Text → Mesh N → ℕ × Mesh N
  unfolding restore_into
  handle_resume_halt now id trace query db_err by m = elim m.halts [
    | none ↦ (501, m)
    | some s ↦
        let (answer, s') = resume now query db_err id by s in
        let m' : Mesh N = record m { halts = some s' } in
        elim answer [
          | inl not_found ↦ (404, m')
          | inl e ↦ (500, m')
          | inr h ↦
              let gs = restore_into now h.revoked_grants m.grants in
              (
                200,
                record m' {
                  grants = gs.1;
                  traces =
                      record_entry now trace
                        (control_entry trace by (codes "mesh.resume") (resume_params h gs.0) 200
                          now)
                        m.traces;
                },
              )
        ]
  ]
