-- ===== src/Proxy/Calls.antt =====
-- `handleToolCall` and `handleDecide` of proxy/handler.go, as steps on the mesh. What the backend
-- answers to `ForwardAs` is the parameter `forward`: a status and the text of an error, if any.
pub mod Authority
pub mod Passage
use flux7_mesh.Base.{
  ℕ, Bool, true, false, not, ◌&&◌, ◌||◌, Option, none, some, List, [], ◌∷◌, ◌++◌, ◌⊎◌, inl, inr,
  if◌then◌else◌, Text, codes, text_eq, is_empty, is_some,
}
use flux7_mesh.Policy.Value.{FloatOps, Params, end}
use flux7_mesh.Policy.Engine.{
  Action, allow, human_approval, deny, other, action_text, Decision, evaluate,
}
use flux7_mesh.Registry.{Tool, resolve_tool}
use flux7_mesh.Grant.{Grant}
use flux7_mesh.Grant
use flux7_mesh.Halt.{Halt}
use flux7_mesh.RateLimit.{Limiter, Denial, record_call}
use flux7_mesh.RateLimit
use flux7_mesh.Approval.{Resolution, submit_with_trace}
use flux7_mesh.Approval
use flux7_mesh.Trace.{Entry, update}
use flux7_mesh.Identity.{Identity, AuthError, resolve_identity, anonymous}
use flux7_mesh.Proxy.Mesh.{
  Mesh, Call, Printer, entry_of, recording, record_refused, record_halted, halt_for,
}
use flux7_mesh.Proxy.Floors.{apply_floors}

-- The end of a request: refused with a status, waiting for the approval with an ID, or forwarded
-- and answered with a status.
pub data Answer : Type 0 where
  refused : ℕ → Answer
  waits : Text → Answer
  forwarded : Tool → ℕ → Answer

abbrev pub is_deny : Action → Bool
is_deny a = text_eq (action_text a) (codes "deny")

abbrev pub needs_human : Action → Bool
needs_human a = text_eq (action_text a) (codes "human_approval")

-- A decision, with the grant that changed it and the call that motivated the grant.
pub record Ruling : Type 0 where
  pub decision : Decision
  pub grant_id : Text
  pub parent_trace_id : Text

-- An active grant approves the call.
unfoldable pub lift_by_grant : (Grant → Text) → Option Grant → Decision → Ruling
lift_by_grant reason found d =
    let unchanged : Ruling = record { decision = d; grant_id = []; parent_trace_id = [] } in
    if needs_human d.action
    then elim found [
      | none ↦ unchanged
      | some g ↦ record {
        decision = record { action = allow; rule = codes "grant:" ++ g.id; reason = reason g };
        grant_id = g.id;
        parent_trace_id = g.origin.trace_id;
      }
    ]
    else unchanged

-- The answer is 502 if the backend failed.
abbrev pub answer_status : Text → ℕ
answer_status err = if is_empty err then 200 else 502

module _ {N : Type 0} where
  abbrev pub grant_for : ℕ → Text → Text → Mesh N → Option Grant
  grant_for now agent tool m = elim m.grants [ none ↦ none | some s ↦ Grant.check now agent tool s ]

  -- Past decisions approve the call, if there is a store of approvals.
  unfoldable pub lift_by_precedent : Option Text → Mesh N → Ruling → Ruling
  lift_by_precedent precedent m r =
      if needs_human r.decision.action && is_some m.approvals
      then elim precedent [
        | none ↦ r
        | some reason ↦ record r {
          decision = record { action = allow; rule = codes "supervisor:mem7"; reason = reason };
        }
      ]
      else r

  -- The call waits for a human.
  unfoldable pub ask_human : Call N → Identity → Params N → Decision → Mesh N → Answer × Mesh N
  unfolding recording
  ask_human c who params d m = elim m.approvals [
    | none ↦ (refused 202, recording c (entry_of c who params (codes "human_approval") d.rule) m)
    | some s ↦
        let (pa, s') =
          submit_with_trace c.now c.approval_id who.agent_id c.tool d.rule params c.callback_url
            c.trace_id s in
        (
          waits pa.id,
          recording c
              (record (entry_of c who params (codes "human_approval") d.rule) {
                approval_id = pa.id;
              })
              (record m { approvals = some s' }),
        )
  ]

module _ {N : Type 0} (ops : FloatOps N) where
  unfoldable pub ruling_on :
      (Grant → Text) → Call N → Text → Params N → Option Tool → Mesh N → Ruling
  unfolding lift_by_grant lift_by_precedent
  ruling_on reason c agent params tool m = lift_by_precedent c.precedent m (
      lift_by_grant reason (grant_for c.now agent c.tool m)
        (apply_floors m.pins (evaluate ops m.engine agent c.tool params) tool))

module _ {N : Type 0} (show : Printer N) where
  unfoldable pub record_usage : Call N → Text → Params N → Mesh N → Mesh N
  record_usage c agent params m = elim m.limiter [
    | none ↦ m
    | some l ↦ record m {
      limiter = some (record_call c.now agent c.tool (show.params_text params) l);
    }
  ]

module _ {N : Type 0} (show : Printer N)
    (forward : Call N → Tool → Params N → Text → ℕ × Text) where
  unfoldable pub forward_call :
      Call N → Identity → Params N → Tool → Ruling → Mesh N → Answer × Mesh N
  unfolding record_usage recording
  forward_call c who params t r m =
      let (status, err) = forward c t params who.agent_id in
      (
        forwarded t (answer_status err),
        recording c
            (record (entry_of c who params (codes "allow") r.decision.rule) {
              grant_id = r.grant_id;
              parent_trace_id = r.parent_trace_id;
              status_code = status;
              error = err;
            })
            (record_usage show c who.agent_id params m),
      )

module _ {N : Type 0} (ops : FloatOps N) (show : Printer N) where
  -- The check against the limits of the policy that decides the call.
  unfoldable pub rate_check : Call N → Text → Params N → Mesh N → Option Denial × Mesh N
  rate_check c agent params m = elim m.limiter [
    | none ↦ (none, m)
    | some l ↦
        let (denial, l') =
          RateLimit.check c.now agent (evaluate ops m.engine agent c.tool params).rule c.tool
            (show.params_text params) l in
        (denial, record m { limiter = some l' })
  ]

module _ {N : Type 0} (ops : FloatOps N) (show : Printer N)
    (forward : Call N → Tool → Params N → Text → ℕ × Text) where
  -- The end of the handler, once the tool is known and the rate is fine.
  unfoldable pub enforce : Call N → Identity → Params N → Tool → Mesh N → Answer × Mesh N
  unfolding ruling_on forward_call ask_human recording
  enforce c who params t m =
      let d = apply_floors m.pins (evaluate ops m.engine who.agent_id c.tool params) (some t) in
      let r = ruling_on ops show.grant_text c who.agent_id params (some t) m in
      if is_deny d.action
      then (refused 403, recording c (entry_of c who params (codes "deny") d.rule) m)
      else if needs_human r.decision.action
      then ask_human c who params r.decision m
      else forward_call show forward c who params t r m

  unfoldable pub call_tool : Call N → Identity → Params N → Tool → Mesh N → Answer × Mesh N
  unfolding rate_check enforce recording
  call_tool c who params t m =
      let (denial, m') = rate_check ops show c who.agent_id params m in
      elim denial [
        | none ↦ enforce c who params t m'
        | some denied ↦ (
          refused 429,
          recording c
              (record (entry_of c who params (codes "rate_limited")
                (evaluate ops m.engine who.agent_id c.tool params).rule) {
                  error = show.denial_text denied;
                })
              m',
        )
      ]

  -- The emergency stop, and the search for the tool.
  unfoldable pub call_as : Call N → Identity → Params N → Mesh N → Answer × Mesh N
  unfolding halt_for record_halted call_tool
  call_as c who params m =
      let (found, m') = halt_for c.now c.query who.agent_id c.session m in
      elim found [
        | some h ↦ (refused 403, record_halted c who params (show.halt_text h) h m')
        | none ↦ elim (resolve_tool c.tool m'.registry) [
          | none ↦ (refused 404, m')
          | some t ↦ call_tool c who params t m'
        ]
      ]

  unfoldable pub handle_tool_call : Call N → Mesh N → Answer × Mesh N
  unfolding record_refused call_as
  handle_tool_call c m = elim (resolve_identity c.authorization m.validator m.allow_legacy) [
    | inl e ↦ (
      refused 401,
      record_refused c end (codes "auth:invalid_credential") (show.auth_text e) 401 m,
    )
    | inr who ↦
        if m.require_auth && text_eq who.agent_id anonymous
        then (
          refused 401,
          record_refused c end (codes "auth:required") (codes "authentication required") 401 m,
        )
        else elim c.body [ none ↦ (refused 400, m) | some params ↦ call_as c who params m ]
  ]
