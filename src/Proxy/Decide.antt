-- ===== src/Proxy/Decide.antt =====
-- `handleDecide` of proxy/handler.go: the decision on a call that is not made.
pub mod Agreement
use flux7_mesh.Base.{
  ℕ, inl, inr, Bool, not, ◌&&◌, none, some, ◌++◌, if◌then◌else◌, Text, codes, text_eq, is_empty,
  is_some,
}
use flux7_mesh.Policy.Value.{FloatOps, Params}
use flux7_mesh.Policy.Engine.{action_text, Decision}
use flux7_mesh.Registry.{resolve_tool}
use flux7_mesh.Grant.{Grant}
use flux7_mesh.Halt.{Halt}
use flux7_mesh.Identity.{Identity, resolve_identity, anonymous}
use flux7_mesh.Proxy.Mesh.{
  Mesh, Call, Printer, entry_of, recording, record_refused, record_halted, halt_for,
}
use flux7_mesh.Proxy.Calls.{is_deny, ruling_on}

-- Rejected with a status, stopped by a halt, or decided.
pub data Verdict : Type 0 where
  rejected : ℕ → Verdict
  halted : Halt → Verdict
  decided : ℕ → Decision → Verdict

abbrev pub decide_reason : Grant → Text
decide_reason g = codes "temporal grant " ++ g.id

-- The agent that the body names and the credential do not agree.
abbrev pub is_other : Text → Text → Bool
is_other label agent = not (is_empty label) && not (text_eq label agent)

module _ {N : Type 0} (ops : FloatOps N) (show : Printer N) (mismatch : Text → Text → Text) where
  unfoldable pub decide_as : Call N → Identity → Params N → Mesh N → Verdict × Mesh N
  unfolding halt_for record_halted ruling_on recording
  decide_as c who params m =
      let (found, m') = halt_for c.now c.query who.agent_id c.session m in
      elim found [
        | some h ↦ (halted h, record_halted c who params (show.halt_text h) h m')
        | none ↦
            let r =
              ruling_on ops decide_reason c who.agent_id params (resolve_tool c.tool m'.registry)
                m' in
            (
              decided (if is_deny r.decision.action then 403 else 200) r.decision,
              recording c
                  (record (entry_of c who params (action_text r.decision.action) r.decision.rule) {
                    grant_id = r.grant_id;
                    parent_trace_id = r.parent_trace_id;
                  })
                  m',
            )
      ]

  -- The rest, once the agent is settled.
  unfoldable pub decide_named : Call N → Identity → Params N → Mesh N → Verdict × Mesh N
  unfolding decide_as record_refused
  decide_named c who params m =
      if m.require_auth && text_eq who.agent_id anonymous
      then (
        rejected 401,
        record_refused c params (codes "auth:required") (codes "authentication required") 401 m,
      )
      else decide_as c who params m

  -- `label` is the agent that the body names.
  unfoldable pub handle_decide : Text → Call N → Mesh N → Verdict × Mesh N
  unfolding decide_named record_refused
  handle_decide label c m = elim c.body [
    | none ↦ (rejected 400, m)
    | some params ↦
        if is_empty c.tool
        then (rejected 400, m)
        else elim (resolve_identity c.authorization m.validator m.allow_legacy) [
          | inl e ↦ (
            rejected 401,
            record_refused c params (codes "auth:invalid_credential") (show.auth_text e) 401 m,
          )
          | inr who ↦
              let local =
                not (is_some m.validator)
                && (not m.require_auth && text_eq who.agent_id anonymous) in
              if is_other label who.agent_id
              then (if local
                  then decide_named c (record who { agent_id = label }) params m
                  else if text_eq who.agent_id anonymous
                  then (
                    rejected 401,
                    record_refused c params (codes "auth:required")
                        (codes "authentication required") 401 m,
                  )
                  else (
                    rejected 403,
                    record_refused c params (codes "auth:agent_mismatch")
                        (mismatch label who.agent_id) 403 m,
                  ))
              else decide_named c who params m
        ]
  ]
