-- ===== src/Proxy/Decide/Agreement.antt =====
-- `/decide` and the call path agree.
use flux7_mesh.Base.{
  text_eq_refl, is_empty, [], ◌&&◌, ℕ, ◌≡◌, refl, ◌∙◌, ap, inl, inr, true, false, Option, none,
  some, arith, if◌then◌else◌, Text, text_eq, Bool-cases,
}
use flux7_mesh.Policy.Value.{FloatOps, Params}
use flux7_mesh.Policy.Engine.{Decision, evaluate}
use flux7_mesh.Registry.{Tool, resolve_tool}
use flux7_mesh.Grant.{Grant}
use flux7_mesh.Identity.{anonymous, Identity, resolve_identity}
use flux7_mesh.Proxy.Mesh.{Mesh, Call, Printer, halt_for}
use flux7_mesh.Proxy.Floors.{apply_floors}
use flux7_mesh.Proxy.Calls.{
  forwarded, is_deny, needs_human, grant_for, lift_by_grant, lift_by_precedent, ruling_on,
  handle_tool_call,
}
use flux7_mesh.Proxy.Calls.Authority.{IsLifted, IsPermitted}
use flux7_mesh.Proxy.Calls.Passage.{halt_for-keeps, handle_tool_call_forwarded}
use flux7_mesh.Proxy.Decide.{
  is_other, decide_named, handle_decide, decided, decide_reason, decide_as,
}

-- A decision that goes through.
abbrev pub GoesThrough : Decision → Type 0
GoesThrough d = (is_deny d.action ≡ false) × (needs_human d.action ≡ false)

module _ {N : Type 0} where
  asked_lem :
      (reason : Grant → Text) (c : Call N) (agent : Text) (d : Decision) (found : Option Grant)
      (m : Mesh N)
      → grant_for c.now agent c.tool m ≡ found
      → needs_human d.action ≡ true
      → IsLifted c agent d m
      → GoesThrough (lift_by_precedent c.precedent m (lift_by_grant reason found d)).decision
  unfolding lift_by_grant lift_by_precedent text_eq
  asked_lem reason c agent d (some g) m e asks l =
      rw (lift_by_grant, asks, lift_by_precedent) (refl, refl)
  asked_lem reason c agent d none m e asks (inl free) = absurd (ground arith)
  asked_lem reason c agent d none m e asks (inr (inl (g, found))) = absurd (ground arith)
  asked_lem reason c agent d none m e asks (inr (inr (on, (why, found)))) =
      rw (lift_by_grant, asks, lift_by_precedent, asks, on, found) (refl, refl)

  lifted_lem :
      (reason : Grant → Text) (c : Call N) (agent : Text) (d : Decision) (found : Option Grant)
      (m : Mesh N)
      → grant_for c.now agent c.tool m ≡ found
      → is_deny d.action ≡ false
      → IsLifted c agent d m
      → GoesThrough (lift_by_precedent c.precedent m (lift_by_grant reason found d)).decision
  unfolding lift_by_grant lift_by_precedent text_eq
  lifted_lem reason c agent d found m e fine l = elim (Bool-cases (needs_human d.action)) [
    | inr free ↦ rw (lift_by_grant, free, lift_by_precedent, free) (fine, free)
    | inl asks ↦ asked_lem reason c agent d found m e asks l
  ]

module _ {N : Type 0} (ops : FloatOps N) (show : Printer N) (mismatch : Text → Text → Text) where
  pub decide_as-IsPermitted :
      (c : Call N) (who : Identity) (params : Params N) (t : Tool) (m : Mesh N)
      → (halt_for c.now c.query who.agent_id c.session m).0 ≡ none
      → resolve_tool c.tool m.registry ≡ some t
      → IsPermitted ops c who.agent_id params t m
      → (d : Decision) × ((decide_as ops show mismatch c who params m).0 ≡ decided 200 d)
        × GoesThrough d
  unfolding decide_as ruling_on
  decide_as-IsPermitted c who params t m free found (fine, l) =
      let (s, kept) = halt_for-keeps c.now c.query who.agent_id c.session m in
      let r = ruling_on ops decide_reason c who.agent_id params (some t) m in
      let goes =
        lifted_lem decide_reason c who.agent_id
          (apply_floors m.pins (evaluate ops m.engine who.agent_id c.tool params) (some t))
          (grant_for c.now who.agent_id c.tool m) m refl fine l in
      let ruled =
        λ (x : Mesh N) (o : Option Tool). ruling_on ops decide_reason c who.agent_id params o x in
      let same : (let x = (halt_for c.now c.query who.agent_id c.session m).1 in
            ruled x (resolve_tool c.tool x.registry))
          ≡ r =
        ap (λ x. ruled x (resolve_tool c.tool x.registry)) kept
        ∙ ap (ruled (record m { halts = s })) found in
      (
        r.decision,
        rw (decide_as, free)
            (ap (λ x. decided (if is_deny x.decision.action then 403 else 200) x.decision) same
              ∙ ap (λ b. decided (if b then 403 else 200) r.decision) goes.0),
        goes,
      )

  decide_named-admitted :
      (c : Call N) (who : Identity) (params : Params N) (m : Mesh N)
      → (m.require_auth && text_eq who.agent_id anonymous) ≡ false
      → decide_named ops show mismatch c who params m ≡ decide_as ops show mismatch c who params m
  unfolding decide_named
  decide_named-admitted c who params m admitted = rw (decide_named, admitted) refl

  -- A body that names no agent, or the one of the credential, is decided for that agent.
  handle_decide-admitted :
      (label : Text) (c : Call N) (who : Identity) (params : Params N) (m : Mesh N)
      → is_empty c.tool ≡ false
      → is_other label who.agent_id ≡ false
      → resolve_identity c.authorization m.validator m.allow_legacy ≡ inr who
      → c.body ≡ some params
      → (m.require_auth && text_eq who.agent_id anonymous) ≡ false
      → handle_decide ops show mismatch label c m ≡ decide_as ops show mismatch c who params m
  unfolding handle_decide
  handle_decide-admitted label c who params m named same e body admitted =
      let goes = decide_named-admitted c who params m admitted in ground arith

  -- A call that is forwarded at once, without waiting for an approval, is one that `/decide` allows,
  -- asked in the same mesh for the same call with a body that names no agent or the one of the
  -- credential, and names the tool: it answers 200, with an action that neither denies the call nor
  -- asks for a human.
  pub handle_decide-handle_tool_call :
      (forward : Call N → Tool → Params N → Text → ℕ × Text) (c : Call N) (t : Tool) (status : ℕ)
      (m m' : Mesh N)
      → is_empty c.tool ≡ false
      → handle_tool_call ops show forward c m ≡ (forwarded t status, m')
      → (who : Identity) × (d : Decision) × (resolve_identity c.authorization m.validator
            m.allow_legacy
          ≡ inr who)
        × ((handle_decide ops show mismatch [] c m).0 ≡ decided 200 d)
        × ((handle_decide ops show mismatch who.agent_id c m).0 ≡ decided 200 d)
        × GoesThrough d
  handle_decide-handle_tool_call forward c t status m m' named h =
      let (who, params, e, admitted, body, free, found, _, permitted) =
        handle_tool_call_forwarded ops show forward c t status m m' h in
      let (d, answer, goes) = decide_as-IsPermitted c who params t m free found permitted in
      let own : is_other who.agent_id who.agent_id ≡ false =
        ground (arith, text_eq_refl who.agent_id) in
      (
        who,
        d,
        e,
        ap (λ x. x.0) (handle_decide-admitted [] c who params m named refl e body admitted)
            ∙ answer,
        ap (λ x. x.0) (handle_decide-admitted who.agent_id c who params m named own e body admitted)
            ∙ answer,
        goes,
      )
