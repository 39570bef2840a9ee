-- ===== src/Mcp/Hidden.antt =====
-- What mcp/server.go hides from an agent can not be called by it.
use flux7_mesh.Policy.Tighten.{is_no_floor, tighten, action_severity}
use flux7_mesh.Proxy.Calls.{is_deny}
use flux7_mesh.Base.{
  leb, sym, ap, Bool-cases, if◌then◌else◌, text_eq_iff, ◌≡◌, ◌∙◌, inl, inr, some, arith, true, List,
  [], ◌∷◌, Any,
}
use flux7_mesh.Policy.Value.{FloatOps, Params}
use flux7_mesh.Policy.Engine.{action_text, evaluate, explain, Action, Decision, ConditionalRule}
use flux7_mesh.Policy.Engine.Explain.{evaluate-IsForetold, IsOf}
use flux7_mesh.Pin.{status_floor, Status}
use flux7_mesh.Registry.{Tool, dispatch_floor}
use flux7_mesh.Proxy.Floors.{pin_status, apply_floors, apply_pin, join_floors}
use flux7_mesh.Mcp.{tool_floor, apply_tool_floors, decision_on, Server}
use flux7_mesh.Proxy.Floors
use flux7_mesh.Mcp.Catalog.{final_action, all_denied, denied_only}

-- The action of a decision below a floor.
abbrev stricter : Action → Action → Action
stricter a f =
    if is_no_floor f then a else if leb (action_severity f) (action_severity a) then a else f

tighten_action : (d : Decision) (f : Action) → (tighten d f).action ≡ stricter d.action f
unfolding tighten
tighten_action d f = ground arith

stricter-join_floors : (a f g : Action) → stricter (stricter a f) g ≡ stricter a (join_floors f g)
unfolding join_floors
stricter-join_floors a f g =
    ground (arith, tighten_action (record { action = f; rule = []; reason = [] }) g)

apply_pin-deny :
    (t : Tool) (st : Status) (d : Decision)
    → is_deny (apply_pin t st d).action ≡ is_deny (tighten d (status_floor st)).action
unfolding apply_pin
apply_pin-deny t st d = elim (Bool-cases (is_no_floor (status_floor st))) [
  | inl free ↦
      let same : (tighten d (status_floor st)).action ≡ d.action =
        ground (arith, tighten_action d (status_floor st)) in
      rw (apply_pin, free) (ap is_deny (sym same))
  | inr bound ↦
      ground (
        arith,
        text_eq_iff (action_text (tighten d (status_floor st)).action) (action_text d.action),
      )
]

-- One floor after the other denies what the stricter of both denies.
two_floors :
    (t : Tool) (st : Status) (f : Action) (d : Decision)
    → is_deny (apply_pin t st (tighten d f)).action
      ≡ is_deny (final_action (join_floors f (status_floor st)) d.action)
two_floors t st f d =
    let least = status_floor st in
    apply_pin-deny t st (tighten d f)
    ∙ ap is_deny (
        tighten_action (tighten d f) least
        ∙ ap (λ a. stricter a least) (tighten_action d f)
        ∙ stricter-join_floors d.action f least
        ∙ sym (
            tighten_action (record { action = d.action; rule = []; reason = [] })
              (join_floors f least)))

all_denied_lem :
    (least : Action) (d : Decision) (cs : List ConditionalRule)
    → all_denied least cs ≡ true
    → Any (IsOf d) cs
    → is_deny (final_action least d.action) ≡ true
unfolding all_denied
all_denied_lem least d [] h listed = absurd listed
all_denied_lem least d (c ∷ cs) h (inl (act, rule)) = rw act (ground arith)
all_denied_lem least d (c ∷ cs) h (inr later) = all_denied_lem least d cs (ground arith) later

module _ {N : Type 0} where
  apply_tool_floors-deny :
      (s : Server N) (d : Decision) (t : Tool)
      → is_deny (apply_tool_floors s d t).action ≡ is_deny (final_action (tool_floor s t) d.action)
  unfolding apply_tool_floors tool_floor apply_floors Floors.floor
  apply_tool_floors-deny s d t = elim (Bool-cases s.with_handler) [
    | inl has ↦
        rw (apply_tool_floors, tool_floor, has)
          (two_floors t (pin_status t.name s.mesh.pins) (dispatch_floor (some t)) d)
    | inr bare ↦
        rw (apply_tool_floors, tool_floor, bare)
          (ap is_deny (
            tighten_action d (dispatch_floor (some t))
            ∙ sym (
                tighten_action (record { action = d.action; rule = []; reason = [] })
                  (dispatch_floor (some t)))))
  ]

module _ {N : Type 0} (ops : FloatOps N) where
  -- A tool that is hidden is denied, whatever the arguments.
  pub denied_only-decision_on :
      (s : Server N) (t : Tool) (args : Params N)
      → denied_only s t ≡ true
      → is_deny (decision_on ops s t.name args t).action ≡ true
  unfolding denied_only decision_on
  denied_only-decision_on s t args h =
      let d = evaluate ops s.mesh.engine s.agent_id t.name args in
      let closed : is_deny (final_action (tool_floor s t) d.action) ≡ true =
        elim (evaluate-IsForetold ops s.agent_id t.name args s.mesh.engine) [
          | inl listed ↦
              all_denied_lem (tool_floor s t) d
                (explain s.mesh.engine s.agent_id t.name).conditional (ground arith) listed
          | inr (act, rule) ↦ rw act (ground arith)
        ] in
      apply_tool_floors-deny s d t ∙ closed
