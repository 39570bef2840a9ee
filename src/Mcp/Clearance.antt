-- ===== src/Mcp/Clearance.antt =====
-- What a call over MCP went through that ran without a wait.
use flux7_mesh.Proxy.Calls.{is_deny, needs_human}
use flux7_mesh.Proxy.Mesh.{Printer}
use flux7_mesh.Proxy.Calls.Passage.{halt_for-keeps}
use flux7_mesh.Mcp.Calls.{
  ask_approval, call_registered, run_allowed, decide_call, lift_precedent, stop_for,
}
use flux7_mesh.Registry.{Registry, resolve_tool}
use flux7_mesh.Base.{
  ap, false, true, ◌≡◌, refl, sym, ◌∙◌, ◌⊎◌, inl, inr, Option, none, some, arith, Bool-cases,
  Option-cases, Text, is_some,
}
use flux7_mesh.Mcp.{
  invalid_params, decision_on, Tool, Backend, Decision, Params, FloatOps, Server, Request, failed,
  ran,
}
use flux7_mesh.Mcp.Ways.{ask_approval_ran, IsApprovedAtTerminal, HasApproval}
use flux7_mesh.Registry
use flux7_mesh.Halt

get-resolve_tool :
    (name : Text) (r : Registry) (t : Tool)
    → Registry.get name r ≡ some t
    → resolve_tool name r ≡ some t
unfolding resolve_tool
get-resolve_tool name r t h = rw (resolve_tool, h) refl

module _ {N : Type 0} where
  -- A precedent of the approval store approves the call.
  abbrev pub HasPrecedent : Request N → Server N → Type 0
  HasPrecedent q s =
      (is_some s.mesh.approvals ≡ true) × ((reason : Text) × (q.precedent ≡ some reason))

  precedent_lem :
      (q : Request N) (s : Server N) (d : Decision)
      → needs_human d.action ≡ true
      → needs_human (lift_precedent q s d).action ≡ false
      → HasPrecedent q s
  unfolding lift_precedent
  precedent_lem q s d asks h = elim (Bool-cases (is_some s.mesh.approvals)) [
    | inr off ↦ absurd (ground arith)
    | inl on ↦ elim (Option-cases q.precedent) [
      | inl e ↦ absurd (ground arith)
      | inr found ↦ (on, found)
    ]
  ]

  pub stop_for-keeps :
      (q : Request N) (s : Server N)
      → (h : Option Halt.Store) × ((stop_for q s).1
          ≡ record s { mesh = record s.mesh { halts = h } })
  unfolding stop_for
  stop_for-keeps q s = elim (Bool-cases s.with_handler) [
    | inr bare ↦ (s.mesh.halts, ground arith)
    | inl has ↦
        let (h, kept) = halt_for-keeps q.now q.query s.agent_id s.session_id s.mesh in
        (h, ground arith)
  ]

module _ {N : Type 0} (ops : FloatOps N) (marshal : Params N → Option Text) where
  -- The tool is the one that the name stands for, and the floored policy does not deny the call. It
  -- asks for no human, or a precedent, the user at the terminal or an approval answers for one.
  abbrev pub IsCleared : Request N → Tool → Server N → Type 0
  IsCleared q t s =
      (resolve_tool q.name s.mesh.registry ≡ some t)
      × (is_deny (decision_on ops s q.name q.arguments t).action ≡ false)
      × ((needs_human (decision_on ops s q.name q.arguments t).action ≡ false)
          ⊎ (HasPrecedent q s ⊎ (IsApprovedAtTerminal marshal q s ⊎ HasApproval marshal q s)))

  run_allowed_ran :
      (forward : Backend N) (q : Request N) (d : Decision) (u : Tool) (s : Server N) (t : Tool)
      (args : Params N) (agent err : Text)
      → (run_allowed forward q d u s).0 ≡ ran t args agent err
      → (u ≡ t) × (args ≡ q.arguments) × (agent ≡ s.agent_id)
  unfolding run_allowed
  run_allowed_ran forward q d u s t args agent err h = ground arith

  decide_call_ran :
      (forward : Backend N) (q : Request N) (u : Tool) (s : Server N) (t : Tool) (args : Params N)
      (agent err : Text)
      → resolve_tool q.name s.mesh.registry ≡ some u
      → (decide_call ops marshal forward q u s).0 ≡ ran t args agent err
      → IsCleared q t s × (args ≡ q.arguments) × (agent ≡ s.agent_id)
  unfolding decide_call
  decide_call_ran forward q u s t args agent err found h =
      let d = decision_on ops s q.name q.arguments u in
      let lifted = lift_precedent q s d in
      elim (Bool-cases (is_deny d.action)) [
        | inl stops ↦ absurd (ground arith)
        | inr fine ↦ elim (Bool-cases (needs_human lifted.action)) [
          | inl asks ↦
              let goes : (decide_call ops marshal forward q u s).0
                  ≡ (ask_approval marshal forward q lifted u s).0 =
                ground arith in
              let (way, args_same, agent_same) =
                ask_approval_ran marshal forward q lifted u s t args agent err (sym goes ∙ h) in
              elim way [
                | inl (terminal, same) ↦
                    ((rw same found, rw same fine, inr (inr (inl terminal))), args_same, agent_same)
                | inr (has, tool) ↦
                    let named = get-resolve_tool q.name s.mesh.registry t tool in
                    let same : t ≡ u = ground arith in
                    ((named, rw same fine, inr (inr (inr has))), args_same, agent_same)
              ]
          | inr free ↦
              let goes : (decide_call ops marshal forward q u s).0
                  ≡ (run_allowed forward q lifted u s).0 =
                ground arith in
              let (same, args_same, agent_same) =
                run_allowed_ran forward q lifted u s t args agent err (sym goes ∙ h) in
              elim (Bool-cases (needs_human d.action)) [
                | inr quiet ↦ (
                  (rw (← same) found, rw (← same) fine, inl (rw (← same) quiet)),
                  args_same,
                  agent_same,
                )
                | inl asks ↦ (
                  (rw (← same) found, rw (← same) fine, inr (inl (precedent_lem q s d asks free))),
                  args_same,
                  agent_same,
                )
              ]
        ]
      ]

module _ {N : Type 0} (ops : FloatOps N) (show : Printer N) (marshal : Params N → Option Text)
    (forward : Backend N) where
  -- A tools/call of a registered tool that runs at once, without blocking on its approval or waiting
  -- for it, is covered by no active halt, runs the tool that its name stands for, with the arguments
  -- that were sent and for the agent that sent them; its decision, floored, is no denial, and where it
  -- asks for a human a precedent, the user at the terminal or an unused approval of exactly this call
  -- answers. Calls that run after a wait, and those that approval.resolve runs, are not meant.
  pub call_registered_ran :
      (q : Request N) (s : Server N) (t : Tool) (args : Params N) (agent err : Text)
      → (call_registered ops show marshal forward q s).0 ≡ ran t args agent err
      → ((stop_for q s).0 ≡ none)
        × IsCleared ops marshal q t s
        × (args ≡ q.arguments)
        × (agent ≡ s.agent_id)
  unfolding call_registered
  call_registered_ran q s t args agent err h = elim (Option-cases (stop_for q s).0) [
    | inr (stop, e) ↦ absurd (ground arith)
    | inl e ↦
        let (halts, kept) = stop_for-keeps q s in
        let s' = record s { mesh = record s.mesh { halts = halts } } in
        elim (Option-cases (resolve_tool q.name s.mesh.registry)) [
          | inl missing ↦
              let stops : (call_registered ops show marshal forward q s).0 ≡ failed invalid_params =
                rw (call_registered, e, kept, missing) refl in
              absurd (ground arith)
          | inr (u, found) ↦
              let goes : (call_registered ops show marshal forward q s).0
                  ≡ (decide_call ops marshal forward q u s').0 =
                rw (call_registered, e, kept, found)
                  (ap (λ x. (decide_call ops marshal forward q u x).0) kept) in
              let (cleared, args_same, agent_same) =
                decide_call_ran ops marshal forward q u s' t args agent err found (sym goes ∙ h) in
              (e, cleared, args_same, agent_same)
        ]
  ]
