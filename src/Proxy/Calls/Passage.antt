-- ===== src/Proxy/Calls/Passage.antt =====
-- What a call went through that was forwarded without a wait.
use flux7_mesh.Base.{
  ℕ, ◌≡◌, refl, sym, ◌∙◌, ap, ◌⊎◌, inl, inr, false, ◌&&◌, Option, none, some, arith, Bool-cases,
  Option-cases, Text, text_eq,
}
use flux7_mesh.Policy.Value.{FloatOps, Params}
use flux7_mesh.Registry.{Tool, resolve_tool}
use flux7_mesh.Halt.{Query}
use flux7_mesh.Halt
use flux7_mesh.Identity.{Identity, AuthError, resolve_identity, anonymous}
use flux7_mesh.Proxy.Mesh.{Mesh, Call, Printer, halt_for}
use flux7_mesh.Proxy.Calls.{refused, forwarded, rate_check, call_tool, call_as, handle_tool_call}
use flux7_mesh.Proxy.Calls.Authority.{IsPermitted, call_tool_forwarded}

module _ {N : Type 0} where
  pub halt_for-keeps :
      (now : ℕ) (query : Query) (agent session : Text) (m : Mesh N)
      → (s : Option Halt.Store) × ((halt_for now query agent session m).1 ≡ record m { halts = s })
  unfolding halt_for
  halt_for-keeps now query agent session m = elim (Option-cases m.halts) [
    | inl e ↦ (none, rw (halt_for, e) (ap (λ s. record m { halts = s }) e))
    | inr (s, e) ↦ ((halt_for now query agent session m).1.halts, rw (halt_for, e) refl)
  ]

module _ {N : Type 0} (ops : FloatOps N) (show : Printer N)
    (forward : Call N → Tool → Params N → Text → ℕ × Text) where
  call_as_forwarded :
      (c : Call N) (who : Identity) (params : Params N) (t : Tool) (status : ℕ) (m m' : Mesh N)
      → call_as ops show forward c who params m ≡ (forwarded t status, m')
      → let (found, after) = halt_for c.now c.query who.agent_id c.session m in
        (found ≡ none)
        × (resolve_tool c.tool m.registry ≡ some t)
        × ((rate_check ops show c who.agent_id params after).0 ≡ none)
        × IsPermitted ops c who.agent_id params t m
  unfolding call_as
  call_as_forwarded c who params t status m m' h =
      let halting = halt_for c.now c.query who.agent_id c.session m in
      elim (Option-cases halting.0) [
        | inr (stop, e) ↦
            let stops : (call_as ops show forward c who params m).0 ≡ refused 403 =
              rw (call_as, e) refl in
            absurd (ground arith)
        | inl e ↦
            let (s, kept) = halt_for-keeps c.now c.query who.agent_id c.session m in
            elim (Option-cases (resolve_tool c.tool m.registry)) [
              | inl missing ↦
                  let stops : (call_as ops show forward c who params m).0 ≡ refused 404 =
                    rw (call_as, e, kept, missing) refl in
                  absurd (ground arith)
              | inr (u, found) ↦
                  let goes : call_as ops show forward c who params m
                      ≡ call_tool ops show forward c who params u (record m { halts = s }) =
                    rw (call_as, e, kept, found)
                      (ap (call_tool ops show forward c who params u) kept) in
                  let (same, rate, permitted) =
                    call_tool_forwarded ops show forward c who params u t status
                      (record m { halts = s }) m' (sym goes ∙ h) in
                  (e, rw same found, rw kept rate, rw same permitted)
            ]
      ]

  -- What a call with the tool went through.
  abbrev pub HasPassed : Call N → Tool → Mesh N → Type 0
  HasPassed c t m =
      (who : Identity) × (params : Params N) × (resolve_identity c.authorization m.validator
          m.allow_legacy
        ≡ inr who)
      × ((m.require_auth && text_eq who.agent_id anonymous) ≡ false)
      × (c.body ≡ some params)
      × ((halt_for c.now c.query who.agent_id c.session m).0 ≡ none)
      × (resolve_tool c.tool m.registry ≡ some t)
      × ((rate_check ops show c who.agent_id params
            (halt_for c.now c.query who.agent_id c.session m).1).0
          ≡ none)
      × IsPermitted ops c who.agent_id params t m

  passed :
      (c : Call N) (t : Tool) (status : ℕ) (m m' : Mesh N) (r : AuthError ⊎ Identity)
      → resolve_identity c.authorization m.validator m.allow_legacy ≡ r
      → handle_tool_call ops show forward c m ≡ (forwarded t status, m')
      → HasPassed c t m
  unfolding handle_tool_call
  passed c t status m m' (inl err) e h =
      let stops : (handle_tool_call ops show forward c m).0 ≡ refused 401 =
        rw (handle_tool_call, e) refl in
      absurd (ground arith)
  passed c t status m m' (inr who) e h =
      elim (Bool-cases (m.require_auth && text_eq who.agent_id anonymous)) [
        | inl unnamed ↦
            let stops : (handle_tool_call ops show forward c m).0 ≡ refused 401 =
              rw (handle_tool_call, e, unnamed) refl in
            absurd (ground arith)
        | inr admitted ↦ elim (Option-cases c.body) [
          | inl missing ↦
              let stops : (handle_tool_call ops show forward c m).0 ≡ refused 400 =
                rw (handle_tool_call, e, admitted, missing) refl in
              absurd (ground arith)
          | inr (params, body) ↦
              let goes : handle_tool_call ops show forward c m
                  ≡ call_as ops show forward c who params m =
                rw (handle_tool_call, e, admitted)
                  (ap
                    (λ b. elim b [
                      | none ↦ (refused 400, m)
                      | some ps ↦ call_as ops show forward c who ps m
                    ])
                    body) in
              let (free, tool, rate, permitted) =
                call_as_forwarded c who params t status m m' (sym goes ∙ h) in
              (who, params, e, admitted, body, free, tool, rate, permitted)
        ]
      ]

  -- A call that is forwarded at once, without waiting for an approval, came with an identity, not
  -- anonymous where authentication is required, and with a body that is JSON; no active halt covers
  -- it; its tool is the one that the name stands for; the rate limiter, if there is one, did not deny
  -- it; and its decision, floored, is no denial, and asks for no human unless a grant or a precedent
  -- lifts it. A call that waits for an approval, and what it does after the wait, is not meant.
  pub handle_tool_call_forwarded :
      (c : Call N) (t : Tool) (status : ℕ) (m m' : Mesh N)
      → handle_tool_call ops show forward c m ≡ (forwarded t status, m')
      → HasPassed c t m
  handle_tool_call_forwarded c t status m m' h =
      passed c t status m m' (resolve_identity c.authorization m.validator m.allow_legacy) refl h
