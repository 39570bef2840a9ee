-- ===== src/Proxy/Calls/Authority.antt =====
-- What lets a call through.
use flux7_mesh.Base.{
  ℕ, ◌≡◌, ◌≢◌, refl, sym, ◌∙◌, ap, ◌⊎◌, inl, inr, true, false, Option, none, some, arith,
  Bool-cases, Option-cases, Text, is_some,
}
use flux7_mesh.Policy.Value.{FloatOps, Params}
use flux7_mesh.Policy.Engine.{Decision, evaluate}
use flux7_mesh.Registry.{Tool}
use flux7_mesh.Grant.{Grant}
use flux7_mesh.RateLimit.{Limiter}
use flux7_mesh.Identity.{Identity}
use flux7_mesh.Proxy.Mesh.{Mesh, Call, Printer}
use flux7_mesh.Proxy.Floors.{apply_floors}
use flux7_mesh.Proxy.Calls.{
  refused, forwarded, is_deny, needs_human, Ruling, grant_for, lift_by_grant, lift_by_precedent,
  ruling_on, ask_human, forward_call, enforce, rate_check, call_tool,
}

module _ {N : Type 0} where
  -- The decision is none that waits for a human, or a grant covers the call, or a precedent does.
  abbrev pub IsLifted : Call N → Text → Decision → Mesh N → Type 0
  IsLifted c agent d m =
      (needs_human d.action ≡ false)
      ⊎ (((g : Grant) × (grant_for c.now agent c.tool m ≡ some g))
          ⊎ ((is_some m.approvals ≡ true) × ((reason : Text) × (c.precedent ≡ some reason))))

  precedent_lem :
      (c : Call N) (m : Mesh N) (r : Ruling)
      → needs_human r.decision.action ≡ true
      → needs_human (lift_by_precedent c.precedent m r).decision.action ≡ false
      → (is_some m.approvals ≡ true) × ((reason : Text) × (c.precedent ≡ some reason))
  unfolding lift_by_precedent
  precedent_lem c m r asks h = elim (Bool-cases (is_some m.approvals)) [
    | inr off ↦ absurd (ground arith)
    | inl on ↦ elim (Option-cases c.precedent) [
      | inl e ↦ absurd (ground arith)
      | inr found ↦ (on, found)
    ]
  ]

  pub ask_human_stops :
      (c : Call N) (who : Identity) (params : Params N) (d : Decision) (m : Mesh N) (t : Tool)
      (status : ℕ) (m' : Mesh N)
      → ask_human c who params d m ≢ (forwarded t status, m')
  unfolding ask_human
  ask_human_stops c who params d m t status m' h = ground arith

  lift_lem :
      (reason : Grant → Text) (c : Call N) (agent : Text) (d : Decision) (found : Option Grant)
      (m : Mesh N)
      → grant_for c.now agent c.tool m ≡ found
      → needs_human (lift_by_precedent c.precedent m (lift_by_grant reason found d)).decision.action
        ≡ false
      → IsLifted c agent d m
  unfolding lift_by_grant
  lift_lem reason c agent d (some g) m e h = inr (inl (g, e))
  lift_lem reason c agent d none m e h = elim (Bool-cases (needs_human d.action)) [
    | inr free ↦ inl free
    | inl asks ↦ inr (inr (precedent_lem c m (lift_by_grant reason none d) (ground arith) h))
  ]

module _ {N : Type 0} (ops : FloatOps N) where
  -- The floored policy does not deny the call, and it is lifted if it waits for a human.
  abbrev pub IsPermitted : Call N → Text → Params N → Tool → Mesh N → Type 0
  IsPermitted c agent params t m =
      let d = apply_floors m.pins (evaluate ops m.engine agent c.tool params) (some t) in
      (is_deny d.action ≡ false) × IsLifted c agent d m

module _ {N : Type 0} (ops : FloatOps N) (show : Printer N)
    (forward : Call N → Tool → Params N → Text → ℕ × Text) where
  forward_call_tool :
      (c : Call N) (who : Identity) (params : Params N) (t u : Tool) (r : Ruling) (status : ℕ)
      (m m' : Mesh N)
      → forward_call show forward c who params t r m ≡ (forwarded u status, m')
      → u ≡ t
  unfolding forward_call
  forward_call_tool c who params t u r status m m' h = ground arith

  enforce_forwarded :
      (c : Call N) (who : Identity) (params : Params N) (t u : Tool) (status : ℕ) (m m' : Mesh N)
      → enforce ops show forward c who params t m ≡ (forwarded u status, m')
      → (u ≡ t) × IsPermitted ops c who.agent_id params t m
  unfolding enforce ruling_on
  enforce_forwarded c who params t u status m m' h =
      let d = apply_floors m.pins (evaluate ops m.engine who.agent_id c.tool params) (some t) in
      let r = ruling_on ops show.grant_text c who.agent_id params (some t) m in
      elim (Bool-cases (is_deny d.action)) [
        | inl denied ↦
            let stops : (enforce ops show forward c who params t m).0 ≡ refused 403 =
              rw (denied, enforce) refl in
            absurd (ground arith)
        | inr fine ↦ elim (Bool-cases (needs_human r.decision.action)) [
          | inl asks ↦
              let stops : enforce ops show forward c who params t m
                  ≡ ask_human c who params r.decision m =
                rw (fine, asks, enforce) refl in
              absurd (ask_human_stops c who params r.decision m u status m' (sym stops ∙ h))
          | inr lifted ↦
              let goes : enforce ops show forward c who params t m
                  ≡ forward_call show forward c who params t r m =
                rw (fine, lifted, enforce) refl in
              (
                forward_call_tool c who params t u r status m m' (sym goes ∙ h),
                (
                  fine,
                  lift_lem show.grant_text c who.agent_id d (grant_for c.now who.agent_id c.tool m)
                      m refl lifted,
                ),
              )
        ]
      ]

  rate_check-keeps :
      (c : Call N) (agent : Text) (params : Params N) (m : Mesh N)
      → (l : Option Limiter) × ((rate_check ops show c agent params m).1 ≡ record m { limiter = l })
  unfolding rate_check
  rate_check-keeps c agent params m = elim (Option-cases m.limiter) [
    | inl e ↦ (none, rw (rate_check, e) (ap (λ l. record m { limiter = l }) e))
    | inr (l, e) ↦ ((rate_check ops show c agent params m).1.limiter, rw (rate_check, e) refl)
  ]

  pub call_tool_forwarded :
      (c : Call N) (who : Identity) (params : Params N) (t u : Tool) (status : ℕ) (m m' : Mesh N)
      → call_tool ops show forward c who params t m ≡ (forwarded u status, m')
      → (u ≡ t)
        × ((rate_check ops show c who.agent_id params m).0 ≡ none)
        × IsPermitted ops c who.agent_id params t m
  unfolding call_tool
  call_tool_forwarded c who params t u status m m' h =
      elim (Option-cases (rate_check ops show c who.agent_id params m).0) [
        | inr (denied, e) ↦
            let stops : (call_tool ops show forward c who params t m).0 ≡ refused 429 =
              rw (call_tool, e) refl in
            absurd (ground arith)
        | inl e ↦
            let (l, kept) = rate_check-keeps c who.agent_id params m in
            let goes : call_tool ops show forward c who params t m
                ≡ enforce ops show forward c who params t (record m { limiter = l }) =
              rw (call_tool, e) (ap (enforce ops show forward c who params t) kept) in
            let (same, permitted) =
              enforce_forwarded c who params t u status (record m { limiter = l }) m'
                (sym goes ∙ h) in
            (same, e, permitted)
      ]
