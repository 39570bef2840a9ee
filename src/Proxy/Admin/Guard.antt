-- ===== src/Proxy/Admin/Guard.antt =====
-- What the guard of the control plane keeps from callers that are not authorized.
use flux7_mesh.Base.{
  ap, if◌then◌else◌, ◌∙◌, ◌||◌, has_prefix_iff, refl, sym, subst, inl, inr, true, Option, ℕ,
  text_eq, has_prefix, false, Bool, Text, codes, ◌≡◌, ◌⊎◌, ◌++◌, arith,
}
use flux7_mesh.Grant.{Duration}
use flux7_mesh.Proxy.Mesh.{Mesh}
use flux7_mesh.Proxy.Admin.{
  Route, no_route, is_open, route_of, Request, serve_http, admin_authorized, endpoint,
}

-- The route is guarded, or there is none.
abbrev pub IsGuarded : Route → Type 0
IsGuarded route = (is_open route ≡ false) ⊎ (route ≡ no_route)

route_of-grants :
    (mcp_on : Bool) (method rest : Text)
    → IsGuarded (route_of mcp_on method (codes "/grants" ++ rest))
unfolding route_of has_prefix text_eq
route_of-grants mcp_on method rest = ground arith

route_of-approvals :
    (mcp_on : Bool) (method rest : Text)
    → IsGuarded (route_of mcp_on method (codes "/approvals" ++ rest))
unfolding route_of has_prefix text_eq
route_of-approvals mcp_on method rest = ground arith

route_of-halts :
    (mcp_on : Bool) (method rest : Text)
    → IsGuarded (route_of mcp_on method (codes "/halts" ++ rest))
unfolding route_of has_prefix text_eq
route_of-halts mcp_on method rest = ground arith

-- A path under one of the collections that operators alone may change.
abbrev pub IsOperators : Text → Type 0
IsOperators path =
    (has_prefix path (codes "/grants") ≡ true)
    ⊎ ((has_prefix path (codes "/approvals") ≡ true) ⊎ (has_prefix path (codes "/halts") ≡ true))

operators-IsGuarded :
    (mcp_on : Bool) (method path : Text)
    → IsOperators path
    → IsGuarded (route_of mcp_on method path)
operators-IsGuarded mcp_on method path (inl h) =
    let (rest, e) = (has_prefix_iff path (codes "/grants")).0 h in
    subst (λ p. IsGuarded (route_of mcp_on method p)) (sym e) (route_of-grants mcp_on method rest)
operators-IsGuarded mcp_on method path (inr (inl h)) =
    let (rest, e) = (has_prefix_iff path (codes "/approvals")).0 h in
    subst (λ p. IsGuarded (route_of mcp_on method p)) (sym e)
      (route_of-approvals mcp_on method rest)
operators-IsGuarded mcp_on method path (inr (inr h)) =
    let (rest, e) = (has_prefix_iff path (codes "/halts")).0 h in
    subst (λ p. IsGuarded (route_of mcp_on method p)) (sym e) (route_of-halts mcp_on method rest)

module _ {N : Type 0} (is_loopback : Text → Bool) (parse_duration : Text → Option Duration)
    (others : Route → Request N → Mesh N → ℕ × Mesh N) where
  by_guard :
      (mcp_on : Bool) (token : Text) (r : Request N) (m : Mesh N)
      → admin_authorized is_loopback token r ≡ false
      → IsGuarded (route_of mcp_on r.method r.path)
      → (serve_http is_loopback parse_duration others mcp_on token r m).1 ≡ m
  unfolding serve_http endpoint
  by_guard mcp_on token r m unknown (inl guarded) = rw (serve_http, guarded, unknown) refl
  by_guard mcp_on token r m unknown (inr missing) =
      ap
        (λ route.
          (if is_open route || admin_authorized is_loopback token r
            then endpoint is_loopback parse_duration others route r m
            else (401, m)).1)
        missing
      ∙ refl

  -- Over HTTP, a request under /grants, /approvals or /halts changes nothing in the mesh, whatever its
  -- method and body, unless its caller is authorized: by the admin token, or from the loopback address
  -- where no token is set. What the other endpoints do is any function.
  pub serve_http_unauthorized :
      (mcp_on : Bool) (token : Text) (r : Request N) (m : Mesh N)
      → IsOperators r.path
      → admin_authorized is_loopback token r ≡ false
      → (serve_http is_loopback parse_duration others mcp_on token r m).1 ≡ m
  serve_http_unauthorized mcp_on token r m path unknown =
      by_guard mcp_on token r m unknown (operators-IsGuarded mcp_on r.method r.path path)
