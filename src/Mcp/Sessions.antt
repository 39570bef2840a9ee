-- ===== src/Mcp/Sessions.antt =====
-- mcp/http_server.go: the sessions over HTTP. The servers of all sessions share the stores of one
-- mesh, so that a session is the identity that opened it; the fresh session ID is a field of the
-- request. A request whose body is no JSON has no method.
pub mod Ownership
use flux7_mesh.Mcp.{Server}
use flux7_mesh.Base.{
  insert, delete, Map, is_empty, lookup, text_eq, inl, inr, not, none, some, [], Bool, Option, ℕ,
  if◌then◌else◌, Text, codes, ◌⊎◌, ◌&&◌,
}
use flux7_mesh.Identity.{anonymous, Identity, resolve_identity, Validate}

-- `template` has what `getOrCreateSession` copies into each server.
pub record HttpHandler (N : Type 0) : Type 0 where
  pub template : Server N
  pub require_auth : Bool
  pub validator : Option Validate
  pub allow_legacy : Bool
  pub sessions : Map Identity

pub record HttpRequest : Type 0 where
  pub authorization : Text
  pub session : Text
  pub method : Option Text
  pub fresh : Text

abbrev pub same_identity : Identity → Identity → Bool
same_identity a b = text_eq a.agent_id b.agent_id && text_eq a.user_id b.user_id

abbrev pub is_refused_anonymous : Bool → Identity → Bool
is_refused_anonymous require_auth who = require_auth && text_eq who.agent_id anonymous

module _ {N : Type 0} where
  abbrev pub server_for : HttpHandler N → Text → Identity → Server N
  server_for h id who = record h.template {
    agent_id = who.agent_id;
    user_id = who.user_id;
    session_id = id;
  }

  unfoldable pub get_or_create_session :
      Text → Text → Identity → HttpHandler N → Server N × HttpHandler N
  get_or_create_session fresh id who h = elim (if is_empty id then none else lookup id h.sessions) [
    | some owner ↦ (server_for h id owner, h)
    | none ↦ (server_for h fresh who, record h { sessions = insert fresh who h.sessions })
  ]

  -- Why a request that opens no session is refused, if it is.
  unfoldable pub check_session : Text → Identity → HttpHandler N → Option ℕ
  unfolding text_eq
  check_session id who h = elim (lookup id h.sessions) [
    | none ↦ some 404
    | some owner ↦ if same_identity owner who then none else some 403
  ]

  unfoldable pub post_as :
      Text → Identity → HttpRequest → HttpHandler N → (ℕ ⊎ Server N) × HttpHandler N
  unfolding check_session get_or_create_session text_eq
  post_as method who r h =
      let opens = text_eq method (codes "initialize") in
      let id = if opens then [] else r.session in
      let (server, h') = get_or_create_session r.fresh id who h in
      if not opens && is_empty id
      then (inl 400, h)
      else if is_refused_anonymous h.require_auth who
      then (inl 401, h)
      else elim (if opens then none else check_session id who h) [
        | some status ↦ (inl status, h)
        | none ↦ (inr server, h')
      ]

  -- The status of a refusal, or the server that handles the request.
  unfoldable pub handle_post : HttpRequest → HttpHandler N → (ℕ ⊎ Server N) × HttpHandler N
  unfolding post_as resolve_identity
  handle_post r h = elim r.method [
    | none ↦ (inl 400, h)
    | some method ↦ elim (resolve_identity r.authorization h.validator h.allow_legacy) [
      | inl e ↦ (inl 401, h)
      | inr who ↦ post_as method who r h
    ]
  ]

  unfoldable pub delete_as : Identity → HttpRequest → HttpHandler N → ℕ × HttpHandler N
  unfolding text_eq
  delete_as who r h =
      if is_refused_anonymous h.require_auth who
      then (401, h)
      else elim (lookup r.session h.sessions) [
        | none ↦ (404, h)
        | some owner ↦
            if same_identity owner who
            then (204, record h { sessions = delete r.session h.sessions })
            else (403, h)
      ]

  unfoldable pub handle_delete : HttpRequest → HttpHandler N → ℕ × HttpHandler N
  unfolding delete_as resolve_identity
  handle_delete r h =
      if is_empty r.session
      then (400, h)
      else elim (resolve_identity r.authorization h.validator h.allow_legacy) [
        | inl e ↦ (401, h)
        | inr who ↦ delete_as who r h
      ]
