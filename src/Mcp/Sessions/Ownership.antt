-- ===== src/Mcp/Sessions/Ownership.antt =====
-- A session over HTTP serves and obeys the identity that opened it alone.
use flux7_mesh.Mcp.Sessions.{
  handle_delete, handle_post, delete_as, is_refused_anonymous, HttpHandler, HttpRequest,
  check_session, get_or_create_session, same_identity, post_as,
}
use flux7_mesh.Base.{
  Sum-cases, sym, ap, ◌∙◌, lookup-delete, ◌≢◌, text_eq_refl, lookup-insert, lookup, text_eq,
  text_eq_iff, inl, inr, true, false, some, arith, Bool-cases, Option-cases, Text, codes, ◌≡◌,
}
use flux7_mesh.Identity.{resolve_identity, Identity}
use flux7_mesh.Mcp.{Server}
use mathlib.Core.Path.{ap₂}

abbrev identity_of : {N : Type 0} → Server N → Identity
identity_of s = record { agent_id = s.agent_id; user_id = s.user_id }

same_identity_eq : (a b : Identity) → same_identity a b ≡ true → a ≡ b
same_identity_eq a b h =
    let agents = (text_eq_iff a.agent_id b.agent_id).0 (ground arith) in
    let users = (text_eq_iff a.user_id b.user_id).0 (ground arith) in
    ap₂ (λ agent user. record { agent_id = agent; user_id = user }) agents users

module _ {N : Type 0} where
  post_as_opens :
      (method : Text) (who : Identity) (r : HttpRequest) (h h' : HttpHandler N) (s : Server N)
      → text_eq method (codes "initialize") ≡ true
      → post_as method who r h ≡ (inr s, h')
      → (identity_of s ≡ who)
        × (is_refused_anonymous h.require_auth who ≡ false)
        × (lookup s.session_id h'.sessions ≡ some who)
  unfolding post_as get_or_create_session
  post_as_opens method who r h h' s opens served =
      let kept = lookup-insert r.fresh r.fresh who h.sessions in
      let same = text_eq_refl r.fresh in ground arith

  post_as_continues :
      (method : Text) (who : Identity) (r : HttpRequest) (h h' : HttpHandler N) (s : Server N)
      → text_eq method (codes "initialize") ≡ false
      → post_as method who r h ≡ (inr s, h')
      → (identity_of s ≡ who)
        × (is_refused_anonymous h.require_auth who ≡ false)
        × (lookup s.session_id h'.sessions ≡ some who)
  unfolding post_as get_or_create_session check_session
  post_as_continues method who r h h' s continues served =
      elim (Option-cases (lookup r.session h.sessions)) [
        | inl unknown ↦ absurd (ground arith)
        | inr (owner, found) ↦ elim (Bool-cases (same_identity owner who)) [
          | inr other ↦ absurd (ground arith)
          | inl same ↦ let owned = same_identity_eq owner who same in ground arith
        ]
      ]

  post_as_served :
      (method : Text) (who : Identity) (r : HttpRequest) (h h' : HttpHandler N) (s : Server N)
      → post_as method who r h ≡ (inr s, h')
      → (identity_of s ≡ who)
        × (is_refused_anonymous h.require_auth who ≡ false)
        × (lookup s.session_id h'.sessions ≡ some who)
  post_as_served method who r h h' s served =
      elim (Bool-cases (text_eq method (codes "initialize"))) [
        | inl opens ↦ post_as_opens method who r h h' s opens served
        | inr continues ↦ post_as_continues method who r h h' s continues served
      ]

  -- A request that a session over HTTP handles is handled for the identity that this very request
  -- proves, agent and user, which is not anonymous where authentication is required; the session
  -- belongs to that identity afterwards.
  pub handle_post_served :
      (r : HttpRequest) (h h' : HttpHandler N) (s : Server N)
      → handle_post r h ≡ (inr s, h')
      → (resolve_identity r.authorization h.validator h.allow_legacy ≡ inr (identity_of s))
        × (is_refused_anonymous h.require_auth (identity_of s) ≡ false)
        × (lookup s.session_id h'.sessions ≡ some (identity_of s))
  unfolding handle_post
  handle_post_served r h h' s served = elim (Option-cases r.method) [
    | inl none_read ↦ absurd (ground arith)
    | inr (method, read) ↦
        elim (Sum-cases (resolve_identity r.authorization h.validator h.allow_legacy)) [
          | inl (e, failed) ↦ absurd (ground arith)
          | inr (who, proved) ↦
              let posted : post_as method who r h ≡ (inr s, h') = ground arith in
              let (same, known, owned) = post_as_served method who r h h' s posted in ground arith
        ]
  ]

  post_as-keeps :
      (method id : Text) (who owner : Identity) (r : HttpRequest) (h : HttpHandler N)
      → lookup id h.sessions ≡ some owner
      → text_eq r.fresh id ≡ false
      → lookup id (post_as method who r h).1.sessions ≡ some owner
  unfolding post_as get_or_create_session
  post_as-keeps method id who owner r h found fresh =
      let kept = lookup-insert r.fresh id who h.sessions in ground arith

  delete_as-keeps :
      (id : Text) (who owner : Identity) (r : HttpRequest) (h : HttpHandler N)
      → lookup id h.sessions ≡ some owner
      → same_identity owner who ≡ false
      → lookup id (delete_as who r h).1.sessions ≡ some owner
  unfolding delete_as
  delete_as-keeps id who owner r h found other =
      let left = lookup-delete r.session id h.sessions in
      let named = text_eq_iff r.session id in ground arith

  delete-keeps :
      (id : Text) (owner : Identity) (r : HttpRequest) (h : HttpHandler N)
      → lookup id h.sessions ≡ some owner
      → resolve_identity r.authorization h.validator h.allow_legacy ≢ inr owner
      → lookup id (handle_delete r h).1.sessions ≡ some owner
  unfolding handle_delete
  delete-keeps id owner r h found other =
      elim (Sum-cases (resolve_identity r.authorization h.validator h.allow_legacy)) [
        | inl (e, failed) ↦ rw (handle_delete, failed) (ground arith)
        | inr (who, proved) ↦ elim (Bool-cases (same_identity owner who)) [
          | inl same ↦
              let owned = same_identity_eq owner who same in
              absurd (other (proved ∙ ap inr (sym owned)))
          | inr stranger ↦
              let kept = delete_as-keeps id who owner r h found stranger in
              rw (handle_delete, proved) (ground arith)
        ]
      ]

  post-keeps :
      (id : Text) (owner : Identity) (r : HttpRequest) (h : HttpHandler N)
      → lookup id h.sessions ≡ some owner
      → text_eq r.fresh id ≡ false
      → lookup id (handle_post r h).1.sessions ≡ some owner
  unfolding handle_post
  post-keeps id owner r h found fresh = elim (Option-cases r.method) [
    | inl none_read ↦ rw (handle_post, none_read) found
    | inr (method, read) ↦
        elim (Sum-cases (resolve_identity r.authorization h.validator h.allow_legacy)) [
          | inl (e, failed) ↦ rw (handle_post, read, failed) found
          | inr (who, proved) ↦
              let kept = post_as-keeps method id who owner r h found fresh in
              rw (handle_post, read, proved) kept
        ]
  ]

  -- A session stays with the identity that opened it: a request of a caller that proves another
  -- identity, or none, is not served on the session and does not close it, and the session's owner is
  -- the same after it, where the ID that a new session gets is another.
  pub requests-keep_session :
      (id : Text) (owner : Identity) (r : HttpRequest) (h : HttpHandler N) (s : Server N)
      → lookup id h.sessions ≡ some owner
      → resolve_identity r.authorization h.validator h.allow_legacy ≢ inr owner
      → text_eq r.fresh id ≡ false
      → s.session_id ≡ id
      → ((handle_post r h).0 ≢ inr s)
        × (lookup id (handle_post r h).1.sessions ≡ some owner)
        × (lookup id (handle_delete r h).1.sessions ≡ some owner)
  requests-keep_session id owner r h s found other fresh on_session =
      let kept = post-keeps id owner r h found fresh in
      (
        λ served.
            let (proved, _, owned) =
              handle_post_served r h (handle_post r h).1 s
                (ap (λ answer. (answer, (handle_post r h).1)) served) in
            let here : lookup id (handle_post r h).1.sessions
                ≡ some (record { agent_id = s.agent_id; user_id = s.user_id }) =
              rw (← on_session) owned in
            let same : owner ≡ record { agent_id = s.agent_id; user_id = s.user_id } =
              ground arith in
            other (proved ∙ ap inr (sym same)),
        kept,
        delete-keeps id owner r h found other,
      )
