-- ===== src/Tests/SessionTests.antt =====
-- Sessions over HTTP at work: the session of ann, and the request of another caller on it.
use flux7_mesh.Mcp.Sessions.Ownership.{requests-keep_session, handle_post_served}
use flux7_mesh.Identity.{Identity, resolve_identity}
use flux7_mesh.Base.{
  ◌≢◌, arith, has_prefix, text_eq, lookup, refl, inr, true, false, none, some, [], ℕ, Text, codes,
  ◌≡◌, ◌∷◌, ◌++◌,
}
use flux7_mesh.Tests.McpTests.{server}
use flux7_mesh.Mcp.Sessions.{
  server_for, handle_delete, is_refused_anonymous, handle_post, HttpHandler, HttpRequest,
}

abbrev ann : Identity
ann = record { agent_id = codes "ann"; user_id = [] }

abbrev handler : HttpHandler ℕ
handler = record {
  template = server;
  require_auth = true;
  validator = none;
  allow_legacy = false;
  sessions = (codes "s1", ann) ∷ [];
}

abbrev post : Text → HttpRequest
post agent = record {
  authorization = codes "Bearer agent:" ++ agent;
  session = codes "s1";
  method = some (codes "tools/list");
  fresh = codes "s2";
}

handle_post_served_example :
    (resolve_identity (post (codes "ann")).authorization none false ≡ inr ann)
    × (is_refused_anonymous true ann ≡ false)
    × (lookup (codes "s1") handler.sessions ≡ some ann)
unfolding handle_post has_prefix lookup text_eq
handle_post_served_example =
    handle_post_served (post (codes "ann")) handler handler (server_for handler (codes "s1") ann)
      refl

requests-keep_session_example :
    ((handle_post (post (codes "eve")) handler).0 ≢ inr (server_for handler (codes "s1") ann))
    × (lookup (codes "s1") (handle_post (post (codes "eve")) handler).1.sessions ≡ some ann)
    × (lookup (codes "s1") (handle_delete (post (codes "eve")) handler).1.sessions ≡ some ann)
unfolding lookup text_eq resolve_identity has_prefix
requests-keep_session_example =
    requests-keep_session (codes "s1") ann (post (codes "eve")) handler
      (server_for handler (codes "s1") ann) refl (λ e. ground arith) refl refl
