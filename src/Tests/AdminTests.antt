-- ===== src/Tests/AdminTests.antt =====
-- The control plane over HTTP at work: a caller from elsewhere, where no admin token is set.
use flux7_mesh.Proxy.Admin.Guard.{serve_http_unauthorized}
use flux7_mesh.Tests.Samples.{bob}
use flux7_mesh.Proxy.Admin.{admin_authorized, serve_http}
use flux7_mesh.Base.{
  has_prefix, text_eq, refl, inl, true, none, some, [], Bool, ℕ, Text, codes, ◌≡◌,
}
use flux7_mesh.Proxy.Admin
use flux7_mesh.Tests.ProxyTests.{mesh}

abbrev is_local : Text → Bool
is_local remote = text_eq remote (codes "127.0.0.1:9")

abbrev grant_request : Admin.Request ℕ
grant_request = record {
  now = 9;
  method = codes "POST";
  path = codes "/grants";
  remote = codes "10.0.0.8:9";
  authorization = [];
  resolve = record { resolved_by = codes "ann"; reasoning = []; confidence = none };
  grant = some (record {
    agent = bob;
    tools = codes "*";
    duration = codes "1h";
    approval_id = [];
    trace_id = [];
  });
  grant_id = codes "g";
}

serve_http_unauthorized_example :
    (serve_http is_local (λ d. none) (λ route r m. (200, m)) true [] grant_request mesh).1 ≡ mesh
unfolding has_prefix text_eq admin_authorized
serve_http_unauthorized_example =
    serve_http_unauthorized is_local (λ d. none) (λ route r m. (200, m)) true [] grant_request mesh
      (inl refl) refl
