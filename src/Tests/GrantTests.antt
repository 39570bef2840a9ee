-- ===== src/Tests/GrantTests.antt =====
-- Grants and halts at work.
use flux7_mesh.Base.{ℕ, ◌≡◌, refl, Bool, [], ◌∷◌, Text, codes, is_some, text_eq}
use flux7_mesh.Grant.{Grant, Store, no_origin, check, revoke_where}
use flux7_mesh.Grant.Revocation.{restore_all, check-restore_all-revoke_where}
use flux7_mesh.Tests.Samples.{bob, fs_read}

abbrev pub grant_to : Text → Text → ℕ → Grant
grant_to id agent until = record {
  id = id;
  agent = agent;
  tools = codes "fs.*";
  expires_at = until;
  granted_by = codes "ops";
  created_at = 0;
  origin = no_origin;
}

abbrev pub grants : Store
grants = record {
  grants = grant_to (codes "a1") bob 10 ∷ grant_to (codes "a2") (codes "*") 90 ∷ [];
}

abbrev of_bob : Grant → Bool
of_bob g = text_eq g.agent bob

check-restore_all-revoke_where_example :
    is_some (
      check 7 bob fs_read
        (restore_all 7 (revoke_where 5 of_bob grants).0 (revoke_where 5 of_bob grants).1).1)
    ≡ is_some (check 7 bob fs_read grants)
unfolding text_eq
check-restore_all-revoke_where_example =
    check-restore_all-revoke_where 5 7 of_bob bob fs_read grants (refl, (refl, tt))
