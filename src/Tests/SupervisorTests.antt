-- ===== src/Tests/SupervisorTests.antt =====
-- The supervisor's copy of arguments at work: a text, and a map with a key for content.
use flux7_mesh.Supervisor.{redact_params}
use flux7_mesh.Supervisor.Redaction.{redact_params-AreClean, AreClean}
use flux7_mesh.Policy.Value.{end, obj, str, field, Params}
use flux7_mesh.Base.{false, ℕ, codes}

abbrev arguments : Params ℕ
arguments =
    field (codes "path") (str (codes "/tmp/a"))
      (field (codes "file") (obj (field (codes "content") (str (codes "hello")) end)) end)

redact_params-AreClean_example : AreClean (redact_params (λ t. false) (λ t. codes "ab") arguments)
redact_params-AreClean_example = redact_params-AreClean (λ t. false) (λ t. codes "ab") arguments
