-- ===== src/Tests/LimitTests.antt =====
-- Rate limits, the registry, the trace buffer and identities at work.
use flux7_mesh.Base.{none, ℕ, ◌≡◌, refl, ◌⊎◌, inr, [], ◌∷◌, arith, Text, codes, has_prefix}
use flux7_mesh.Policy.Value.{end}
use flux7_mesh.RateLimit.{Limit, AgentState, Limiter}
use flux7_mesh.RateLimit.Bounds.{records, run, IsBounded, run-IsBounded}
use flux7_mesh.Trace.{Entry, Store}
use flux7_mesh.Identity.{Validate, trim_prefix, named, anonymous, resolve_identity}
use flux7_mesh.Identity.Posture.{resolve_identity_strict}
use flux7_mesh.Tests.Samples.{bob, fs_read}

abbrev limit : Limit
limit = record { max_per_minute = 2; max_total = 3 }

abbrev limiter : Limiter
limiter = record { agents = []; limits = (codes "p", limit) ∷ [] }

abbrev busy : AgentState
busy = record {
  calls = 9 ∷ [];
  total = 1;
  recent = record { tool = fs_read; params = []; at = 9 } ∷ [];
  last_seen = 9;
}

abbrev after_one : Limiter
after_one = record limiter { agents = (bob, busy) ∷ [] }

run-IsBounded_example : IsBounded (run (records 9 bob fs_read []) limiter).agents
run-IsBounded_example =
    run-IsBounded (records 9 bob fs_read []) limiter refl
      (record { size = omega arith; small = tt })

abbrev pub entry : Text → Entry ℕ
entry id = record {
  trace_id = id;
  session_id = [];
  agent_id = bob;
  user_id = [];
  tool = fs_read;
  params = end;
  policy = codes "allow";
  policy_rule = [];
  status_code = 200;
  error = [];
  timestamp = 1;
  grant_id = [];
  parent_trace_id = [];
  span_id = [];
  parent_span_id = [];
  approval_id = [];
  approval_status = [];
  approved_by = [];
  supervisor_reasoning = [];
  supervisor_confidence = none;
  revision = 0;
}

abbrev traces : Store ℕ
traces = record { entries = entry (codes "t1") ∷ []; max_size = 1 }

abbrev pub failed : Entry ℕ → Entry ℕ
failed e = record e { status_code = 502 }

abbrev validate : Validate
validate token = inr (record { agent_id = bob; user_id = codes "ann" })

abbrev token : Text
token = codes "Bearer eyJ.e.s"

resolve_identity_strict_example :
    ((trim_prefix token (codes "Bearer ") ≡ [])
      × (record { agent_id = bob; user_id = codes "ann" } ≡ named anonymous))
    ⊎ (validate (trim_prefix token (codes "Bearer "))
        ≡ inr (record { agent_id = bob; user_id = codes "ann" }))
unfolding resolve_identity has_prefix
resolve_identity_strict_example =
    resolve_identity_strict token validate (record { agent_id = bob; user_id = codes "ann" }) refl
