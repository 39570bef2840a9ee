-- ===== src/Tests/ExecTests.antt =====
-- Command execution and the classification of tools at work.
use flux7_mesh.Registry.Classify.Suggestion.{declares_read, declares_write, is_safe_method, is_run}
use flux7_mesh.Tests.Samples.{fs_read, tool_named}
use flux7_mesh.Exec.Output.{run_bound}
use flux7_mesh.Policy.Engine.{allow}
use flux7_mesh.Exec.Arguments.{validate_args_iff, IsAllowed, IsHarmless}
use flux7_mesh.Registry.Classify.{
  read_verbs, write_verbs, is_in, name_tokens, classify, suggested_action,
}
use flux7_mesh.Registry.{Tool, CliToolMeta}
use flux7_mesh.Exec.{exited, Ended, max_output, validate_args, Input, Command}
use flux7_mesh.Base.{
  is_empty, ◌||◌, contains, any, length, refl, true, false, none, some, [], codes, All, ◌≤◌, ◌≡◌,
  ◌↔◌, ◌∷◌,
}
use flux7_mesh.Exec.{Result}
use flux7_mesh.Registry.Classify.Suggestion.{suggested_action-classify}

validate_args_iff_example :
    (validate_args (some (codes "--oneline" ∷ [])) (codes "log" ∷ codes "--oneline" ∷ []) ≡ none)
    ↔ (All IsHarmless (codes "log" ∷ codes "--oneline" ∷ [])
        × All (IsAllowed (some (codes "--oneline" ∷ []))) (codes "log" ∷ codes "--oneline" ∷ []))
validate_args_iff_example =
    validate_args_iff (some (codes "--oneline" ∷ [])) (codes "log" ∷ codes "--oneline" ∷ [])

abbrev git : CliToolMeta
git = record {
  bin = codes "git";
  command = codes "log";
  allowed_args = none;
  timeout = 5;
  working_dir = [];
  env = [];
  strict = false;
  default_action = allow;
  is_catch_all = false;
}

abbrev input : Input
input = record { command = []; args = codes "HEAD" ∷ []; stdin = [] }

abbrev process : Command → Ended
process c = record {
  stdout = codes "abc" ∷ codes "d" ∷ [];
  stderr = [];
  exit_code = exited 0;
  timed_out = false;
  broken = false;
}

abbrev result : Result
result = record { stdout = codes "abcd"; stderr = []; exit_code = exited 0 }

run_bound_example : (length result.stdout ≤ max_output 5) × (length result.stderr ≤ max_output 5)
unfolding flux7_mesh.Exec.run contains
run_bound_example = run_bound (codes "/bin") (codes "/root") process 5 git input result none refl

abbrev reader : Tool
reader = tool_named fs_read

suggested_action-classify_example : (suggested_action (classify (some reader)) ≡ allow) ↔ (
    (false ≡ false)
    × (any (is_run (name_tokens reader)) reader.params ≡ false)
    × ((is_empty reader.method || is_safe_method reader.method) ≡ true)
    × (declares_write reader.annotations ≡ false)
    × (any (is_in write_verbs) (name_tokens reader) ≡ false)
    × ((is_safe_method reader.method
          || declares_read reader.annotations
          || any (is_in read_verbs) (name_tokens reader))
        ≡ true))
suggested_action-classify_example = suggested_action-classify reader
