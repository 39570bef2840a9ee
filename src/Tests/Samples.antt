-- ===== src/Tests/Samples.antt =====
-- Data that the tests share. Numbers stand for the floating-point numbers.
use flux7_mesh.Base.{ℕ, false, Option, none, some, List, [], ◌∷◌, ltb, leb, ◌==◌, Text, codes}
use flux7_mesh.Policy.Value.{FloatOps, Params, str, field, end}
use flux7_mesh.Policy.Condition.{contains, CondValue, Condition}
use flux7_mesh.Policy.Engine.{Action, allow, human_approval, deny, Rule, Policy, Engine}
use flux7_mesh.Registry.{Tool, Registry}

abbrev pub ops : FloatOps ℕ
ops = record { lt = ltb; le = leb; eq = ◌==◌; parse = λ t. none; format = λ n. codes "0" }

abbrev pub operand : Text → CondValue ℕ
operand t = record { num = 0; is_num = false; strings = t ∷ [] }

abbrev pub no_etc : Condition ℕ
no_etc = record { field = codes "path"; operator = contains; value = operand (codes "/etc") }

abbrev pub etc_path : Params ℕ
etc_path = field (codes "path") (str (codes "/etc/hosts")) end

abbrev pub rule_for : Text → Action → Option (Condition ℕ) → Rule ℕ
rule_for tool act cond = record { tools = tool ∷ []; action = act; condition = cond }

abbrev pub everyone : Policy ℕ
everyone = record {
  name = codes "everyone";
  agent = codes "*";
  rules = rule_for (codes "fs.*") allow none ∷ rule_for (codes "git.push") human_approval none ∷ [];
  source_file = [];
}

abbrev pub for_bob : Policy ℕ
for_bob = record {
  name = codes "bob";
  agent = codes "bob";
  rules =
      rule_for (codes "fs.read") deny (some no_etc) ∷ rule_for (codes "fs.stat") allow none ∷ [];
  source_file = [];
}

abbrev pub declared_policies : List (Policy ℕ)
declared_policies = everyone ∷ for_bob ∷ []

abbrev pub engine : Engine ℕ
engine = record { policies = for_bob ∷ everyone ∷ [] }

abbrev pub bob : Text
bob = codes "bob"

abbrev pub fs_read : Text
fs_read = codes "fs.read"

abbrev pub tool_named : Text → Tool
tool_named name = record {
  name = name;
  description = codes "reads";
  method = [];
  path = [];
  base_url = [];
  params = [];
  source = codes "mcp";
  mcp_server = codes "fs";
  cli_meta = none;
  annotations = none;
}

abbrev pub registry : Registry
registry = record { tools = (fs_read, tool_named fs_read) ∷ [] }
