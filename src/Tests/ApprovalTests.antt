-- ===== src/Tests/ApprovalTests.antt =====
-- Approvals at work. All arguments encode alike.
use flux7_mesh.Base.{
  ℕ, ◌≡◌, ◌≢◌, refl, inr, true, Option, none, some, [], ◌∷◌, Text, codes, text_eq, lookup, insert,
}
use flux7_mesh.Policy.Value.{Params, end}
use flux7_mesh.Approval.{
  Status, pending, approved, denied, PendingApproval, Resolution, Store, by, resolved_with,
}
use flux7_mesh.Approval.Settled.{claim_settled, find_entry}
use flux7_mesh.Approval.Machine.{resolves, run, IsSound, run-IsSound, run-keeps_settled}
use flux7_mesh.Approval.Claims.{stays, claim_settled_once}
use flux7_mesh.Tests.Samples.{bob, fs_read}

abbrev pub marshal : Params ℕ → Option Text
marshal params = some (codes "args")

abbrev pub waiting_for : Text → PendingApproval ℕ
waiting_for id = record {
  id = id;
  agent_id = bob;
  tool = fs_read;
  params = end;
  policy_rule = codes "p";
  trace_id = codes "t1";
  callback_url = [];
  status = pending;
  created_at = 1;
  resolved_by = [];
  resolved_at = 0;
  reasoning = [];
  confidence = none;
  result = [];
}

abbrev pub first_id : Text
first_id = codes "1"

abbrev pub second_id : Text
second_id = codes "2"

abbrev pub settled_as : Status → Text → PendingApproval ℕ
settled_as st id = resolved_with 4 st (by (codes "ann")) (waiting_for id)

abbrev pub two : Store ℕ
two = record {
  entries =
      (first_id, settled_as approved first_id) ∷ (second_id, settled_as approved second_id) ∷ [];
  claimed = [];
  timeout = 100;
}

abbrev pub ann_approves : Resolution ℕ
ann_approves = record {
  status = approved;
  resolved_by = codes "ann";
  resolved_at = 4;
  reasoning = [];
  confidence = none;
}

abbrev pub two-IsSound : IsSound two
two-IsSound = (
  (refl, inr (ann_approves, refl, refl, refl, refl)),
  ((refl, inr (ann_approves, refl, refl, refl, refl)), tt),
)

run-IsSound_example : IsSound (run marshal (resolves 5 first_id denied (by (codes "ann"))) two)
run-IsSound_example =
    run-IsSound marshal (resolves 5 first_id denied (by (codes "ann"))) two refl two-IsSound

run-keeps_settled_example :
    lookup first_id (run marshal (resolves 5 first_id denied (by (codes "eve"))) two).entries
    ≡ some (settled_as approved first_id)
unfolding lookup text_eq
run-keeps_settled_example =
    run-keeps_settled marshal (resolves 5 first_id denied (by (codes "eve"))) two first_id
      (settled_as approved first_id) refl refl refl

abbrev one_left : Store ℕ
one_left = record two { claimed = (first_id, true) ∷ [] }

abbrev none_left : Store ℕ
none_left = record two { claimed = (first_id, true) ∷ (second_id, true) ∷ [] }

claim_settled_once_example : first_id ≢ second_id
unfolding claim_settled find_entry lookup insert text_eq
claim_settled_once_example =
    claim_settled_once marshal approved approved 6 7 bob fs_read bob fs_read end end 100 100 two
      one_left one_left none_left (settled_as approved first_id) (settled_as approved second_id)
      two-IsSound refl stays refl
