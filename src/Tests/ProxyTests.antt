-- ===== src/Tests/ProxyTests.antt =====
-- Calls at work: two stores of approvals, a mesh, and a backend that always answers 200.
use flux7_mesh.Base.{
  ℕ, ◌≡◌, refl, ◌⊎◌, inl, inr, true, false, none, some, [], ◌∷◌, max, Text, codes, text_eq, lookup,
  insert, has_prefix, contains,
}
use flux7_mesh.Match.{glob, glob_any}
use flux7_mesh.Policy.Value.{Params, end}
use flux7_mesh.Policy.Engine.{allow, Decision, evaluate}
use flux7_mesh.Policy.Tighten.{action_severity, floor_severity, tighten}
use flux7_mesh.Registry.{Tool, resolve_tool, dispatch_floor}
use flux7_mesh.Halt.{covers}
use flux7_mesh.Approval.{
  approved, denied, timed_out, PendingApproval, Store, deny as deny_approval, list_pending,
}
use flux7_mesh.Approval.Machine.{IsSound}
use flux7_mesh.Trace.{query_by_session}
use flux7_mesh.Identity.{Identity, named, resolve_identity}
use flux7_mesh.Pin.{status_floor}
use flux7_mesh.Proxy.Mesh.{Mesh, Call, Printer}
use flux7_mesh.Proxy.Floors.{apply_floors, pin_status, floor, apply_floors_severity}
use flux7_mesh.Proxy.Calls.{refused, forwarded, handle_tool_call}
use flux7_mesh.Proxy.Calls.Passage.{HasPassed, handle_tool_call_forwarded}
use flux7_mesh.Proxy.Completion.{complete_call, complete_call_outcome}
use flux7_mesh.Proxy.Decide.{handle_decide, decided}
use flux7_mesh.Proxy.Decide.Agreement.{GoesThrough, handle_decide-handle_tool_call}
use flux7_mesh.Proxy.Halts.{in_scope, session_window, deny_pending_for, deny_each}
use flux7_mesh.Proxy.Halts.Stops.{deny_pending_for_stops}
use flux7_mesh.Tests.Samples.{ops, engine, bob, fs_read, tool_named, registry}
use flux7_mesh.Tests.HaltTests.{bob_halt}
use flux7_mesh.Tests.ApprovalTests.{
  first_id, second_id, waiting_for, two, two-IsSound, settled_as, ann_approves,
}

abbrev pub mesh : Mesh ℕ
mesh = record {
  registry = registry;
  engine = engine;
  pins = none;
  traces = record { entries = []; max_size = 10 };
  approvals = some two;
  limiter = none;
  grants = none;
  halts = none;
  validator = none;
  allow_legacy = false;
  require_auth = true;
}

abbrev call : Call ℕ
call = record {
  now = 9;
  authorization = codes "Bearer agent:ann";
  tool = fs_read;
  session = [];
  trace_id = codes "t2";
  span_id = [];
  parent_span_id = [];
  callback_url = [];
  body = some end;
  approval_id = codes "3";
  query = none;
  precedent = none;
}

abbrev pub show : Printer ℕ
show = record {
  auth_text = λ e. [];
  halt_text = λ h. [];
  denial_text = λ d. [];
  grant_text = λ g. [];
  params_text = λ p. [];
}

abbrev forward : Call ℕ → Tool → Params ℕ → Text → ℕ × Text
forward c t params agent = (200, [])

abbrev after_call : Mesh ℕ
after_call = (handle_tool_call ops show forward call mesh).1

call_is_forwarded :
    handle_tool_call ops show forward call mesh ≡ (forwarded (tool_named fs_read) 200, after_call)
unfolding handle_tool_call resolve_identity has_prefix text_eq resolve_tool lookup apply_floors
    status_floor pin_status tighten dispatch_floor evaluate glob glob_any contains
call_is_forwarded = refl

handle_tool_call_forwarded_example : HasPassed ops show forward call (tool_named fs_read) mesh
handle_tool_call_forwarded_example =
    handle_tool_call_forwarded ops show forward call (tool_named fs_read) 200 mesh after_call
      call_is_forwarded

abbrev mismatch : Text → Text → Text
mismatch label agent = []

handle_decide-handle_tool_call_example :
    (who : Identity) × (d : Decision) × (resolve_identity call.authorization mesh.validator
        mesh.allow_legacy
      ≡ inr who)
    × ((handle_decide ops show mismatch [] call mesh).0 ≡ decided 200 d)
    × ((handle_decide ops show mismatch who.agent_id call mesh).0 ≡ decided 200 d)
    × GoesThrough d
handle_decide-handle_tool_call_example =
    handle_decide-handle_tool_call ops show mismatch forward call (tool_named fs_read) 200 mesh
      after_call refl call_is_forwarded

abbrev allowed : Decision
allowed = record { action = allow; rule = codes "everyone"; reason = [] }

apply_floors_severity_example :
    action_severity (apply_floors none allowed (some (tool_named fs_read))).action
    ≡ max (action_severity allow) (floor_severity (floor none (some (tool_named fs_read))))
apply_floors_severity_example = apply_floors_severity none allowed (some (tool_named fs_read))

complete_call_outcome_example :
    ((approved ≡ approved)
      × ((status : ℕ) × ((complete_call show forward call
              (named bob)
              end
              (tool_named fs_read)
              ann_approves
              mesh).0
            ≡ some (forwarded (tool_named fs_read) status))))
    ⊎ (((approved ≡ denied)
          × ((complete_call show forward call
                (named bob)
                end
                (tool_named fs_read)
                ann_approves
                mesh).0
              ≡ some (refused 403)))
        ⊎ ((approved ≡ timed_out)
            × ((complete_call show forward call
                  (named bob)
                  end
                  (tool_named fs_read)
                  ann_approves
                  mesh).0
                ≡ some (refused 408))))
unfolding lookup text_eq
complete_call_outcome_example =
    complete_call_outcome show forward call (named bob) end (tool_named fs_read) ann_approves []
      mesh two first_id (settled_as approved first_id) two-IsSound refl refl

-- An approval of another agent waits, and is not in the scope of the stop for bob.
abbrev anns : PendingApproval ℕ
anns = record (waiting_for second_id) { agent_id = codes "ann" }

abbrev queue : Store ℕ
queue = record two { entries = (first_id, waiting_for first_id) ∷ (second_id, anns) ∷ [] }

abbrev queue-IsSound : IsSound queue
queue-IsSound = ((refl, inl (refl, refl)), ((refl, inl (refl, refl)), tt))

abbrev queueing : Mesh ℕ
queueing = record mesh { approvals = some queue }

abbrev queue_after : Store ℕ
queue_after =
    (deny_each 9 bob_halt (query_by_session bob session_window mesh.traces) (list_pending queue)
      queue).1

deny_pending_for_stops_example :
    in_scope bob_halt (query_by_session bob session_window mesh.traces) anns ≡ false
unfolding deny_pending_for lookup list_pending covers glob deny_approval insert
deny_pending_for_stops_example =
    deny_pending_for_stops 9 bob_halt queueing queue queue_after second_id anns refl queue-IsSound
      refl (refl, refl)
