-- ===== src/Proxy/Floors.antt =====
-- `ApplyFloors` and `Floor` of proxy/handler.go.
use flux7_mesh.Base.{
  ◌≡◌, Option, none, some, [], ◌++◌, arith, if◌then◌else◌, max, Text, codes, text_eq,
}
use flux7_mesh.Policy.Engine.{Action, action_text, Decision}
use flux7_mesh.Policy.Tighten.{
  action_severity, no_floor, is_no_floor, tighten, floor_severity, tighten_severity,
}
use flux7_mesh.Registry.{Tool, dispatch_floor}
use flux7_mesh.Pin.{Status, pinned, new, changed, unseen, status_floor, status_of}
use flux7_mesh.Pin

-- `Status` of a store that may be nil.
unfoldable pub pin_status : Text → Option Pin.Store → Status
unfolding status_of
pin_status tool none = unseen
pin_status tool (some s) = status_of tool s

abbrev pub status_text : Status → Text
status_text pinned = codes "pinned"
status_text new = codes "new"
status_text changed = codes "changed"
status_text unseen = []

pin_reason : Tool → Status → Decision → Text
pin_reason t st d =
    codes "catalogue pin: "
    ++ t.name
    ++ codes " is "
    ++ status_text st
    ++ codes " since its catalogue was accepted (policy "
    ++ d.rule
    ++ codes " returned "
    ++ action_text d.action
    ++ codes ")"

-- The second floor: the pin of the tool.
unfoldable pub apply_pin : Tool → Status → Decision → Decision
unfolding pin_reason
apply_pin t st d =
    let tightened = tighten d (status_floor st) in
    if is_no_floor (status_floor st)
    then d
    else if text_eq (action_text tightened.action) (action_text d.action)
    then d
    else record tightened { rule = codes "pin:" ++ status_text st; reason = pin_reason t st d }

unfoldable pub apply_floors : Option Pin.Store → Decision → Option Tool → Decision
unfolding apply_pin
apply_floors pins d none = d
apply_floors pins d (some t) =
    apply_pin t (pin_status t.name pins) (tighten d (dispatch_floor (some t)))

-- The action of the stricter floor; two texts are joined if one is empty.
unfoldable pub join_floors : Action → Action → Action
join_floors f pf =
    if is_no_floor f
    then pf
    else if is_no_floor pf
    then f
    else (tighten (record { action = f; rule = []; reason = [] }) pf).action

unfoldable pub floor : Option Pin.Store → Option Tool → Action
unfolding join_floors
floor pins none = no_floor
floor pins (some t) = join_floors (dispatch_floor (some t)) (status_floor (pin_status t.name pins))

apply_pin_severity :
    (t : Tool) (st : Status) (d : Decision)
    → action_severity (apply_pin t st d).action
      ≡ max (action_severity d.action) (floor_severity (status_floor st))
unfolding apply_pin tighten action_severity status_floor text_eq
apply_pin_severity t st d = ground arith

join_floors_severity :
    (f pf : Action) → floor_severity (join_floors f pf) ≡ max (floor_severity f) (floor_severity pf)
unfolding join_floors tighten action_severity
join_floors_severity f pf = ground arith

-- What `Floor` answers is what `ApplyFloors` enforces: the decision that comes out is as severe as
-- the stricter of the policy's decision and that floor. A decision about no tool stays as it is.
pub apply_floors_severity :
    (pins : Option Pin.Store) (d : Decision) (tool : Option Tool)
    → action_severity (apply_floors pins d tool).action
      ≡ max (action_severity d.action) (floor_severity (floor pins tool))
unfolding apply_floors floor
apply_floors_severity pins d none = ground arith
apply_floors_severity pins d (some t) = omega (
  arith,
  apply_pin_severity t (pin_status t.name pins) (tighten d (dispatch_floor (some t))),
  (tighten_severity d (dispatch_floor (some t))).0,
  join_floors_severity (dispatch_floor (some t)) (status_floor (pin_status t.name pins)),
)
