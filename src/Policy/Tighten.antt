-- ===== src/Policy/Tighten.antt =====
-- policy/tighten.go: a floor can only restrict a decision.
use flux7_mesh.Base.{
  ℕ, ◌<◌, ◌≡◌, ◌⊎◌, Bool, true, false, [], ◌++◌, arith, if◌then◌else◌, leb, max, Text, codes,
}
use flux7_mesh.Policy.Engine.{Action, allow, human_approval, deny, other, action_text, Decision}

unfoldable pub action_severity : Action → ℕ
action_severity allow = 0
action_severity human_approval = 1
action_severity deny = 2
action_severity (other s) = 2

-- The empty string, which is no floor.
abbrev pub no_floor : Action
no_floor = other []

abbrev pub is_no_floor : Action → Bool
is_no_floor (other []) = true
is_no_floor _ = false

floor_reason : Decision → Action → Text
floor_reason d floor =
    codes "dynamic dispatcher floor: default_action="
    ++ action_text floor
    ++ codes " (policy "
    ++ d.rule
    ++ codes " returned "
    ++ action_text d.action
    ++ codes ")"

unfoldable pub tighten : Decision → Action → Decision
unfolding action_severity floor_reason
tighten d floor =
    if is_no_floor floor
    then d
    else if leb (action_severity floor) (action_severity d.action)
    then d
    else record { action = floor; rule = codes "default_action"; reason = floor_reason d floor }

-- The severity that a floor stands for.
abbrev pub floor_severity : Action → ℕ
floor_severity (other []) = 0
floor_severity floor = action_severity floor

-- The action of the result is as severe as the stricter of the two, so no floor widens a decision;
-- the decision is left as it is unless the floor is stricter.
pub tighten_severity :
    (d : Decision) (floor : Action)
    → (action_severity (tighten d floor).action
        ≡ max (action_severity d.action) (floor_severity floor))
      × ((tighten d floor ≡ d) ⊎ (action_severity d.action < floor_severity floor))
unfolding tighten
tighten_severity d allow = ground arith
tighten_severity d (other []) = ground arith
tighten_severity d floor = ground arith

-- Floors may be applied in any order and any number of times, as far as severity goes.
pub tighten-tighten_severity :
    (d : Decision) (f g : Action)
    → action_severity (tighten (tighten d f) g).action
      ≡ action_severity (tighten (tighten d g) f).action
tighten-tighten_severity d f g = omega (
  arith,
  (tighten_severity (tighten d f) g).0,
  (tighten_severity d f).0,
  (tighten_severity (tighten d g) f).0,
  (tighten_severity d g).0,
)
