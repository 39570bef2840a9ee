-- ===== src/RateLimit/Budget.antt =====
-- What a passed check promises.
use flux7_mesh.Base.{
  ℕ, ◌≡◌, inl, inr, none, some, List, [], ◌∷◌, arith, Option-cases, Text, text_eq_refl, Map, lookup,
  insert, lookup-insert,
}
use flux7_mesh.RateLimit.{
  AgentState, Limiter, fresh_state, make_room, get_or_create, verdict, check, recorded,
}

-- The state that the limiter has of the agent, or would start with.
abbrev pub state_of : Text → Limiter → AgentState
state_of agent l = (get_or_create agent l.agents).0

get_or_create-lookup :
    (agent : Text) (m : Map AgentState)
    → lookup agent (get_or_create agent m).1 ≡ some (get_or_create agent m).0
unfolding get_or_create
get_or_create-lookup agent m = elim (Option-cases (lookup agent m)) [
  | inl e ↦ ground (arith, lookup-insert agent agent fresh_state (make_room m), text_eq_refl agent)
  | inr (st, e) ↦ ground arith
]

-- A second look at the agent finds the state that was put there.
get_or_create-insert :
    (agent : Text) (st : AgentState) (m : Map AgentState)
    → get_or_create agent (insert agent st m) ≡ (st, insert agent st m)
unfolding get_or_create
get_or_create-insert agent st m = ground (arith, lookup-insert agent agent st m, text_eq_refl agent)

-- The state after more calls of the agent are recorded, each at its time.
abbrev pub recorded_all : List (ℕ × Text × Text) → AgentState → AgentState
recorded_all [] st = st
recorded_all ((at, tool, params) ∷ more) st = recorded_all more (recorded at tool params st)

-- The two states have the same calls.
abbrev pub HaveSameCalls : AgentState → AgentState → Type 0
HaveSameCalls a b = (a.total ≡ b.total) × (a.calls ≡ b.calls) × (a.recent ≡ b.recent)

-- A check reserves nothing: once it passes, it passes again at the same time, so calls that are
-- checked before any of them is recorded all pass, whatever the limits.
pub check-check :
    (now : ℕ) (agent policy tool params : Text) (l : Limiter)
    → (check now agent policy tool params l).0 ≡ none
    → (check now agent policy tool params (check now agent policy tool params l).1).0 ≡ none
unfolding check verdict
check-check now agent policy tool params l h = elim (Option-cases (lookup policy l.limits)) [
  | inl e ↦ ground arith
  | inr (limit, e) ↦
      let seen = record (state_of agent l) { last_seen = now } in
      ground (arith, get_or_create-insert agent seen (get_or_create agent l.agents).1)
]
