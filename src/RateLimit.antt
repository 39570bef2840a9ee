-- ===== src/RateLimit.antt =====
-- ratelimit/limiter.go: call budgets and loop detection. Times are nanoseconds, one clock reading
-- for each call; Go's maps are association lists, walked in the list's order. The mutex makes a
-- call one step; the ticker that starts `gc` is not modelled.
pub mod Bounds
pub mod Budget
use flux7_mesh.Base.{
  ℕ, suc, ◌+◌, ◌-◌, ◌*◌, Bool, true, false, not, ◌&&◌, ◌||◌, Option, none, some, List, [], ◌∷◌,
  ◌++◌, if◌then◌else◌, ltb, leb, Text, text_eq, is_empty, length, drop, any, keep, count, Map,
  lookup, insert, delete,
}

pub record Limit : Type 0 where
  pub max_per_minute : ℕ
  pub max_total : ℕ

pub record RecentCall : Type 0 where
  pub tool : Text
  pub params : Text
  pub at : ℕ

pub record AgentState : Type 0 where
  pub calls : List ℕ
  pub total : ℕ
  pub recent : List RecentCall
  pub last_seen : ℕ

pub record Limiter : Type 0 where
  pub agents : Map AgentState
  pub limits : Map Limit

abbrev pub max_agents : ℕ
max_agents = 50000

abbrev pub max_recent : ℕ
max_recent = 50

abbrev pub second : ℕ
second = 1000000000

abbrev pub minute : ℕ
minute = 60000000000

abbrev pub new_limiter : Limiter
new_limiter = record { agents = []; limits = [] }

unfoldable pub set_limit : Text → Limit → Limiter → Limiter
set_limit policy limit l = record l { limits = insert policy limit l.limits }

unfoldable pub replace_limits : Map Limit → Limiter → Limiter
replace_limits limits l = record l { limits = limits }

abbrev pub fresh_state : AgentState
fresh_state = record { calls = []; total = 0; recent = []; last_seen = 0 }

-- `t.After(now.Add(-d))`, with no subtraction.
abbrev pub within : ℕ → ℕ → ℕ → Bool
within now d t = ltb now (t + d)

-- The loop of `evictOldest` over the map, with the ID and the time found so far; an empty ID
-- stands for none, as in the source.
unfoldable pub oldest_from : Text → ℕ → Map AgentState → Text
oldest_from id at [] = id
oldest_from id at ((k, st) ∷ m) =
    let older = is_empty id || ltb st.last_seen at in
    oldest_from (if older then k else id) (if older then st.last_seen else at) m

unfoldable pub evict_oldest : Map AgentState → Map AgentState
unfolding oldest_from
evict_oldest m = let id = oldest_from [] 0 m in if is_empty id then m else delete id m

-- A full map loses the agent seen least recently.
unfoldable pub make_room : Map AgentState → Map AgentState
make_room m = if leb max_agents (length m) then evict_oldest m else m

-- The agent's state, and the map that holds it.
unfoldable pub get_or_create : Text → Map AgentState → AgentState × Map AgentState
get_or_create id m = elim (lookup id m) [
  | some st ↦ (st, m)
  | none ↦ (fresh_state, insert id fresh_state (make_room m))
]

pub data Denial : Type 0 where
  over_total over_rate looping : Denial

abbrev pub calls_in_minute : ℕ → AgentState → ℕ
calls_in_minute now st = count (within now minute) st.calls

abbrev pub is_repeat : ℕ → Text → Text → RecentCall → Bool
is_repeat now tool params rc =
    within now (10 * second) rc.at && (text_eq rc.tool tool && text_eq rc.params params)

abbrev pub repeats : ℕ → Text → Text → AgentState → ℕ
repeats now tool params st = count (is_repeat now tool params) st.recent

-- The three tests of `Check`; none permits the call.
unfoldable pub verdict : ℕ → Limit → Text → Text → AgentState → Option Denial
verdict now limit tool params st =
    if ltb 0 limit.max_total && leb limit.max_total st.total
    then some over_total
    else if ltb 0 limit.max_per_minute && leb limit.max_per_minute (calls_in_minute now st)
    then some over_rate
    else if leb 3 (repeats now tool params st)
    then some looping
    else none

abbrev pub touch : ℕ → Text → AgentState → Map AgentState → Map AgentState
touch now agent st m = insert agent (record st { last_seen = now }) m

unfoldable pub check : ℕ → Text → Text → Text → Text → Limiter → Option Denial × Limiter
check now agent policy tool params l = elim (lookup policy l.limits) [
  | none ↦ (none, l)
  | some limit ↦
      let (st, m) = get_or_create agent l.agents in
      (verdict now limit tool params st, record l { agents = touch now agent st m })
]

-- The last 50 calls.
abbrev pub bounded : List RecentCall → List RecentCall
bounded rs = if ltb max_recent (length rs) then drop (length rs - max_recent) rs else rs

abbrev pub recorded : ℕ → Text → Text → AgentState → AgentState
recorded now tool params st = record {
  calls = st.calls ++ now ∷ [];
  total = st.total + 1;
  recent = bounded (st.recent ++ record { tool = tool; params = params; at = now } ∷ []);
  last_seen = now;
}

unfoldable pub record_call : ℕ → Text → Text → Text → Limiter → Limiter
record_call now agent tool params l =
    let (st, m) = get_or_create agent l.agents in
    record l { agents = insert agent (recorded now tool params st) m }

abbrev pub swept : ℕ → AgentState → AgentState
swept now st = record st {
  calls = keep (within now (2 * minute)) st.calls;
  recent = keep (λ rc. within now (10 * second) rc.at) st.recent;
}

-- An agent not seen for two minutes is dropped, the others lose their old entries.
unfoldable pub sweep : ℕ → Map AgentState → Map AgentState
sweep now [] = []
sweep now ((id, st) ∷ m) =
    if ltb (st.last_seen + 2 * minute) now then sweep now m else (id, swept now st) ∷ sweep now m

unfoldable pub gc : ℕ → Limiter → Limiter
unfolding sweep
gc now l = record l { agents = sweep now l.agents }
