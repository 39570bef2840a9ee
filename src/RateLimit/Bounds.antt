-- ===== src/RateLimit/Bounds.antt =====
-- The memory that the limiter takes.
use flux7_mesh.Base.{
  ℕ, ◌-◌, ◌*◌, ◌≤◌, ◌<◌, ◌≡◌, ◌⊎◌, inl, inr, Bool, true, false, ◌||◌, List, [], ◌∷◌, ◌++◌, arith,
  if◌then◌else◌, ltb, Option-cases, Text, text_eq_refl, is_empty, length, length-drop, length-keep,
  count-le-length, All, Map, lookup, insert, is_some, lookup-insert, length-insert,
  length-delete_lt, All-insert, All-delete, All-lookup,
}
use flux7_mesh.RateLimit.{
  RecentCall, AgentState, Limiter, max_agents, max_recent, second, within, fresh_state, oldest_from,
  evict_oldest, make_room, get_or_create, check, bounded, record_call, sweep, gc,
}

-- What holds of every entry: a name, and at most 50 recent calls.
abbrev IsSmall : Text × AgentState → Type 0
IsSmall (id, st) = (is_empty id ≡ false) × (length st.recent ≤ max_recent)

-- At most 50,000 agents, each small.
pub record IsBounded (m : Map AgentState) : Type 0 where
  pub size : length m ≤ max_agents
  pub small : All IsSmall m

-- A name that the map has.
abbrev IsKey : Map AgentState → Text → Type 0
IsKey n id = (is_empty id ≡ false) × (is_some (lookup id n) ≡ true)

IsKey-cons :
    (j : Text) (st : AgentState) (m ms : Map AgentState)
    → All (λ e. IsKey m e.0) ms
    → All (λ e. IsKey ((j, st) ∷ m) e.0) ms
unfolding lookup
IsKey-cons j st m [] a = tt
IsKey-cons j st m ((k, w) ∷ ms) a = ground (arith, IsKey-cons j st m ms a.1)

All-IsKey : (m : Map AgentState) → All IsSmall m → All (λ e. IsKey m e.0) m
unfolding lookup
All-IsKey [] a = tt
All-IsKey ((j, st) ∷ m) a =
    ((a.0.0, ground (arith, text_eq_refl j)), IsKey-cons j st m m (All-IsKey m a.1))

oldest_from-IsKey :
    (n : Map AgentState) (id : Text) (at : ℕ) (m : Map AgentState)
    → IsKey n id
    → All (λ e. IsKey n e.0) m
    → IsKey n (oldest_from id at m)
unfolding oldest_from
oldest_from-IsKey n id at [] h a = h
oldest_from-IsKey n id at ((j, st) ∷ m) h a =
    let older = is_empty id || ltb st.last_seen at in
    oldest_from-IsKey n (if older then j else id) (if older then st.last_seen else at) m
      (either older) a.1
  where
    either : (b : Bool) → IsKey n (if b then j else id)
    either true = a.0
    either false = h

-- A map that is not empty, and names every entry, loses one.
length-evict_oldest :
    (m : Map AgentState) → All IsSmall m → 0 < length m → length (evict_oldest m) < length m
unfolding evict_oldest
length-evict_oldest [] a h = absurd (omega arith)
length-evict_oldest ((j, st) ∷ m) a h =
    let keys = All-IsKey ((j, st) ∷ m) a in
    let key = oldest_from-IsKey ((j, st) ∷ m) j st.last_seen m keys.0 keys.1 in
    ground (arith, length-delete_lt (oldest_from j st.last_seen m) ((j, st) ∷ m))

All-evict_oldest : (m : Map AgentState) → All IsSmall m → All IsSmall (evict_oldest m)
unfolding evict_oldest
All-evict_oldest m a = ground (arith, All-delete IsSmall (oldest_from [] 0 m) m a)

make_room-IsSmall :
    (m : Map AgentState)
    → IsBounded m
    → (length (make_room m) < max_agents) × All IsSmall (make_room m)
unfolding make_room
make_room-IsSmall m b = ground (arith, length-evict_oldest m b.small, All-evict_oldest m b.small)

insert-IsBounded :
    (id : Text) (st : AgentState) (m : Map AgentState)
    → IsSmall (id, st)
    → All IsSmall m
    → length m < max_agents ⊎ ((is_some (lookup id m) ≡ true) × (length m ≤ max_agents))
    → IsBounded (insert id st m)
insert-IsBounded id st m h a n = record {
  size = ground (arith, length-insert id st m);
  small = All-insert IsSmall id st m h a;
}

-- What `get_or_create` returns: a small state, in a bounded map that has the agent.
get_or_create-IsBounded :
    (id : Text) (m : Map AgentState)
    → is_empty id ≡ false
    → IsBounded m
    → (length (get_or_create id m).0.recent ≤ max_recent)
      × IsBounded (get_or_create id m).1
      × (is_some (lookup id (get_or_create id m).1) ≡ true)
unfolding get_or_create
get_or_create-IsBounded id m h b = elim (Option-cases (lookup id m)) [
  | inl e ↦
      let room = make_room-IsSmall m b in
      rw (e, get_or_create)
        (
          omega arith,
          insert-IsBounded id fresh_state (make_room m) (h, omega arith) room.1 (inl room.0),
          ground (arith, lookup-insert id id fresh_state (make_room m), text_eq_refl id),
        )
  | inr (st, e) ↦ rw (e, get_or_create) ((All-lookup IsSmall id st m b.small e).1, b, ground arith)
]

length-bounded : (rs : List RecentCall) → length (bounded rs) ≤ max_recent
length-bounded rs = ground (arith, length-drop (length rs - max_recent) rs)

check-IsBounded :
    (now : ℕ) (agent policy tool params : Text) (l : Limiter)
    → is_empty agent ≡ false
    → IsBounded l.agents
    → IsBounded (check now agent policy tool params l).1.agents
unfolding check
check-IsBounded now agent policy tool params l h b = elim (Option-cases (lookup policy l.limits)) [
  | inl e ↦ rw (e, check) b
  | inr (limit, e) ↦
      let (small, bounded_map, has) = get_or_create-IsBounded agent l.agents h b in
      rw (e, check)
        (insert-IsBounded agent _ (get_or_create agent l.agents).1 (h, small) bounded_map.small
          (inr (has, bounded_map.size)))
]

record_call-IsBounded :
    (now : ℕ) (agent tool params : Text) (l : Limiter)
    → is_empty agent ≡ false
    → IsBounded l.agents
    → IsBounded (record_call now agent tool params l).agents
unfolding record_call
record_call-IsBounded now agent tool params l h b =
    let (small, bounded_map, has) = get_or_create-IsBounded agent l.agents h b in
    insert-IsBounded agent _ (get_or_create agent l.agents).1
      (
        h,
        length-bounded (
            (get_or_create agent l.agents).0.recent
            ++ record { tool = tool; params = params; at = now } ∷ []),
      )
      bounded_map.small (inr (has, bounded_map.size))

sweep-IsBounded : (now : ℕ) (m : Map AgentState) → All IsSmall m → All IsSmall (sweep now m)
unfolding sweep
sweep-IsBounded now [] a = tt
sweep-IsBounded now ((id, st) ∷ m) a =
    let fresh = λ (rc : RecentCall). within now (10 * second) rc.at in
    ground (
      arith,
      sweep-IsBounded now m a.1,
      length-keep fresh st.recent,
      count-le-length fresh st.recent,
    )

length-sweep_le : (now : ℕ) (m : Map AgentState) → length (sweep now m) ≤ length m
unfolding sweep
length-sweep_le now [] = omega arith
length-sweep_le now ((id, st) ∷ m) = ground (arith, length-sweep_le now m)

-- The operations on the agents' states.
pub data Operation : Type 0 where
  checks : ℕ → Text → Text → Text → Text → Operation
  records : ℕ → Text → Text → Text → Operation
  sweeps : ℕ → Operation

pub run : Operation → Limiter → Limiter
run (checks now agent policy tool params) l = (check now agent policy tool params l).1
run (records now agent tool params) l = record_call now agent tool params l
run (sweeps now) l = gc now l

abbrev pub IsNamed : Operation → Type 0
IsNamed (checks now agent policy tool params) = is_empty agent ≡ false
IsNamed (records now agent tool params) = is_empty agent ≡ false
IsNamed (sweeps now) = Unit

-- Every operation for an agent with a name keeps the limiter within 50,000 agents and 50 recent
-- calls for each.
pub run-IsBounded :
    (op : Operation) (l : Limiter) → IsNamed op → IsBounded l.agents → IsBounded (run op l).agents
unfolding run gc
run-IsBounded (checks now agent policy tool params) l h b =
    check-IsBounded now agent policy tool params l h b
run-IsBounded (records now agent tool params) l h b =
    record_call-IsBounded now agent tool params l h b
run-IsBounded (sweeps now) l h b = record {
  size = omega (arith, length-sweep_le now l.agents, b.size);
  small = sweep-IsBounded now l.agents b.small;
}
