-- ===== src/Halt.antt =====
-- halt/halt.go: the emergency stop. The database is a parameter: what its query returns, if it
-- answers, and whether a write fails, are arguments of the calls that use it. Time is in
-- nanoseconds; the lock makes a call one step.
pub mod Matching
pub mod Lifecycle
pub mod Resumption
use flux7_mesh.Base.{
  ℕ, suc, ◌+◌, Bool, true, false, not, ◌&&◌, ◌||◌, Option, none, some, List, [], ◌∷◌, ◌++◌, ◌⊎◌,
  inl, inr, if◌then◌else◌, ltb, leb, Text, text_eq, is_empty, has_prefix, trim_space, length,
}
use flux7_mesh.Match.{glob}
use flux7_mesh.Grant.{Grant}

-- What a halt stops; `unknown` is any other string.
pub data Scope : Type 0 where
  everything by_agent by_session : Scope
  unknown : Text → Scope

pub data HaltError : Type 0 where
  needs_target : Scope → HaltError
  unknown_scope : Text → HaltError
  db_failed : HaltError
  not_found : HaltError

pub record Halt : Type 0 where
  pub id : Text
  pub scope : Scope
  pub target : Text
  pub reason : Text
  pub created_by : Text
  pub created_at : ℕ
  pub resumed_by : Text
  pub resumed_at : ℕ
  pub revoked_grants : List Grant

pub record Store : Type 0 where
  pub active : List Halt
  pub has_db : Bool
  pub last_sync : ℕ

-- What the query for the halts that are not resumed returns; none is an error.
abbrev pub Query : Type 0
Query = Option (List Halt)

-- SyncEvery, one second.
abbrev pub sync_every : ℕ
sync_every = 1000000000

unfoldable pub covers : Halt → Text → Text → Bool
covers h agent session = elim h.scope [
  | everything ↦ true
  | by_agent ↦ glob h.target agent
  | by_session ↦ not (is_empty session) && text_eq session h.target
  | unknown s ↦ false
]

-- A failed query keeps the halts that are known.
unfoldable pub reload : ℕ → Query → Store → Store
reload now none s = s
reload now (some halts) s = record s { active = halts; last_sync = now }

unfoldable pub sync_if_stale : ℕ → Query → Store → Store
unfolding reload
sync_if_stale now query s =
    if not s.has_db then s else if ltb now (s.last_sync + sync_every) then s else reload now query s

unfoldable pub same_scope : Scope → Scope → Bool
same_scope everything everything = true
same_scope by_agent by_agent = true
same_scope by_session by_session = true
same_scope (unknown s) (unknown t) = text_eq s t
same_scope _ _ = false

abbrev pub is_for : Scope → Text → Halt → Bool
is_for scope target h = same_scope h.scope scope && text_eq h.target target

unfoldable pub find_halt : (Halt → Bool) → List Halt → Option Halt
find_halt p [] = none
find_halt p (h ∷ hs) = if p h then some h else find_halt p hs

-- The switch at the head of `Start`: the target to use.
unfoldable pub check_target : Scope → Text → HaltError ⊎ Text
check_target everything target = inr []
check_target by_agent target = if is_empty target then inl (needs_target by_agent) else inr target
check_target by_session target =
    if is_empty target then inl (needs_target by_session) else inr target
check_target (unknown s) target = inl (unknown_scope s)

abbrev pub new_halt : ℕ → Text → Scope → Text → Text → Text → Halt
new_halt now id scope target reason by = record {
  id = id;
  scope = scope;
  target = target;
  reason = reason;
  created_by = by;
  created_at = now;
  resumed_by = [];
  resumed_at = 0;
  revoked_grants = [];
}

-- `Start` after its checks, on the synchronised store; `db_err` is a failed insert.
unfoldable pub start_checked :
    ℕ → Text → Bool → Scope → Text → Text → Text → Store → (HaltError ⊎ (Halt × Bool)) × Store
unfolding find_halt
start_checked now id db_err scope target reason by s =
    elim (find_halt (is_for scope target) s.active) [
      | some h ↦ (inr (h, false), s)
      | none ↦
          let h = new_halt now id scope target reason by in
          if s.has_db && db_err
          then (inl db_failed, s)
          else (inr (h, true), record s { active = s.active ++ h ∷ [] })
    ]

-- The halt, and whether it is new.
unfoldable pub start :
    ℕ
    → Text
    → Query
    → Bool
    → Scope
    → Text
    → Text
    → Text
    → Store
    → (HaltError ⊎ (Halt × Bool)) × Store
unfolding check_target start_checked sync_if_stale
start now id query db_err scope target reason by s = elim (check_target scope (trim_space target)) [
  | inl e ↦ (inl e, s)
  | inr t ↦ start_checked now id db_err scope t reason by (sync_if_stale now query s)
]

unfoldable pub record_in : Text → List Grant → List Halt → List Halt
record_in id grants [] = []
record_in id grants (h ∷ hs) =
    if text_eq h.id id
    then record h { revoked_grants = h.revoked_grants ++ grants } ∷ hs
    else h ∷ record_in id grants hs

unfoldable pub record_revoked : Text → List Grant → Store → Store
unfolding record_in
record_revoked id grants s = record s { active = record_in id grants s.active }

abbrev pub id_matches : Text → Halt → Bool
id_matches id h = text_eq h.id id || (leb 4 (length id) && has_prefix h.id id)

-- The first halt with the ID, marked as resumed; the halts with it marked; and those without it.
unfoldable pub take_resumed : ℕ → Text → Text → List Halt → Option (Halt × List Halt × List Halt)
take_resumed now id by [] = none
take_resumed now id by (h ∷ hs) =
    let rest = take_resumed now id by hs in
    let resumed = record h { resumed_by = by; resumed_at = now } in
    if id_matches id h
    then some (resumed, resumed ∷ hs, hs)
    else elim rest [ none ↦ none | some (r, marked, left) ↦ some (r, h ∷ marked, h ∷ left) ]

-- A failed update leaves the halt active, though its fields are already set.
unfoldable pub resume : ℕ → Query → Bool → Text → Text → Store → (HaltError ⊎ Halt) × Store
unfolding take_resumed sync_if_stale
resume now query db_err id by s =
    let s' = sync_if_stale now query s in
    elim (take_resumed now id by s'.active) [
      | none ↦ (inl not_found, s')
      | some (h, marked, left) ↦
          if s'.has_db && db_err
          then (inl db_failed, record s' { active = marked })
          else (inr h, record s' { active = left })
    ]

unfoldable pub active_halts : ℕ → Query → Store → List Halt × Store
unfolding sync_if_stale
active_halts now query s = let s' = sync_if_stale now query s in (s'.active, s')

unfoldable pub rank : Scope → ℕ
rank everything = 0
rank by_agent = 1
rank _ = 2

-- One round of the loop in `Match`.
unfoldable pub better : Text → Text → Option Halt → Halt → Option Halt
unfolding covers rank
better agent session found h =
    if covers h agent session
    then elim found [
      | none ↦ some h
      | some f ↦ if ltb (rank h.scope) (rank f.scope) then some h else some f
    ]
    else found

unfoldable pub match_from : Text → Text → Option Halt → List Halt → Option Halt
unfolding better
match_from agent session found [] = found
match_from agent session found (h ∷ hs) = match_from agent session (better agent session found h) hs

unfoldable pub match_halt : ℕ → Query → Text → Text → Store → Option Halt × Store
unfolding match_from sync_if_stale
match_halt now query agent session s =
    let s' = sync_if_stale now query s in (match_from agent session none s'.active, s')
