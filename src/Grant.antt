-- ===== src/Grant.antt =====
-- grant/store.go: temporary permissions. A time is a number of nanoseconds; one clock reading and
-- one random ID serve for each call and are its arguments. The lock makes a call one step. The
-- copy that grant/persist.go keeps in the database is not modelled.
pub mod Lookup
pub mod Revocation
use flux7_mesh.Base.{
  ℕ, suc, ◌+◌, ◌-◌, Bool, true, false, not, ◌&&◌, ◌||◌, Option, none, some, List, [], ◌∷◌, ◌++◌,
  if◌then◌else◌, ltb, leb, Text, text_eq, has_prefix, length, any, keep, count,
}
use flux7_mesh.Match.{glob}

pub record Origin : Type 0 where
  pub approval_id : Text
  pub trace_id : Text

abbrev pub no_origin : Origin
no_origin = record { approval_id = []; trace_id = [] }

pub record Grant : Type 0 where
  pub id : Text
  pub agent : Text
  pub tools : Text
  pub expires_at : ℕ
  pub granted_by : Text
  pub created_at : ℕ
  pub origin : Origin

-- time.Duration, which may be negative.
pub data Duration : Type 0 where
  ahead back : ℕ → Duration

abbrev pub moved_by : ℕ → Duration → ℕ
moved_by now (ahead d) = now + d
moved_by now (back d) = now - d

pub record Store : Type 0 where
  pub grants : List Grant

abbrev pub is_expired : ℕ → Grant → Bool
is_expired now g = ltb g.expires_at now

-- Negative remainders are 0, as they are on natural numbers.
abbrev pub remaining : ℕ → Grant → ℕ
remaining now g = g.expires_at - now

abbrev pub new_store : Store
new_store = record { grants = [] }

unfoldable pub add_with_origin :
    ℕ → Text → Text → Text → Text → Duration → Origin → Store → Grant × Store
add_with_origin now id agent tools granted_by duration origin s =
    let g : Grant = record {
      id = id;
      agent = agent;
      tools = tools;
      expires_at = moved_by now duration;
      granted_by = granted_by;
      created_at = now;
      origin = origin;
    } in
    (g, record s { grants = s.grants ++ g ∷ [] })

unfoldable pub add : ℕ → Text → Text → Text → Text → Duration → Store → Grant × Store
unfolding add_with_origin
add now id agent tools granted_by duration s =
    add_with_origin now id agent tools granted_by duration no_origin s

abbrev pub match_pattern : Text → Text → Bool
match_pattern pattern value = glob pattern value

-- The test of one grant in `Check`.
abbrev pub covers : ℕ → Text → Text → Grant → Bool
covers now agent tool g =
    not (is_expired now g) && (match_pattern g.agent agent && match_pattern g.tools tool)

unfoldable pub check_grants : ℕ → Text → Text → List Grant → Option Grant
check_grants now agent tool [] = none
check_grants now agent tool (g ∷ gs) =
    if covers now agent tool g then some g else check_grants now agent tool gs

unfoldable pub check : ℕ → Text → Text → Store → Option Grant
unfolding check_grants
check now agent tool s = check_grants now agent tool s.grants

-- The ID itself, or a prefix of it with at least four characters.
abbrev pub id_matches : Text → Grant → Bool
id_matches id g =
    text_eq g.id id || (leb 4 (length id) && (leb (length id) (length g.id) && has_prefix g.id id))

unfoldable pub revoke_first : Text → List Grant → Option (List Grant)
revoke_first id [] = none
revoke_first id (g ∷ gs) =
    let rest = revoke_first id gs in
    if id_matches id g then some gs else elim rest [ none ↦ none | some gs' ↦ some (g ∷ gs') ]

unfoldable pub revoke : Text → Store → Bool × Store
unfolding revoke_first
revoke id s = elim (revoke_first id s.grants) [
  | none ↦ (false, s)
  | some gs ↦ (true, record s { grants = gs })
]

abbrev pub is_revoked : ℕ → (Grant → Bool) → Grant → Bool
is_revoked now selects g = not (is_expired now g) && selects g

-- The grants that were revoked, and the store that keeps the others.
unfoldable pub revoke_where : ℕ → (Grant → Bool) → Store → List Grant × Store
revoke_where now selects s = (
  keep (is_revoked now selects) s.grants,
  record s { grants = keep (λ g. not (is_revoked now selects g)) s.grants },
)

abbrev pub has_id : Text → List Grant → Bool
has_id id gs = any (λ g. text_eq g.id id) gs

unfoldable pub restore : ℕ → Grant → Store → Bool × Store
restore now g s =
    if is_expired now g
    then (false, s)
    else if has_id g.id s.grants
    then (false, s)
    else (true, record s { grants = s.grants ++ g ∷ [] })

unfoldable pub list_active : ℕ → Store → List Grant
list_active now s = keep (λ g. not (is_expired now g)) s.grants

-- The number of grants removed, and the store without them.
unfoldable pub cleanup : ℕ → Store → ℕ × Store
cleanup now s = (
  count (is_expired now) s.grants,
  record s { grants = keep (λ g. not (is_expired now g)) s.grants },
)
