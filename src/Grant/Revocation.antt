-- ===== src/Grant/Revocation.antt =====
-- Taking grants away and putting them back: `RevokeWhere`, and the loop of `Restore` calls in
-- proxy/halts.go, which resumes a halt.
use flux7_mesh.Base.{
  any-append, ℕ, ◌≤◌, ◌≡◌, refl, sym, ◌∙◌, inl, inr, Bool, false, not, ◌||◌, some, List, [], ◌∷◌,
  ◌++◌, arith, if◌then◌else◌, Bool-cases, Text, text_eq, text_eq_iff, All, any, keep, is_some,
}
use mathlib.Core.List.{append-nil, append_assoc}
use flux7_mesh.Grant.{
  Grant, Store, is_expired, covers, check_grants, check, is_revoked, revoke_where, has_id, restore,
}

-- Each grant in turn is put back; the IDs of those that came back, and the store.
unfoldable pub restore_all : ℕ → List Grant → Store → List Text × Store
unfolding restore
restore_all now [] s = ([], s)
restore_all now (g ∷ gs) s =
    let (back, s') = restore now g s in
    let (ids, s'') = restore_all now gs s' in ((if back then g.id ∷ ids else ids), s'')

-- No two grants of the list have one ID.
abbrev pub HasDistinctIds : List Grant → Type 0
HasDistinctIds [] = Unit
HasDistinctIds (g ∷ gs) = (has_id g.id gs ≡ false) × HasDistinctIds gs

-- No grant of the list has an ID of the others.
abbrev Apart : List Grant → List Grant → Type 0
Apart base gs = All (λ g. has_id g.id base ≡ false) gs

text_eq_comm : (s t : Text) → text_eq s t ≡ text_eq t s
text_eq_comm s t = ground (arith, text_eq_iff s t, text_eq_iff t s)

has_id-keep :
    (i : Text) (p : Grant → Bool) (gs : List Grant)
    → has_id i gs ≡ false
    → has_id i (keep p gs) ≡ false
has_id-keep i p [] h = refl
has_id-keep i p (g ∷ gs) h = ground (arith, has_id-keep i p gs)

-- One more grant on the other side, whose ID no grant of the list has.
Apart-cons :
    (g : Grant) (base gs : List Grant)
    → has_id g.id gs ≡ false
    → Apart base gs
    → Apart (g ∷ base) gs
Apart-cons g base [] h a = tt
Apart-cons g base (x ∷ xs) h a =
    (ground (arith, text_eq_comm x.id g.id), Apart-cons g base xs (ground arith) a.1)

Apart-last :
    (g : Grant) (base gs : List Grant)
    → has_id g.id gs ≡ false
    → Apart base gs
    → Apart (base ++ g ∷ []) gs
Apart-last g base [] h a = tt
Apart-last g base (x ∷ xs) h a = (
  ground (arith, text_eq_comm x.id g.id, has_id-append x.id base (g ∷ []), a.0),
  Apart-last g base xs (ground arith) a.1,
)
  where
    has_id-append :
        (i : Text) (xs ys : List Grant) → has_id i (xs ++ ys) ≡ (has_id i xs || has_id i ys)
    has_id-append i [] ys = refl
    has_id-append i (x ∷ xs) ys = ground (arith, has_id-append i xs ys)

-- The grants that pass a test share no ID with the others.
keep-Apart :
    (p : Grant → Bool) (gs : List Grant)
    → HasDistinctIds gs
    → Apart (keep (λ g. not (p g)) gs) (keep p gs) × HasDistinctIds (keep p gs)
keep-Apart p [] d = (tt, tt)
keep-Apart p (g ∷ gs) d =
    let ih = keep-Apart p gs d.1 in
    let others = keep (λ h. not (p h)) gs in
    ground (
      arith,
      ih,
      has_id-keep g.id p gs,
      has_id-keep g.id (λ h. not (p h)) gs,
      Apart-cons g others (keep p gs),
    )

restore_all-grants :
    (now : ℕ) (gs : List Grant) (s : Store)
    → Apart s.grants gs
    → HasDistinctIds gs
    → (restore_all now gs s).1.grants ≡ s.grants ++ keep (λ g. not (is_expired now g)) gs
unfolding restore_all
restore_all-grants now [] s a d = sym (append-nil s.grants)
restore_all-grants now (g ∷ gs) s a d = elim (Bool-cases (is_expired now g)) [
  | inl old ↦ rw (old, restore_all) (restore_all-grants now gs s a.1 d.1)
  | inr fresh ↦
      rw (fresh, a.0, restore_all)
        (restore_all-grants now gs (record s { grants = s.grants ++ g ∷ [] })
            (Apart-last g s.grants gs d.0 a.1) d.1
          ∙ append_assoc s.grants (g ∷ []) _)
]

is_some-check :
    (now : ℕ) (agent tool : Text) (gs : List Grant)
    → is_some (check_grants now agent tool gs) ≡ any (covers now agent tool) gs
unfolding check_grants
is_some-check now agent tool [] = refl
is_some-check now agent tool (g ∷ gs) = ground (arith, is_some-check now agent tool gs)

any-keep_fresh :
    (now : ℕ) (agent tool : Text) (gs : List Grant)
    → any (covers now agent tool) (keep (λ g. not (is_expired now g)) gs)
      ≡ any (covers now agent tool) gs
any-keep_fresh now agent tool [] = refl
any-keep_fresh now agent tool (g ∷ gs) = ground (arith, any-keep_fresh now agent tool gs)

any-partition :
    (p q : Grant → Bool) (gs : List Grant)
    → (any p (keep (λ g. not (q g)) gs) || any p (keep q gs)) ≡ any p gs
any-partition p q [] = refl
any-partition p q (g ∷ gs) = ground (arith, any-partition p q gs)

-- If the IDs are distinct, then putting back all that `revoke_where` took away, at any later time,
-- leaves exactly the calls permitted that the grants would permit at that time had nothing been
-- revoked.
pub check-restore_all-revoke_where :
    (now later : ℕ) (selects : Grant → Bool) (agent tool : Text) (s : Store)
    → HasDistinctIds s.grants
    → is_some (
        check later agent tool
          (restore_all later (revoke_where now selects s).0 (revoke_where now selects s).1).1)
      ≡ is_some (check later agent tool s)
unfolding check revoke_where
check-restore_all-revoke_where now later selects agent tool s d =
    let taken = keep (is_revoked now selects) s.grants in
    let left = keep (λ g. not (is_revoked now selects g)) s.grants in
    let apart = keep-Apart (is_revoked now selects) s.grants d in
    rw
      (
        restore_all-grants later taken (record s { grants = left }) apart.0 apart.1,
        is_some-check later agent tool (left ++ keep (λ g. not (is_expired later g)) taken),
        is_some-check later agent tool s.grants,
        any-append (covers later agent tool) left (keep (λ g. not (is_expired later g)) taken),
        any-keep_fresh later agent tool taken,
      )
      (any-partition (covers later agent tool) (is_revoked now selects) s.grants)

-- What is left after `revoke_where` permits a call from then on only by a grant that was not
-- selected.
check_grants-unselected :
    (now later : ℕ) (selects : Grant → Bool) (agent tool : Text) (gs : List Grant) (g : Grant)
    → now ≤ later
    → check_grants later agent tool (keep (λ h. not (is_revoked now selects h)) gs) ≡ some g
    → selects g ≡ false
unfolding check_grants
check_grants-unselected now later selects agent tool [] g h e = ground arith
check_grants-unselected now later selects agent tool (x ∷ xs) g h e =
    ground (arith, check_grants-unselected now later selects agent tool xs g h)

-- After `revoke_where`, the grant that permits a call, then or later, is one that was not selected.
pub check-revoke_where :
    (now later : ℕ) (selects : Grant → Bool) (agent tool : Text) (s : Store) (g : Grant)
    → now ≤ later
    → check later agent tool (revoke_where now selects s).1 ≡ some g
    → selects g ≡ false
unfolding check revoke_where
check-revoke_where now later selects agent tool s g h e =
    check_grants-unselected now later selects agent tool s.grants g h e
