-- ===== src/Grant/Lookup.antt =====
-- Which grant `Check` finds, and that removing expired grants changes no answer.
use flux7_mesh.Base.{
  ℕ, ◌+◌, ◌≤◌, ◌≡◌, refl, ap, ◌⊎◌, inl, inr, true, false, not, none, some, List, [], ◌∷◌, ◌++◌,
  arith, Bool-cases, Text, All, length, count, keep,
}
use flux7_mesh.Grant.{Grant, Store, is_expired, covers, check_grants, check, cleanup}

-- The first grant of the list that covers the call.
abbrev pub FirstCover : ℕ → Text → Text → List Grant → Grant → Type 0
FirstCover now agent tool gs g =
    (before : List Grant) × (after : List Grant) × (gs ≡ before ++ g ∷ after)
    × All (λ h. covers now agent tool h ≡ false) before
    × (covers now agent tool g ≡ true)

check_grants_first :
    (now : ℕ) (agent tool : Text) (gs : List Grant)
    → ((check_grants now agent tool gs ≡ none) × All (λ h. covers now agent tool h ≡ false) gs)
      ⊎ ((g : Grant) × (check_grants now agent tool gs ≡ some g) × FirstCover now agent tool gs g)
unfolding check_grants
check_grants_first now agent tool [] = inl (refl, tt)
check_grants_first now agent tool (g ∷ gs) = elim (Bool-cases (covers now agent tool g)) [
  | inl hit ↦ inr (g, rw hit, ([], gs, refl, tt, hit))
  | inr miss ↦ elim (check_grants_first now agent tool gs) [
    | inl (e, none_covers) ↦ inl (rw miss e, (miss, none_covers))
    | inr (h, e, (before, after, same, earlier, hit)) ↦
        inr (h, rw miss e, (g ∷ before, after, ap (◌∷◌ g) same, (miss, earlier), hit))
  ]
]

-- `check` finds nothing only if no grant covers the call; otherwise it finds the oldest grant that
-- has not expired and whose patterns match the agent and the tool.
pub check_first :
    (now : ℕ) (agent tool : Text) (s : Store)
    → ((check now agent tool s ≡ none) × All (λ h. covers now agent tool h ≡ false) s.grants)
      ⊎ ((g : Grant) × (check now agent tool s ≡ some g) × FirstCover now agent tool s.grants g)
unfolding check
check_first now agent tool s = check_grants_first now agent tool s.grants

check_grants-keep :
    (now later : ℕ) (agent tool : Text) (gs : List Grant)
    → now ≤ later
    → check_grants later agent tool (keep (λ g. not (is_expired now g)) gs)
      ≡ check_grants later agent tool gs
unfolding check_grants
check_grants-keep now later agent tool [] h = refl
check_grants-keep now later agent tool (g ∷ gs) h =
    ground (arith, check_grants-keep now later agent tool gs h)

count-length-keep :
    (now : ℕ) (gs : List Grant)
    → count (is_expired now) gs + length (keep (λ g. not (is_expired now g)) gs) ≡ length gs
count-length-keep now [] = omega arith
count-length-keep now (g ∷ gs) = ground (arith, count-length-keep now gs)

-- A cleanup reports how many grants it removed, and no call from then on can tell that it ran.
pub check-cleanup :
    (now later : ℕ) (agent tool : Text) (s : Store)
    → now ≤ later
    → (check later agent tool (cleanup now s).1 ≡ check later agent tool s)
      × ((cleanup now s).0 + length (cleanup now s).1.grants ≡ length s.grants)
unfolding check cleanup
check-cleanup now later agent tool s h =
    (check_grants-keep now later agent tool s.grants h, count-length-keep now s.grants)
