-- ===== src/Exec/Arguments.antt =====
-- What `ValidateArgs` accepts.
use flux7_mesh.Base.{
  text_eq, any, inl, inr, true, [], ◌⊎◌, codes, Option-cases, has_prefix, false, ◌∷◌, some,
  contains, none, All, List, Text, Option, ◌≡◌, refl, ◌↔◌, arith,
}
use flux7_mesh.Exec.{
  flag_name, dangerous_metachars, check_metachars, matches_allowed, find_metachar, check_all,
  check_flags, validate_args,
}

-- No metacharacter is in the argument.
abbrev pub IsHarmless : Text → Type 0
IsHarmless arg = All (λ mc. contains arg mc ≡ false) dangerous_metachars

-- Where flags are restricted, an argument that starts with a dash names an allowed one.
abbrev pub IsAllowed : Option (List Text) → Text → Type 0
IsAllowed none arg = Unit
IsAllowed (some flags) arg =
    (has_prefix arg (codes "-") ≡ false) ⊎ (any (λ a. text_eq (flag_name arg) a) flags ≡ true)

find_metachar_iff :
    (mcs : List Text) (arg : Text)
    → (find_metachar mcs arg ≡ none) ↔ All (λ mc. contains arg mc ≡ false) mcs
unfolding find_metachar
find_metachar_iff [] arg = (λ h. tt, λ h. refl)
find_metachar_iff (mc ∷ mcs) arg =
    let ih = find_metachar_iff mcs arg in (λ h. ground (arith, ih), λ h. ground (arith, ih))

check_all_iff : (args : List Text) → (check_all args ≡ none) ↔ All IsHarmless args
unfolding check_all check_metachars
check_all_iff [] = (λ h. tt, λ h. refl)
check_all_iff (arg ∷ args) =
    let ih = check_all_iff args in
    let first = find_metachar_iff dangerous_metachars arg in
    elim (Option-cases (find_metachar dangerous_metachars arg)) [
      | inl clean ↦
          let here = first.0 clean in
          (λ h. (here, ih.0 (ground arith)), λ h. rw (check_all, check_metachars, clean) (ih.1 h.1))
      | inr (mc, found) ↦
          (λ h. absurd (ground arith), λ h. let clean = first.1 h.0 in absurd (ground arith))
    ]

check_flags_iff :
    (flags args : List Text) → (check_flags flags args ≡ none) ↔ All (IsAllowed (some flags)) args
unfolding check_flags matches_allowed
check_flags_iff flags [] = (λ h. tt, λ h. refl)
check_flags_iff flags (arg ∷ args) =
    let ih = check_flags_iff flags args in (λ h. ground (arith, ih), λ h. ground (arith, ih))

All-IsAllowed : (args : List Text) → All (IsAllowed none) args
All-IsAllowed [] = tt
All-IsAllowed (arg ∷ args) = (tt, All-IsAllowed args)

-- The arguments are accepted just if none has a metacharacter of the shell in it and, where flags are
-- restricted, each one that starts with a dash is an allowed flag, up to its value.
pub validate_args_iff :
    (allowed : Option (List Text)) (args : List Text)
    → (validate_args allowed args ≡ none) ↔ (All IsHarmless args × All (IsAllowed allowed) args)
unfolding validate_args
validate_args_iff none args =
    let ih = check_all_iff args in
    (
      λ h. (ih.0 (ground arith), All-IsAllowed args),
      λ h. let clean = ih.1 h.0 in rw (validate_args, clean) refl,
    )
validate_args_iff (some flags) args =
    let harmless = check_all_iff args in
    let listed = check_flags_iff flags args in
    elim (Option-cases (check_all args)) [
      | inl clean ↦ (
        λ h. (harmless.0 clean, listed.0 (ground arith)),
        λ h. let fine = listed.1 h.1 in rw (validate_args, clean, fine) refl,
      )
      | inr (e, found) ↦
          (λ h. absurd (ground arith), λ h. let clean = harmless.1 h.0 in absurd (ground arith))
    ]
