-- ===== src/Halt/Resumption.antt =====
-- Lifting a halt.
use flux7_mesh.Base.{
  ℕ, ◌≡◌, refl, ap, ◌⊎◌, inl, inr, Bool, true, false, ◌&&◌, none, some, List, [], ◌∷◌, ◌++◌, arith,
  Bool-cases, Text, All, Any,
}
use flux7_mesh.Halt.{
  HaltError, db_failed, not_found, Halt, Store, Query, covers, sync_if_stale, id_matches,
  take_resumed, resume,
}

-- What `take_resumed` finds: the first halt that the ID matches.
abbrev pub Taken : ℕ → Text → Text → List Halt → Halt × List Halt × List Halt → Type 0
Taken now id by hs (r, marked, left) =
    (before : List Halt) × (h : Halt) × (after : List Halt) × (hs ≡ before ++ h ∷ after)
    × All (λ k. id_matches id k ≡ false) before
    × (id_matches id h ≡ true)
    × (r ≡ record h { resumed_by = by; resumed_at = now })
    × (marked ≡ before ++ r ∷ after)
    × (left ≡ before ++ after)

take_resumed-Taken :
    (now : ℕ) (id by : Text) (hs : List Halt)
    → ((take_resumed now id by hs ≡ none) × All (λ k. id_matches id k ≡ false) hs)
      ⊎ ((t : Halt × List Halt × List Halt) × (take_resumed now id by hs ≡ some t)
          × Taken now id by hs t)
unfolding take_resumed
take_resumed-Taken now id by [] = inl (refl, tt)
take_resumed-Taken now id by (h ∷ hs) = elim (Bool-cases (id_matches id h)) [
  | inl hit ↦
      let r : Halt = record h { resumed_by = by; resumed_at = now } in
      inr ((r, r ∷ hs, hs), ground arith, ([], h, hs, refl, tt, hit, refl, refl, refl))
  | inr miss ↦ elim (take_resumed-Taken now id by hs) [
    | inl (e, quiet) ↦ inl (ground arith, (miss, quiet))
    | inr ((r, marked, left), e, (before, k, after, same, quiet, hit, is, m, l)) ↦ inr (
      (r, h ∷ marked, h ∷ left),
      ground arith,
      (h ∷ before, k, after, ap (◌∷◌ h) same, (miss, quiet), hit, is, ap (◌∷◌ h) m, ap (◌∷◌ h) l),
    )
  ]
]

module _ (now : ℕ) (query : Query) (db_err : Bool) (id by : Text) (s : Store) where
  -- Either no active halt has the ID and nothing is lifted, or the first halt with the ID is taken:
  -- it alone leaves the active halts if the database takes the update, and none leaves otherwise.
  pub resume_outcome :
      let s' = sync_if_stale now query s in
      ((resume now query db_err id by s ≡ (inl not_found, s'))
        × All (λ k. id_matches id k ≡ false) s'.active)
      ⊎ ((t : Halt × List Halt × List Halt) × Taken now id by s'.active t
          × (((s'.has_db && db_err ≡ false)
                × (resume now query db_err id by s ≡ (inr t.0, record s' { active = t.2 })))
              ⊎ ((s'.has_db && db_err ≡ true)
                  × (resume now query db_err id by s
                      ≡ (inl db_failed, record s' { active = t.1 })))))
  unfolding resume
  resume_outcome = elim (take_resumed-Taken now id by (sync_if_stale now query s).active) [
    | inl (e, quiet) ↦ inl (ground arith, quiet)
    | inr (t, e, taken) ↦ inr (
      t,
      taken,
      elim (Bool-cases ((sync_if_stale now query s).has_db && db_err)) [
        | inl failed ↦ inr (failed, ground arith)
        | inr fine ↦ inl (fine, ground arith)
      ],
    )
  ]

Any-marked :
    (now : ℕ) (by agent session : Text) (before after : List Halt) (h : Halt)
    → Any (λ k. covers k agent session ≡ true) (before ++ h ∷ after)
    → Any
        (λ k. covers k agent session ≡ true)
        (before ++ record h { resumed_by = by; resumed_at = now } ∷ after)
unfolding covers
Any-marked now by agent session [] after h a = a
Any-marked now by agent session (k ∷ ks) after h (inl c) = inl c
Any-marked now by agent session (k ∷ ks) after h (inr a) =
    inr (Any-marked now by agent session ks after h a)

-- A resume that fails, for whatever reason, lets no call through: what an active halt covered
-- before it is covered after it.
pub resume_fails_closed :
    (now : ℕ) (query : Query) (db_err : Bool) (id by : Text) (s s' : Store) (e : HaltError)
    (agent session : Text)
    → resume now query db_err id by s ≡ (inl e, s')
    → Any (λ k. covers k agent session ≡ true) (sync_if_stale now query s).active
    → Any (λ k. covers k agent session ≡ true) s'.active
resume_fails_closed now query db_err id by s s' e agent session failed a =
    elim (resume_outcome now query db_err id by s) [
      | inl (same, _) ↦
          let same_store : s' ≡ sync_if_stale now query s = ground arith in rw same_store a
      | inr ((r, marked, left), (before, h, after, split, _, _, is, m, _), inl (_, done)) ↦
          absurd (ground arith)
      | inr ((r, marked, left), (before, h, after, split, _, _, is, m, _), inr (_, kept)) ↦
          let is_active : s'.active
              ≡ before ++ record h { resumed_by = by; resumed_at = now } ∷ after =
            ground arith in
          rw is_active (Any-marked now by agent session before after h (rw split at a))
    ]
