-- ===== src/Approval/Claims.antt =====
-- An approval pays for one call.
use flux7_mesh.Base.{
  ℕ, ◌≡◌, refl, sym, ap, ◌∙◌, ◌≢◌, ◌⊎◌, inl, inr, Bool, true, false, Option, none, some, [], ◌∷◌,
  arith, if◌then◌else◌, Bool-cases, Option-cases, Text, text_eq, text_eq_refl, All, Map, lookup,
  lookup-insert,
}
use flux7_mesh.Policy.Value.{Params}
use flux7_mesh.Approval.{
  Status, PendingApproval, ResolveOpts, Store, is_claimed, mark_claimed, claim, resolve, expire,
  submit_with_trace, resolve_found, find_key,
}
use flux7_mesh.Approval.Settled.{find_entry, is_claimable, claim_settled}
use flux7_mesh.Approval.Machine.{
  Operation, submits, expires, resolves, claims, claims_settled, run, IsProper, IsSound,
  IsEntrySound, claim_settled-entries, run-IsSound,
}

module _ {N : Type 0} where
  is_claimed-mark :
      (i id : Text) (s : Store N)
      → is_claimed id (mark_claimed i s) ≡ (if text_eq i id then true else is_claimed id s)
  is_claimed-mark i id s = ground (arith, lookup-insert i id true s.claimed)

  -- What `find_entry` finds passes the test, and stands in the list.
  find_entry_sound :
      (p : Text → PendingApproval N → Bool) (P : Text × PendingApproval N → Type 0)
      (m : Map (PendingApproval N))
      → All P m
      → ((find_entry p m ≡ none) × All (λ e. p e.0 e.1 ≡ false) m)
        ⊎ ((e : Text × PendingApproval N) × (find_entry p m ≡ some e) × (p e.0 e.1 ≡ true) × P e)
  unfolding find_entry
  find_entry_sound p P [] a = inl (refl, tt)
  find_entry_sound p P ((j, q) ∷ m) a = elim (Bool-cases (p j q)) [
    | inl passes ↦ inr ((j, q), rw passes refl, passes, a.0)
    | inr fails ↦ elim (find_entry_sound p P m a.1) [
      | inl (e, quiet) ↦ inl (rw fails e, (fails, quiet))
      | inr (e, same, passes, is) ↦ inr (e, rw fails same, passes, is)
    ]
  ]

module _ {N : Type 0} (marshal : Params N → Option Text) where
  same_claimed :
      (s t : Store N) (id : Text)
      → t.claimed ≡ s.claimed
      → is_claimed id s ≡ true
      → is_claimed id t ≡ true
  same_claimed s t id e h = ap (λ m. elim (lookup id m) [ none ↦ false | some b ↦ b ]) e ∙ h

  resolve_found-claimed :
      (now : ℕ) (status : Status) (opts : ResolveOpts N) (key : Text) (pa : PendingApproval N)
      (s : Store N)
      → (resolve_found now status opts key (some pa) s).1.claimed ≡ s.claimed
  unfolding resolve_found
  resolve_found-claimed now status opts key pa s = ground arith

  resolve-claimed :
      (now : ℕ) (id : Text) (status : Status) (opts : ResolveOpts N) (s : Store N)
      → (resolve now id status opts s).1.claimed ≡ s.claimed
  unfolding resolve resolve_found
  resolve-claimed now id status opts s = elim (Option-cases (find_key id s)) [
    | inl e ↦ rw (e, resolve) refl
    | inr (key, e) ↦ elim (Option-cases (lookup key s.entries)) [
      | inl f ↦ rw (e, resolve, f, resolve_found) refl
      | inr (pa, f) ↦ rw (e, resolve, f) (resolve_found-claimed now status opts key pa s)
    ]
  ]

  expire-claimed : (now : ℕ) (id : Text) (s : Store N) → (expire now id s).claimed ≡ s.claimed
  unfolding expire
  expire-claimed now id s = ground arith

  claim_settled-claimed :
      (st : Status) (now : ℕ) (agent tool : Text) (params : Params N) (window : ℕ) (s : Store N)
      (id : Text)
      → is_claimed id s ≡ true
      → is_claimed id (claim_settled marshal st now agent tool params window s).1 ≡ true
  unfolding claim_settled
  claim_settled-claimed st now agent tool params window s id h =
      elim (Option-cases (marshal params)) [
        | inl e ↦ rw (e, claim_settled) h
        | inr (want, e) ↦
            elim (Option-cases
              (find_entry (is_claimable marshal st now agent tool want window s) s.entries)) [
                | inl f ↦ rw (e, claim_settled, f) h
                | inr ((i, pa), f) ↦
                    rw (e, claim_settled, f) (ground (arith, is_claimed-mark i id s))
              ]
      ]

  -- What is claimed stays claimed.
  run-keeps_claimed :
      (op : Operation N) (s : Store N) (id : Text)
      → is_claimed id s ≡ true
      → is_claimed id (run marshal op s) ≡ true
  unfolding run submit_with_trace claim
  run-keeps_claimed (submits now i agent tool rule params callback trace) s id h = h
  run-keeps_claimed (expires now i) s id h =
      same_claimed s (expire now i s) id (expire-claimed now i s) h
  run-keeps_claimed (resolves now i status opts) s id h =
      same_claimed s (resolve now i status opts s).1 id (resolve-claimed now i status opts s) h
  run-keeps_claimed (claims i) s id h = ground (arith, is_claimed-mark i id s)
  run-keeps_claimed (claims_settled st now agent tool params window) s id h =
      claim_settled-claimed st now agent tool params window s id h

  -- The stores that can follow a store.
  pub data Reaches (s : Store N) : Store N → Type 0 where
    stays : Reaches s s
    goes :
        (t : Store N) (op : Operation N)
        → Reaches s t
        → IsProper op t
        → Reaches s (run marshal op t)

  Reaches-keeps_claimed :
      (s t : Store N) (id : Text) → Reaches s t → is_claimed id s ≡ true → is_claimed id t ≡ true
  Reaches-keeps_claimed s t id stays h = h
  Reaches-keeps_claimed s t id (goes u op r p) h =
      run-keeps_claimed op u id (Reaches-keeps_claimed s u id r h)

  Reaches-IsSound : (s t : Store N) → Reaches s t → IsSound s → IsSound t
  Reaches-IsSound s t stays h = h
  Reaches-IsSound s t (goes u op r p) h = run-IsSound marshal op u p (Reaches-IsSound s u r h)

  -- In a store that is sound, a call whose arguments encode as `want` either finds no approval that
  -- it can use and changes nothing, or it gets one that it can use and marks it as claimed.
  pub claim_settled_outcome :
      (st : Status) (now : ℕ) (agent tool want : Text) (params : Params N) (window : ℕ)
      (s : Store N)
      → IsSound s
      → marshal params ≡ some want
      → let usable = is_claimable marshal st now agent tool want window s in
        let result = claim_settled marshal st now agent tool params window s in
        ((result ≡ (none, s)) × All (λ e. usable e.0 e.1 ≡ false) s.entries)
        ⊎ ((pa : PendingApproval N) × (result ≡ (some pa, mark_claimed pa.id s))
            × (usable pa.id pa ≡ true))
  unfolding claim_settled
  claim_settled_outcome st now agent tool want params window s sound e =
      elim (find_entry_sound (is_claimable marshal st now agent tool want window s) IsEntrySound
        s.entries sound) [
          | inl (f, quiet) ↦ inl (rw (claim_settled, e, f) refl, quiet)
          | inr ((id, pa), f, usable, (same, _)) ↦
              inr (pa, rw (claim_settled, e, f) (rw same refl), rw same at usable)
        ]

  free_of :
      (st : Status) (now : ℕ) (agent tool want : Text) (window : ℕ) (s : Store N)
      (pa : PendingApproval N)
      → is_claimable marshal st now agent tool want window s pa.id pa ≡ true
      → is_claimed pa.id s ≡ false
  free_of st now agent tool want window s pa h = ground arith

  marks :
      (st : Status) (now : ℕ) (agent tool : Text) (params : Params N) (window : ℕ) (s t : Store N)
      (pa : PendingApproval N)
      → IsSound s
      → claim_settled marshal st now agent tool params window s ≡ (some pa, t)
      → (is_claimed pa.id s ≡ false) × (is_claimed pa.id t ≡ true)
  unfolding claim_settled
  marks st now agent tool params window s t pa sound e = elim (Option-cases (marshal params)) [
    | inl f ↦
        let nothing : claim_settled marshal st now agent tool params window s ≡ (none, s) =
          rw (claim_settled, f) refl in
        absurd (ground arith)
    | inr (want, f) ↦ elim (claim_settled_outcome st now agent tool want params window s sound f) [
      | inl (nothing, _) ↦ absurd (ground arith)
      | inr (pb, got, usable) ↦
          let same : pb ≡ pa = ground arith in
          let after : t ≡ mark_claimed pb.id s = ground arith in
          (
            rw same at (free_of st now agent tool want window s pb usable),
            rw (after, sym same)
                (ground (arith, is_claimed-mark pb.id pb.id s, text_eq_refl pb.id)),
          )
    ]
  ]

  -- Once a call got a settled approval, no call gets an approval with that ID again, whatever
  -- happens in between and whatever the second call asks for.
  pub claim_settled_once :
      (st later_st : Status) (now later : ℕ) (agent tool later_agent later_tool : Text)
      (params later_params : Params N) (window later_window : ℕ) (s s' t t' : Store N)
      (pa pb : PendingApproval N)
      → IsSound s
      → claim_settled marshal st now agent tool params window s ≡ (some pa, s')
      → Reaches s' t
      → claim_settled marshal later_st later later_agent later_tool later_params later_window t
        ≡ (some pb, t')
      → pa.id ≢ pb.id
  claim_settled_once st later_st now later agent tool later_agent later_tool params later_params
        window later_window s s' t t' pa pb sound first between second same =
      let sound' : IsSound s' =
        rw
          (sym (ap (λ r. r.1.entries) first)
            ∙ claim_settled-entries marshal st now agent tool params window s)
          sound in
      let taken = (marks st now agent tool params window s s' pa sound first).1 in
      let still = Reaches-keeps_claimed s' t pa.id between taken in
      let free =
        (marks later_st later later_agent later_tool later_params later_window t t' pb
          (Reaches-IsSound s' t between sound') second).0 in
      let also : is_claimed pb.id t ≡ true = rw (sym same) still in ground arith
