-- ===== src/Approval/Machine.antt =====
-- An approval is decided once: by a person, by the timeout, never by both.
use flux7_mesh.Base.{
  ℕ, ◌≡◌, refl, ◌⊎◌, inl, inr, true, false, Option, none, some, [], ◌∷◌, arith, Bool-cases,
  Option-cases, Text, text_eq_iff, All, lookup, lookup-insert, All-insert, All-lookup,
}
use flux7_mesh.Policy.Value.{Params}
use flux7_mesh.Approval.{
  Status, pending, status_eq, Resolution, ResolveOpts, PendingApproval, Store, submit_with_trace,
  has_status, timed_out_at, expire, find_key, resolved_with, resolve_found, resolve, claim,
}
use flux7_mesh.Approval.Settled.{claim_settled}

module _ {N : Type 0} where
  -- Nothing was sent for a pending approval; for any other, one resolution with its status and
  -- resolver's time. So the channel, with room for one, never blocks the sender.
  abbrev pub IsSettledOnce : PendingApproval N → Type 0
  IsSettledOnce pa =
      ((has_status pending pa ≡ true) × (pa.result ≡ []))
      ⊎ ((r : Resolution N) × (has_status pending pa ≡ false)
          × (pa.result ≡ r ∷ [])
          × (r.status ≡ pa.status)
          × (r.resolved_at ≡ pa.resolved_at))

  -- Every entry is settled at most once and stands under its own ID.
  abbrev pub IsEntrySound : Text × PendingApproval N → Type 0
  IsEntrySound (id, pa) = (id ≡ pa.id) × IsSettledOnce pa

  abbrev pub IsSound : Store N → Type 0
  IsSound s = All IsEntrySound s.entries

-- What can happen to a store.
pub data Operation (N : Type 0) : Type 0 where
  submits : ℕ → (id : Text) → Text → Text → Text → Params N → Text → Text → Operation N
  expires : ℕ → Text → Operation N
  resolves : ℕ → Text → Status → ResolveOpts N → Operation N
  claims : Text → Operation N
  claims_settled : Status → ℕ → Text → Text → Params N → ℕ → Operation N

module _ {N : Type 0} (marshal : Params N → Option Text) where
  unfoldable pub run : Operation N → Store N → Store N
  run (submits now id agent tool rule params callback trace) s =
      (submit_with_trace now id agent tool rule params callback trace s).1
  run (expires now id) s = expire now id s
  run (resolves now id status opts) s = (resolve now id status opts s).1
  run (claims id) s = (claim id s).1
  run (claims_settled st now agent tool params window) s =
      (claim_settled marshal st now agent tool params window s).1

module _ {N : Type 0} where
  -- A new approval has an ID that no other has, and a decision is not "pending".
  abbrev pub IsProper : Operation N → Store N → Type 0
  IsProper (submits now id agent tool rule params callback trace) s = lookup id s.entries ≡ none
  IsProper (resolves now id status opts) s = status_eq status pending ≡ false
  IsProper _ s = Unit

  resolve_found-IsSound :
      (now : ℕ) (status : Status) (opts : ResolveOpts N) (key : Text)
      (found : Option (PendingApproval N)) (s : Store N)
      → status_eq status pending ≡ false
      → lookup key s.entries ≡ found
      → IsSound s
      → IsSound (resolve_found now status opts key found s).1
  unfolding resolve_found
  resolve_found-IsSound now status opts key none s p e h = h
  resolve_found-IsSound now status opts key (some pa) s p e h =
      let sound = All-lookup IsEntrySound key pa s.entries h e in
      elim (Bool-cases (has_status pending pa)) [
        | inr settled ↦ rw (settled, resolve_found) h
        | inl waiting ↦
            rw (waiting, resolve_found)
              (All-insert IsEntrySound key (resolved_with now status opts pa) s.entries
                (ground arith) h)
      ]

  resolve-IsSound :
      (now : ℕ) (id : Text) (status : Status) (opts : ResolveOpts N) (s : Store N)
      → status_eq status pending ≡ false
      → IsSound s
      → IsSound (resolve now id status opts s).1
  unfolding resolve
  resolve-IsSound now id status opts s p h = elim (Option-cases (find_key id s)) [
    | inl e ↦ rw (e, resolve) h
    | inr (key, e) ↦
        rw (e, resolve)
          (resolve_found-IsSound now status opts key (lookup key s.entries) s p refl h)
  ]

  expire-IsSound : (now : ℕ) (id : Text) (s : Store N) → IsSound s → IsSound (expire now id s)
  unfolding expire
  expire-IsSound now id s h = elim (Option-cases (lookup id s.entries)) [
    | inl e ↦ rw (e, expire) h
    | inr (pa, e) ↦
        let sound = All-lookup IsEntrySound id pa s.entries h e in
        elim (Bool-cases (has_status pending pa)) [
          | inr settled ↦ rw (e, settled, expire) h
          | inl waiting ↦
              rw (e, waiting, expire)
                (All-insert IsEntrySound id (timed_out_at now pa) s.entries (ground arith) h)
        ]
  ]

module _ {N : Type 0} (marshal : Params N → Option Text) where
  pub claim_settled-entries :
      (st : Status) (now : ℕ) (agent tool : Text) (params : Params N) (window : ℕ) (s : Store N)
      → (claim_settled marshal st now agent tool params window s).1.entries ≡ s.entries
  unfolding claim_settled
  claim_settled-entries st now agent tool params window s = ground arith

  claim-entries : (id : Text) (s : Store N) → (claim id s).1.entries ≡ s.entries
  unfolding claim
  claim-entries id s = ground arith

  -- Whatever happens, no approval is resolved twice: each holds no resolution while it is pending,
  -- and exactly one, the one that its fields show, ever after.
  pub run-IsSound :
      (op : Operation N) (s : Store N) → IsProper op s → IsSound s → IsSound (run marshal op s)
  unfolding run submit_with_trace
  run-IsSound (submits now id agent tool rule params callback trace) s p h =
      All-insert IsEntrySound id _ s.entries (refl, inl (refl, refl)) h
  run-IsSound (expires now id) s p h = expire-IsSound now id s h
  run-IsSound (resolves now id status opts) s p h = resolve-IsSound now id status opts s p h
  run-IsSound (claims id) s p h = rw (claim-entries id s) h
  run-IsSound (claims_settled st now agent tool params window) s p h =
      rw (claim_settled-entries st now agent tool params window s) h

  resolve_found-keeps :
      (now : ℕ) (status : Status) (opts : ResolveOpts N) (key id : Text)
      (found : Option (PendingApproval N)) (pa : PendingApproval N) (s : Store N)
      → lookup key s.entries ≡ found
      → lookup id s.entries ≡ some pa
      → has_status pending pa ≡ false
      → lookup id (resolve_found now status opts key found s).1.entries ≡ some pa
  unfolding resolve_found
  resolve_found-keeps now status opts key id none pa s e h p = h
  resolve_found-keeps now status opts key id (some q) pa s e h p =
      ground (
        arith,
        lookup-insert key id (resolved_with now status opts q) s.entries,
        text_eq_iff key id,
      )

  -- An approval that is settled stays as it is, whatever happens to the store.
  pub run-keeps_settled :
      (op : Operation N) (s : Store N) (id : Text) (pa : PendingApproval N)
      → IsProper op s
      → lookup id s.entries ≡ some pa
      → has_status pending pa ≡ false
      → lookup id (run marshal op s).entries ≡ some pa
  unfolding run submit_with_trace expire resolve
  run-keeps_settled (submits now i agent tool rule params callback trace) s id pa fresh h p =
      ground (
        arith,
        lookup-insert i id (submit_with_trace now i agent tool rule params callback trace s).0
            s.entries,
        text_eq_iff i id,
      )
  run-keeps_settled (expires now i) s id pa p h q = elim (Option-cases (lookup i s.entries)) [
    | inl e ↦ rw (e, run, expire) h
    | inr (other, e) ↦
        ground (arith, lookup-insert i id (timed_out_at now other) s.entries, text_eq_iff i id)
  ]
  run-keeps_settled (resolves now i status opts) s id pa p h q =
      elim (Option-cases (find_key i s)) [
        | inl e ↦ rw (e, run, resolve) h
        | inr (key, e) ↦
            rw (e, run, resolve)
              (resolve_found-keeps now status opts key id (lookup key s.entries) pa s refl h q)
      ]
  run-keeps_settled (claims i) s id pa p h q = rw (claim-entries i s) h
  run-keeps_settled (claims_settled st now agent tool params window) s id pa p h q =
      rw (claim_settled-entries st now agent tool params window s) h
