-- ===== src/Approval/Settled.antt =====
-- approval/store.go: `ClaimApproved`, `ClaimDenied` and `FindPending`, the lookups by agent, tool and
-- arguments. The JSON encoding of the arguments is the parameter `marshal`.
use flux7_mesh.Base.{
  ℕ, ◌-◌, Bool, false, not, ◌&&◌, Option, none, some, [], ◌∷◌, if◌then◌else◌, leb, Text, text_eq,
  Map,
}
use flux7_mesh.Policy.Value.{Params}
use flux7_mesh.Approval.{
  Status, pending, approved, denied, PendingApproval, Store, has_status, is_claimed, mark_claimed,
}

module _ {N : Type 0} where
  unfoldable pub find_entry :
      (Text → PendingApproval N → Bool)
      → Map (PendingApproval N)
      → Option (Text × PendingApproval N)
  find_entry p [] = none
  find_entry p ((id, pa) ∷ m) = if p id pa then some (id, pa) else find_entry p m

module _ {N : Type 0} (marshal : Params N → Option Text) where
  abbrev pub same_args : Option Text → Option Text → Bool
  same_args (some a) (some b) = text_eq a b
  same_args _ _ = false

  -- A settled call that was not used: the test in `ClaimApproved` and `ClaimDenied`.
  abbrev pub is_claimable :
      Status → ℕ → Text → Text → Text → ℕ → Store N → Text → PendingApproval N → Bool
  is_claimable st now agent tool want window s id pa =
      has_status st pa
      && (text_eq pa.agent_id agent
          && (text_eq pa.tool tool
              && (not (is_claimed id s)
                  && (leb (now - pa.resolved_at) window
                      && same_args (marshal pa.params) (some want)))))

  unfoldable pub claim_settled :
      Status → ℕ → Text → Text → Params N → ℕ → Store N → Option (PendingApproval N) × Store N
  unfolding find_entry
  claim_settled st now agent tool params window s = elim (marshal params) [
    | none ↦ (none, s)
    | some want ↦ elim (find_entry (is_claimable st now agent tool want window s) s.entries) [
      | none ↦ (none, s)
      | some (id, pa) ↦ (some pa, mark_claimed id s)
    ]
  ]

  unfoldable pub claim_approved :
      ℕ → Text → Text → Params N → ℕ → Store N → Option (PendingApproval N) × Store N
  unfolding claim_settled
  claim_approved now agent tool params window s =
      claim_settled approved now agent tool params window s

  unfoldable pub claim_denied :
      ℕ → Text → Text → Params N → ℕ → Store N → Option (PendingApproval N) × Store N
  unfolding claim_settled
  claim_denied now agent tool params window s = claim_settled denied now agent tool params window s

  unfoldable pub find_pending : Text → Text → Params N → Store N → Option (PendingApproval N)
  unfolding find_entry
  find_pending agent tool params s = elim (marshal params) [
    | none ↦ none
    | some want ↦
        elim (find_entry
          (λ id pa.
            has_status pending pa
            && (text_eq pa.agent_id agent
                && (text_eq pa.tool tool && same_args (marshal pa.params) (some want))))
          s.entries) [ none ↦ none | some (id, pa) ↦ some pa ]
  ]
