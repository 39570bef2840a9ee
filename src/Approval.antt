-- ===== src/Approval.antt =====
-- approval/store.go: tool calls that wait for a decision. Time is in nanoseconds, one reading for
-- each call; the random ID of a new approval is an argument. The mutex makes a call one step, and
-- the timeout that `Submit` starts is the step `expire`. Persistence, notification and the write to
-- mem7 are left out.
pub mod Settled
pub mod Machine
pub mod Claims
pub mod Memory
use flux7_mesh.Base.{
  length, zero, ℕ, suc, ◌+◌, ◌-◌, Bool, true, false, not, ◌&&◌, ◌||◌, Option, none, some, List, [],
  ◌∷◌, ◌++◌, if◌then◌else◌, ltb, leb, Text, codes, text_eq, has_prefix, is_some, keep, Map, lookup,
  insert, map,
}
use flux7_mesh.Policy.Value.{Params}

pub data Status : Type 0 where
  pending approved denied timed_out : Status

abbrev pub status_eq : Status → Status → Bool
status_eq pending pending = true
status_eq approved approved = true
status_eq denied denied = true
status_eq timed_out timed_out = true
status_eq _ _ = false

-- `N` is the type of floating-point numbers; a confidence of zero is none.
pub record Resolution (N : Type 0) : Type 0 where
  pub status : Status
  pub resolved_by : Text
  pub resolved_at : ℕ
  pub reasoning : Text
  pub confidence : Option N

pub record ResolveOpts (N : Type 0) : Type 0 where
  pub resolved_by : Text
  pub reasoning : Text
  pub confidence : Option N

-- `result` is what was sent on the channel.
pub record PendingApproval (N : Type 0) : Type 0 where
  pub id : Text
  pub agent_id : Text
  pub tool : Text
  pub params : Params N
  pub policy_rule : Text
  pub trace_id : Text
  pub callback_url : Text
  pub status : Status
  pub created_at : ℕ
  pub resolved_by : Text
  pub resolved_at : ℕ
  pub reasoning : Text
  pub confidence : Option N
  pub result : List (Resolution N)

-- `entries` is the map `pending` of the source, which keeps the resolved approvals too.
pub record Store (N : Type 0) : Type 0 where
  pub entries : Map (PendingApproval N)
  pub claimed : Map Bool
  pub timeout : ℕ

pub data ResolveError : Type 0 where
  not_found already_resolved : ResolveError

module _ {N : Type 0} where
  unfoldable pub submit_with_trace :
      ℕ → Text → Text → Text → Text → Params N → Text → Text → Store N → PendingApproval N × Store N
  submit_with_trace now id agent tool rule params callback trace s =
      let pa : PendingApproval N = record {
        id = id;
        agent_id = agent;
        tool = tool;
        params = params;
        policy_rule = rule;
        trace_id = trace;
        callback_url = callback;
        status = pending;
        created_at = now;
        resolved_by = [];
        resolved_at = 0;
        reasoning = [];
        confidence = none;
        result = [];
      } in
      (pa, record s { entries = insert id pa s.entries })

  unfoldable pub submit :
      ℕ → Text → Text → Text → Text → Params N → Text → Store N → PendingApproval N × Store N
  unfolding submit_with_trace
  submit now id agent tool rule params callback s =
      submit_with_trace now id agent tool rule params callback [] s

  abbrev pub has_status : Status → PendingApproval N → Bool
  has_status st pa = status_eq pa.status st

  -- The body of `timeoutAfter`, for an approval that is pending.
  abbrev pub timed_out_at : ℕ → PendingApproval N → PendingApproval N
  timed_out_at now pa = record pa {
    status = timed_out;
    resolved_at = now;
    result =
        pa.result
        ++ record {
          status = timed_out;
          resolved_by = codes "system:timeout";
          resolved_at = now;
          reasoning = [];
          confidence = none;
        }
          ∷ [];
  }

  unfoldable pub expire : ℕ → Text → Store N → Store N
  expire now id s = elim (lookup id s.entries) [
    | none ↦ s
    | some pa ↦
        if has_status pending pa
        then record s { entries = insert id (timed_out_at now pa) s.entries }
        else s
  ]

  -- The loop of `findLocked` over the keys that start with the ID: the one found so far, and
  -- whether there were two.
  unfoldable pub find_prefix : Text → Option Text → Map (PendingApproval N) → Option Text
  find_prefix id found [] = found
  find_prefix id found ((key, pa) ∷ m) =
      let onward = find_prefix id (some key) m in
      let skipped = find_prefix id found m in
      if has_prefix key id then if is_some found then none else onward else skipped

  -- The key of the approval with the ID, or with a prefix that is its alone.
  unfoldable pub find_key : Text → Store N → Option Text
  unfolding find_prefix
  find_key id s = if is_some (lookup id s.entries) then some id else find_prefix id none s.entries

  unfoldable pub get : Text → Store N → Option (PendingApproval N)
  unfolding find_key
  get id s = elim (find_key id s) [ none ↦ none | some key ↦ lookup key s.entries ]

  abbrev pub resolved_with : ℕ → Status → ResolveOpts N → PendingApproval N → PendingApproval N
  resolved_with now status opts pa = record pa {
    status = status;
    resolved_by = opts.resolved_by;
    resolved_at = now;
    reasoning = opts.reasoning;
    confidence = opts.confidence;
    result =
        pa.result
        ++ record {
          status = status;
          resolved_by = opts.resolved_by;
          resolved_at = now;
          reasoning = opts.reasoning;
          confidence = opts.confidence;
        }
          ∷ [];
  }

  -- `Resolve` of the approval that was found under its key.
  unfoldable pub resolve_found :
      ℕ
      → Status
      → ResolveOpts N
      → Text
      → Option (PendingApproval N)
      → Store N
      → Option ResolveError × Store N
  resolve_found now status opts key none s = (some not_found, s)
  resolve_found now status opts key (some pa) s =
      if has_status pending pa
      then (none, record s { entries = insert key (resolved_with now status opts pa) s.entries })
      else (some already_resolved, s)

  unfoldable pub resolve :
      ℕ → Text → Status → ResolveOpts N → Store N → Option ResolveError × Store N
  unfolding find_key resolve_found
  resolve now id status opts s = elim (find_key id s) [
    | none ↦ (some not_found, s)
    | some key ↦ resolve_found now status opts key (lookup key s.entries) s
  ]

  abbrev pub by : Text → ResolveOpts N
  by resolver = record { resolved_by = resolver; reasoning = []; confidence = none }

  unfoldable pub approve : ℕ → Text → Text → Store N → Option ResolveError × Store N
  unfolding resolve
  approve now id resolver s = resolve now id approved (by resolver) s

  unfoldable pub deny : ℕ → Text → Text → Store N → Option ResolveError × Store N
  unfolding resolve
  deny now id resolver s = resolve now id denied (by resolver) s

  abbrev pub is_claimed : Text → Store N → Bool
  is_claimed id s = elim (lookup id s.claimed) [ none ↦ false | some b ↦ b ]

  abbrev pub mark_claimed : Text → Store N → Store N
  mark_claimed id s = record s { claimed = insert id true s.claimed }

  unfoldable pub claim : Text → Store N → Bool × Store N
  claim id s = if is_claimed id s then (false, s) else (true, mark_claimed id s)

  -- The inner loop of `collectLocked`: what comes to stand in the place of the approval, and the rest
  -- after the exchanges.
  unfoldable pub bring_newest :
      PendingApproval N → List (PendingApproval N) → PendingApproval N × List (PendingApproval N)
  bring_newest x [] = (x, [])
  bring_newest x (y ∷ ys) =
      let exchanged = bring_newest y ys in
      let kept = bring_newest x ys in
      if ltb x.created_at y.created_at then (exchanged.0, x ∷ exchanged.1) else (kept.0, y ∷ kept.1)

  -- The outer loop, on as many places as there are approvals.
  unfoldable pub newest_first : ℕ → List (PendingApproval N) → List (PendingApproval N)
  unfolding bring_newest
  newest_first zero xs = xs
  newest_first (suc n) [] = []
  newest_first (suc n) (x ∷ xs) =
      let (first, rest) = bring_newest x xs in first ∷ newest_first n rest

  unfoldable pub collect : (PendingApproval N → Bool) → Store N → List (PendingApproval N)
  unfolding newest_first
  collect p s = let found = keep p (map (λ e. e.1) s.entries) in newest_first (length found) found

  unfoldable pub list_all : Store N → List (PendingApproval N)
  unfolding collect
  list_all s = collect (λ pa. true) s

  unfoldable pub list_pending : Store N → List (PendingApproval N)
  unfolding collect
  list_pending s = collect (has_status pending) s
