-- ===== src/Proxy/Halts/Stops.antt =====
-- A new stop leaves no approval waiting in its scope.
use flux7_mesh.Base.{
  ltb, length, zero, suc, ℕ, ◌≡◌, refl, sym, subst, inl, inr, true, false, Option, none, some, List,
  [], ◌∷◌, ◌++◌, arith, Bool-cases, Option-cases, Text, codes, text_eq, text_eq_refl, Any, Map,
  lookup, lookup-insert, All-lookup, map, keep,
}
use flux7_mesh.Halt.{Halt}
use flux7_mesh.Approval.{
  bring_newest, newest_first, collect, pending, denied, PendingApproval, ResolveOpts, Store,
  has_status, by, find_key, resolve_found, resolved_with, resolve, deny, list_pending,
}
use flux7_mesh.Approval.Machine.{IsSound, IsEntrySound}
use flux7_mesh.Trace.{Entry, query_by_session}
use flux7_mesh.Proxy.Mesh.{Mesh}
use flux7_mesh.Proxy.Halts.{in_scope, deny_each, deny_pending_for, session_window}

module _ {N : Type 0} where
  abbrev pub IsWaiting : Text → PendingApproval N → Store N → Type 0
  IsWaiting id pa s = (lookup id s.entries ≡ some pa) × (has_status pending pa ≡ true)

  -- A denial leaves waiting only what waited before it.
  resolve_found-IsWaiting :
      (now : ℕ) (opts : ResolveOpts N) (key id : Text) (found : Option (PendingApproval N))
      (pa : PendingApproval N) (s : Store N)
      → IsWaiting id pa (resolve_found now denied opts key found s).1
      → IsWaiting id pa s
  unfolding resolve_found
  resolve_found-IsWaiting now opts key id none pa s w = w
  resolve_found-IsWaiting now opts key id (some q) pa s w =
      elim (Bool-cases (has_status pending q)) [
        | inr settled ↦ rw (settled, resolve_found) at w
        | inl waiting ↦
            let (e, p) = rw (waiting, resolve_found) at w in
            ground (arith, lookup-insert key id (resolved_with now denied opts q) s.entries)
      ]

  deny-IsWaiting :
      (now : ℕ) (key id resolver : Text) (pa : PendingApproval N) (s : Store N)
      → IsWaiting id pa (deny now key resolver s).1
      → IsWaiting id pa s
  unfolding deny resolve
  deny-IsWaiting now key id resolver pa s w = elim (Option-cases (find_key key s)) [
    | inl e ↦ rw (deny, resolve, e) at w
    | inr (k, e) ↦
        resolve_found-IsWaiting now (by resolver) k id (lookup k s.entries) pa s
          (rw (deny, resolve, e) at w)
  ]

  -- An approval that waits under its ID is denied.
  deny-settles :
      (now : ℕ) (id resolver : Text) (q pa : PendingApproval N) (s : Store N)
      → IsWaiting id q s
      → IsWaiting id pa (deny now id resolver s).1
      → ⊥
  unfolding deny resolve resolve_found find_key
  deny-settles now id resolver q pa s (here, waits) w =
      let by_key : find_key id s ≡ some id = rw (find_key, here) refl in
      let done : lookup id (deny now id resolver s).1.entries
          ≡ some (resolved_with now denied (by resolver) q) =
        rw (deny, resolve, by_key, here, waits, resolve_found)
          (ground (
            arith,
            lookup-insert id id (resolved_with now denied (by resolver) q) s.entries,
            text_eq_refl id,
          )) in
      ground arith

  deny_each-hit :
      (now : ℕ) (h : Halt) (session : List (Entry N)) (q : PendingApproval N)
      (qs : List (PendingApproval N)) (s : Store N)
      → in_scope h session q ≡ true
      → (deny_each now h session (q ∷ qs) s).1
        ≡ (deny_each now h session qs (deny now q.id (codes "halt:" ++ h.id) s).1).1
  unfolding deny_each
  deny_each-hit now h session q qs s hit =
      elim (Option-cases (deny now q.id (codes "halt:" ++ h.id) s).0) [
        | inl e ↦ rw (deny_each, hit, e) refl
        | inr (err, e) ↦ rw (deny_each, hit, e) refl
      ]

  deny_each-IsWaiting :
      (now : ℕ) (h : Halt) (session : List (Entry N)) (pas : List (PendingApproval N)) (s : Store N)
      (id : Text) (pa : PendingApproval N)
      → IsWaiting id pa (deny_each now h session pas s).1
      → IsWaiting id pa s
  unfolding deny_each
  deny_each-IsWaiting now h session [] s id pa w = w
  deny_each-IsWaiting now h session (q ∷ qs) s id pa w = elim (Bool-cases (in_scope h session q)) [
    | inr out ↦ deny_each-IsWaiting now h session qs s id pa (rw (deny_each, out) at w)
    | inl hit ↦
        let after = (deny now q.id (codes "halt:" ++ h.id) s).1 in
        deny-IsWaiting now q.id id (codes "halt:" ++ h.id) pa s (
          deny_each-IsWaiting now h session qs after id pa
            (subst (IsWaiting id pa) (deny_each-hit now h session q qs s hit) w))
  ]

  deny_each-settles :
      (now : ℕ) (h : Halt) (session : List (Entry N)) (pas : List (PendingApproval N)) (s : Store N)
      (pa : PendingApproval N)
      → Any (λ q. q ≡ pa) pas
      → in_scope h session pa ≡ true
      → IsWaiting pa.id pa (deny_each now h session pas s).1
      → ⊥
  unfolding deny_each
  deny_each-settles now h session [] s pa a hit w = elim a [ ]
  deny_each-settles now h session (q ∷ qs) s pa (inl same) hit w =
      let after = (deny now q.id (codes "halt:" ++ h.id) s).1 in
      let hits : in_scope h session q ≡ true = rw same hit in
      let left = subst (IsWaiting pa.id pa) (deny_each-hit now h session q qs s hits) w in
      let still = deny_each-IsWaiting now h session qs after pa.id pa left in
      let before = deny-IsWaiting now q.id pa.id (codes "halt:" ++ h.id) pa s still in
      deny-settles now pa.id (codes "halt:" ++ h.id) pa pa s before (rw same at still)
  deny_each-settles now h session (q ∷ qs) s pa (inr a) hit w =
      elim (Bool-cases (in_scope h session q)) [
        | inr out ↦ deny_each-settles now h session qs s pa a hit (rw (deny_each, out) at w)
        | inl hits ↦
            deny_each-settles now h session qs (deny now q.id (codes "halt:" ++ h.id) s).1 pa a hit
              (subst (IsWaiting pa.id pa) (deny_each-hit now h session q qs s hits) w)
      ]

  bring_newest-Any :
      (x : PendingApproval N) (ys : List (PendingApproval N)) (pa : PendingApproval N)
      → Any (λ q. q ≡ pa) (x ∷ ys)
      → let (first, rest) = bring_newest x ys in Any (λ q. q ≡ pa) (first ∷ rest)
  unfolding bring_newest
  bring_newest-Any x [] pa a = a
  bring_newest-Any x (y ∷ ys) pa a = elim (Bool-cases (ltb x.created_at y.created_at)) [
    | inl newer ↦ rw newer (elim a [
      | inl here ↦ inr (inl here)
      | inr b ↦ elim (bring_newest-Any y ys pa b) [ inl c ↦ inl c | inr c ↦ inr (inr c) ]
    ])
    | inr older ↦ rw older (elim a [
      | inl here ↦ elim (bring_newest-Any x ys pa (inl here)) [
        | inl c ↦ inl c
        | inr c ↦ inr (inr c)
      ]
      | inr (inl here) ↦ inr (inl here)
      | inr (inr b) ↦ elim (bring_newest-Any x ys pa (inr b)) [
        | inl c ↦ inl c
        | inr c ↦ inr (inr c)
      ]
    ])
  ]

  -- The sort loses no approval.
  newest_first-Any :
      (n : ℕ) (xs : List (PendingApproval N)) (pa : PendingApproval N)
      → Any (λ q. q ≡ pa) xs
      → Any (λ q. q ≡ pa) (newest_first n xs)
  unfolding newest_first
  newest_first-Any zero xs pa a = a
  newest_first-Any (suc n) [] pa a = a
  newest_first-Any (suc n) (x ∷ xs) pa a = elim (bring_newest-Any x xs pa a) [
    | inl here ↦ inl here
    | inr b ↦ inr (newest_first-Any n (bring_newest x xs).1 pa b)
  ]

  list_pending-waiting :
      (m : Map (PendingApproval N)) (id : Text) (pa : PendingApproval N)
      → lookup id m ≡ some pa
      → has_status pending pa ≡ true
      → Any (λ q. q ≡ pa) (keep (has_status pending) (map (λ e. e.1) m))
  unfolding lookup
  list_pending-waiting [] id pa e p = absurd (ground arith)
  list_pending-waiting ((k, q) ∷ m) id pa e p = elim (Bool-cases (text_eq k id)) [
    | inl same ↦
        let found : q ≡ pa = ground arith in
        let waits : has_status pending q ≡ true = rw found p in rw waits (inl found)
    | inr differs ↦ elim (Bool-cases (has_status pending q)) [
      | inl waits ↦ rw waits (inr (list_pending-waiting m id pa (ground arith) p))
      | inr settled ↦ rw settled (list_pending-waiting m id pa (ground arith) p)
    ]
  ]

  -- Once `deny_pending_for` of a stop has run on a mesh whose approvals are sound, no approval that
  -- waits is in the scope of the stop.
  pub deny_pending_for_stops :
      (now : ℕ) (h : Halt) (m : Mesh N) (s s' : Store N) (id : Text) (pa : PendingApproval N)
      → m.approvals ≡ some s
      → IsSound s
      → (deny_pending_for now h m).1.approvals ≡ some s'
      → IsWaiting id pa s'
      → in_scope h (query_by_session h.target session_window m.traces) pa ≡ false
  unfolding deny_pending_for list_pending collect
  deny_pending_for_stops now h m s s' id pa has sound after w =
      let session = query_by_session h.target session_window m.traces in
      let gives : (deny_pending_for now h m).1.approvals
          ≡ some (deny_each now h session (list_pending s) s).1 =
        rw (deny_pending_for, has) refl in
      let is : (deny_each now h session (list_pending s) s).1 ≡ s' = ground arith in
      let waiting = keep (has_status pending) (map (λ e. e.1) s.entries) in
      let here = subst (IsWaiting id pa) (sym is) w in
      let before = deny_each-IsWaiting now h session (list_pending s) s id pa here in
      let keyed = (All-lookup IsEntrySound id pa s.entries sound before.0).0 in
      elim (Bool-cases (in_scope h session pa)) [
        | inr out ↦ out
        | inl hit ↦ absurd (
            deny_each-settles now h session (list_pending s) s pa
              (newest_first-Any (length waiting) waiting pa
                (list_pending-waiting s.entries id pa before.0 before.1))
              hit
              (subst (λ i. IsWaiting i pa (deny_each now h session (list_pending s) s).1) keyed
                here))
      ]
