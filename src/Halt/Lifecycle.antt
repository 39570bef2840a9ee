-- ===== src/Halt/Lifecycle.antt =====
-- Starting and lifting a halt.
use flux7_mesh.Base.{
  ltb, ◌+◌, ℕ, ◌≡◌, refl, ◌↔◌, ◌⊎◌, inl, inr, Bool, true, false, none, some, List, [], ◌∷◌, ◌++◌,
  arith, Bool-cases, Option-cases, Text, text_eq_iff, text_eq_refl, trim_space, Any, is_some,
}
use flux7_mesh.Halt.{
  sync_every, reload, Scope, unknown, HaltError, Halt, Store, Query, covers, sync_if_stale,
  same_scope, is_for, find_halt, check_target, new_halt, start_checked, start, match_halt,
}
use flux7_mesh.Halt.Matching.{match_halt_stops, sync_if_stale-none}

same_scope_iff : (a b : Scope) → (same_scope a b ≡ true) ↔ (a ≡ b)
unfolding same_scope
same_scope_iff (unknown s) (unknown t) = ground (arith, text_eq_iff s t)
same_scope_iff a b = (λ h. ground arith, λ h. ground arith)

find_halt-some :
    (p : Halt → Bool) (hs : List Halt) (h : Halt)
    → find_halt p hs ≡ some h
    → (p h ≡ true) × Any (λ k. k ≡ h) hs
unfolding find_halt
find_halt-some p [] h e = cc
find_halt-some p (k ∷ hs) h e = elim (Bool-cases (p k)) [
  | inl hit ↦ let same : k ≡ h = ground arith in (rw (← same) hit, inl same)
  | inr miss ↦ let (q, a) = find_halt-some p hs h (ground arith) in (q, inr a)
]

find_halt-append :
    (p : Halt → Bool) (hs : List Halt) (h : Halt)
    → find_halt p hs ≡ none
    → p h ≡ true
    → find_halt p (hs ++ h ∷ []) ≡ some h
unfolding find_halt
find_halt-append p [] h e q = ground arith
find_halt-append p (k ∷ hs) h e q = ground (arith, find_halt-append p hs h)

-- What a successful start leaves behind: the halt returned is found among the active ones by its
-- scope and target.
start_checked-found :
    (now : ℕ) (id : Text) (db_err : Bool) (scope : Scope) (target reason by : Text) (s : Store)
    (h : Halt) (created : Bool) (s' : Store)
    → start_checked now id db_err scope target reason by s ≡ (inr (h, created), s')
    → find_halt (is_for scope target) s'.active ≡ some h
unfolding start_checked
start_checked-found now id db_err scope target reason by s h created s' e =
    elim (Option-cases (find_halt (is_for scope target) s.active)) [
      | inr (k, found) ↦ ground arith
      | inl fresh ↦
          let n = new_halt now id scope target reason by in
          ground (
            arith,
            same_scope_iff scope scope,
            text_eq_refl target,
            find_halt-append (is_for scope target) s.active n,
          )
    ]

start-checked :
    (now : ℕ) (id : Text) (query : Query) (db_err : Bool) (scope : Scope) (target reason by : Text)
    (s : Store) (h : Halt) (created : Bool) (s' : Store)
    → start now id query db_err scope target reason by s ≡ (inr (h, created), s')
    → (t : Text) × (check_target scope (trim_space target) ≡ inr t)
      × (start_checked now id db_err scope t reason by (sync_if_stale now query s)
          ≡ (inr (h, created), s'))
unfolding start
start-checked now id query db_err scope target reason by s h created s' e =
    from (check_target scope (trim_space target)) refl
  where
    from :
        (r : HaltError ⊎ Text)
        → check_target scope (trim_space target) ≡ r
        → (t : Text) × (check_target scope (trim_space target) ≡ inr t)
          × (start_checked now id db_err scope t reason by (sync_if_stale now query s)
              ≡ (inr (h, created), s'))
    from (inl x) q = absurd (ground arith)
    from (inr t) q = (t, q, ground arith)

Any-covers_of_eq :
    (agent session : Text) (h : Halt) (hs : List Halt)
    → Any (λ k. k ≡ h) hs
    → covers h agent session ≡ true
    → Any (λ k. covers k agent session ≡ true) hs
Any-covers_of_eq agent session h (k ∷ ks) (inl same) c = inl (rw same c)
Any-covers_of_eq agent session h (k ∷ ks) (inr a) c = inr (Any-covers_of_eq agent session h ks a c)
Any-covers_of_eq agent session h [] a c = absurd a

-- The database answers with the halt, or it does not answer.
abbrev pub ShowsHalt : Halt → Query → Type 0
ShowsHalt h none = Unit {0}
ShowsHalt h (some hs) = Any (λ k. k ≡ h) hs

sync_if_stale-Any :
    (now : ℕ) (shown : Query) (h : Halt) (s : Store)
    → ShowsHalt h shown
    → Any (λ k. k ≡ h) s.active
    → Any (λ k. k ≡ h) (sync_if_stale now shown s).active
unfolding sync_if_stale reload
sync_if_stale-Any now none h s shows listed = rw (sync_if_stale-none now s) listed
sync_if_stale-Any now (some hs) h s shows listed = elim (Bool-cases s.has_db) [
  | inr alone ↦ rw alone listed
  | inl asks ↦ elim (Bool-cases (ltb now (s.last_sync + sync_every))) [
    | inl fresh ↦ rw (asks, fresh) listed
    | inr stale ↦ rw (asks, stale) shows
  ]
]

start-again :
    (now : ℕ) (id : Text) (scope : Scope) (target reason by t : Text) (s : Store) (h : Halt)
    → check_target scope (trim_space target) ≡ inr t
    → find_halt (is_for scope t) s.active ≡ some h
    → start now id none false scope target reason by s ≡ (inr (h, false), s)
unfolding start start_checked
start-again now id scope target reason by t s h checked found =
    ground (arith, sync_if_stale-none now s)

module _ (now : ℕ) (id : Text) (query : Query) (db_err : Bool) (scope : Scope)
    (target reason by : Text) (s : Store) (h : Halt) (created : Bool) (s' : Store)
    (started : start now id query db_err scope target reason by s ≡ (inr (h, created), s')) where
  found_after_start :
      (t : Text) × (check_target scope (trim_space target) ≡ inr t)
      × (find_halt (is_for scope t) s'.active ≡ some h)
  found_after_start =
      let (t, checked, done) =
        start-checked now id query db_err scope target reason by s h created s' started in
      (
        t,
        checked,
        start_checked-found now id db_err scope t reason by (sync_if_stale now query s) h created s'
            done,
      )

  -- After a start that reports success, for a new halt or an old one, each call that the halt covers
  -- is stopped at any later time, as long as the database, when it is asked and answers, still shows
  -- the halt, among whatever others.
  pub start_stops :
      (agent session : Text) (later : ℕ) (shown : Query)
      → ShowsHalt h shown
      → covers h agent session ≡ true
      → (h.scope ≡ scope) × (is_some (match_halt later shown agent session s').0 ≡ true)
  start_stops agent session later shown shows c =
      let (t, checked, found) = found_after_start in
      let (named, listed) = find_halt-some (is_for scope t) s'.active h found in
      (
        (same_scope_iff h.scope scope).0 (ground arith),
        match_halt_stops later shown agent session s' (
            Any-covers_of_eq agent session h (sync_if_stale later shown s').active
              (sync_if_stale-Any later shown h s' shows listed) c),
      )

  -- After a start that reports success, starting a halt of the same scope and target again finds
  -- the first one and changes nothing, whoever asks and for whatever reason.
  pub start-start :
      (later : ℕ) (id' reason' by' : Text)
      → start later id' none false scope target reason' by' s' ≡ (inr (h, false), s')
  start-start later id' reason' by' =
      let (t, checked, found) = found_after_start in
      start-again later id' scope target reason' by' t s' h checked found
