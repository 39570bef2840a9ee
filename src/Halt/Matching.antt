-- ===== src/Halt/Matching.antt =====
-- What `Match` answers.
use flux7_mesh.Base.{
  ℕ, ◌≤◌, ◌≡◌, refl, ◌⊎◌, inl, inr, true, false, Option, none, some, List, [], ◌∷◌, arith, ltb,
  Bool-cases, Text, All, Any, is_some,
}
use flux7_mesh.Halt.{
  Halt, Store, Query, covers, reload, sync_if_stale, rank, better, match_from, match_halt,
}

-- `found` is none and no halt of the list covers the call, or it covers the call and no covering
-- halt of the list is broader.
abbrev pub IsBroadest : Text → Text → List Halt → Option Halt → Type 0
IsBroadest agent session hs none = All (λ h. covers h agent session ≡ false) hs
IsBroadest agent session hs (some f) =
    (covers f agent session ≡ true)
    × All (λ h. (covers h agent session ≡ false) ⊎ (rank f.scope ≤ rank h.scope)) hs

-- What the loop has found so far.
abbrev Covering : Text → Text → Option Halt → Type 0
Covering agent session none = Unit
Covering agent session (some f) = covers f agent session ≡ true

abbrev Broader : Option Halt → Option Halt → Type 0
Broader none r = Unit
Broader (some f) none = ⊥
Broader (some f) (some g) = rank g.scope ≤ rank f.scope

Broader-trans : (a b c : Option Halt) → Broader a b → Broader b c → Broader a c
Broader-trans none b c h k = tt
Broader-trans (some f) none c h k = absurd h
Broader-trans (some f) (some g) none h k = absurd k
Broader-trans (some f) (some g) (some e) h k = omega arith

better-Broader :
    (agent session : Text) (found : Option Halt) (h : Halt)
    → Broader found (better agent session found h)
unfolding better
better-Broader agent session none h = tt
better-Broader agent session (some f) h = elim (Bool-cases (covers h agent session)) [
  | inl c ↦ elim (Bool-cases (ltb (rank h.scope) (rank f.scope))) [
    | inl less ↦ rw (c, less, better) (ground arith)
    | inr more ↦ rw (c, more, better) (omega arith)
  ]
  | inr n ↦ rw (n, better) (omega arith)
]

better-Broader_of_covers :
    (agent session : Text) (found : Option Halt) (h : Halt)
    → covers h agent session ≡ true
    → Broader (some h) (better agent session found h)
unfolding better
better-Broader_of_covers agent session none h c = rw (c, better) (omega arith)
better-Broader_of_covers agent session (some f) h c =
    elim (Bool-cases (ltb (rank h.scope) (rank f.scope))) [
      | inl less ↦ rw (c, less, better) (omega arith)
      | inr more ↦ rw (c, more, better) (ground arith)
    ]

better-Covering :
    (agent session : Text) (found : Option Halt) (h : Halt)
    → Covering agent session found
    → Covering agent session (better agent session found h)
unfolding better
better-Covering agent session none h k = elim (Bool-cases (covers h agent session)) [
  | inl c ↦ rw (c, better) c
  | inr n ↦ rw (n, better) tt
]
better-Covering agent session (some f) h k = elim (Bool-cases (covers h agent session)) [
  | inl c ↦ elim (Bool-cases (ltb (rank h.scope) (rank f.scope))) [
    | inl less ↦ rw (c, less, better) c
    | inr more ↦ rw (c, more, better) k
  ]
  | inr n ↦ rw (n, better) k
]

IsBroadest-cons :
    (agent session : Text) (h : Halt) (hs : List Halt) (r : Option Halt)
    → IsBroadest agent session hs r
    → (covers h agent session ≡ true → Broader (some h) r)
    → IsBroadest agent session (h ∷ hs) r
IsBroadest-cons agent session h hs none b k = elim (Bool-cases (covers h agent session)) [
  | inl c ↦ absurd (k c)
  | inr n ↦ (n, b)
]
IsBroadest-cons agent session h hs (some f) b k = elim (Bool-cases (covers h agent session)) [
  | inl c ↦ (b.0, (inr (k c), b.1))
  | inr n ↦ (b.0, (inl n, b.1))
]

match_from-IsBroadest :
    (agent session : Text) (found : Option Halt) (hs : List Halt)
    → Covering agent session found
    → IsBroadest agent session hs (match_from agent session found hs)
      × Broader found (match_from agent session found hs)
unfolding match_from
match_from-IsBroadest agent session none [] c = (tt, tt)
match_from-IsBroadest agent session (some f) [] c = ((c, tt), omega arith)
match_from-IsBroadest agent session found (h ∷ hs) c =
    let best = better agent session found h in
    let r = match_from agent session best hs in
    let (rest, up) =
      match_from-IsBroadest agent session best hs (better-Covering agent session found h c) in
    (
      IsBroadest-cons agent session h hs r rest (λ k.
          Broader-trans (some h) best r (better-Broader_of_covers agent session found h k) up),
      Broader-trans found best r (better-Broader agent session found h) up,
    )

pub sync_if_stale-none : (now : ℕ) (s : Store) → sync_if_stale now none s ≡ s
unfolding sync_if_stale reload
sync_if_stale-none now s = ground arith

-- On the halts that are active after the synchronisation, `match_halt` answers none only if no halt
-- covers the call; otherwise its answer covers the call and no halt that covers it is broader.
pub match_halt-IsBroadest :
    (now : ℕ) (query : Query) (agent session : Text) (s : Store)
    → IsBroadest agent session
        (match_halt now query agent session s).1.active
        (match_halt now query agent session s).0
unfolding match_halt
match_halt-IsBroadest now query agent session s =
    (match_from-IsBroadest agent session none (sync_if_stale now query s).active tt).0

Any-covers :
    (agent session : Text) (hs : List Halt) (r : Option Halt)
    → Any (λ h. covers h agent session ≡ true) hs
    → IsBroadest agent session hs r
    → is_some r ≡ true
Any-covers agent session hs (some f) a b = refl
Any-covers agent session [] none a b = absurd a
Any-covers agent session (h ∷ hs) none (inl c) b = ground arith
Any-covers agent session (h ∷ hs) none (inr a) b = Any-covers agent session hs none a b.1

-- A call that an active halt covers is stopped, whichever other halts there are.
pub match_halt_stops :
    (now : ℕ) (query : Query) (agent session : Text) (s : Store)
    → Any (λ h. covers h agent session ≡ true) (sync_if_stale now query s).active
    → is_some (match_halt now query agent session s).0 ≡ true
unfolding match_halt
match_halt_stops now query agent session s a =
    Any-covers agent session _ _ a (match_halt-IsBroadest now query agent session s)
