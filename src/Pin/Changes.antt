-- ===== src/Pin/Changes.antt =====
-- Later catalogues of a known server, and what an operator accepts of them.
use flux7_mesh.Base.{
  ℕ, ◌≡◌, refl, ap, ◌∙◌, Bool, true, false, none, some, List, [], ◌∷◌, arith, if◌then◌else◌, Text,
  text_eq, text_eq_refl, All, Map, lookup, lookup-insert,
}
use flux7_mesh.Policy.Engine.{Action, human_approval, deny}
use flux7_mesh.Policy.Tighten.{no_floor}
use flux7_mesh.Registry.{Tool}
use flux7_mesh.Pin.{
  pinned, status_floor, Entry, View, Store, Declared, knows, pin_locked, compare_pin, fingerprint,
  see, observe_tools, observe, status_of, floor, accept,
}
use flux7_mesh.Pin.FirstUse.{see-status}

-- No tool of the list has the name.
abbrev pub IsAbsent : Text → List Tool → Type 0
IsAbsent n ts = All (λ t. text_eq t.name n ≡ false) ts

abbrev pub HasDistinctNames : List Tool → Type 0
HasDistinctNames [] = Unit
HasDistinctNames (t ∷ ts) = IsAbsent t.name ts × HasDistinctNames ts

module _ (hash : Declared → Text) where
  -- The floor that a tool deserves by the pins: none if it is as pinned, approval if it changed,
  -- denial if it is new.
  abbrev pub deserved : Tool → Map Entry → Action
  deserved t pins = elim (lookup t.name pins) [
    | none ↦ deny
    | some e ↦ if text_eq e.fingerprint (fingerprint hash t) then no_floor else human_approval
  ]

  compare_pin-floor :
      (server : Text) (t : Tool) (pins : Map Entry)
      → status_floor (compare_pin server t (fingerprint hash t) (lookup t.name pins)).status
        ≡ deserved t pins
  unfolding compare_pin status_floor
  compare_pin-floor server t pins = ground arith

  later_look-absent :
      (now : ℕ) (db_fails : Text → Bool) (server n : Text) (ts : List Tool) (s : Store)
      → IsAbsent n ts
      → status_of n (observe_tools hash now db_fails false server ts s).1 ≡ status_of n s
  unfolding observe_tools
  later_look-absent now db_fails server n [] s a = refl
  later_look-absent now db_fails server n (t ∷ ts) s a =
      later_look-absent now db_fails server n ts (see hash server t s) a.1
      ∙ ground (arith, see-status hash server t n s)

  later_look-pins :
      (now : ℕ) (db_fails : Text → Bool) (server : Text) (ts : List Tool) (s : Store)
      → (observe_tools hash now db_fails false server ts s).1.pins ≡ s.pins
  unfolding observe_tools
  later_look-pins now db_fails server [] s = refl
  later_look-pins now db_fails server (t ∷ ts) s =
      later_look-pins now db_fails server ts (see hash server t s)

  later_look-floors :
      (now : ℕ) (db_fails : Text → Bool) (server : Text) (ts : List Tool) (s : Store)
      → HasDistinctNames ts
      → All
          (λ t.
            floor t.name (observe_tools hash now db_fails false server ts s).1 ≡ deserved t s.pins)
          ts
  unfolding observe_tools floor
  later_look-floors now db_fails server [] s d = tt
  later_look-floors now db_fails server (t ∷ ts) s d = (
    ap status_floor (
          later_look-absent now db_fails server t.name ts (see hash server t s) d.0
          ∙ see-status hash server t t.name s
          ∙ rw (text_eq_refl t.name))
        ∙ compare_pin-floor server t s.pins,
    later_look-floors now db_fails server ts (see hash server t s) d.1,
  )

  -- For a known server a catalogue with distinct names moves no pin, and gives each tool the floor
  -- that it deserves: a new tool is denied, a changed one asks for approval, one that is as pinned
  -- has none.
  pub observe-known :
      (now : ℕ) (db_fails : Text → Bool) (server : Text) (tools : List Tool) (s : Store)
      → knows server s ≡ true
      → HasDistinctNames tools
      → ((observe hash now db_fails server tools s).1.pins ≡ s.pins)
        × All
            (λ t. floor t.name (observe hash now db_fails server tools s).1 ≡ deserved t s.pins)
            tools
  unfolding observe
  observe-known now db_fails server tools s h d =
      rw h (
        later_look-pins now db_fails server tools s,
        later_look-floors now db_fails server tools s d,
      )

-- Accepting the name of a loaded tool.
accept-one :
    (now : ℕ) (name : Text) (v : View) (s : Store)
    → lookup name s.current ≡ some v
    → (lookup name (accept now (λ x. false) (name ∷ []) [] s).2.pins
        ≡ some (record { fingerprint = v.fingerprint; description = v.current; pinned_at = now }))
      × (floor name (accept now (λ x. false) (name ∷ []) [] s).2 ≡ no_floor)
unfolding accept floor status_of status_floor pin_locked
accept-one now name v s e =
    let entry : Entry = record {
      fingerprint = v.fingerprint;
      description = v.current;
      pinned_at = now;
    } in
    let v' : View = record v { status = pinned; pinned = []; pinned_at = now } in
    rw (e, accept)
      (
        ground (arith, lookup-insert name name entry s.pins, text_eq_refl name),
        ground (arith, lookup-insert name name v' s.current, text_eq_refl name),
      )

-- Accepting a loaded tool lifts its floor; a later catalogue of a known server keeps it lifted as
-- long as the tool is declared as it was accepted, and asks for approval once it is not.
pub accept-observe :
    (hash : Declared → Text) (now later : ℕ) (db_fails : Text → Bool) (server : Text) (t : Tool)
    (v : View) (s : Store)
    → lookup t.name s.current ≡ some v
    → knows server (accept now (λ x. false) (t.name ∷ []) [] s).2 ≡ true
    → let accepted = (accept now (λ x. false) (t.name ∷ []) [] s).2 in
      (floor t.name accepted ≡ no_floor)
      × (floor t.name (observe hash later db_fails server (t ∷ []) accepted).1
          ≡ (if text_eq v.fingerprint (fingerprint hash t) then no_floor else human_approval))
accept-observe hash now later db_fails server t v s e k =
    let accepted = (accept now (λ x. false) (t.name ∷ []) [] s).2 in
    let (entry, lifted) = accept-one now t.name v s e in
    (
      lifted,
      (observe-known hash later db_fails server (t ∷ []) accepted k (tt, tt)).1.0
          ∙ rw (entry, deserved) refl,
    )
