-- ===== src/Pin/FirstUse.antt =====
-- The first catalogue of a server, and what an operator accepts.
use flux7_mesh.Base.{
  ℕ, ◌≡◌, refl, true, false, List, [], ◌∷◌, arith, if◌then◌else◌, Text, text_eq, text_eq_refl, All,
  lookup, lookup-insert,
}
use flux7_mesh.Policy.Tighten.{no_floor}
use flux7_mesh.Registry.{Tool}
use flux7_mesh.Pin.{
  pinned, status_floor, Entry, Store, Declared, knows, pin_locked, compare_pin, fingerprint, see,
  observe_tools, observe, status_of, floor,
}

module _ (hash : Declared → Text) where
  pub see-status :
      (server : Text) (t : Tool) (n : Text) (s : Store)
      → status_of n (see hash server t s) ≡ (
          if text_eq t.name n
          then (compare_pin server t (fingerprint hash t) (lookup t.name s.pins)).status
          else status_of n s)
  unfolding status_of
  see-status server t n s = ground (
    arith,
    lookup-insert t.name n (compare_pin server t (fingerprint hash t) (lookup t.name s.pins))
        s.current,
  )

  -- Right after its own pin a tool is pinned.
  see-pin_locked :
      (now : ℕ) (server : Text) (t : Tool) (s : Store)
      → (compare_pin server t (fingerprint hash t) (
          lookup t.name
            (pin_locked now server t.name (fingerprint hash t) t.description s).pins)).status
        ≡ pinned
  unfolding pin_locked compare_pin
  see-pin_locked now server t s =
      let e : Entry = record {
        fingerprint = fingerprint hash t;
        description = t.description;
        pinned_at = now;
      } in
      ground (
        arith,
        lookup-insert t.name t.name e s.pins,
        text_eq_refl t.name,
        text_eq_refl (fingerprint hash t),
      )

  pub pin_locked-status :
      (now : ℕ) (server tool fp description n : Text) (s : Store)
      → status_of n (pin_locked now server tool fp description s) ≡ status_of n s
  unfolding pin_locked status_of
  pin_locked-status now server tool fp description n s = refl

  -- A first look leaves a pinned tool pinned.
  first_look-keeps :
      (now : ℕ) (server n : Text) (ts : List Tool) (s : Store)
      → status_of n s ≡ pinned
      → status_of n (observe_tools hash now (λ x. false) true server ts s).1 ≡ pinned
  unfolding observe_tools
  first_look-keeps now server n [] s h = h
  first_look-keeps now server n (t ∷ ts) s h =
      let trusted = pin_locked now server t.name (fingerprint hash t) t.description s in
      first_look-keeps now server n ts (see hash server t trusted) (
        ground (
          arith,
          see-status server t n trusted,
          see-pin_locked now server t s,
          pin_locked-status now server t.name (fingerprint hash t) t.description n s,
        ))

  first_look-pins :
      (now : ℕ) (server : Text) (ts : List Tool) (s : Store)
      → All
          (λ t. status_of t.name (observe_tools hash now (λ x. false) true server ts s).1 ≡ pinned)
          ts
  unfolding observe_tools
  first_look-pins now server [] s = tt
  first_look-pins now server (t ∷ ts) s =
      let trusted = pin_locked now server t.name (fingerprint hash t) t.description s in
      (
        first_look-keeps now server t.name ts (see hash server t trusted) (
            ground (
              arith,
              see-status server t t.name trusted,
              see-pin_locked now server t s,
              text_eq_refl t.name,
            )),
        first_look-pins now server ts (see hash server t trusted),
      )

  All-floor :
      (ts : List Tool) (s : Store)
      → All (λ t. status_of t.name s ≡ pinned) ts
      → All (λ t. floor t.name s ≡ no_floor) ts
  unfolding floor status_floor
  All-floor [] s a = tt
  All-floor (t ∷ ts) s a = (ground arith, All-floor ts s a.1)

  -- A server that was never seen, with a database that takes the writes, has its whole catalogue
  -- trusted: no tool of it has a floor.
  pub observe-first_sight :
      (now : ℕ) (server : Text) (tools : List Tool) (s : Store)
      → knows server s ≡ false
      → All (λ t. floor t.name (observe hash now (λ x. false) server tools s).1 ≡ no_floor) tools
  unfolding observe
  observe-first_sight now server tools s h =
      rw h (All-floor tools _ (first_look-pins now server tools s))
