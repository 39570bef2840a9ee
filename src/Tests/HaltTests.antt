-- ===== src/Tests/HaltTests.antt =====
-- Halts at work.
use flux7_mesh.Base.{
  inr, some, ◌≡◌, refl, inl, true, false, none, [], ◌∷◌, codes, is_some, text_eq, trim_space, Any,
}
use flux7_mesh.Match.{glob}
use flux7_mesh.Halt.{
  everything, by_agent, db_failed, Halt, Store, covers, sync_if_stale, new_halt, start, resume,
  match_halt,
}
use flux7_mesh.Halt.Matching.{IsBroadest, match_halt-IsBroadest}
use flux7_mesh.Halt.Lifecycle.{start_stops}
use flux7_mesh.Halt.Resumption.{resume_fails_closed}
use flux7_mesh.Tests.Samples.{bob}

abbrev pub bob_halt : Halt
bob_halt = new_halt 3 (codes "h1") by_agent bob (codes "loops") (codes "ops")

abbrev pub global_halt : Halt
global_halt = new_halt 4 (codes "h2") everything [] (codes "drill") (codes "ops")

abbrev pub halts : Store
halts = record { active = bob_halt ∷ global_halt ∷ []; has_db = true; last_sync = 5 }

abbrev pub no_halts : Store
no_halts = record { active = []; has_db = true; last_sync = 5 }

abbrev pub one_halt : Store
one_halt = record no_halts { active = bob_halt ∷ [] }

match_halt-IsBroadest_example :
    IsBroadest bob [] (match_halt 6 none bob [] halts).1.active (match_halt 6 none bob [] halts).0
match_halt-IsBroadest_example = match_halt-IsBroadest 6 none bob [] halts

-- The database is asked again, and shows both halts.
start_stops_example :
    (by_agent ≡ by_agent)
    × (is_some (match_halt 2_000_000_009 (some (global_halt ∷ bob_halt ∷ [])) bob [] one_halt).0
        ≡ true)
unfolding start covers glob trim_space
start_stops_example =
    start_stops 3 (codes "h1") none false by_agent bob (codes "loops") (codes "ops") no_halts
      bob_halt true one_halt refl bob [] 2_000_000_009 (some (global_halt ∷ bob_halt ∷ []))
      (inr (inl refl)) refl

resume_fails_closed_example :
    Any
      (λ k. covers k bob [] ≡ true)
      (record bob_halt { resumed_by = codes "ops"; resumed_at = 6 } ∷ [])
unfolding resume sync_if_stale covers glob text_eq
resume_fails_closed_example =
    resume_fails_closed 6 none true (codes "h1") (codes "ops") one_halt
      (record one_halt {
        active = record bob_halt { resumed_by = codes "ops"; resumed_at = 6 } ∷ [];
      })
      db_failed bob [] refl (inl refl)
