-- ===== src/Tests/PinTests.antt =====
-- Catalogue pins at work. The hash is the description.
use flux7_mesh.Base.{◌≡◌, refl, true, false, [], ◌∷◌, Text, codes, text_eq, lookup, All}
use flux7_mesh.Pin.{Declared, View, Store, new_store, observe, floor, new}
use flux7_mesh.Pin.Changes.{deserved, observe-known}
use flux7_mesh.Tests.Samples.{fs_read, tool_named}

abbrev hash : Declared → Text
hash d = d.description

abbrev fs : Text
fs = codes "fs"

abbrev known : Store
known = record new_store { servers = (fs, true) ∷ [] }

observe-known_example :
    ((observe hash 1 (λ x. false) fs (tool_named fs_read ∷ []) known).1.pins ≡ known.pins)
    × All
        (λ t.
          floor t.name (observe hash 1 (λ x. false) fs (tool_named fs_read ∷ []) known).1
          ≡ deserved hash t known.pins)
        (tool_named fs_read ∷ [])
unfolding lookup text_eq
observe-known_example =
    observe-known hash 1 (λ x. false) fs (tool_named fs_read ∷ []) known refl (tt, tt)

abbrev new_view : View
new_view = record {
  tool = fs_read;
  server = fs;
  status = new;
  pinned = [];
  current = codes "reads";
  pinned_at = 0;
  fingerprint = codes "reads";
}

abbrev waiting : Store
waiting = record known { current = (fs_read, new_view) ∷ [] }
