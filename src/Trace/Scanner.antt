-- ===== src/Trace/Scanner.antt =====
-- bufio.Scanner of Go's library, by lines, with a buffer of limited size, as trace/store.go and
-- trace/integrity.go read the trace file.
use flux7_mesh.Base.{
  ltb, length, max, refl, true, false, [], arith, Bool, List, ℕ, if◌then◌else◌, Text, All, ◌<◌, ◌≡◌,
  ◌∷◌,
}

-- The lines before the first one that does not fit in a buffer of `max` bytes, and whether there is
-- one: then the scan ends with an error there.
unfoldable pub scan : ℕ → List Text → List Text × Bool
scan max [] = ([], false)
scan max (line ∷ lines) =
    let (read, failed) = scan max lines in
    if ltb (length line) max then (line ∷ read, failed) else ([], true)

pub scan_short :
    (max : ℕ) (lines : List Text)
    → All (λ line. length line < max) lines
    → scan max lines ≡ (lines, false)
unfolding scan
scan_short max [] h = refl
scan_short max (line ∷ lines) (here, later) = let rest = scan_short max lines later in ground arith
