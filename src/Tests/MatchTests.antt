-- ===== src/Tests/MatchTests.antt =====
-- Patterns and names.
use flux7_mesh.Base.{
  [], Text, ◌↔◌, ◌∷◌, ◌++◌, ◌≡◌, refl, Bool, true, false, codes, contains, String,
}
use flux7_mesh.Match.{glob_of_prefix, separator, star, glob}

abbrev matches : String → String → Bool
matches p s = glob (codes p) (codes s)

glob_tests :
    (matches "filesystem.read_*" "filesystem.read_file" ≡ true)
    × (matches "filesystem.read_*" "filesystem.read_a/b" ≡ false)
    × (matches "*" "a/b" ≡ true)
    × (matches "git?ub.[a-c^]*.x" "github.b.y.x" ≡ true)
    × (matches "[^a]b" "ab" ≡ false)
    × (matches "[^a]b" "cb" ≡ true)
    × (matches "a[" "ax" ≡ false)
    × (matches "\\*x" "*x" ≡ true)
    × (matches "*a*b" "xaab" ≡ true)
    × (matches "*a*b" "xaabc" ≡ false)
unfolding glob contains
glob_tests = (refl, refl, refl, refl, refl, refl, refl, refl, refl, refl)

glob_of_prefix_example :
    (glob (codes "fs." ++ star ∷ []) (codes "fs.read") ≡ true)
    ↔ ((t : Text) × (codes "fs.read" ≡ codes "fs." ++ t) × (contains t (separator ∷ []) ≡ false))
glob_of_prefix_example =
    glob_of_prefix (codes "fs.") (codes "fs.read") (refl, (refl, (refl, tt))) (λ e. cc)
