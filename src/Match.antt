-- ===== src/Match.antt =====
-- internal/match/match.go, and the `filepath.Match` of Go's standard library that it calls (on a
-- system whose separator is '/'), over ASCII texts. The loops of `filepath.Match` take as fuel the
-- length of what they read.
mod Defs
mod Plain
mod Fuel
unfoldable pub use Defs.{glob, glob_any, filepath_match}
pub use Defs.{star, separator, glob_loop, match_chunk, class_loop}
pub use Fuel.{glob_fuel}
pub use Plain.{IsPlain, glob_of_plain, glob_of_prefix}
