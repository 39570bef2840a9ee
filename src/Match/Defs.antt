-- ===== src/Match/Defs.antt =====
-- `Glob` and `GlobAny` of internal/match/match.go over `filepath.Match`.
use flux7_mesh.Base.{
  ℕ, zero, suc, Bool, true, false, not, ◌&&◌, ◌||◌, Option, none, some, List, [], ◌∷◌,
  if◌then◌else◌, ◌==◌, leb, Text, text_eq, contains, is_empty, length, any,
}

-- The characters that mean something in a pattern.
abbrev pub star : ℕ
star = b'*'

abbrev pub backslash : ℕ
backslash = 92

abbrev pub separator : ℕ
separator = b'/'

-- What `matchChunk` returns: an error, no match, or a match and the text after it.
pub data ChunkResult : Type 0 where
  bad : ChunkResult
  no_match : ChunkResult
  matched : Text → ChunkResult

-- The first loop of `scanChunk`.
unfoldable pub strip_stars : Text → Bool × Text
strip_stars [] = (false, [])
strip_stars (c ∷ p) = if c == star then (true, (strip_stars p).1) else (false, c ∷ p)

abbrev pub in_range_after : ℕ → Bool → Bool
in_range_after c inrange = if c == b'[' then true else if c == b']' then false else inrange

-- The second loop of `scanChunk`: the chunk and the rest of the pattern, which starts at a star
-- that stands in no class and has no backslash before it.
unfoldable pub chunk_end : Bool → Text → Text × Text
chunk_end inrange [] = ([], [])
chunk_end inrange (c ∷ []) = if c == star && not inrange then ([], c ∷ []) else (c ∷ [], [])
chunk_end inrange (c ∷ d ∷ p) =
    let escaped = chunk_end inrange p in
    let onward = chunk_end (in_range_after c inrange) (d ∷ p) in
    if c == backslash
    then (c ∷ d ∷ escaped.0, escaped.1)
    else if c == star && not inrange
    then ([], c ∷ d ∷ p)
    else (c ∷ onward.0, onward.1)

abbrev pub with_rest : ℕ → Text → Option (ℕ × Text)
with_rest c [] = none
with_rest c (d ∷ rest) = some (c, d ∷ rest)

abbrev pub after_backslash : Text → Option (ℕ × Text)
after_backslash [] = none
after_backslash (c ∷ rest) = with_rest c rest

-- `getEsc`: one character of a class; `none` is ErrBadPattern.
unfoldable pub get_esc : Text → Option (ℕ × Text)
get_esc [] = none
get_esc (c ∷ rest) =
    if c == b'-' || c == b']'
    then none
    else if c == backslash
    then after_backslash rest
    else with_rest c rest

abbrev pub range_end : ℕ → Text → Option (ℕ × Text)
range_end lo [] = none
range_end lo (c ∷ rest) = if c == b'-' then get_esc rest else some (lo, c ∷ rest)

abbrev pub closes : Text → Bool → Bool
closes [] ranges = false
closes (c ∷ rest) ranges = c == b']' && ranges

abbrev pub tail : Text → Text
tail [] = []
tail (c ∷ s) = s

abbrev pub head_or_zero : Text → ℕ
head_or_zero [] = 0
head_or_zero (c ∷ s) = c

-- The loop over the ranges of a class: whether the character `r` is in one of them, and the rest.
unfoldable pub class_loop : ℕ → Text → Bool → ℕ → Bool → Option (Bool × Text)
unfolding get_esc
class_loop zero chunk ranges r found = none
class_loop (suc f) chunk ranges r found = elim (closes chunk ranges) [
  | true ↦ some (found, tail chunk)
  | false ↦ elim (get_esc chunk) [
    | none ↦ none
    | some (lo, rest) ↦ elim (range_end lo rest) [
      | none ↦ none
      | some (hi, rest') ↦ class_loop f rest' true r (found || (leb lo r && leb r hi))
    ]
  ]
]

abbrev pub negated : Text → Bool
negated [] = false
negated (c ∷ rest) = c == b'^'

abbrev pub same : Bool → Bool → Bool
same true b = b
same false b = not b

-- A class at the head of the chunk, after its bracket: whether the match fails, and the rest.
unfoldable pub class_step : Text → Text → Option (Bool × Text)
unfolding class_loop
class_step chunk s =
    let body : Text = if negated chunk then tail chunk else chunk in
    elim (class_loop (suc (length body)) body false (head_or_zero s) false) [
      | none ↦ none
      | some (found, rest) ↦ some (same found (negated chunk), rest)
    ]

-- `matchChunk`; after a failure it reads on, to find a malformed pattern, and leaves the text.
unfoldable pub match_chunk : ℕ → Text → Text → Bool → ChunkResult
unfolding class_step
match_chunk f [] s failed = if failed then no_match else matched s
match_chunk zero (c ∷ chunk) s failed = bad
match_chunk (suc f) (c ∷ chunk) s failed =
    let out : Bool = failed || is_empty s in
    let s' : Text = if out then s else tail s in
    let literal =
      λ (x : ℕ) (rest : Text). match_chunk f rest s' (out || not (x == head_or_zero s)) in
    elim (c == b'[') [
      | true ↦ elim (class_step chunk s) [
        | none ↦ bad
        | some (fails, rest) ↦ match_chunk f rest s' (out || fails)
      ]
      | false ↦ elim (c == b'?') [
        | true ↦ match_chunk f chunk s' (out || head_or_zero s == separator)
        | false ↦ elim (c == backslash) [
          | true ↦ elim (is_empty chunk) [
            | true ↦ bad
            | false ↦ literal (head_or_zero chunk) (tail chunk)
          ]
          | false ↦ literal c chunk
        ]
      ]
    ]

unfoldable pub run_chunk : Text → Text → ChunkResult
unfolding match_chunk
run_chunk chunk s = match_chunk (length chunk) chunk s false

-- The text after the chunk, if the chunk is not the last one or ends the name.
unfoldable pub accepted : ChunkResult → Bool → Option Text
accepted bad is_last = none
accepted no_match is_last = none
accepted (matched t) is_last = if is_empty t || not is_last then some t else none

-- The loop that looks for the chunk after the characters that a star skips; it skips no separator,
-- and ends at an error.
unfoldable pub skip : Text → Bool → Text → Option Text
unfolding run_chunk accepted
skip chunk is_last [] = none
skip chunk is_last (c ∷ name) =
    let further = skip chunk is_last name in
    if c == separator then none else elim (run_chunk chunk name) [
      | bad ↦ none
      | no_match ↦ further
      | matched t ↦ if is_empty t || not is_last then some t else further
    ]

-- Where the name goes on after one chunk, if the chunk matches.
unfoldable pub advance : Bool → Text → Bool → Text → Option Text
unfolding skip run_chunk accepted
advance starred chunk is_last name = elim (accepted (run_chunk chunk name) is_last) [
  | some t ↦ some t
  | none ↦ elim (run_chunk chunk name) [
    | bad ↦ none
    | other ↦ if starred then skip chunk is_last name else none
  ]
]

-- The loop of `filepath.Match` over the chunks of the pattern.
unfoldable pub glob_loop : ℕ → Text → Text → Bool
unfolding strip_stars chunk_end advance
glob_loop zero pattern name = false
glob_loop (suc f) [] name = is_empty name
glob_loop (suc f) (c ∷ p) name =
    let (starred, body) = strip_stars (c ∷ p) in
    let (chunk, rest) = chunk_end false body in
    elim (starred && is_empty chunk) [
      | true ↦ not (contains name (separator ∷ []))
      | false ↦ elim (advance starred chunk (is_empty rest) name) [
        | none ↦ false
        | some t ↦ glob_loop f rest t
      ]
    ]

-- `filepath.Match`; its error, a malformed pattern, comes with false.
unfoldable pub filepath_match : Text → Text → Bool
unfolding glob_loop
filepath_match pattern name = glob_loop (suc (length pattern)) pattern name

unfoldable pub glob : Text → Text → Bool
unfolding filepath_match text_eq
glob pattern value = if text_eq pattern (star ∷ []) then true else filepath_match pattern value

unfoldable pub glob_any : List Text → Text → Bool
unfolding glob
glob_any patterns value = any (λ p. text_eq p value || glob p value) patterns
