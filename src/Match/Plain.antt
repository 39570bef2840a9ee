-- ===== src/Match/Plain.antt =====
-- The patterns that policies are mostly made of: a plain name, and a plain prefix with a star.
use flux7_mesh.Base.{
  ℕ, zero, suc, ◌≤◌, ◌≡◌, refl, ◌∙◌, ◌↔◌, ◌≢◌, inl, inr, Bool, true, false, not, ◌||◌, Option, none,
  some, [], ◌∷◌, ◌++◌, arith, if◌then◌else◌, ◌==◌, Option-cases, Text, text_eq, contains, is_empty,
  length, All,
}
use mathlib.Core.List.{append-nil}
use flux7_mesh.Match.Defs.{
  star, backslash, separator, ChunkResult, no_match, matched, strip_stars, chunk_end, match_chunk,
  run_chunk, accepted, advance, glob_loop, filepath_match, glob,
}

abbrev pub is_special : ℕ → Bool
is_special c = c == star || c == b'?' || c == b'[' || c == backslash

-- No character of the text has a meaning of its own in a pattern.
abbrev pub IsPlain : Text → Type 0
IsPlain p = All (λ c. is_special c ≡ false) p

strip : Text → Text → Option Text
strip s [] = some s
strip [] (p ∷ ps) = none
strip (c ∷ s) (p ∷ ps) = if p == c then strip s ps else none

strip-some : (s p t : Text) → strip s p ≡ some t → s ≡ p ++ t
unfolding strip
strip-some s [] t h = ground arith
strip-some [] (p ∷ ps) t h = cc
strip-some (c ∷ s) (p ∷ ps) t h = ground (arith, strip-some s ps t)

strip-append : (p t : Text) → strip (p ++ t) p ≡ some t
unfolding strip
strip-append [] t = refl
strip-append (p ∷ ps) t = ground (arith, strip-append ps t)

chunk_end-cons :
    (c : ℕ) (q : Text)
    → is_special c ≡ false
    → chunk_end false (c ∷ q) ≡ (c ∷ (chunk_end false q).0, (chunk_end false q).1)
unfolding chunk_end
chunk_end-cons c [] h = ground arith
chunk_end-cons c (d ∷ q) h = ground arith

chunk_end-plain :
    (p rest : Text)
    → IsPlain p
    → chunk_end false rest ≡ ([], rest)
    → chunk_end false (p ++ rest) ≡ (p, rest)
chunk_end-plain [] rest h e = e
chunk_end-plain (c ∷ p) rest h e =
    rw (chunk_end-cons c (p ++ rest) h.0, chunk_end-plain p rest h.1 e)

abbrev result : Option Text → ChunkResult
result none = no_match
result (some t) = matched t

match_chunk-failed :
    (p s : Text) (f : ℕ) → length p ≤ f → IsPlain p → match_chunk f p s true ≡ no_match
unfolding match_chunk
match_chunk-failed [] s f l h = refl
match_chunk-failed (c ∷ p) s (suc f) l h = ground (arith, match_chunk-failed p s f)
match_chunk-failed (c ∷ p) s zero l h = elim l [ ]

match_chunk-plain :
    (p s : Text) (f : ℕ) → length p ≤ f → IsPlain p → match_chunk f p s false ≡ result (strip s p)
unfolding match_chunk strip
match_chunk-plain [] s f l h = refl
match_chunk-plain (c ∷ p) [] (suc f) l h = ground (arith, match_chunk-failed p [] f)
match_chunk-plain (c ∷ p) (x ∷ s) (suc f) l h =
    ground (arith, match_chunk-failed p s f, match_chunk-plain p s f)
match_chunk-plain (c ∷ p) s zero l h = elim l [ ]

run_chunk-plain : (p s : Text) → IsPlain p → run_chunk p s ≡ result (strip s p)
unfolding run_chunk
run_chunk-plain p s h = match_chunk-plain p s (length p) (omega arith) h

abbrev ends_or : Bool → Option Text → Option Text
ends_or is_last none = none
ends_or is_last (some t) = if is_empty t || not is_last then some t else none

advance-plain :
    (p s : Text) (is_last : Bool)
    → IsPlain p
    → advance false p is_last s ≡ ends_or is_last (strip s p)
unfolding advance accepted
advance-plain p s is_last h = ground (arith, run_chunk-plain p s h)

abbrev then_rest : ℕ → Text → Option Text → Bool
then_rest f rest none = false
then_rest f rest (some t) = glob_loop f rest t

-- One round of the loop, at a chunk with no special character.
glob_loop-plain :
    (f c : ℕ) (p rest s : Text)
    → IsPlain (c ∷ p)
    → chunk_end false rest ≡ ([], rest)
    → glob_loop (suc f) ((c ∷ p) ++ rest) s
      ≡ then_rest f rest (ends_or (is_empty rest) (strip s (c ∷ p)))
unfolding glob_loop strip_stars
glob_loop-plain f c p rest s h e =
    ground (arith, chunk_end-plain (c ∷ p) rest h e, advance-plain (c ∷ p) s (is_empty rest) h)

filepath_match-plain :
    (c : ℕ) (p v : Text)
    → IsPlain (c ∷ p)
    → filepath_match (c ∷ p) v ≡ then_rest (length (c ∷ p)) [] (ends_or true (strip v (c ∷ p)))
unfolding filepath_match chunk_end
filepath_match-plain c p v h = rw append-nil at (glob_loop-plain (length (c ∷ p)) c p [] v h refl)

filepath_match-star :
    (c : ℕ) (p v : Text)
    → IsPlain (c ∷ p)
    → filepath_match ((c ∷ p) ++ star ∷ []) v
      ≡ then_rest (length ((c ∷ p) ++ star ∷ [])) (star ∷ []) (strip v (c ∷ p))
unfolding filepath_match chunk_end
filepath_match-star c p v h =
    ground (arith, glob_loop-plain (length ((c ∷ p) ++ star ∷ [])) c p (star ∷ []) v h refl)

glob_lem : (p v : Text) → glob p v ≡ (if text_eq p (star ∷ []) then true else filepath_match p v)
unfolding glob
glob_lem p v = refl

-- `strip` leaves nothing exactly for the text itself.
strip-empty_iff :
    (n : ℕ) (v p : Text) → (then_rest (suc n) [] (ends_or true (strip v p)) ≡ true) ↔ (v ≡ p)
unfolding glob_loop
strip-empty_iff n v p = (
  λ e. elim (Option-cases (strip v p)) [
    | inl gone ↦ ground arith
    | inr (t, left) ↦
        let none_left : t ≡ [] = ground arith in strip-some v p t left ∙ rw none_left (append-nil p)
  ],
  λ e. rw e (ground (arith, strip-append p [], append-nil p)),
)

filepath_match-empty : (v : Text) → (filepath_match [] v ≡ true) ↔ (v ≡ [])
unfolding filepath_match
filepath_match-empty v = ground arith

not_star : (c : ℕ) (p : Text) → IsPlain (c ∷ p) → text_eq (c ∷ p) (star ∷ []) ≡ false
unfolding text_eq
not_star c p h = ground arith

starred_not_star :
    (c : ℕ) (p : Text) → IsPlain (c ∷ p) → text_eq ((c ∷ p) ++ star ∷ []) (star ∷ []) ≡ false
unfolding text_eq
starred_not_star c p h = ground arith

-- A plain pattern matches the name that is equal to it, and no other.
pub glob_of_plain : (p v : Text) → IsPlain p → (glob p v ≡ true) ↔ (v ≡ p)
unfolding text_eq
glob_of_plain [] v h = rw glob_lem (filepath_match-empty v)
glob_of_plain (c ∷ p) v h =
    rw (glob_lem, not_star c p h, filepath_match-plain c p v h)
      (strip-empty_iff (length p) v (c ∷ p))

then_star : (n : ℕ) (t : Text) → glob_loop (suc n) (star ∷ []) t ≡ not (contains t (separator ∷ []))
unfolding glob_loop strip_stars chunk_end
then_star n t = refl

strip-star_iff :
    (n : ℕ) (v p : Text)
    → (then_rest (suc n) (star ∷ []) (strip v p) ≡ true)
      ↔ ((t : Text) × (v ≡ p ++ t) × (contains t (separator ∷ []) ≡ false))
strip-star_iff n v p = (
  λ e. elim (Option-cases (strip v p)) [
    | inl gone ↦ ground arith
    | inr (t, left) ↦ (t, strip-some v p t left, ground (arith, then_star n t))
  ],
  λ (t, e, clear). rw e (ground (arith, strip-append p t, then_star n t)),
)

-- A prefix that is not empty and has no special character, followed by a star, matches just the names
-- that go on after the prefix with no separator.
pub glob_of_prefix :
    (p v : Text)
    → IsPlain p
    → p ≢ []
    → (glob (p ++ star ∷ []) v ≡ true)
      ↔ ((t : Text) × (v ≡ p ++ t) × (contains t (separator ∷ []) ≡ false))
glob_of_prefix [] v h ne = absurd (ne refl)
glob_of_prefix (c ∷ p) v h ne =
    let skips : text_eq ((c ∷ p) ++ star ∷ []) (star ∷ []) ≡ false = starred_not_star c p h in
    rw (glob_lem, skips, filepath_match-star c p v h)
      (strip-star_iff (length (p ++ star ∷ [])) v (c ∷ p))
