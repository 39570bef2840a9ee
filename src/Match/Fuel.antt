-- ===== src/Match/Fuel.antt =====
-- The fuel of the loops in Match/Defs.
use flux7_mesh.Base.{
  ℕ, zero, suc, ◌≤◌, ◌<◌, ◌≡◌, refl, inl, inr, Bool, true, false, ◌&&◌, ◌||◌, some, [], ◌∷◌, arith,
  if◌then◌else◌, ◌==◌, leb, Bool-cases, Option-cases, Text, is_empty, length,
}
use flux7_mesh.Match.Defs.{
  star, backslash, strip_stars, chunk_end, get_esc, range_end, closes, tail, class_loop, negated,
  class_step, match_chunk, head_or_zero, advance, glob_loop,
}

strip_stars_le : (p : Text) → length (strip_stars p).1 ≤ length p
unfolding strip_stars
strip_stars_le [] = omega arith
strip_stars_le (c ∷ p) = ground (arith, strip_stars_le p)

chunk_end_le : (r : Bool) (p : Text) → length (chunk_end r p).1 ≤ length p
unfolding chunk_end
chunk_end_le r [] = omega arith
chunk_end_le r (c ∷ []) = ground arith
chunk_end_le r (c ∷ d ∷ p) =
    ground (arith, chunk_end_le r p, chunk_end_le true (d ∷ p), chunk_end_le false (d ∷ p))

chunk_end_lt :
    (c : ℕ) (p : Text) → (c == star) ≡ false → length (chunk_end false (c ∷ p)).1 ≤ length p
unfolding chunk_end
chunk_end_lt c [] h = ground arith
chunk_end_lt c (d ∷ p) h =
    ground (arith, chunk_end_le false p, chunk_end_le true (d ∷ p), chunk_end_le false (d ∷ p))

-- Each turn of the loop over the chunks takes a character off the pattern.
rest_le : (c : ℕ) (p : Text) → length (chunk_end false (strip_stars (c ∷ p)).1).1 ≤ length p
unfolding strip_stars
rest_le c p = elim (Bool-cases (c == star)) [
  | inl starred ↦ rw starred (omega (arith, chunk_end_le false (strip_stars p).1, strip_stars_le p))
  | inr plain ↦ rw plain (chunk_end_lt c p plain)
]

-- The loop of `filepath.Match` gives one answer for all fuel beyond the length of the pattern.
glob_loop_fuel :
    (f g : ℕ) (pattern name : Text)
    → length pattern < f
    → length pattern < g
    → glob_loop f pattern name ≡ glob_loop g pattern name
unfolding glob_loop
glob_loop_fuel zero g pattern name lf lg = absurd (omega arith)
glob_loop_fuel (suc f) zero pattern name lf lg = absurd (omega arith)
glob_loop_fuel (suc f) (suc g) [] name lf lg = refl
glob_loop_fuel (suc f) (suc g) (c ∷ p) name lf lg =
    let body = (strip_stars (c ∷ p)).1 in
    let cut = chunk_end false body in
    let skips = (strip_stars (c ∷ p)).0 && is_empty cut.0 in
    elim (Bool-cases skips) [
      | inl all ↦ rw (glob_loop, all) refl
      | inr some_left ↦
          elim (Option-cases (advance (strip_stars (c ∷ p)).0 cut.0 (is_empty cut.1) name)) [
            | inl e ↦ rw (glob_loop, some_left, e) refl
            | inr (t, e) ↦
                rw (glob_loop, some_left, e)
                  (glob_loop_fuel f g cut.1 t (omega (arith, rest_le c p))
                    (omega (arith, rest_le c p)))
          ]
    ]

tail_le : (chunk : Text) → length (tail chunk) ≤ length chunk
tail_le [] = omega arith
tail_le (c ∷ chunk) = omega arith

get_esc_lt :
    (chunk rest : Text) (lo : ℕ) → get_esc chunk ≡ some (lo, rest) → length rest < length chunk
unfolding get_esc
get_esc_lt [] rest lo e = ground arith
get_esc_lt (c ∷ []) rest lo e = ground arith
get_esc_lt (c ∷ d ∷ []) rest lo e = ground arith
get_esc_lt (c ∷ d ∷ x ∷ chunk) rest lo e = ground arith

range_end_le :
    (lo hi : ℕ) (chunk rest : Text)
    → range_end lo chunk ≡ some (hi, rest)
    → length rest ≤ length chunk
range_end_le lo hi [] rest e = ground arith
range_end_le lo hi (c ∷ chunk) rest e = ground (arith, get_esc_lt chunk rest hi)

-- The loop over the ranges of a class gives one answer for all fuel beyond the length of the chunk.
class_loop_fuel :
    (f g : ℕ) (chunk : Text) (ranges : Bool) (r : ℕ) (found : Bool)
    → length chunk < f
    → length chunk < g
    → class_loop f chunk ranges r found ≡ class_loop g chunk ranges r found
unfolding class_loop
class_loop_fuel zero g chunk ranges r found lf lg = absurd (omega arith)
class_loop_fuel (suc f) zero chunk ranges r found lf lg = absurd (omega arith)
class_loop_fuel (suc f) (suc g) chunk ranges r found lf lg =
    elim (Bool-cases (closes chunk ranges)) [
      | inl over ↦ rw (class_loop, over) refl
      | inr goes_on ↦ elim (Option-cases (get_esc chunk)) [
        | inl e ↦ rw (class_loop, goes_on, e) refl
        | inr ((lo, rest), e) ↦ elim (Option-cases (range_end lo rest)) [
          | inl h ↦ rw (class_loop, goes_on, e, h) refl
          | inr ((hi, left), h) ↦
              rw (class_loop, goes_on, e, h)
                (class_loop_fuel f g left true r (found || (leb lo r && leb r hi))
                  (omega (arith, get_esc_lt chunk rest lo e, range_end_le lo hi rest left h))
                  (omega (arith, get_esc_lt chunk rest lo e, range_end_le lo hi rest left h)))
        ]
      ]
    ]

class_loop_le :
    (f : ℕ) (chunk rest : Text) (ranges : Bool) (r : ℕ) (found hit : Bool)
    → class_loop f chunk ranges r found ≡ some (hit, rest)
    → length rest ≤ length chunk
unfolding class_loop
class_loop_le zero chunk rest ranges r found hit e = ground arith
class_loop_le (suc f) chunk rest ranges r found hit e = elim (Bool-cases (closes chunk ranges)) [
  | inl over ↦ ground (arith, tail_le chunk, rw (class_loop, over) at e)
  | inr goes_on ↦ elim (Option-cases (get_esc chunk)) [
    | inl h ↦ absurd (ground (arith, rw (class_loop, goes_on, h) at e))
    | inr ((lo, mid), h) ↦ elim (Option-cases (range_end lo mid)) [
      | inl k ↦ absurd (ground (arith, rw (class_loop, goes_on, h, k) at e))
      | inr ((hi, left), k) ↦ omega (
        arith,
        get_esc_lt chunk mid lo h,
        range_end_le lo hi mid left k,
        class_loop_le f left rest true r (found || (leb lo r && leb r hi)) hit
            (rw (class_loop, goes_on, h, k) at e),
      )
    ]
  ]
]

body_le : (chunk : Text) → length (if negated chunk then tail chunk else chunk) ≤ length chunk
body_le [] = ground arith
body_le (c ∷ chunk) = ground arith

class_step_le :
    (chunk s rest : Text) (fails : Bool)
    → class_step chunk s ≡ some (fails, rest)
    → length rest ≤ length chunk
unfolding class_step
class_step_le chunk s rest fails e =
    let body : Text = if negated chunk then tail chunk else chunk in
    elim (Option-cases (class_loop (suc (length body)) body false (head_or_zero s) false)) [
      | inl h ↦ absurd (ground (arith, rw (class_step, h) at e))
      | inr ((found, left), h) ↦ ground (
        arith,
        body_le chunk,
        rw (class_step, h) at e,
        class_loop_le (suc (length body)) body left false (head_or_zero s) false found h,
      )
    ]

-- `match_chunk` gives one answer for all fuel that is the length of the chunk or more.
match_chunk_fuel :
    (f g : ℕ) (chunk s : Text) (failed : Bool)
    → length chunk ≤ f
    → length chunk ≤ g
    → match_chunk f chunk s failed ≡ match_chunk g chunk s failed
unfolding match_chunk
match_chunk_fuel f g [] s failed lf lg = refl
match_chunk_fuel zero g (c ∷ chunk) s failed lf lg = absurd (omega arith)
match_chunk_fuel (suc f) zero (c ∷ chunk) s failed lf lg = absurd (omega arith)
match_chunk_fuel (suc f) (suc g) (c ∷ chunk) s failed lf lg = elim (Bool-cases (c == b'[')) [
  | inl class ↦ elim (Option-cases (class_step chunk s)) [
    | inl e ↦ rw (match_chunk, class, e) refl
    | inr ((fails, rest), e) ↦
        rw (match_chunk, class, e)
          (match_chunk_fuel f g rest _ _ (omega (arith, class_step_le chunk s rest fails e))
            (omega (arith, class_step_le chunk s rest fails e)))
  ]
  | inr other ↦ elim (Bool-cases (c == b'?')) [
    | inl any ↦
        rw (match_chunk, other, any) (match_chunk_fuel f g chunk _ _ (omega arith) (omega arith))
    | inr char ↦ elim (Bool-cases (c == backslash)) [
      | inr plain ↦
          rw (match_chunk, other, char, plain)
            (match_chunk_fuel f g chunk _ _ (omega arith) (omega arith))
      | inl escapes ↦ elim (Bool-cases (is_empty chunk)) [
        | inl e ↦ rw (match_chunk, other, char, escapes, e) refl
        | inr e ↦
            rw (match_chunk, other, char, escapes, e)
              (match_chunk_fuel f g (tail chunk) _ _ (omega (arith, tail_le chunk))
                (omega (arith, tail_le chunk)))
      ]
    ]
  ]
]

-- The loops of `filepath.Match` do not end for want of fuel: on a text that both `f` and `g` bound
-- in length, the loops over chunks and over the ranges of a class give the same answer with one unit
-- more than `f` and with one more than `g`, and the loop over a chunk with `f` and with `g`.
pub glob_fuel :
    (f g : ℕ) (pattern text : Text) (failed ranges found : Bool) (r : ℕ)
    → length pattern ≤ f
    → length pattern ≤ g
    → (glob_loop (suc f) pattern text ≡ glob_loop (suc g) pattern text)
      × (match_chunk f pattern text failed ≡ match_chunk g pattern text failed)
      × (class_loop (suc f) pattern ranges r found ≡ class_loop (suc g) pattern ranges r found)
glob_fuel f g pattern text failed ranges found r lf lg = (
  glob_loop_fuel (suc f) (suc g) pattern text (omega arith) (omega arith),
  match_chunk_fuel f g pattern text failed lf lg,
  class_loop_fuel (suc f) (suc g) pattern ranges r found (omega arith) (omega arith),
)
