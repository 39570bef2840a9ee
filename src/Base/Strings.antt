-- ===== src/Base/Strings.antt =====
-- Byte strings, and what the code uses of Go's `strings`. A text is the list of its bytes; the
-- literals are ASCII.
use Prim.Native.Nat.{ℕ, ◌+◌, ◌-◌}
use Prim.Native.Char.{code}
use Prim.Native.String.{String}
use mathlib.Core.Path.{◌≡◌, refl, ap, ap₂, ◌∙◌}
use mathlib.Core.Logic.{◌↔◌}
use mathlib.Core.Bool.{Bool, true, false, ◌&&◌, ◌||◌}
use mathlib.Core.List.{
  List, [], ◌∷◌, ◌++◌, reverse, map, append-nil, append_assoc, reverse-append, reverse-reverse,
}
use native.Mathlib.Omega.{arith}
use flux7_mesh.Base.Tests.{◌==◌, leb, if◌then◌else◌}
use flux7_mesh.Base.Lists.{any, All}

abbrev pub Text : Type 0
Text = List ℕ

abbrev pub codes : String → Text
codes String.[] = []
codes (String.◌∷◌ c s) = code c ∷ codes s

unfoldable pub text_eq : Text → Text → Bool
text_eq [] [] = true
text_eq [] (y ∷ t) = false
text_eq (x ∷ s) [] = false
text_eq (x ∷ s) (y ∷ t) = x == y && text_eq s t

pub text_eq_iff : (s t : Text) → (text_eq s t ≡ true) ↔ (s ≡ t)
unfolding text_eq
text_eq_iff [] [] = (λ h. refl, λ h. refl)
text_eq_iff [] (y ∷ t) = (λ h. cc, λ h. cc)
text_eq_iff (x ∷ s) [] = (λ h. cc, λ h. cc)
text_eq_iff (x ∷ s) (y ∷ t) =
    let ih = text_eq_iff s t in (λ h. ground (arith, ih), λ h. ground (arith, ih))

pub text_eq_refl : (s : Text) → text_eq s s ≡ true
text_eq_refl s = (text_eq_iff s s).1 refl

abbrev pub is_empty : Text → Bool
is_empty [] = true
is_empty (x ∷ s) = false

-- The bytes of a slice from the start.
abbrev pub take : ℕ → Text → Text
take n [] = []
take n (c ∷ s) = if n == 0 then [] else c ∷ take (n - 1) s

-- strings.HasPrefix, the prefix second.
unfoldable pub has_prefix : Text → Text → Bool
has_prefix s [] = true
has_prefix [] (p ∷ ps) = false
has_prefix (c ∷ s) (p ∷ ps) = c == p && has_prefix s ps

-- `has_prefix` decides "the text is the prefix followed by a rest".
pub has_prefix_iff : (s p : Text) → (has_prefix s p ≡ true) ↔ ((r : Text) × (s ≡ p ++ r))
unfolding has_prefix
has_prefix_iff s [] = (λ h. (s, refl), λ h. refl)
has_prefix_iff [] (p ∷ ps) = (λ h. cc, λ (r, e). cc)
has_prefix_iff (c ∷ s) (p ∷ ps) =
    let ih = has_prefix_iff s ps in
    (
      λ h.
          let (r, e) = ih.0 (ground arith) in
          let same : c ≡ p = ground arith in (r, ap₂ ◌∷◌ same e),
      λ (r, e). let back = ih.1 (r, ground arith) in ground arith,
    )

-- strings.HasSuffix
unfoldable pub has_suffix : Text → Text → Bool
unfolding text_eq
has_suffix [] suffix = text_eq [] suffix
has_suffix (c ∷ s) suffix = text_eq (c ∷ s) suffix || has_suffix s suffix

-- strings.Contains
unfoldable pub contains : Text → Text → Bool
unfolding has_prefix
contains [] part = has_prefix [] part
contains (c ∷ s) part = has_prefix (c ∷ s) part || contains s part

-- strings.ContainsAny, over bytes.
abbrev pub contains_any : Text → Text → Bool
contains_any s set = any (λ c. any (λ x. c == x) set) s

-- strings.Split with a separator of one byte: the part being read is `cur`.
split_from : ℕ → Text → Text → List Text
split_from sep cur [] = cur ∷ []
split_from sep cur (c ∷ s) =
    let closed = cur ∷ split_from sep [] s in
    let longer = split_from sep (cur ++ c ∷ []) s in if c == sep then closed else longer

unfoldable pub split : ℕ → Text → List Text
unfolding split_from
split sep s = split_from sep [] s

split_from-append :
    (sep : ℕ) (cur a s : Text)
    → All (λ c. (c == sep) ≡ false) a
    → split_from sep cur (a ++ sep ∷ s) ≡ (cur ++ a) ∷ split_from sep [] s
unfolding split_from
split_from-append sep cur [] s h = ground (arith, append-nil cur)
split_from-append sep cur (c ∷ a) s (here, later) =
    let rest = split_from-append sep (cur ++ c ∷ []) a s later in
    rw here (rest ∙ ap (λ part. part ∷ split_from sep [] s) (append_assoc cur (c ∷ []) a))

-- A part without the separator ends at the first one.
pub split-append :
    (sep : ℕ) (a s : Text)
    → All (λ c. (c == sep) ≡ false) a
    → split sep (a ++ sep ∷ s) ≡ a ∷ split sep s
unfolding split
split-append sep a s h = split_from-append sep [] a s h

abbrev pub is_space : ℕ → Bool
is_space c = c == 32 || (leb 9 c && leb c 13)

abbrev trim_left : Text → Text
trim_left [] = []
trim_left (c ∷ s) = if is_space c then trim_left s else c ∷ s

-- strings.TrimSpace, over ASCII.
unfoldable pub trim_space : Text → Text
trim_space s = reverse (trim_left (reverse (trim_left s)))

-- A text between two bytes that are no space is trimmed to itself.
pub trim_space-plain :
    (c d : ℕ) (s : Text)
    → is_space c ≡ false
    → is_space d ≡ false
    → trim_space (c ∷ s ++ d ∷ []) ≡ c ∷ s ++ d ∷ []
unfolding trim_space
trim_space-plain c d s first last =
    let ends = reverse-append (c ∷ s) (d ∷ []) in
    let kept : trim_left (reverse (c ∷ s ++ d ∷ [])) ≡ reverse (c ∷ s ++ d ∷ []) =
      rw ends (rw last refl) in
    rw first (rw kept (reverse-reverse (c ∷ s ++ d ∷ [])))

-- strings.ToLower and strings.ToUpper, over ASCII.
unfoldable pub to_lower : Text → Text
to_lower = map (λ c. if leb b'A' c && leb c b'Z' then c + 32 else c)

unfoldable pub to_upper : Text → Text
to_upper = map (λ c. if leb b'a' c && leb c b'z' then c - 32 else c)
