-- ===== src/Trace/Context/Joining.antt =====
-- A mesh behind a mesh joins the trace of its caller.
use flux7_mesh.Trace.Context.{
  new_context, Context, all_zero, traceparent, is_hex, is_id, parse_traceparent,
}
use flux7_mesh.Base.{
  trim_space-plain, split-append, trim_space, split, text_eq, ap, subst, codes, ◌∙◌, ◌++◌, leb,
  length, to_lower, refl, true, false, some, [], arith, Bool, ℕ, Text, All, ◌≡◌, ◌&&◌, ◌||◌, ◌∷◌,
  ◌==◌,
}
use mathlib.Core.List.{append_assoc}

-- A digit of the form in which IDs are kept.
abbrev pub is_lower_hex : ℕ → Bool
is_lower_hex c = (leb b'0' c && leb c b'9') || (leb b'a' c && leb c b'f')

-- An ID of the length, in lower case and not all zeros.
abbrev pub IsId : ℕ → Text → Type 0
IsId n s = (length s ≡ n) × All (λ c. is_lower_hex c ≡ true) s × (all_zero s ≡ false)

lower-is_hex : (s : Text) → All (λ c. is_lower_hex c ≡ true) s → is_hex s ≡ true
lower-is_hex [] h = refl
lower-is_hex (c ∷ s) (here, later) = ground (arith, lower-is_hex s later)

lower-undashed : (s : Text) → All (λ c. is_lower_hex c ≡ true) s → All (λ c. (c == b'-') ≡ false) s
lower-undashed [] h = tt
lower-undashed (c ∷ s) (here, later) = (ground arith, lower-undashed s later)

to_lower-lower : (s : Text) → All (λ c. is_lower_hex c ≡ true) s → to_lower s ≡ s
unfolding to_lower
to_lower-lower [] h = refl
to_lower-lower (c ∷ s) (here, later) = ground (arith, to_lower-lower s later)

id-is_id : (n : ℕ) (s : Text) → IsId n s → is_id n s ≡ true
id-is_id n s (size, lower, some_digit) = ground (arith, lower-is_hex s lower)

-- The header that names the trace and the span.
abbrev header : Text → Text → Text
header t p = codes "00-" ++ (t ++ b'-' ∷ (p ++ codes "-01"))

trim_space-header : (t p : Text) → trim_space (header t p) ≡ header t p
trim_space-header t p =
    let inner = append_assoc p (codes "-0") (b'1' ∷ []) in
    let outer = append_assoc t (b'-' ∷ (p ++ codes "-0")) (b'1' ∷ []) in
    let whole = outer ∙ ap (λ rest. t ++ b'-' ∷ rest) inner in
    subst (λ rest. trim_space (codes "00-" ++ rest) ≡ codes "00-" ++ rest) whole
      (trim_space-plain b'0' b'1' (codes "0-" ++ (t ++ b'-' ∷ (p ++ codes "-0"))) refl refl)

split-header :
    (t p : Text)
    → All (λ c. (c == b'-') ≡ false) t
    → All (λ c. (c == b'-') ≡ false) p
    → split b'-' (header t p) ≡ codes "00" ∷ t ∷ p ∷ codes "01" ∷ []
unfolding split
split-header t p trace span =
    let version =
      split-append b'-' (codes "00") (t ++ b'-' ∷ (p ++ codes "-01")) (refl, (refl, tt)) in
    let first = split-append b'-' t (p ++ codes "-01") trace in
    let second = split-append b'-' p (codes "01") span in
    version ∙ ap (λ parts. codes "00" ∷ parts) (first ∙ ap (λ parts. t ∷ parts) second)

parse_traceparent-header :
    (t p : Text) → IsId 32 t → IsId 16 p → parse_traceparent (header t p) ≡ some (t, p)
unfolding parse_traceparent text_eq
parse_traceparent-header t p trace span =
    let trimmed = trim_space-header t p in
    let parts = split-header t p (lower-undashed t trace.1) (lower-undashed p span.1) in
    rw
      (
        trimmed,
        parts,
        id-is_id 32 t trace,
        id-is_id 16 p span,
        to_lower-lower t trace.1,
        to_lower-lower p span.1,
      )
      refl

traceparent-header :
    (random : Text) (c : Context)
    → IsId 16 c.span_id
    → traceparent random c ≡ header c.trace_id c.span_id
unfolding traceparent
traceparent-header random c (size, lower, some_digit) =
    let hex = lower-is_hex c.span_id lower in rw (size, hex) refl

-- A mesh that receives the header of another one joins its trace: it has the trace ID of the sender,
-- and the sender's span as the parent of its own, which is the fresh one. The sender's IDs have 32 and
-- 16 hexadecimal digits in lower case that are not all zeros.
pub new_context-traceparent :
    (fresh_trace fresh_span random x_trace_id : Text) (c : Context)
    → IsId 32 c.trace_id
    → IsId 16 c.span_id
    → new_context fresh_trace fresh_span (traceparent random c) x_trace_id
      ≡ record { trace_id = c.trace_id; span_id = fresh_span; parent_span_id = c.span_id }
unfolding new_context
new_context-traceparent fresh_trace fresh_span random x_trace_id c trace span =
    let read =
      ap parse_traceparent (traceparent-header random c span)
      ∙ parse_traceparent-header c.trace_id c.span_id trace span in
    rw (new_context, read) refl
