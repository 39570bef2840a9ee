-- ===== src/Trace/Context.antt =====
-- trace/context.go, with isHex and spanIDFor of trace/otel.go: the trace context of one call. The random
-- IDs are arguments.
use flux7_mesh.Base.{
  take, text_eq, trim_space, leb, ltb, length, split, to_lower, true, not, none, some, [], Bool,
  List, Option, ℕ, if◌then◌else◌, Text, codes, ◌&&◌, ◌||◌, ◌∷◌, ◌++◌, ◌==◌,
}
pub mod Joining

pub record Context : Type 0 where
  pub trace_id : Text
  pub span_id : Text
  pub parent_span_id : Text

abbrev pub is_hex_digit : ℕ → Bool
is_hex_digit c =
    (leb b'0' c && leb c b'9') || ((leb b'a' c && leb c b'f') || (leb b'A' c && leb c b'F'))

abbrev pub is_hex : Text → Bool
is_hex [] = true
is_hex (c ∷ s) = is_hex_digit c && is_hex s

abbrev pub all_zero : Text → Bool
all_zero [] = true
all_zero (c ∷ s) = c == b'0' && all_zero s

-- The span of a trace, or a random one where the trace ID is malformed.
unfoldable pub span_id_for : Text → Text → Text
span_id_for random trace_id =
    if ltb (length trace_id) 16 || not (is_hex trace_id)
    then random
    else to_lower (take 16 trace_id)

abbrev pub is_version : Text → Bool
is_version v = length v == 2 && (is_hex v && not (text_eq v (codes "ff")))

abbrev pub is_id : ℕ → Text → Bool
is_id n s = length s == n && (is_hex s && not (all_zero s))

abbrev pub parse_parts : List Text → Option (Text × Text)
parse_parts (v ∷ t ∷ p ∷ f ∷ more) =
    if is_version v && (length f == 2 && is_hex f)
    then (if is_id 32 t && is_id 16 p then some (to_lower t, to_lower p) else none)
    else none
parse_parts parts = none

unfoldable pub parse_traceparent : Text → Option (Text × Text)
parse_traceparent h = parse_parts (split b'-' (trim_space h))

-- From the headers Traceparent and X-Trace-Id, in this order.
unfoldable pub new_context : Text → Text → Text → Text → Context
new_context fresh_trace fresh_span traceparent x_trace_id = elim (parse_traceparent traceparent) [
  | some (t, p) ↦ record { trace_id = t; span_id = fresh_span; parent_span_id = p }
  | none ↦
      let id = if is_id 32 x_trace_id then to_lower x_trace_id else fresh_trace in
      record { trace_id = id; span_id = span_id_for fresh_span id; parent_span_id = [] }
]

-- The header that is sent to a backend.
unfoldable pub traceparent : Text → Context → Text
traceparent random c =
    let span =
      if not (length c.span_id == 16) || not (is_hex c.span_id)
      then span_id_for random c.trace_id
      else c.span_id in
    codes "00-" ++ (c.trace_id ++ b'-' ∷ (span ++ codes "-01"))
