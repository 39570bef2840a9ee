-- ===== src/Supervisor.antt =====
-- supervisor/content.go and supervisor/injection.go: what a supervisor is shown of the arguments of a
-- call, and the search for injected prompts. SHA-256, the test for JSON and the matchers of the
-- regular expressions are parameters; a map is read in the order of its fields.
pub mod Redaction
use flux7_mesh.Base.{
  take, is_empty, to_lower, text_eq, ltb, has_prefix, trim_space, any, leb, length, false, not, [],
  Bool, List, ℕ, if◌then◌else◌, Text, codes, ◌-◌, ◌&&◌, ◌||◌, ◌∷◌, ◌++◌, ◌==◌,
}
use flux7_mesh.Policy.Value.{
  FloatOps, Params, Value, Items, Fields, null, bool, num, str, arr, obj, nil, cons, end, field,
  render,
}

pub record ContentMeta : Type 0 where
  pub content_length : ℕ
  pub content_sha256 : Text
  pub content_type_detected : Text

abbrev pub content_keys : List Text
content_keys =
    codes "content" ∷ codes "body" ∷ codes "data" ∷ codes "file_content" ∷ codes "text" ∷ []

abbrev pub content_threshold : ℕ
content_threshold = 256

-- A byte that text does not have.
abbrev is_binary : ℕ → Bool
is_binary b = ltb b 9 || (ltb 13 b && (ltb b 32 && not (b == 27)))

abbrev detect_rest : Text → Text → Text
detect_rest whole trimmed =
    if has_prefix trimmed (codes "<")
    then (if has_prefix (to_lower trimmed) (codes "<!doctype html")
          || has_prefix (to_lower trimmed) (codes "<html")
        then codes "text/html"
        else codes "text/xml")
    else if any is_binary (take 512 whole)
    then codes "application/octet-stream"
    else codes "text/plain"

module _ (is_json : Text → Bool) where
  -- A guess of the MIME type.
  unfoldable pub detect_content_type : Text → Text
  unfolding trim_space to_lower has_prefix
  detect_content_type whole =
      let trimmed = trim_space whole in
      if is_empty trimmed
      then codes "text/plain"
      else if (has_prefix trimmed (codes "{") || has_prefix trimmed (codes "[")) && is_json trimmed
      then codes "application/json"
      else detect_rest whole trimmed

mutual
  -- A redacted copy: a summary in the place of a text, a value as it was, or a map of copies.
  pub data Redacted (N : Type 0) : Type 0 where
    summary : ContentMeta → Redacted N
    as_is : Value N → Redacted N
    nested : RedactedFields N → Redacted N

  pub data RedactedFields (N : Type 0) : Type 0 where
    no_more : RedactedFields N
    entry : Text → Redacted N → RedactedFields N → RedactedFields N

abbrev pub is_content_key : Text → Bool
is_content_key key = any (λ k. text_eq k (to_lower key)) content_keys

abbrev pub is_content : Text → Text → Bool
is_content key s = is_content_key key || leb content_threshold (length s)

module _ (is_json : Text → Bool) (sha256 : Text → Text) where
  abbrev pub summary_of : Text → ContentMeta
  summary_of s = record {
    content_length = length s;
    content_sha256 = sha256 s;
    content_type_detected = detect_content_type is_json s;
  }

module _ {N : Type 0} (is_json : Text → Bool) (sha256 : Text → Text) where
  unfoldable mutual
    pub redact_value : Text → Value N → Redacted N
    redact_value key null = as_is null
    redact_value key (bool b) = as_is (bool b)
    redact_value key (num n) = as_is (num n)
    redact_value key (str s) =
        if is_content key s then summary (summary_of is_json sha256 s) else as_is (str s)
    redact_value key (arr xs) = as_is (arr xs)
    redact_value key (obj fs) = nested (redact_params fs)

    -- `RedactParams`, and the loop over a map inside.
    pub redact_params : Fields N → RedactedFields N
    redact_params end = no_more
    redact_params (field k v fs) = entry k (redact_value k v) (redact_params fs)

module _ {N : Type 0} (ops : FloatOps N) where
  unfoldable mutual
    -- All values, each with a space behind it.
    pub flatten_into : Value N → Text
    flatten_into null = render ops null ++ codes " "
    flatten_into (bool b) = render ops (bool b) ++ codes " "
    flatten_into (num n) = render ops (num n) ++ codes " "
    flatten_into (str s) = s ++ codes " "
    flatten_into (arr xs) = flatten_items xs
    flatten_into (obj fs) = flatten_fields fs

    pub flatten_items : Items N → Text
    flatten_items nil = []
    flatten_items (cons v vs) = flatten_into v ++ flatten_items vs

    pub flatten_fields : Fields N → Text
    flatten_fields end = []
    flatten_fields (field k v fs) = flatten_into v ++ flatten_fields fs

  -- `patterns` are the regular expressions, as tests of a text; none of them matches the empty text.
  unfoldable pub detect_injection : List (Text → Bool) → Params N → Bool
  unfolding flatten_into
  detect_injection patterns end = false
  detect_injection patterns (field k v fs) =
      any (λ p. p (flatten_into (obj (field k v fs)))) patterns
