-- ===== src/Supervisor/Redaction.antt =====
-- What is left of the texts in a redacted copy.
use flux7_mesh.Policy.Value.{Fields, Value, str, arr}
use flux7_mesh.Base.{false, arith, Bool, Text, ◌≡◌}
use flux7_mesh.Policy.Value.{null, bool, num, str, arr, obj, end, field}
use flux7_mesh.Supervisor.{
  is_content, summary, as_is, nested, no_more, entry, as_is, Redacted, RedactedFields, redact_value,
  redact_params,
}

module _ {N : Type 0} where
  mutual
    -- No text under the key is content, no map is left as it was, and the copies in its place are
    -- clean.
    pub IsClean : Text → Redacted N → Type 0
    IsClean key (summary m) = Unit {0}
    IsClean key (as_is (str s)) = is_content key s ≡ false
    IsClean key (as_is (obj fs)) = ⊥
    IsClean key (as_is v) = Unit {0}
    IsClean key (nested fs) = AreClean fs

    pub AreClean : RedactedFields N → Type 0
    AreClean no_more = Unit {0}
    AreClean (entry k r fs) = IsClean k r × AreClean fs

module _ {N : Type 0} (is_json : Text → Bool) (sha256 : Text → Text) where
  mutual
    unfolding IsClean redact_value

    redact_value-IsClean :
        (key : Text) (v : Value N) → IsClean key (redact_value is_json sha256 key v)
    redact_value-IsClean key null = tt
    redact_value-IsClean key (bool b) = tt
    redact_value-IsClean key (num n) = tt
    redact_value-IsClean key (str s) = ground arith
    redact_value-IsClean key (arr xs) = tt
    redact_value-IsClean key (obj fs) = fields-AreClean fs

    fields-AreClean : (params : Fields N) → AreClean (redact_params is_json sha256 params)
    fields-AreClean end = tt
    fields-AreClean (field k v fs) = (redact_value-IsClean k v, fields-AreClean fs)

  -- A redacted copy has no text left as it was under a key for content, and none of 256 bytes or more,
  -- among the arguments and the maps in them, however deep: no map is left as it was either. What
  -- stands in an array is not looked at.
  pub redact_params-AreClean : (params : Fields N) → AreClean (redact_params is_json sha256 params)
  redact_params-AreClean params = fields-AreClean params
