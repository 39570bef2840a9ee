-- ===== src/Identity.antt =====
-- auth/identity.go: who calls. The validator of signed tokens, `Validator.ValidateIdentity`, is the
-- argument `validate`; none is the local posture.
pub mod Posture
use flux7_mesh.Base.{
  ℕ, suc, Bool, true, false, ◌&&◌, Option, none, some, List, [], ◌∷◌, ◌⊎◌, inl, inr, if◌then◌else◌,
  ◌==◌, Text, codes, text_eq, is_empty, has_prefix, length, drop, count,
}

pub record Identity : Type 0 where
  pub agent_id : Text
  pub user_id : Text

-- `invalid_token` is an error of the validator.
pub data AuthError : Type 0 where
  identity_required jwt_without_validator : AuthError
  invalid_token : Text → AuthError

abbrev pub Validate : Type 0
Validate = Text → AuthError ⊎ Identity

-- `strings.TrimPrefix`.
unfoldable pub trim_prefix : Text → Text → Text
trim_prefix s p = if has_prefix s p then drop (length p) s else s

abbrev pub agent_prefix : Text
agent_prefix = codes "agent:"

abbrev pub anonymous : Text
anonymous = codes "anonymous"

abbrev pub dots : Text → ℕ
dots s = count (λ c. c == b'.') s

abbrev pub looks_like_jwt : Text → Bool
looks_like_jwt raw = (dots raw == 2) && has_prefix raw (codes "eyJ")

abbrev pub named : Text → Identity
named agent = record { agent_id = agent; user_id = [] }

-- The posture with a validator.
unfoldable pub resolve_strict : Validate → Bool → Text → AuthError ⊎ Identity
unfolding trim_prefix
resolve_strict validate allow_legacy raw =
    if has_prefix raw agent_prefix
    then if allow_legacy then inr (named (trim_prefix raw agent_prefix)) else inl identity_required
    else if dots raw == 2
    then validate raw
    else inl identity_required

-- The posture without.
unfoldable pub resolve_local : Text → AuthError ⊎ Identity
unfolding trim_prefix
resolve_local raw =
    if has_prefix raw agent_prefix
    then inr (named (trim_prefix raw agent_prefix))
    else if looks_like_jwt raw
    then inl jwt_without_validator
    else inr (named raw)

unfoldable pub resolve_identity : Text → Option Validate → Bool → AuthError ⊎ Identity
unfolding trim_prefix resolve_strict resolve_local
resolve_identity header validator allow_legacy =
    let raw = trim_prefix header (codes "Bearer ") in
    if is_empty raw then inr (named anonymous) else elim validator [
      | some validate ↦ resolve_strict validate allow_legacy raw
      | none ↦ resolve_local raw
    ]
