-- ===== src/Identity/Posture.antt =====
-- With a validator, a name is proved or it is anonymous.
use flux7_mesh.Base.{
  ◌≡◌, refl, ◌⊎◌, inl, inr, Bool, false, none, some, [], ◌∷◌, arith, if◌then◌else◌, Text, codes,
  is_empty,
}
use flux7_mesh.Identity.{
  Identity, Validate, trim_prefix, named, anonymous, resolve_strict, resolve_local,
  resolve_identity,
}

strict_of :
    (raw : Text) (validate : Validate) (who : Identity)
    → (if is_empty raw then inr (named anonymous) else resolve_strict validate false raw) ≡ inr who
    → ((raw ≡ []) × (who ≡ named anonymous)) ⊎ (validate raw ≡ inr who)
unfolding resolve_strict
strict_of [] validate who h = inl (refl, ground arith)
strict_of (c ∷ raw) validate who h = ground arith

local_of :
    (raw : Text) (who : Identity)
    → (if is_empty raw then inr (named anonymous) else resolve_local raw) ≡ inr who
    → who.user_id ≡ []
unfolding resolve_local
local_of [] who h = ground arith
local_of (c ∷ raw) who h = ground arith

-- With a validator and without the legacy form, a caller that gets an identity is anonymous, having
-- sent no credential, or has the identity that the validator read from the credential sent.
pub resolve_identity_strict :
    (header : Text) (validate : Validate) (who : Identity)
    → resolve_identity header (some validate) false ≡ inr who
    → let raw = trim_prefix header (codes "Bearer ") in
      ((raw ≡ []) × (who ≡ named anonymous)) ⊎ (validate raw ≡ inr who)
unfolding resolve_identity resolve_strict
resolve_identity_strict header validate who h =
    strict_of (trim_prefix header (codes "Bearer ")) validate who h

-- Whatever the header, an identity that no validator vouched for names no user.
pub resolve_identity_local :
    (header : Text) (legacy : Bool) (who : Identity)
    → resolve_identity header none legacy ≡ inr who
    → who.user_id ≡ []
unfolding resolve_identity resolve_local
resolve_identity_local header legacy who h = local_of (trim_prefix header (codes "Bearer ")) who h
