-- ===== src/Tokens/PlatformAdmin.antt =====
-- services/platform_admin_token.py: the tokens of the administrators of the platform.
pub mod RoundTrip
use verigence_security.Common.{
  ℕ, ◌+◌, ◌*◌, Bool, true, false, not, ◌||◌, ◌&&◌, List, [], ◌∷◌, Option, none, some, Text, codes,
  text_eq, is_empty, any, every,
}
use verigence_security.Core.Types.{Instant}
use verigence_security.Core.Errors.{
  value_error, runtime_error, signing_key_unavailable, auth_token_invalid,
}
use verigence_security.Core.Result.{Result, ok, err, deny_if, ◌>>=◌, ◌>>◌}
use verigence_security.Platform.Jwt.{Json, boolean, text, number, array, Claims, get, texts, Jwt}
use verigence_security.Permissions.Validate.{validate_permissions}
use verigence_security.Rbac.Roles.{starts_with}
use verigence_security.Tokens.{
  Settings, no_texts, encoded, decoded, permission_texts, or_invalid, refuse_if,
}

pub record PlatformAdminClaims : Type 0 where
  pub user_id : Text
  pub roles : List Text
  pub permissions : List Text
  pub must_change_password : Bool

abbrev pub audience : Text
audience = codes "verigence-security-admin"

-- `not roles or any(not role.startswith("platform.") for role in roles)`
abbrev pub lacks_platform_roles : List Text → Bool
lacks_platform_roles roles =
    no_texts roles || not (every (λ r. starts_with (codes "platform.") r) roles)

-- `key in payload`
abbrev pub has_claim : Text → Claims → Bool
has_claim k p = any (λ c. text_eq c.0 k) p

abbrev pub ttl_of : Option ℕ → Result ℕ
ttl_of none = err runtime_error
ttl_of (some n) = ok n

module _ (jwt : Jwt) (settings : Settings) where
  unfoldable pub admin_payload : PlatformAdminClaims → List Text → Instant → Instant → Text → Claims
  admin_payload c permissions now expires_at jti =
      (codes "iss", text settings.security_token_issuer)
      ∷ (codes "sub", text c.user_id)
      ∷ (codes "aud", text audience)
      ∷ (codes "iat", number (jwt.to_timestamp now))
      ∷ (codes "exp", number (jwt.to_timestamp expires_at))
      ∷ (codes "jti", text jti)
      ∷ (codes "roles", array (texts c.roles))
      ∷ (codes "permissions", array (texts permissions))
      ∷ (codes "must_change_password", boolean c.must_change_password)
      ∷ []

  -- `ttl` is PLATFORM_ADMIN_TOKEN_TTL_MINUTES; `now` and `jti` are what the call reads and draws.
  unfoldable pub issue_admin :
      Option ℕ → PlatformAdminClaims → Instant → Text → Result (Text × Instant)
  issue_admin ttl c now jti = do
    deny_if (is_empty settings.security_private_key_pem || is_empty settings.security_key_id)
        signing_key_unavailable
    minutes ← ttl_of ttl
    permissions ← validate_permissions c.permissions
    refuse_if (lacks_platform_roles c.roles)
    token ← encoded (
        jwt.encode settings.security_private_key_pem settings.security_key_id
          (admin_payload c permissions now (now + minutes * 60000000) jti))
    ok (token, now + minutes * 60000000)

  -- The tests of `verify` on the two lists and on what a payload must not have.
  abbrev pub check_admin_lists : List Text → List Text → Claims → Result Claims
  check_admin_lists roles permissions p = do
    deny_if (lacks_platform_roles roles) auth_token_invalid
    or_invalid (validate_permissions permissions)
    deny_if (has_claim (codes "tenant_id") p || has_claim (codes "access_session_id") p)
        auth_token_invalid
    ok p

  unfoldable pub check_admin_payload : Claims → Result Claims
  check_admin_payload p = do
    roles ← permission_texts jwt (get (codes "roles") p)
    permissions ← permission_texts jwt (get (codes "permissions") p)
    check_admin_lists roles permissions p

  unfoldable pub verify_admin : Text → Instant → Result Claims
  unfolding check_admin_payload
  verify_admin token now = do
    deny_if (is_empty settings.security_public_key_pem) signing_key_unavailable
    p ← decoded (
        jwt.decode settings.security_public_key_pem settings.security_token_issuer audience now
          token)
    check_admin_payload p
