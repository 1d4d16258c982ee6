-- ===== src/Tokens.antt =====
-- services/token_service.py: the claims of an access token, and the issuing and verification of
-- tokens. `jwks` and `signing_key_ready`, which only call the cryptography library, are left out.
pub mod RoundTrip
pub mod PlatformAdmin
use verigence_security.Common.{
  ℕ, Bool, true, false, not, ◌&&◌, ◌||◌, List, [], ◌∷◌, ◌++◌, map, Option, none, some, Text, codes,
  text_eq, is_empty, option_or, if◌then◌else◌, any,
}
use verigence_security.Core.Types.{
  Instant, Uuid, ActorType, user, system, service_integration, is_user,
}
use verigence_security.Core.Errors.{
  value_error, type_error, signing_key_unavailable, auth_token_invalid, auth_token_expired,
}
use verigence_security.Core.Result.{Result, ok, err, deny, deny_if, ◌>>=◌, ◌>>◌}
use verigence_security.Platform.Jwt.{
  Json, null, text, number, array, object, Items, nil, cons, Fields, end, field, Claims, get,
  get_field, is_truthy, texts, Decoded, payload, expired, invalid, Jwt,
}
use verigence_security.Platform.Uuids.{uuid_text}
use verigence_security.Permissions.Validate.{validate_permissions}

pub record Settings : Type 0 where
  pub security_private_key_pem : Text
  pub security_public_key_pem : Text
  pub security_key_id : Text
  pub security_token_issuer : Text
  pub security_token_audience : Text

pub record AccessTokenClaims : Type 0 where
  pub principal_id : Text
  pub actor_type : ActorType
  pub tenant_id : Text
  pub access_session_id : Text
  pub permissions : List Text
  pub expires_at : Instant
  pub roles : List Text
  pub device_id : Option Text
  pub location_id : Option Text
  pub delegated_actor_id : Option Text
  pub subject : Option Text

abbrev pub no_texts : List Text → Bool
no_texts [] = true
no_texts (t ∷ ts) = false

-- `not claims.device_id`
abbrev pub missing : Option Text → Bool
missing o = option_or true is_empty o

abbrev pub refuse_if : Bool → Result (Unit {0})
refuse_if true = err value_error
refuse_if false = ok tt

-- The branch for a USER token.
abbrev pub user_claim_shape : AccessTokenClaims → Result (Unit {0})
user_claim_shape c = do
  refuse_if (missing c.device_id || (missing c.location_id || no_texts c.roles))
  refuse_if (option_or false (λ s. not (text_eq s c.principal_id)) c.subject)

-- The branch for a machine token.
abbrev pub machine_claim_shape : AccessTokenClaims → Result (Unit {0})
machine_claim_shape c = do
  refuse_if (not (no_texts c.roles) || (not (missing c.device_id) || not (missing c.location_id)))
  refuse_if (option_or false (λ s. true) c.delegated_actor_id)
  refuse_if (option_or false is_empty c.subject)

unfoldable pub validate_actor_claim_shape : AccessTokenClaims → Result (Unit {0})
validate_actor_claim_shape c =
    if is_user c.actor_type then user_claim_shape c else machine_claim_shape c

abbrev pub actor_text : ActorType → Text
actor_text user = codes "USER"
actor_text system = codes "SYSTEM"
actor_text service_integration = codes "SERVICE_INTEGRATION"

-- `if value: payload[key] = value`
abbrev pub claim_if : Bool → Text → Json → Claims
claim_if true k v = (k, v) ∷ []
claim_if false k v = []

abbrev pub or_empty : Option Text → Text
or_empty none = []
or_empty (some t) = t

-- `claims.subject or claims.principal_id`
abbrev pub subject_of : AccessTokenClaims → Text
subject_of c = if missing c.subject then c.principal_id else or_empty c.subject

abbrev pub encoded : Option Text → Result Text
encoded none = deny signing_key_unavailable
encoded (some t) = ok t

-- `ActorType(str(value))`
unfoldable pub actor_type_of : Text → Result ActorType
actor_type_of s =
    if text_eq s (codes "USER")
    then ok user
    else if text_eq s (codes "SYSTEM")
    then ok system
    else if text_eq s (codes "SERVICE_INTEGRATION")
    then ok service_integration
    else deny auth_token_invalid

abbrev pub user_shape : Claims → Bool
user_shape p =
    is_truthy (get (codes "device_id") p)
    && (is_truthy (get (codes "location_id") p) && is_truthy (get (codes "roles") p))

abbrev pub machine_shape : Claims → Bool
machine_shape p = not (
    is_truthy (get (codes "device_id") p)
    || (is_truthy (get (codes "location_id") p) || is_truthy (get (codes "roles") p)))

abbrev pub is_nonempty_text : Json → Bool
is_nonempty_text (text s) = not (is_empty s)
is_nonempty_text _ = false

-- The check of the `act` claim.
abbrev pub delegation_ok : ActorType → Json → Bool
delegation_ok a null = true
delegation_ok a (object fs) = is_user a && is_nonempty_text (get_field (codes "sub") fs)
delegation_ok a _ = false

abbrev pub field_names : Fields → List Text
field_names end = []
field_names (field k v fs) = k ∷ field_names fs

-- `except ValueError: raise AUTH_TOKEN_INVALID`
abbrev pub or_invalid : Result (List Text) → Result (Unit {0})
or_invalid (ok ps) = ok tt
or_invalid (err value_error) = deny auth_token_invalid
or_invalid (err e) = err e

abbrev pub decoded : Decoded → Result Claims
decoded (payload p) = ok p
decoded expired = deny auth_token_expired
decoded invalid = deny auth_token_invalid

module _ (jwt : Jwt) where
  abbrev pub item_texts : Items → List Text
  item_texts nil = []
  item_texts (cons v vs) = jwt.text_of v ∷ item_texts vs

  -- `[str(value) for value in payload.get("permissions", [])]`: a text gives its characters, a
  -- dictionary its keys, and what cannot be iterated a `TypeError`.
  abbrev pub permission_texts : Json → Result (List Text)
  permission_texts (array vs) = ok (item_texts vs)
  permission_texts (text s) = ok (map (λ c. c ∷ []) s)
  permission_texts (object fs) = ok (field_names fs)
  permission_texts _ = err type_error

  unfoldable pub check_payload : Claims → Result Claims
  unfolding actor_type_of
  check_payload p = do
    actor ← actor_type_of (jwt.text_of (get (codes "actor_type") p))
    deny_if (not (if is_user actor then user_shape p else machine_shape p)) auth_token_invalid
    deny_if (not (delegation_ok actor (get (codes "act") p))) auth_token_invalid
    or_invalid (permission_texts (get (codes "permissions") p) >>= validate_permissions)
    ok p

module _ (jwt : Jwt) (settings : Settings) where
  open settings use {
    security_private_key_pem, security_public_key_pem, security_key_id, security_token_issuer,
    security_token_audience,
  }

  unfoldable pub token_payload : AccessTokenClaims → List Text → Instant → Text → Claims
  token_payload c permissions now jti =
      (codes "iss", text security_token_issuer)
      ∷ (codes "sub", text (subject_of c))
      ∷ (codes "aud", text security_token_audience)
      ∷ (codes "iat", number (jwt.to_timestamp now))
      ∷ (codes "exp", number (jwt.to_timestamp c.expires_at))
      ∷ (codes "jti", text jti)
      ∷ (codes "actor_type", text (actor_text c.actor_type))
      ∷ (codes "tenant_id", text c.tenant_id)
      ∷ (codes "access_session_id", text c.access_session_id)
      ∷ (codes "permissions", array (texts permissions))
      ∷ (claim_if (not (no_texts c.roles)) (codes "roles") (array (texts c.roles))
          ++ (claim_if (not (missing c.device_id)) (codes "device_id") (text (or_empty c.device_id))
              ++ (claim_if (not (missing c.location_id)) (codes "location_id")
                    (text (or_empty c.location_id))
                  ++ claim_if (not (missing c.delegated_actor_id)) (codes "act")
                      (object (field (codes "sub") (text (or_empty c.delegated_actor_id)) end)))))

  -- `now` and `jti` are the clock and the identifier that the call reads.
  unfoldable pub issue : AccessTokenClaims → Instant → Text → Result Text
  issue c now jti = do
    deny_if (is_empty security_private_key_pem || is_empty security_key_id) signing_key_unavailable
    validate_actor_claim_shape c
    permissions ← validate_permissions c.permissions
    encoded
        (jwt.encode security_private_key_pem security_key_id (token_payload c permissions now jti))

  unfoldable pub verify : Text → Instant → Result Claims
  unfolding check_payload
  verify token now = do
    deny_if (is_empty security_public_key_pem) signing_key_unavailable
    p ←
        decoded (
          jwt.decode security_public_key_pem security_token_issuer security_token_audience now
            token)
    check_payload jwt p
