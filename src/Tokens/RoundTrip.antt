-- ===== src/Tokens/RoundTrip.antt =====
-- Every token that the service issues passes the service's own checks.
use verigence_security.Common.{
  ◌<◌, ◌≤◌, ◌≡◌, refl, sym, inl, inr, Bool, true, false, ◌||◌, List, [], ◌∷◌, Option, none, some,
  Text, codes, is_empty, arith, Bool-cases, if◌then◌else◌,
}
use mathlib.Core.Path.{subst}
use verigence_security.Core.Types.{Instant, ActorType, user, system, service_integration, is_user}
use verigence_security.Core.Errors.{signing_key_unavailable}
use verigence_security.Core.Result.{ok, deny_if, ◌>>=◌, >>=-eq-ok, >>=_ok}
use verigence_security.Platform.Jwt.{text, array, get, is_truthy, texts, Claims, payload, Jwt}
use verigence_security.Permissions.Validate.{validate_permissions, validate_permissions_idem}
use verigence_security.Tokens.{
  Settings, AccessTokenClaims, no_texts, missing, validate_actor_claim_shape, actor_text, or_empty,
  token_payload, encoded, issue, actor_type_of, user_shape, machine_shape, delegation_ok,
  item_texts, permission_texts, or_invalid, check_payload, decoded, verify,
}

-- The shape that `_validate_actor_claim_shape` lets through.
pub record IsUserShape (c : AccessTokenClaims) : Type 0 where
  pub has_device : missing c.device_id ≡ false
  pub has_location : missing c.location_id ≡ false
  pub has_roles : no_texts c.roles ≡ false

pub record IsMachineShape (c : AccessTokenClaims) : Type 0 where
  pub no_device : missing c.device_id ≡ true
  pub no_location : missing c.location_id ≡ true
  pub no_roles : no_texts c.roles ≡ true
  pub no_delegation : c.delegated_actor_id ≡ none

IsUserShape-sound :
    (c : AccessTokenClaims) {u : Unit {0}}
    → is_user c.actor_type ≡ true
    → validate_actor_claim_shape c ≡ ok u
    → IsUserShape c
unfolding validate_actor_claim_shape
IsUserShape-sound c e h = ground arith

IsMachineShape-sound :
    (c : AccessTokenClaims) {u : Unit {0}}
    → is_user c.actor_type ≡ false
    → validate_actor_claim_shape c ≡ ok u
    → IsMachineShape c
unfolding validate_actor_claim_shape
IsMachineShape-sound c e h = ground arith

-- What the round trip takes of the JWT library: `str` of a text is the text itself.
abbrev pub KeepsText : Jwt → Type 0
KeepsText jwt = (s : Text) → jwt.text_of (text s) ≡ s

actor_type_of_text : (a : ActorType) → actor_type_of (actor_text a) ≡ ok a
unfolding actor_type_of
actor_type_of_text user = refl
actor_type_of_text system = refl
actor_type_of_text service_integration = refl

pub item_texts-texts :
    (jwt : Jwt) → KeepsText jwt → (ts : List Text) → item_texts jwt (texts ts) ≡ ts
item_texts-texts jwt k [] = refl
item_texts-texts jwt k (t ∷ ts) = rw (k t, item_texts-texts jwt k ts)

truthy_texts : (ts : List Text) → no_texts ts ≡ false → is_truthy (array (texts ts)) ≡ true
truthy_texts [] h = cc
truthy_texts (t ∷ ts) h = refl

truthy_text : (o : Option Text) → missing o ≡ false → is_truthy (text (or_empty o)) ≡ true
truthy_text none h = cc
truthy_text (some t) h = ground arith

module _ (jwt : Jwt) (s : Settings) (c : AccessTokenClaims) (ps : List Text) (now : Instant)
    (jti : Text) where
  abbrev issued : Claims
  issued = token_payload jwt s c ps now jti

  actor_claim : get (codes "actor_type") issued ≡ text (actor_text c.actor_type)
  unfolding token_payload
  actor_claim = refl

  permissions_claim : get (codes "permissions") issued ≡ array (texts ps)
  unfolding token_payload
  permissions_claim = refl

  user_claims : IsUserShape c → user_shape issued ≡ true
  unfolding token_payload
  user_claims k =
      rw (k.has_roles, k.has_device, k.has_location)
        (ground (
          arith,
          truthy_texts c.roles k.has_roles,
          truthy_text c.device_id k.has_device,
          truthy_text c.location_id k.has_location,
        ))

  delegated_claim :
      IsUserShape c
      → (b : Bool) → missing c.delegated_actor_id ≡ b
      → delegation_ok user (get (codes "act") issued) ≡ true
  unfolding token_payload
  delegated_claim k true e = rw (k.has_roles, k.has_device, k.has_location, e)
  delegated_claim k false e =
      rw (k.has_roles, k.has_device, k.has_location, e) (truthy_text c.delegated_actor_id e)

  machine_claims : IsMachineShape c → machine_shape issued ≡ true
  unfolding token_payload
  machine_claims k = rw (k.no_roles, k.no_device, k.no_location, k.no_delegation)

  no_delegated_claim :
      IsMachineShape c → (a : ActorType) → delegation_ok a (get (codes "act") issued) ≡ true
  unfolding token_payload
  no_delegated_claim k a = rw (k.no_roles, k.no_device, k.no_location, k.no_delegation)

  shape_claims :
      {u : Unit {0}}
      → validate_actor_claim_shape c ≡ ok u
      → ((if is_user c.actor_type then user_shape issued else machine_shape issued) ≡ true)
        × (delegation_ok c.actor_type (get (codes "act") issued) ≡ true)
  shape_claims h = elim (Bool-cases (is_user c.actor_type)) [
    | inl e ↦
        let k = IsUserShape-sound c e h in
        (
          rw e (user_claims k),
          subst (λ a. delegation_ok a (get (codes "act") issued) ≡ true)
              (sym (is_user_sound c.actor_type e)) (delegated c.delegated_actor_id k),
        )
    | inr e ↦
        let k = IsMachineShape-sound c e h in
        (rw e (machine_claims k), no_delegated_claim k c.actor_type)
  ]
    where
      is_user_sound : (a : ActorType) → is_user a ≡ true → a ≡ user
      is_user_sound a e = ground arith

      delegated :
          (o : Option Text) → IsUserShape c → delegation_ok user (get (codes "act") issued) ≡ true
      delegated o k = elim (Bool-cases (missing c.delegated_actor_id)) [
        | inl e ↦ delegated_claim k true e
        | inr e ↦ delegated_claim k false e
      ]

  permissions_accepted :
      KeepsText jwt
      → validate_permissions c.permissions ≡ ok ps
      → or_invalid
          (permission_texts jwt (get (codes "permissions") issued) >>= validate_permissions)
        ≡ ok tt
  permissions_accepted keeps h = rw (
    permissions_claim,
    item_texts-texts jwt keeps ps,
    validate_permissions_idem c.permissions ps h,
  )

  check_payload-issued :
      {u : Unit {0}}
      → KeepsText jwt
      → validate_actor_claim_shape c ≡ ok u
      → validate_permissions c.permissions ≡ ok ps
      → check_payload jwt issued ≡ ok issued
  unfolding check_payload
  check_payload-issued keeps hs hp =
      let (shape, delegation) = shape_claims hs in
      >>=_ok (actor_type_of (jwt.text_of (get (codes "actor_type") issued))) _ {a = c.actor_type}
        (rw (actor_claim, keeps (actor_text c.actor_type)) (actor_type_of_text c.actor_type))
        (rw (shape, delegation)
          (>>=_ok
            (or_invalid
              (permission_texts jwt (get (codes "permissions") issued) >>= validate_permissions))
            _ {a = tt} (permissions_accepted keeps hp) refl))

-- What `jwt` does for a token that was signed with the private key of the configured public key,
-- under the configured issuer and audience, when it is read back from the second of its `iat` on and
-- before the one at which it expires.
abbrev pub KeysMatch : Jwt → Settings → Type 0
KeysMatch jwt s =
    (c : AccessTokenClaims) (ps : List Text) (now : Instant) (jti : Text) (later : Instant)
    (t : Text)
    → jwt.from_timestamp (jwt.to_timestamp now) ≤ later
    → later < jwt.from_timestamp (jwt.to_timestamp c.expires_at)
    → jwt.encode s.security_private_key_pem s.security_key_id (token_payload jwt s c ps now jti)
      ≡ some t
    → jwt.decode s.security_public_key_pem s.security_token_issuer s.security_token_audience later t
      ≡ payload (token_payload jwt s c ps now jti)

pub encoded-eq-ok : (o : Option Text) (t : Text) → encoded o ≡ ok t → o ≡ some t
encoded-eq-ok none t h = cc
encoded-eq-ok (some u) t h = ground arith

-- A token that `issue` returns carries canonical permissions in order and passes `verify`, of which
-- it comes back with the claims that were signed, from the second of its signing until it expires.
pub verify-issue :
    (jwt : Jwt) (s : Settings) (c : AccessTokenClaims) (now later : Instant) (jti token : Text)
    → KeepsText jwt
    → KeysMatch jwt s
    → is_empty s.security_public_key_pem ≡ false
    → jwt.from_timestamp (jwt.to_timestamp now) ≤ later
    → later < jwt.from_timestamp (jwt.to_timestamp c.expires_at)
    → issue jwt s c now jti ≡ ok token
    → (ps : List Text) × (validate_permissions c.permissions ≡ ok ps)
      × (verify jwt s token later ≡ ok (token_payload jwt s c ps now jti))
unfolding issue verify
verify-issue jwt s c now later jti token keeps keys key begun early h =
    let (_, e0, h1) =
      >>=-eq-ok
        (deny_if (is_empty s.security_private_key_pem || is_empty s.security_key_id)
          signing_key_unavailable)
        _ h in
    let (_, e1, h2) = >>=-eq-ok (validate_actor_claim_shape c) _ h1 in
    let (ps, e2, h3) = >>=-eq-ok (validate_permissions c.permissions) _ h2 in
    (
      ps,
      e2,
      rw key (
          >>=_ok
            (decoded (
              jwt.decode s.security_public_key_pem s.security_token_issuer s.security_token_audience
                later token))
            _ {a = token_payload jwt s c ps now jti}
            (rw (keys c ps now jti later token begun early (encoded-eq-ok _ token h3)))
            (check_payload-issued jwt s c ps now jti keeps e1 e2)),
    )
