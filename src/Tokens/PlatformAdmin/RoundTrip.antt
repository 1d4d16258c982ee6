-- ===== src/Tokens/PlatformAdmin/RoundTrip.antt =====
-- The administrators' tokens: what is issued is verified, and no access token is.
use mathlib.Core.Path.{◌≡◌, refl, ◌∙◌, sym, ap}
use verigence_security.Common.{
  ℕ, ◌+◌, ◌*◌, ◌<◌, ◌≤◌, Bool, true, false, ◌||◌, List, Option, some, Text, codes, is_empty,
}
use verigence_security.Core.Types.{Instant}
use verigence_security.Core.Errors.{signing_key_unavailable, auth_token_invalid}
use verigence_security.Core.Result.{
  Result, ok, err, ok-ne-err, ok-injective, deny_if, ◌>>=◌, ◌>>◌, >>=-eq-ok, >>=_ok,
}
use verigence_security.Platform.Jwt.{get, Claims, payload, Jwt}
use verigence_security.Permissions.Validate.{validate_permissions, validate_permissions_idem}
use verigence_security.Tokens.{
  Settings, AccessTokenClaims, token_payload, encoded, decoded, or_invalid, permission_texts,
  refuse_if,
}
use verigence_security.Tokens.RoundTrip.{KeepsText, item_texts-texts, encoded-eq-ok}
use verigence_security.Tokens.PlatformAdmin.{
  PlatformAdminClaims, audience, lacks_platform_roles, has_claim, ttl_of, admin_payload,
  issue_admin, check_admin_lists, check_admin_payload, verify_admin,
}

-- What `jwt` does for a token that was signed with the private key of the configured public key, when it
-- is read back under the audience of the administrators from the second of its `iat` on and before the one
-- at which it expires.
abbrev pub AdminKeysMatch : Jwt → Settings → Type 0
AdminKeysMatch jwt s =
    (c : PlatformAdminClaims) (ps : List Text) (now expires_at : Instant) (jti : Text)
    (later : Instant) (t : Text)
    → jwt.from_timestamp (jwt.to_timestamp now) ≤ later
    → later < jwt.from_timestamp (jwt.to_timestamp expires_at)
    → jwt.encode s.security_private_key_pem s.security_key_id
        (admin_payload jwt s c ps now expires_at jti)
      ≡ some t
    → jwt.decode s.security_public_key_pem s.security_token_issuer audience later t
      ≡ payload (admin_payload jwt s c ps now expires_at jti)

refuse_if-eq-ok : (b : Bool) {u : Unit {0}} → refuse_if b ≡ ok u → b ≡ false
refuse_if-eq-ok true h = absurd (ok-ne-err (sym h))
refuse_if-eq-ok false h = refl

module _ (jwt : Jwt) (s : Settings) (c : PlatformAdminClaims) (ps : List Text)
    (now expires_at : Instant) (jti : Text) where
  abbrev issued : Claims
  issued = admin_payload jwt s c ps now expires_at jti

  check_admin_lists-issued :
      lacks_platform_roles c.roles ≡ false
      → validate_permissions c.permissions ≡ ok ps
      → check_admin_lists jwt s c.roles ps issued ≡ ok issued
  unfolding admin_payload
  check_admin_lists-issued hr hp = rw hr (
      >>=_ok (or_invalid (validate_permissions ps)) _ {a = tt}
        (ap or_invalid (validate_permissions_idem c.permissions ps hp)) refl)

  check_admin_payload-issued :
      KeepsText jwt
      → lacks_platform_roles c.roles ≡ false
      → validate_permissions c.permissions ≡ ok ps
      → check_admin_payload jwt s issued ≡ ok issued
  unfolding check_admin_payload admin_payload
  check_admin_payload-issued keeps hr hp =
      rw (item_texts-texts jwt keeps c.roles, item_texts-texts jwt keeps ps)
        (check_admin_lists-issued hr hp)

-- A token that is issued to an administrator carries canonical permissions in order, and from the
-- second of its signing until it expires it passes the administrators' `verify`, with the claims that were signed.
pub verify_admin-issue_admin :
    (jwt : Jwt) (s : Settings) (ttl : Option ℕ) (c : PlatformAdminClaims)
    (now later expires_at : Instant) (jti token : Text)
    → KeepsText jwt
    → AdminKeysMatch jwt s
    → is_empty s.security_public_key_pem ≡ false
    → jwt.from_timestamp (jwt.to_timestamp now) ≤ later
    → later < jwt.from_timestamp (jwt.to_timestamp expires_at)
    → issue_admin jwt s ttl c now jti ≡ ok (token, expires_at)
    → (ps : List Text) × (validate_permissions c.permissions ≡ ok ps)
      × (verify_admin jwt s token later ≡ ok (admin_payload jwt s c ps now expires_at jti))
unfolding issue_admin verify_admin
verify_admin-issue_admin jwt s ttl c now later expires_at jti token keeps keys key begun early h =
    let (_, e0, h1) =
      >>=-eq-ok
        (deny_if (is_empty s.security_private_key_pem || is_empty s.security_key_id)
          signing_key_unavailable)
        _ h in
    let (m, e1, h2) = >>=-eq-ok (ttl_of ttl) _ h1 in
    let (ps, e2, h3) = >>=-eq-ok (validate_permissions c.permissions) _ h2 in
    let (_, e3, h4) = >>=-eq-ok (refuse_if (lacks_platform_roles c.roles)) _ h3 in
    let (t, e4, h5) =
      >>=-eq-ok
        (encoded (
          jwt.encode s.security_private_key_pem s.security_key_id
            (admin_payload jwt s c ps now (now + m * 60000000) jti)))
        _ h4 in
    let answer = ok-injective h5 in
    let same : t ≡ token = ap (λ (a : Text × Instant). a.0) answer in
    let ends : now + m * 60000000 ≡ expires_at = ap (λ (a : Text × Instant). a.1) answer in
    let signed =
      ap
        (λ x.
          jwt.encode s.security_private_key_pem s.security_key_id
            (admin_payload jwt s c ps now x jti))
        (sym ends)
      ∙ encoded-eq-ok _ t e4
      ∙ ap some same in
    (
      ps,
      e2,
      rw key (
          >>=_ok
            (decoded
              (jwt.decode s.security_public_key_pem s.security_token_issuer audience later token))
            _ {a = admin_payload jwt s c ps now expires_at jti}
            (rw (keys c ps now expires_at jti later token begun early signed))
            (check_admin_payload-issued jwt s c ps now expires_at jti keeps
              (refuse_if-eq-ok (lacks_platform_roles c.roles) e3) e2)),
    )

-- A payload that names a tenant or a session is refused.
lists_refused :
    (jwt : Jwt) (s : Settings) (b : Bool) (r : Result (Unit {0})) (x p : Claims)
    → (has_claim (codes "tenant_id") x || has_claim (codes "access_session_id") x) ≡ true
    → ¬ (
        (deny_if b auth_token_invalid
          >> (r
              >> (deny_if
                    (has_claim (codes "tenant_id") x || has_claim (codes "access_session_id") x)
                    auth_token_invalid
                  >> ok x)))
        ≡ ok p)
lists_refused jwt s true r x p e h = ok-ne-err (sym h)
lists_refused jwt s false (err y) x p e h = ok-ne-err (sym h)
lists_refused jwt s false (ok tt) x p e h = ok-ne-err (sym (rw e at h))

-- No access token is one of an administrator: what is signed for an access session is never accepted by
-- the administrators' checks, whatever its claims.
pub check_admin_payload-token_payload :
    (jwt : Jwt) (s : Settings) (c : AccessTokenClaims) (ps : List Text) (now : Instant) (jti : Text)
    (p : Claims)
    → ¬ (check_admin_payload jwt s (token_payload jwt s c ps now jti) ≡ ok p)
unfolding check_admin_payload token_payload
check_admin_payload-token_payload jwt s c ps now jti p h =
    let x = token_payload jwt s c ps now jti in
    let lists = λ (roles permissions : List Text). check_admin_lists jwt s roles permissions x in
    let (roles, _, h1) =
      >>=-eq-ok (permission_texts jwt (get (codes "roles") x))
        (λ roles. permission_texts jwt (get (codes "permissions") x) >>= lists roles) h in
    let (permissions, _, h2) =
      >>=-eq-ok (permission_texts jwt (get (codes "permissions") x)) (lists roles) h1 in
    lists_refused jwt s (lacks_platform_roles roles) (or_invalid (validate_permissions permissions))
      x p refl h2
