-- ===== src/Tests/Settings.antt =====
-- A configuration, a request's identifier, and an administrator's token.
use mathlib.Core.Path.{◌≡◌, refl, sym, ap}
use native.Mathlib.Omega.{arith}
use verigence_security.Common.{
  true, false, List, [], ◌∷◌, none, some, Text, codes, Bool-cases, inl, inr,
}
use verigence_security.Core.Types.{AppEnvironment, Instant, user}
use verigence_security.Core.Result.{ok}
use verigence_security.Platform.Jwt.{Jwt, Claims, payload}
use verigence_security.Platform.Uuids.{uuid_text}
use verigence_security.Permissions.Canonical.{is_canonical_permission}
use verigence_security.Permissions.Ordered.{sorted_set}
use verigence_security.Permissions.Validate.{validate_permissions}
use verigence_security.Config.{
  Settings, mock_rules, platform_bootstrap_rules, security_bootstrap_rules, safety_rules,
}
use verigence_security.Config.Safe.{IsHardened, safety_rules-IsHardened}
use verigence_security.Catalog.{
  CatalogInput, StoredPermission, permission, validate_permission, validate_reference,
  validate_template, validate_catalog, check_catalog,
}
use verigence_security.Catalog.Accepted.{IsConsistent, check_catalog-IsConsistent}
use verigence_security.Correlation.{header_of, dispatch}
use verigence_security.Correlation.Bounds.{IsCorrelationId, dispatch-IsCorrelationId}
use verigence_security.Tokens.{AccessTokenClaims, token_payload}
use verigence_security.Tokens.PlatformAdmin.{
  PlatformAdminClaims, admin_payload, issue_admin, check_admin_payload, verify_admin,
}
use verigence_security.Tokens.PlatformAdmin.RoundTrip.{
  AdminKeysMatch, verify_admin-issue_admin, check_admin_payload-token_payload,
}
use verigence_security.Tests.Platform.{
  claims_eq, claims_eq_sound, jwt_for, jwt_for-KeepsText, one_token, settings, any_jwt,
}
use verigence_security.Tests.Data.{noon, read_key}

abbrev production : Settings
production = record {
  app_env = AppEnvironment.production;
  database_url = codes "postgresql://db";
  clerk_secret_key = codes "key";
  clerk_authorized_parties = [];
  security_bootstrap_enabled = true;
  security_bootstrap_super_admin_clerk_user_id = codes "user_1";
  platform_bootstrap_enabled = false;
  platform_bootstrap_login = [];
  platform_bootstrap_password = [];
  platform_admin_token_ttl_minutes = some 15;
  dev_mock_auth_enabled = false;
  dev_mock_signing_secret = [];
  dev_mock_token_ttl_minutes = none;
  network_risk_mode = codes "Provider";
}

accepted : safety_rules production ≡ ok production
unfolding safety_rules mock_rules platform_bootstrap_rules security_bootstrap_rules
accepted = refl

safety_rules-IsHardened_example : (production ≡ production) × IsHardened production
safety_rules-IsHardened_example = safety_rules-IsHardened production production refl accepted

dispatch-IsCorrelationId_example :
    IsCorrelationId (header_of (dispatch (uuid_text 9000) (some (codes "not valid"))))
dispatch-IsCorrelationId_example = dispatch-IsCorrelationId 9000 (some (codes "not valid"))

abbrev administrator : PlatformAdminClaims
administrator = record {
  user_id = codes "u1";
  roles = codes "platform.admin" ∷ [];
  permissions = read_key ∷ [];
  must_change_password = false;
}

-- Fifteen minutes behind `noon`.
abbrev quarter_past : Instant
quarter_past = 648900000000

abbrev signed_claims : Claims
signed_claims =
    admin_payload any_jwt settings administrator (read_key ∷ []) noon quarter_past (codes "j")

abbrev admin_jwt : Jwt
admin_jwt = jwt_for signed_claims

admin_keys : AdminKeysMatch admin_jwt settings
admin_keys c ps now expires_at jti later t begun early h =
    elim (Bool-cases
      (claims_eq (admin_payload admin_jwt settings c ps now expires_at jti) signed_claims)) [
        | inl e ↦ ap payload (
            sym (
              claims_eq_sound (admin_payload admin_jwt settings c ps now expires_at jti)
                signed_claims e))
        | inr f ↦ absurd (ground arith)
      ]

issued_token :
    issue_admin admin_jwt settings (some 15) administrator noon (codes "j")
    ≡ ok (one_token, quarter_past)
unfolding issue_admin admin_payload claims_eq is_canonical_permission sorted_set
    validate_permissions
issued_token = refl

verify_admin-issue_admin_example :
    (ps : List Text) × (validate_permissions administrator.permissions ≡ ok ps)
    × (verify_admin admin_jwt settings one_token noon
        ≡ ok (admin_payload admin_jwt settings administrator ps noon quarter_past (codes "j")))
verify_admin-issue_admin_example =
    verify_admin-issue_admin admin_jwt settings (some 15) administrator noon noon quarter_past
      (codes "j") one_token (jwt_for-KeepsText signed_claims) admin_keys refl (omega arith)
      (omega arith) issued_token

abbrev clerk : AccessTokenClaims
clerk = record {
  principal_id = codes "2";
  actor_type = user;
  tenant_id = codes "1";
  access_session_id = codes "9";
  permissions = read_key ∷ [];
  expires_at = quarter_past;
  roles = codes "platform.admin" ∷ [];
  device_id = some (codes "31");
  location_id = some (codes "41");
  delegated_actor_id = none;
  subject = none;
}

check_admin_payload-token_payload_example : ¬ (
    check_admin_payload any_jwt settings
      (token_payload any_jwt settings clerk (read_key ∷ []) noon (codes "j"))
    ≡ ok signed_claims)
check_admin_payload-token_payload_example =
    check_admin_payload-token_payload any_jwt settings clerk (read_key ∷ []) noon (codes "j")
      signed_claims

abbrev invoices : CatalogInput
invoices = record {
  module_key = codes "accounting";
  module_name = codes "Accounting";
  catalog_version = codes "1";
  permissions =
      record {
        key = codes "accounting.invoice.read";
        name = codes "Read";
        description = none;
        status = codes "ACTIVE";
      }
      ∷ [];
  role_templates =
      record {
        key = codes "accounting.clerk";
        name = codes "Clerk";
        permissions = codes "accounting.invoice.read" ∷ codes "accounting.invoice.pay" ∷ [];
        description = none;
        status = codes "ACTIVE";
      }
      ∷ [];
}

abbrev stored_permissions : List StoredPermission
stored_permissions =
    record {
      permission_key = codes "accounting.invoice.pay";
      module_key = codes "accounting";
      status = codes "ACTIVE";
    }
    ∷ []

checked : check_catalog (λ t. t) stored_permissions (codes " accounting ") invoices ≡ ok tt
unfolding check_catalog validate_catalog validate_permission validate_template validate_reference
    permission is_canonical_permission
checked = refl

check_catalog-IsConsistent_example : IsConsistent stored_permissions (codes "accounting") invoices
check_catalog-IsConsistent_example =
    check_catalog-IsConsistent (λ t. t) stored_permissions (codes " accounting ") invoices checked
