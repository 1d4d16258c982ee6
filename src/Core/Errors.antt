-- ===== src/Core/Errors.antt =====
-- core/errors.py: the catalogue of denials, the exception that carries one, and the exceptions of
-- other classes that the modelled code meets.
use Prim.Native.Nat.{ℕ}
use mathlib.Core.Option.{Option}
use mathlib.Core.Bool.{Bool}
use verigence_security.Common.{Text, codes, leb}

-- The keys of `ERRORS`; `uncatalogued` is any other code.
pub data Code : Type 0 where
  auth_token_invalid auth_token_expired user_not_onboarded user_not_active : Code
  tenant_not_active tenant_security_not_ready tenant_membership_required : Code
  tenant_membership_inactive device_not_registered device_approval_required : Code
  device_not_active device_limit_reached geo_required geo_permission_denied : Code
  geo_unavailable geo_stale geo_accuracy_insufficient location_not_assigned : Code
  location_not_allowed access_outside_allowed_time access_schedule_missing : Code
  vpn_access_denied network_risk_unknown_denied role_required permission_denied : Code
  identity_provider_unavailable database_unavailable signing_key_unavailable : Code
  access_session_already_active access_session_context_conflict session_revoked : Code
  principal_not_active principal_tenant_scope_required machine_credential_invalid : Code
  machine_credential_expired activation_requirements_not_met actor_type_not_allowed : Code
  tenant_offboarding geo_integrity_failed correlation_id_invalid : Code
  retention_policy_not_configured tenant_already_offboarded : Code
  uncatalogued : Text → Code

-- `error.code`
unfoldable pub code_text : Code → Text
code_text auth_token_invalid = codes "AUTH_TOKEN_INVALID"
code_text auth_token_expired = codes "AUTH_TOKEN_EXPIRED"
code_text user_not_onboarded = codes "USER_NOT_ONBOARDED"
code_text user_not_active = codes "USER_NOT_ACTIVE"
code_text tenant_not_active = codes "TENANT_NOT_ACTIVE"
code_text tenant_security_not_ready = codes "TENANT_SECURITY_NOT_READY"
code_text tenant_membership_required = codes "TENANT_MEMBERSHIP_REQUIRED"
code_text tenant_membership_inactive = codes "TENANT_MEMBERSHIP_INACTIVE"
code_text device_not_registered = codes "DEVICE_NOT_REGISTERED"
code_text device_approval_required = codes "DEVICE_APPROVAL_REQUIRED"
code_text device_not_active = codes "DEVICE_NOT_ACTIVE"
code_text device_limit_reached = codes "DEVICE_LIMIT_REACHED"
code_text geo_required = codes "GEO_REQUIRED"
code_text geo_permission_denied = codes "GEO_PERMISSION_DENIED"
code_text geo_unavailable = codes "GEO_UNAVAILABLE"
code_text geo_stale = codes "GEO_STALE"
code_text geo_accuracy_insufficient = codes "GEO_ACCURACY_INSUFFICIENT"
code_text location_not_assigned = codes "LOCATION_NOT_ASSIGNED"
code_text location_not_allowed = codes "LOCATION_NOT_ALLOWED"
code_text access_outside_allowed_time = codes "ACCESS_OUTSIDE_ALLOWED_TIME"
code_text access_schedule_missing = codes "ACCESS_SCHEDULE_MISSING"
code_text vpn_access_denied = codes "VPN_ACCESS_DENIED"
code_text network_risk_unknown_denied = codes "NETWORK_RISK_UNKNOWN_DENIED"
code_text role_required = codes "ROLE_REQUIRED"
code_text permission_denied = codes "PERMISSION_DENIED"
code_text identity_provider_unavailable = codes "IDENTITY_PROVIDER_UNAVAILABLE"
code_text database_unavailable = codes "DATABASE_UNAVAILABLE"
code_text signing_key_unavailable = codes "SIGNING_KEY_UNAVAILABLE"
code_text access_session_already_active = codes "ACCESS_SESSION_ALREADY_ACTIVE"
code_text access_session_context_conflict = codes "ACCESS_SESSION_CONTEXT_CONFLICT"
code_text session_revoked = codes "SESSION_REVOKED"
code_text principal_not_active = codes "PRINCIPAL_NOT_ACTIVE"
code_text principal_tenant_scope_required = codes "PRINCIPAL_TENANT_SCOPE_REQUIRED"
code_text machine_credential_invalid = codes "MACHINE_CREDENTIAL_INVALID"
code_text machine_credential_expired = codes "MACHINE_CREDENTIAL_EXPIRED"
code_text activation_requirements_not_met = codes "ACTIVATION_REQUIREMENTS_NOT_MET"
code_text actor_type_not_allowed = codes "ACTOR_TYPE_NOT_ALLOWED"
code_text tenant_offboarding = codes "TENANT_OFFBOARDING"
code_text geo_integrity_failed = codes "GEO_INTEGRITY_FAILED"
code_text correlation_id_invalid = codes "CORRELATION_ID_INVALID"
code_text retention_policy_not_configured = codes "RETENTION_POLICY_NOT_CONFIGURED"
code_text tenant_already_offboarded = codes "TENANT_ALREADY_OFFBOARDED"
code_text (uncatalogued code) = code

-- `ERRORS.get(code, (500, "Security service error"))`: the HTTP status and the title.
unfoldable pub errors : Code → ℕ × Text
errors auth_token_invalid = (401, codes "Authentication token is invalid")
errors auth_token_expired = (401, codes "Authentication token has expired")
errors user_not_onboarded = (403, codes "User is not onboarded")
errors user_not_active = (403, codes "User is not active")
errors tenant_not_active = (403, codes "Tenant is not active")
errors tenant_security_not_ready = (403, codes "Tenant security configuration is not ready")
errors tenant_membership_required = (403, codes "Tenant membership is required")
errors tenant_membership_inactive = (403, codes "Tenant membership is inactive")
errors device_not_registered = (403, codes "Device is not registered")
errors device_approval_required = (403, codes "Device approval is required")
errors device_not_active = (403, codes "Device is not active")
errors device_limit_reached = (409, codes "Device limit reached")
errors geo_required = (403, codes "Geo context is required")
errors geo_permission_denied = (403, codes "Geo permission was denied")
errors geo_unavailable = (403, codes "Geo context is unavailable")
errors geo_stale = (403, codes "Geo context is stale")
errors geo_accuracy_insufficient = (403, codes "Geo accuracy is insufficient")
errors location_not_assigned = (403, codes "No active assigned location")
errors location_not_allowed = (403, codes "Current location is not allowed")
errors access_outside_allowed_time = (403, codes "Access is outside allowed time")
errors access_schedule_missing = (403, codes "Access schedule is missing")
errors vpn_access_denied = (403, codes "VPN access is denied")
errors network_risk_unknown_denied = (403, codes "Unknown network risk is denied")
errors role_required = (403, codes "An active role is required")
errors permission_denied = (403, codes "Permission denied")
errors identity_provider_unavailable = (503, codes "Identity provider is unavailable")
errors database_unavailable = (503, codes "Security database is unavailable")
errors signing_key_unavailable = (503, codes "Security signing key is unavailable")
errors access_session_already_active = (409, codes "Access session is already active")
errors access_session_context_conflict = (409, codes "Active access session context conflicts")
errors session_revoked = (401, codes "Access session is revoked")
errors principal_not_active = (403, codes "Security principal is not active")
errors principal_tenant_scope_required = (403, codes "Principal Tenant scope is required")
errors machine_credential_invalid = (401, codes "Machine credential is invalid")
errors machine_credential_expired = (401, codes "Machine credential has expired")
errors activation_requirements_not_met = (409, codes "Tenant activation requirements are not met")
errors actor_type_not_allowed = (403, codes "Actor type is not allowed for this operation")
errors tenant_offboarding = (403, codes "Tenant is offboarding or offboarded")
errors geo_integrity_failed = (403, codes "Geo integrity check failed")
errors correlation_id_invalid = (400, codes "Invalid correlation ID")
errors retention_policy_not_configured = (409, codes "Security retention policy is not configured")
errors tenant_already_offboarded = (409, codes "Tenant is already offboarded")
errors (uncatalogued code) = (500, codes "Security service error")

pub record SecurityError : Type 0 where
  pub code : Code
  pub status_code : ℕ
  pub title : Text
  pub detail : Option Text

unfoldable pub security_error : Code → Option Text → SecurityError
security_error c detail =
    let (status, t) = errors c in
    record { code = c; status_code = status; title = t; detail = detail }

-- What a raise carries. `domain_error` is the `ValueError` of the `math` functions, `zone_not_found`
-- that of `ZoneInfo`, `integrity_error` a constraint of the schema that refuses a write, `data_error` a value that a
-- column's type refuses.
pub data Exc : Type 0 where
  security : SecurityError → Exc
  value_error domain_error type_error overflow_error zone_not_found integrity_error lookup_error
        data_error runtime_error :
      Exc

-- `error.status_code >= 500`
abbrev pub is_server_error : SecurityError → Bool
is_server_error e = leb 500 e.status_code
