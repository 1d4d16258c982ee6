-- ===== src/Db/Schema/Directory.antt =====
-- Tenants, principals, their credentials, roles and permissions.
use Prim.Native.Nat.{ℕ}
use mathlib.Core.Option.{Option}
use verigence_security.Common.{Text}
use verigence_security.Core.Types.{Uuid, Instant, Double, ActorType, PolicyAction}
use verigence_security.Db.Schema.Status.{
  TenantStatus, PrincipalStatus, UserStatus, MembershipStatus, PolicyStatus, CredentialStatus,
  RowStatus,
}

pub record TenantRow : Type 0 where
  pub tenant_id : Uuid
  pub status : TenantStatus

pub record PrincipalRow : Type 0 where
  pub principal_id : Uuid
  pub actor_type : ActorType
  pub status : PrincipalStatus

pub record UserRow : Type 0 where
  pub user_id : Uuid
  pub status : UserStatus

pub record IdentityRow : Type 0 where
  pub external_identity_id : Uuid
  pub user_id : Uuid
  pub provider : Text
  pub provider_subject : Text
  pub status : RowStatus

pub record MembershipRow : Type 0 where
  pub membership_id : Uuid
  pub tenant_id : Uuid
  pub user_id : Uuid
  pub status : MembershipStatus
  pub valid_from : Option Instant
  pub valid_to : Option Instant
  pub authorization_version : ℕ
  pub updated_at : Instant

pub record AuthorizationStateRow : Type 0 where
  pub user_id : Uuid
  pub tenant_id : Uuid
  pub authorization_version : ℕ
  pub updated_at : Instant

pub record PolicyRow : Type 0 where
  pub tenant_id : Uuid
  pub max_active_devices_per_user : ℕ
  pub max_geo_accuracy_meters : Double
  pub max_geo_age_seconds : ℕ
  pub geo_revalidation_interval_seconds : ℕ
  pub access_token_ttl_minutes : ℕ
  pub machine_token_ttl_minutes : ℕ
  pub session_idle_timeout_minutes : ℕ
  pub session_max_duration_minutes : ℕ
  pub vpn_detected_action : PolicyAction
  pub vpn_unknown_action : PolicyAction
  pub status : PolicyStatus

pub record CredentialRow : Type 0 where
  pub credential_id : Uuid
  pub principal_id : Uuid
  pub client_id : Text
  pub secret_hash : Text
  pub status : CredentialStatus
  pub valid_from : Instant
  pub valid_to : Option Instant
  pub last_used_at : Option Instant

pub record ScopeRow : Type 0 where
  pub principal_id : Uuid
  pub tenant_id : Uuid
  pub status : RowStatus
  pub valid_from : Option Instant
  pub valid_to : Option Instant

pub record GrantRow : Type 0 where
  pub principal_id : Uuid
  pub tenant_id : Uuid
  pub permission_key : Text
  pub status : RowStatus

pub record PermissionRow : Type 0 where
  pub permission_key : Text
  pub status : RowStatus

pub record RoleRow : Type 0 where
  pub tenant_id : Uuid
  pub role_id : Uuid
  pub role_key : Text
  pub status : RowStatus
  pub role_name : Text
  pub description : Option Text
  pub created_at : Instant
  pub updated_at : Instant

pub record UserRoleRow : Type 0 where
  pub tenant_id : Uuid
  pub user_id : Uuid
  pub role_id : Uuid
  pub status : RowStatus
  pub valid_from : Option Instant
  pub valid_to : Option Instant
  pub assignment_id : Uuid
  pub assigned_by_user_id : Uuid
  pub assigned_at : Instant

pub record RolePermissionRow : Type 0 where
  pub tenant_id : Uuid
  pub role_id : Uuid
  pub permission_key : Text
  pub assigned_at : Instant

pub record GroupRow : Type 0 where
  pub tenant_id : Uuid
  pub group_id : Uuid
  pub status : RowStatus
  pub group_key : Text
  pub group_name : Text
  pub description : Option Text
  pub created_by_user_id : Uuid
  pub created_at : Instant
  pub updated_at : Instant

pub record GroupMembershipRow : Type 0 where
  pub tenant_id : Uuid
  pub group_id : Uuid
  pub user_id : Uuid
  pub status : RowStatus
  pub valid_from : Option Instant
  pub valid_to : Option Instant
  pub group_membership_id : Uuid
  pub added_by_user_id : Uuid
  pub added_at : Instant
  pub ended_at : Option Instant

pub record GroupRoleRow : Type 0 where
  pub tenant_id : Uuid
  pub group_id : Uuid
  pub role_id : Uuid
  pub status : RowStatus
  pub assignment_id : Uuid
  pub assigned_by_user_id : Uuid
  pub assigned_at : Instant
  pub ended_at : Option Instant

pub record PlatformRoleRow : Type 0 where
  pub role_key : Text
  pub status : RowStatus

pub record PlatformUserRoleRow : Type 0 where
  pub user_id : Uuid
  pub role_key : Text
  pub status : RowStatus

pub record PlatformRolePermissionRow : Type 0 where
  pub role_key : Text
  pub permission_key : Text
