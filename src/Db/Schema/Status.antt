-- ===== src/Db/Schema/Status.antt =====
-- The CHECK constraints on the `status` columns, and the tests that queries and code make on them.
use mathlib.Core.Bool.{Bool, true, false, ◌&&◌}
use mathlib.Core.Option.{Option}
use verigence_security.Common.{ltb, leb, option_or}
use verigence_security.Core.Types.{Instant}

pub data TenantStatus : Type 0 where
  configuring active suspended offboarding offboarded : TenantStatus

abbrev pub tenant_active : TenantStatus → Bool
tenant_active TenantStatus.active = true
tenant_active _ = false

-- `status in {"OFFBOARDING", "OFFBOARDED"}`
abbrev pub tenant_leaving : TenantStatus → Bool
tenant_leaving TenantStatus.offboarding = true
tenant_leaving TenantStatus.offboarded = true
tenant_leaving _ = false

pub data PrincipalStatus : Type 0 where
  active suspended disabled revoked : PrincipalStatus

abbrev pub principal_active : PrincipalStatus → Bool
principal_active PrincipalStatus.active = true
principal_active _ = false

pub data UserStatus : Type 0 where
  invited active suspended disabled exited : UserStatus

abbrev pub user_active : UserStatus → Bool
user_active UserStatus.active = true
user_active _ = false

pub data MembershipStatus : Type 0 where
  pending active suspended ended : MembershipStatus

abbrev pub membership_active : MembershipStatus → Bool
membership_active MembershipStatus.active = true
membership_active _ = false

pub data PolicyStatus : Type 0 where
  draft active : PolicyStatus

abbrev pub policy_active : PolicyStatus → Bool
policy_active PolicyStatus.active = true
policy_active _ = false

pub data CredentialStatus : Type 0 where
  active revoked expired : CredentialStatus

abbrev pub credential_active : CredentialStatus → Bool
credential_active CredentialStatus.active = true
credential_active _ = false

abbrev pub credential_expired : CredentialStatus → Bool
credential_expired CredentialStatus.expired = true
credential_expired _ = false

pub data DeviceStatus : Type 0 where
  pending active blocked revoked : DeviceStatus

abbrev pub device_active : DeviceStatus → Bool
device_active DeviceStatus.active = true
device_active _ = false

abbrev pub device_pending : DeviceStatus → Bool
device_pending DeviceStatus.pending = true
device_pending _ = false

pub data RequestStatus : Type 0 where
  pending approved rejected expired : RequestStatus

abbrev pub request_pending : RequestStatus → Bool
request_pending RequestStatus.pending = true
request_pending _ = false

pub data SessionStatus : Type 0 where
  active expired revoked : SessionStatus

abbrev pub session_active : SessionStatus → Bool
session_active SessionStatus.active = true
session_active _ = false

-- The status of a row of any other table: in force (`ACTIVE`), or not (`INACTIVE`, `ENDED`,
-- `RETIRED`, `REVOKED` or `EXPIRED`, whichever the table allows).
pub data RowStatus : Type 0 where
  active lapsed : RowStatus

abbrev pub in_force : RowStatus → Bool
in_force RowStatus.active = true
in_force _ = false

-- `(valid_from_utc IS NULL OR valid_from_utc<=:now) AND (valid_to_utc IS NULL OR valid_to_utc>:now)`
abbrev pub valid_at : Instant → Option Instant → Option Instant → Bool
valid_at now from until =
    option_or true (λ t. leb t now) from && option_or true (λ t. ltb now t) until

-- The states of a request for a privileged role.
pub data PrivilegedStatus : Type 0 where
  pending approved rejected cancelled expired : PrivilegedStatus

abbrev pub privileged_pending : PrivilegedStatus → Bool
privileged_pending PrivilegedStatus.pending = true
privileged_pending _ = false
