-- ===== src/Db/Schema.antt =====
-- The rows of schema `security`. A `numeric` column that the code reads through `float()` holds the
-- double that this gives; `Option` marks a column that may be NULL.
mod Status
mod Directory
mod Access
mod Admin
pub use Status.*
pub use Directory.*
pub use Access.*
pub use Admin.*
use mathlib.Core.List.{List}

pub record Db : Type 0 where
  pub tenants : List TenantRow
  pub principals : List PrincipalRow
  pub users : List UserRow
  pub identities : List IdentityRow
  pub memberships : List MembershipRow
  pub authorization_states : List AuthorizationStateRow
  pub policies : List PolicyRow
  pub credentials : List CredentialRow
  pub scopes : List ScopeRow
  pub grants : List GrantRow
  pub permissions : List PermissionRow
  pub roles : List RoleRow
  pub user_roles : List UserRoleRow
  pub role_permissions : List RolePermissionRow
  pub groups : List GroupRow
  pub group_memberships : List GroupMembershipRow
  pub group_roles : List GroupRoleRow
  pub platform_roles : List PlatformRoleRow
  pub platform_user_roles : List PlatformUserRoleRow
  pub platform_role_permissions : List PlatformRolePermissionRow
  pub devices : List DeviceRow
  pub enrollments : List EnrollmentRow
  pub locations : List LocationRow
  pub location_assignments : List LocationAssignmentRow
  pub schedules : List ScheduleRow
  pub windows : List WindowRow
  pub overrides : List OverrideRow
  pub sessions : List SessionRow
  pub evaluations : List EvaluationRow
  pub privileged_requests : List PrivilegedRequestRow
  pub admin_changes : List AdminChangeRow
