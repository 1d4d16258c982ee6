-- ===== src/Rbac/Gate.antt =====
-- TenantRbacGateService: the permission check of the administration routes, and the assignment of roles
-- to users, in which a privileged role asks for an approval instead.
pub mod Assign
pub mod Sources
pub mod Authorized
use verigence_security.Common.{
  ℕ, Bool, true, false, ◌&&◌, ◌||◌, not, List, [], ◌∷◌, Option, none, some, Text, codes, ◌==◌,
  find_first, any, head?,
}
use verigence_security.Core.Types.{Uuid, Instant}
use verigence_security.Core.Errors.{
  Exc, integrity_error, value_error, tenant_not_active, principal_not_active, user_not_active,
  permission_denied,
}
use verigence_security.Core.Result.{Result, ok, err, deny_if, or_deny, ◌>>=◌, ◌>>◌}
use verigence_security.Db.Schema.{
  Db, TenantRow, UserRow, PrincipalRow, RoleRow, PrivilegedRequestRow, PrivilegedStatus,
  privileged_pending, tenant_active, principal_active, user_active, in_force,
}
use verigence_security.Permissions.Ordered.{has}
use verigence_security.Repository.Directory.{find_user, principals_of}
use verigence_security.Repository.Roles.{group_aware_permissions}
use verigence_security.Rbac.Rows.{is_role, get_role, insert_unless}

-- PRIVILEGED_TENANT_ROLE_KEYS, which privileged_access.py repeats as PRIVILEGED_ROLE_KEYS.
abbrev pub privileged_role_keys : List Text
privileged_role_keys =
    codes "tenant.owner"
    ∷ codes "tenant.admin"
    ∷ codes "tenant.rbac_admin"
    ∷ codes "tenant.access_admin"
    ∷ codes "tenant.security_policy_admin"
    ∷ codes "tenant.security_approver"
    ∷ []

abbrev pub is_privileged : Text → Bool
is_privileged key = has key privileged_role_keys

abbrev pub find_tenant : Uuid → Db → Option TenantRow
find_tenant tenant_id db = find_first (λ t. t.tenant_id == tenant_id) db.tenants

-- The row of the join is missing when one of its parts is.
unfoldable pub authorize_user : Uuid → Uuid → Text → Instant → Db → Result (List Text × List Text)
authorize_user tenant_id user_id permission_key now db = do
  u ← or_deny (find_user db user_id) tenant_not_active
  p ← or_deny (head? (principals_of db user_id)) tenant_not_active
  t ← or_deny (find_tenant tenant_id db) tenant_not_active
  deny_if (not (tenant_active t.status)) tenant_not_active
  deny_if (not (principal_active p.status)) principal_not_active
  deny_if (not (user_active u.status)) user_not_active
  granted ← group_aware_permissions tenant_id user_id now db
  deny_if (not (has permission_key granted.1)) permission_denied
  ok granted

-- `if role is None or role["status"] != "ACTIVE": raise ValueError`
abbrev pub require_active_role : Option RoleRow → Result RoleRow
require_active_role none = err value_error
require_active_role (some r) = elim (in_force r.status) [ true ↦ ok r | false ↦ err value_error ]

abbrev pub is_pending_for : Uuid → Uuid → Uuid → PrivilegedRequestRow → Bool
is_pending_for tenant_id user_id role_id r =
    r.tenant_id == tenant_id
    && (r.subject_user_id == user_id && (r.role_id == role_id && privileged_pending r.status))

-- The primary key, and `uq_privileged_access_request_pending_assignment`, which only a PENDING row meets.
abbrev pub refuses_request : PrivilegedRequestRow → List PrivilegedRequestRow → Bool
refuses_request r rows =
    any (λ x. x.request_id == r.request_id) rows
    || (privileged_pending r.status
        && any (is_pending_for r.tenant_id r.subject_user_id r.role_id) rows)

abbrev pub insert_request : PrivilegedRequestRow → Db → Result (Unit {0}) × Db
insert_request r db =
    insert_unless (refuses_request r db.privileged_requests) db
      (record db { privileged_requests = r ∷ db.privileged_requests })
