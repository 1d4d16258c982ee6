-- ===== src/Repository/Roles.antt =====
-- The effective roles and permissions of a user: the query of SecurityRepository over the tenant
-- roles assigned to the user, and that of services/permissions.py, which adds the roles of the
-- user's groups and the platform roles.
use verigence_security.Common.{
  Bool, ◌&&◌, List, [], ◌∷◌, ◌++◌, map, Text, text_eq, ◌==◌, select, flat_map,
}
use verigence_security.Core.Types.{Uuid, Instant}
use verigence_security.Core.Errors.{role_required}
use verigence_security.Core.Result.{Result, ok, deny}
use verigence_security.Db.Schema.{Db, RoleRow, UserRoleRow, GroupMembershipRow, in_force, valid_at}
use verigence_security.Permissions.Ordered.{sorted_set}
use verigence_security.Repository.Machine.{permission_in_force}

-- A pair `role_key, permission_key`.
abbrev pub Grant : Type 0
Grant = Text × Text

abbrev pub assigned_to : Uuid → Uuid → Instant → UserRoleRow → Bool
assigned_to tenant_id user_id now a =
    a.tenant_id == tenant_id
    && (a.user_id == user_id && (in_force a.status && valid_at now a.valid_from a.valid_to))

abbrev pub role_in_force : Uuid → Uuid → RoleRow → Bool
role_in_force tenant_id role_id r =
    r.tenant_id == tenant_id && (r.role_id == role_id && in_force r.status)

-- The roles that are assigned to the user directly.
abbrev pub direct_roles : Uuid → Uuid → Instant → Db → List RoleRow
direct_roles tenant_id user_id now db =
    flat_map (λ a. select (role_in_force a.tenant_id a.role_id) db.roles)
      (select (assigned_to tenant_id user_id now) db.user_roles)

-- `JOIN role_permissions JOIN permissions`, for the permissions in force.
abbrev pub grants_of : Uuid → Db → RoleRow → List Grant
grants_of tenant_id db r =
    flat_map
      (λ rp.
        map (λ p. (r.role_key, p.permission_key))
          (select (permission_in_force rp.permission_key) db.permissions))
      (select (λ rp. rp.tenant_id == tenant_id && rp.role_id == r.role_id) db.role_permissions)

-- `sorted({...})` of each column; no permission at all is a denial.
abbrev pub require_grants : List Grant → List Text → Result (List Text × List Text)
require_grants rows [] = deny role_required
require_grants rows (p ∷ ps) = ok (sorted_set (map (λ g. g.0) rows), p ∷ ps)

abbrev pub roles_and_permissions : List Grant → Result (List Text × List Text)
roles_and_permissions rows = require_grants rows (sorted_set (map (λ g. g.1) rows))

unfoldable pub effective_user_permissions :
    Uuid → Uuid → Instant → Db → Result (List Text × List Text)
effective_user_permissions tenant_id user_id now db =
    roles_and_permissions
      (flat_map (grants_of tenant_id db) (direct_roles tenant_id user_id now db))

abbrev pub member_of : Uuid → Uuid → Instant → GroupMembershipRow → Bool
member_of tenant_id user_id now m =
    m.tenant_id == tenant_id
    && (m.user_id == user_id && (in_force m.status && valid_at now m.valid_from m.valid_to))

-- The roles of the groups that the user is a member of.
abbrev pub group_roles_of : Uuid → Uuid → Instant → Db → List RoleRow
group_roles_of tenant_id user_id now db =
    flat_map
      (λ m.
        flat_map
          (λ g.
            flat_map (λ a. select (role_in_force a.tenant_id a.role_id) db.roles)
              (select
                (λ a. a.tenant_id == g.tenant_id && (a.group_id == g.group_id && in_force a.status))
                db.group_roles))
          (select
            (λ g. g.tenant_id == m.tenant_id && (g.group_id == m.group_id && in_force g.status))
            db.groups))
      (select (member_of tenant_id user_id now) db.group_memberships)

-- The platform roles of the user, with their permissions in force.
abbrev pub platform_grants : Uuid → Db → List Grant
platform_grants user_id db =
    flat_map
      (λ a.
        flat_map
          (λ r.
            flat_map
              (λ rp.
                map (λ p. (r.role_key, p.permission_key))
                  (select (permission_in_force rp.permission_key) db.permissions))
              (select (λ rp. text_eq rp.role_key r.role_key) db.platform_role_permissions))
          (select (λ r. text_eq r.role_key a.role_key && in_force r.status) db.platform_roles))
      (select (λ a. a.user_id == user_id && in_force a.status) db.platform_user_roles)

-- `UNION` drops repetitions, and so does the sorting of the columns.
unfoldable pub group_aware_permissions : Uuid → Uuid → Instant → Db → Result (List Text × List Text)
group_aware_permissions tenant_id user_id now db = roles_and_permissions (
    flat_map (grants_of tenant_id db)
      (direct_roles tenant_id user_id now db ++ group_roles_of tenant_id user_id now db)
    ++ platform_grants user_id db)
