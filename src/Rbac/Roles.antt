-- ===== src/Rbac/Roles.antt =====
-- TenantRbacAdminService: roles, their permissions and the users they are assigned to.
pub mod Assigned
pub mod Removed
pub mod Reserved
use verigence_security.Common.{
  ℕ, Bool, true, false, ◌&&◌, ◌||◌, not, List, [], ◌∷◌, ◌++◌, Option, none, some, Text, codes,
  text_eq, ◌==◌, find_first, select, update_where, any, option_or,
}
use verigence_security.Core.Types.{Uuid, Instant}
use verigence_security.Core.Errors.{value_error, runtime_error}
use verigence_security.Core.Result.{Result, ok, err}
use verigence_security.Db.Schema.{Db, RoleRow, UserRoleRow, RolePermissionRow, RowStatus, in_force}
use verigence_security.Db.Transaction.{
  Action, ◌>>=◌, ◌>>◌, pure, lift, reads, writes, modify, commit, rollback, draw,
}
use verigence_security.Platform.Uuids.{uuid_text}
use verigence_security.Repository.Machine.{permission_in_force}
use verigence_security.Rbac.Rows.{
  given, given_or_null, same_status, require, is_role, get_role, active_role, insert_role,
  is_role_permission, insert_role_permission, is_assignment, is_assigned, insert_assignment, Change,
  audit,
}
use verigence_security.Rbac.Rules.{Rules, bump_versions}
use verigence_security.Rbac.Groups.{pair_id, changed, conclude, settle_removal, bump_on_change}

-- `value.startswith(prefix)`
abbrev pub starts_with : Text → Text → Bool
starts_with [] t = true
starts_with (p ∷ ps) [] = false
starts_with (p ∷ ps) (c ∷ t) = p == c && starts_with ps t

abbrev pub is_reserved : Text → Bool
is_reserved key = starts_with (codes "platform.") key || starts_with (codes "tenant.") key

-- `_ensure_active_permissions`
abbrev pub all_active : List Text → Db → Result (Unit {0})
all_active [] db = ok tt
all_active (k ∷ ks) db = elim (any (permission_in_force k) db.permissions) [
  | true ↦ all_active ks db
  | false ↦ err value_error
]

module _ (c : Change) where
  abbrev pub new_assignment : Uuid → Uuid → Uuid → Uuid → UserRoleRow
  new_assignment id user_id role_id assigned_by = record {
    tenant_id = c.tenant_id;
    user_id = user_id;
    role_id = role_id;
    status = RowStatus.active;
    valid_from = some c.now;
    valid_to = none;
    assignment_id = id;
    assigned_by_user_id = assigned_by;
    assigned_at = c.now;
  }

module _ (uuid4 : ℕ → Uuid) (rules : Rules) (c : Change) where
  abbrev pub reload_role : Option RoleRow → Result RoleRow
  reload_role none = err runtime_error
  reload_role (some r) = ok r

  abbrev pub grant_permissions : Uuid → List Text → Action (Unit {0})
  grant_permissions role_id [] = pure tt
  grant_permissions role_id (k ∷ ks) =
      writes (
        insert_role_permission (record {
          tenant_id = c.tenant_id;
          role_id = role_id;
          permission_key = k;
          assigned_at = c.now;
        }))
      >> grant_permissions role_id ks

  unfoldable pub create_role : Text → Text → Option Text → List Text → Action RoleRow
  create_role role_key role_name description permission_keys = do
    lift (require (not (is_reserved role_key)))
    reads (all_active permission_keys)
    id ← draw uuid4
    writes (
        insert_role (record {
          tenant_id = c.tenant_id;
          role_id = id;
          role_key = role_key;
          status = RowStatus.active;
          role_name = role_name;
          description = description;
          created_at = c.now;
          updated_at = c.now;
        }))
    grant_permissions id permission_keys
    audit uuid4 c (codes "security.role.create") (codes "ROLE") (uuid_text id)
    commit
    role ← reads (λ db. ok (get_role c.tenant_id id db))
    lift (reload_role role)

  abbrev pub updated_role :
      Option Text → Option Text → Option RowStatus → RoleRow → RoleRow → RoleRow
  updated_role name description status current r = record r {
    role_name = given name current.role_name;
    description = given_or_null description current.description;
    status = given status current.status;
    updated_at = c.now;
  }

  unfoldable pub update_found_role :
      Option Text → Option Text → Option RowStatus → Uuid → Option RoleRow → Action (Option RoleRow)
  update_found_role name description status role_id none = pure none
  update_found_role name description status role_id (some current) = do
    users ← reads (λ db. ok (rules.effective_role_users c.tenant_id role_id c.now db))
    modify (λ db. record db {
      roles =
          update_where (is_role c.tenant_id role_id) (updated_role name description status current)
            db.roles;
    })
    modify (
        bump_on_change uuid4 rules c (same_status current.status (given status current.status))
          users)
    audit uuid4 c (codes "security.role.update") (codes "ROLE") (uuid_text role_id)
    commit
    reads (λ db. ok (get_role c.tenant_id role_id db))

  unfoldable pub update_role :
      Option Text → Option Text → Option RowStatus → Uuid → Action (Option RoleRow)
  unfolding update_found_role
  update_role name description status role_id = do
    current ← reads (λ db. ok (get_role c.tenant_id role_id db))
    update_found_role name description status role_id current

  unfoldable pub add_permission_unless : Bool → Uuid → Text → Action Bool
  add_permission_unless true role_id key = pure false
  add_permission_unless false role_id key = do
    writes (
        insert_role_permission (record {
          tenant_id = c.tenant_id;
          role_id = role_id;
          permission_key = key;
          assigned_at = c.now;
        }))
    users ← reads (λ db. ok (rules.effective_role_users c.tenant_id role_id c.now db))
    conclude uuid4 rules c users (codes "security.role.permission.add") (codes "ROLE_PERMISSION")
        (pair_id role_id key)

  unfoldable pub add_role_permission : Uuid → Text → Action Bool
  unfolding add_permission_unless
  add_role_permission role_id key = do
    reads (all_active (key ∷ []))
    reads (λ db. require (active_role c.tenant_id role_id db))
    exists ← reads (λ db. ok (any (is_role_permission c.tenant_id role_id key) db.role_permissions))
    add_permission_unless exists role_id key

  unfoldable pub remove_role_permission : Uuid → Text → Action Bool
  remove_role_permission role_id key = do
    users ← reads (λ db. ok (rules.effective_role_users c.tenant_id role_id c.now db))
    removed ← writes (
        changed (λ db. any (is_role_permission c.tenant_id role_id key) db.role_permissions)
          (λ db. record db {
            role_permissions =
                select (λ r. not (is_role_permission c.tenant_id role_id key r))
                  db.role_permissions;
          }))
    settle_removal uuid4 rules c removed users (codes "security.role.permission.remove")
        (codes "ROLE_PERMISSION") (pair_id role_id key)

  unfoldable pub assign_unless : Bool → Uuid → Uuid → Action Bool
  assign_unless true user_id role_id = pure false
  assign_unless false user_id role_id = do
    id ← draw uuid4
    writes (insert_assignment (new_assignment c id user_id role_id c.actor_user_id))
    conclude uuid4 rules c (user_id ∷ []) (codes "security.role.user.assign") (codes "USER_ROLE")
        (pair_id user_id (uuid_text role_id))

  unfoldable pub assign_user_role : Uuid → Uuid → Action Bool
  unfolding assign_unless
  assign_user_role user_id role_id = do
    reads (λ db. require (rules.active_membership c.tenant_id user_id c.now db))
    reads (λ db. require (active_role c.tenant_id role_id db))
    exists ← reads (λ db. ok (is_assigned c.tenant_id user_id role_id db))
    assign_unless exists user_id role_id

  abbrev pub ended_assignment : UserRoleRow → UserRoleRow
  ended_assignment r = record r { status = RowStatus.lapsed; valid_to = some c.now }

  unfoldable pub remove_user_role : Uuid → Uuid → Action Bool
  remove_user_role user_id role_id = do
    removed ← writes (
        changed (is_assigned c.tenant_id user_id role_id) (λ db. record db {
          user_roles =
              update_where (is_assignment c.tenant_id user_id role_id) ended_assignment
                db.user_roles;
        }))
    settle_removal uuid4 rules c removed (user_id ∷ []) (codes "security.role.user.remove")
        (codes "USER_ROLE") (pair_id user_id (uuid_text role_id))
