-- ===== src/Rbac/Rows.antt =====
-- The statements on groups, roles and assignments, with the primary keys and unique indexes of
-- migrations/0001, 0002 and 0008 that can refuse a row. The foreign keys are not among them: the rows
-- they ask for are read before the write, in the same transaction.
use verigence_security.Common.{
  ℕ, Bool, true, false, ◌&&◌, ◌||◌, ◌∷◌, Option, none, some, Text, text_eq, ◌==◌, find_first, any,
}
use verigence_security.Core.Types.{Uuid, Instant}
use verigence_security.Core.Errors.{integrity_error, value_error}
use verigence_security.Core.Result.{Result, ok, err}
use verigence_security.Db.Schema.{
  Db, GroupRow, GroupMembershipRow, GroupRoleRow, RoleRow, UserRoleRow, RolePermissionRow,
  AdminChangeRow, RowStatus, in_force,
}
use verigence_security.Db.Transaction.{Action, ◌>>=◌, draw, writes}

-- `if not good: raise ValueError`
abbrev pub require : Bool → Result (Unit {0})
require true = ok tt
require false = err value_error

-- `value if value is not None else current`
abbrev pub given {ℓ} : {A : Type ℓ} → Option A → A → A
given none current = current
given (some a) current = a

-- The same for a column that may be NULL.
abbrev pub given_or_null {ℓ} : {A : Type ℓ} → Option A → Option A → Option A
given_or_null none current = current
given_or_null (some a) current = some a

abbrev pub same_status : RowStatus → RowStatus → Bool
same_status RowStatus.active RowStatus.active = true
same_status RowStatus.lapsed RowStatus.lapsed = true
same_status _ _ = false

-- A row is inserted unless an index refuses it.
abbrev pub insert_unless : Bool → Db → Db → Result (Unit {0}) × Db
insert_unless true before after = (err integrity_error, before)
insert_unless false before after = (ok tt, after)

abbrev pub is_group : Uuid → Uuid → GroupRow → Bool
is_group tenant_id group_id r = r.tenant_id == tenant_id && r.group_id == group_id

unfoldable pub get_group : Uuid → Uuid → Db → Option GroupRow
get_group tenant_id group_id db = find_first (is_group tenant_id group_id) db.groups

-- `_active_group`
abbrev pub active_group : Uuid → Uuid → Db → Bool
active_group tenant_id group_id db =
    any (λ r. is_group tenant_id group_id r && in_force r.status) db.groups

abbrev pub is_role : Uuid → Uuid → RoleRow → Bool
is_role tenant_id role_id r = r.tenant_id == tenant_id && r.role_id == role_id

unfoldable pub get_role : Uuid → Uuid → Db → Option RoleRow
get_role tenant_id role_id db = find_first (is_role tenant_id role_id) db.roles

-- `_active_role`
abbrev pub active_role : Uuid → Uuid → Db → Bool
active_role tenant_id role_id db =
    any (λ r. is_role tenant_id role_id r && in_force r.status) db.roles

abbrev pub insert_group : GroupRow → Db → Result (Unit {0}) × Db
insert_group r db =
    insert_unless
      (any
        (λ x.
          x.group_id == r.group_id
          || (x.tenant_id == r.tenant_id && text_eq x.group_key r.group_key))
        db.groups)
      db (record db { groups = r ∷ db.groups })

abbrev pub insert_role : RoleRow → Db → Result (Unit {0}) × Db
insert_role r db =
    insert_unless
      (any
        (λ x.
          x.role_id == r.role_id || (x.tenant_id == r.tenant_id && text_eq x.role_key r.role_key))
        db.roles)
      db (record db { roles = r ∷ db.roles })

abbrev pub is_member : Uuid → Uuid → Uuid → GroupMembershipRow → Bool
is_member tenant_id group_id user_id r =
    r.tenant_id == tenant_id
    && (r.group_id == group_id && (r.user_id == user_id && in_force r.status))

abbrev pub insert_membership : GroupMembershipRow → Db → Result (Unit {0}) × Db
insert_membership r db =
    insert_unless
      (any
        (λ x.
          x.group_membership_id == r.group_membership_id
          || is_member r.tenant_id r.group_id r.user_id x)
        db.group_memberships)
      db (record db { group_memberships = r ∷ db.group_memberships })

abbrev pub is_group_role : Uuid → Uuid → Uuid → GroupRoleRow → Bool
is_group_role tenant_id group_id role_id r =
    r.tenant_id == tenant_id
    && (r.group_id == group_id && (r.role_id == role_id && in_force r.status))

abbrev pub insert_group_role : GroupRoleRow → Db → Result (Unit {0}) × Db
insert_group_role r db =
    insert_unless
      (any
        (λ x.
          x.assignment_id == r.assignment_id || is_group_role r.tenant_id r.group_id r.role_id x)
        db.group_roles)
      db (record db { group_roles = r ∷ db.group_roles })

-- An ACTIVE assignment of the role to the user.
abbrev pub is_assignment : Uuid → Uuid → Uuid → UserRoleRow → Bool
is_assignment tenant_id user_id role_id r =
    r.tenant_id == tenant_id
    && (r.user_id == user_id && (r.role_id == role_id && in_force r.status))

abbrev pub is_assigned : Uuid → Uuid → Uuid → Db → Bool
is_assigned tenant_id user_id role_id db =
    any (is_assignment tenant_id user_id role_id) db.user_roles

abbrev pub insert_assignment : UserRoleRow → Db → Result (Unit {0}) × Db
insert_assignment r db =
    insert_unless
      (any
        (λ x. x.assignment_id == r.assignment_id || is_assignment r.tenant_id r.user_id r.role_id x)
        db.user_roles)
      db (record db { user_roles = r ∷ db.user_roles })

abbrev pub is_role_permission : Uuid → Uuid → Text → RolePermissionRow → Bool
is_role_permission tenant_id role_id key r =
    r.tenant_id == tenant_id && (r.role_id == role_id && text_eq r.permission_key key)

abbrev pub insert_role_permission : RolePermissionRow → Db → Result (Unit {0}) × Db
insert_role_permission r db =
    insert_unless
      (any (is_role_permission r.tenant_id r.role_id r.permission_key) db.role_permissions) db
      (record db { role_permissions = r ∷ db.role_permissions })

-- Who asks for a change, where and when.
pub record Change : Type 0 where
  pub tenant_id : Uuid
  pub actor_user_id : Uuid
  pub correlation_id : Text
  pub now : Instant

abbrev pub insert_change : AdminChangeRow → Db → Result (Unit {0}) × Db
insert_change r db =
    insert_unless (any (λ x. x.admin_change_id == r.admin_change_id) db.admin_changes) db
      (record db { admin_changes = r ∷ db.admin_changes })

-- `_audit`
unfoldable pub audit : (ℕ → Uuid) → Change → Text → Text → Text → Action (Unit {0})
audit uuid4 c operation_key resource_type resource_id = do
  id ← draw uuid4
  writes (
      insert_change (record {
        admin_change_id = id;
        correlation_id = c.correlation_id;
        tenant_id = c.tenant_id;
        actor_user_id = c.actor_user_id;
        operation_key = operation_key;
        resource_type = resource_type;
        resource_id = resource_id;
        occurred_at = c.now;
      }))
