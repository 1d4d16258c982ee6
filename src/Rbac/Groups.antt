-- ===== src/Rbac/Groups.antt =====
-- TenantRbacAdminService: groups, their members and their roles. The calls take no lock before they
-- write, and what others commit between their statements is left out.
pub mod Members
use verigence_security.Common.{
  ℕ, Bool, true, false, List, [], ◌∷◌, ◌++◌, Option, none, some, Text, codes, update_where, any,
}
use verigence_security.Core.Types.{Uuid}
use verigence_security.Core.Errors.{runtime_error}
use verigence_security.Core.Result.{Result, ok, err}
use verigence_security.Db.Schema.{Db, GroupRow, GroupMembershipRow, GroupRoleRow, RowStatus}
use verigence_security.Db.Transaction.{
  Action, ◌>>=◌, ◌>>◌, pure, lift, reads, writes, modify, commit, rollback, draw,
}
use verigence_security.Platform.Uuids.{uuid_text}
use verigence_security.Rbac.Rows.{
  given, given_or_null, same_status, require, is_group, get_group, active_group, active_role,
  insert_group, is_member, insert_membership, is_group_role, insert_group_role, Change, audit,
}
use verigence_security.Rbac.Rules.{Rules, bump_versions}

-- f"{a}:{b}"
abbrev pub pair_id : Uuid → Text → Text
pair_id a b = uuid_text a ++ (b':' ∷ b)

-- The statement, and whether a row came back from `RETURNING`.
abbrev pub changed : (Db → Bool) → (Db → Db) → Db → Result Bool × Db
changed found change db = (ok (found db), change db)

module _ (c : Change) where
  abbrev pub new_membership : Uuid → Uuid → Uuid → GroupMembershipRow
  new_membership id group_id user_id = record {
    tenant_id = c.tenant_id;
    group_id = group_id;
    user_id = user_id;
    status = RowStatus.active;
    valid_from = some c.now;
    valid_to = none;
    group_membership_id = id;
    added_by_user_id = c.actor_user_id;
    added_at = c.now;
    ended_at = none;
  }

module _ (uuid4 : ℕ → Uuid) (rules : Rules) (c : Change) where
  -- The end of a change: the versions of the users it reaches, the record, the commit.
  abbrev pub conclude : List Uuid → Text → Text → Text → Action Bool
  conclude users operation_key resource_type resource_id = do
    modify (bump_versions rules c.tenant_id users c.now)
    audit uuid4 c operation_key resource_type resource_id
    commit
    pure true

  abbrev pub reloaded : Option GroupRow → Result GroupRow
  reloaded none = err runtime_error
  reloaded (some r) = ok r

  unfoldable pub create_group : Text → Text → Option Text → Action GroupRow
  create_group group_key group_name description = do
    id ← draw uuid4
    writes (
        insert_group (record {
          tenant_id = c.tenant_id;
          group_id = id;
          status = RowStatus.active;
          group_key = group_key;
          group_name = group_name;
          description = description;
          created_by_user_id = c.actor_user_id;
          created_at = c.now;
          updated_at = c.now;
        }))
    audit uuid4 c (codes "security.group.create") (codes "GROUP") (uuid_text id)
    commit
    group ← reads (λ db. ok (get_group c.tenant_id id db))
    lift (reloaded group)

  -- `if str(current["status"]) != str(new_status)`
  abbrev pub bump_on_change : Bool → List Uuid → Db → Db
  bump_on_change true users db = db
  bump_on_change false users db = bump_versions rules c.tenant_id users c.now db

  abbrev pub updated_group :
      Option Text → Option Text → Option RowStatus → GroupRow → GroupRow → GroupRow
  updated_group name description status current r = record r {
    group_name = given name current.group_name;
    description = given_or_null description current.description;
    status = given status current.status;
    updated_at = c.now;
  }

  unfoldable pub update_found_group :
      Option Text
      → Option Text
      → Option RowStatus
      → Uuid
      → Option GroupRow
      → Action (Option GroupRow)
  update_found_group name description status group_id none = pure none
  update_found_group name description status group_id (some current) = do
    users ← reads (λ db. ok (rules.effective_group_users c.tenant_id group_id c.now db))
    modify (λ db. record db {
      groups =
          update_where (is_group c.tenant_id group_id)
            (updated_group name description status current) db.groups;
    })
    modify (bump_on_change (same_status current.status (given status current.status)) users)
    audit uuid4 c (codes "security.group.update") (codes "GROUP") (uuid_text group_id)
    commit
    reads (λ db. ok (get_group c.tenant_id group_id db))

  unfoldable pub update_group :
      Option Text → Option Text → Option RowStatus → Uuid → Action (Option GroupRow)
  unfolding update_found_group
  update_group name description status group_id = do
    current ← reads (λ db. ok (get_group c.tenant_id group_id db))
    update_found_group name description status group_id current

  unfoldable pub add_member_unless : Bool → Uuid → Uuid → Action Bool
  add_member_unless true group_id user_id = pure false
  add_member_unless false group_id user_id = do
    id ← draw uuid4
    writes (insert_membership (new_membership c id group_id user_id))
    conclude (user_id ∷ []) (codes "security.group.member.add") (codes "GROUP_MEMBERSHIP")
        (pair_id group_id (uuid_text user_id))

  unfoldable pub add_group_member : Uuid → Uuid → Action Bool
  unfolding add_member_unless
  add_group_member group_id user_id = do
    reads (λ db. require (active_group c.tenant_id group_id db))
    reads (λ db. require (rules.active_membership c.tenant_id user_id c.now db))
    existing ← reads (λ db. ok (any (is_member c.tenant_id group_id user_id) db.group_memberships))
    add_member_unless existing group_id user_id

  -- `if row is None: rollback; return False`
  abbrev pub settle_removal : Bool → List Uuid → Text → Text → Text → Action Bool
  settle_removal false users operation_key resource_type resource_id = rollback >> pure false
  settle_removal true users operation_key resource_type resource_id =
      conclude users operation_key resource_type resource_id

  abbrev pub ended_membership : GroupMembershipRow → GroupMembershipRow
  ended_membership r = record r { status = RowStatus.lapsed; ended_at = some c.now }

  unfoldable pub remove_group_member : Uuid → Uuid → Action Bool
  remove_group_member group_id user_id = do
    removed ← writes (
        changed (λ db. any (is_member c.tenant_id group_id user_id) db.group_memberships)
          (λ db. record db {
            group_memberships =
                update_where (is_member c.tenant_id group_id user_id) ended_membership
                  db.group_memberships;
          }))
    settle_removal removed (user_id ∷ []) (codes "security.group.member.remove")
        (codes "GROUP_MEMBERSHIP") (pair_id group_id (uuid_text user_id))

  -- The users of the group are read behind the insert.
  unfoldable pub assign_group_role_unless : Bool → Uuid → Uuid → Action Bool
  assign_group_role_unless true group_id role_id = pure false
  assign_group_role_unless false group_id role_id = do
    id ← draw uuid4
    writes (
        insert_group_role (record {
          tenant_id = c.tenant_id;
          group_id = group_id;
          role_id = role_id;
          status = RowStatus.active;
          assignment_id = id;
          assigned_by_user_id = c.actor_user_id;
          assigned_at = c.now;
          ended_at = none;
        }))
    users ← reads (λ db. ok (rules.effective_group_users c.tenant_id group_id c.now db))
    conclude users (codes "security.group.role.assign") (codes "GROUP_ROLE")
        (pair_id group_id (uuid_text role_id))

  unfoldable pub assign_group_role : Uuid → Uuid → Action Bool
  unfolding assign_group_role_unless
  assign_group_role group_id role_id = do
    reads (λ db. require (active_group c.tenant_id group_id db))
    reads (λ db. require (active_role c.tenant_id role_id db))
    existing ← reads (λ db. ok (any (is_group_role c.tenant_id group_id role_id) db.group_roles))
    assign_group_role_unless existing group_id role_id

  abbrev pub ended_group_role : GroupRoleRow → GroupRoleRow
  ended_group_role r = record r { status = RowStatus.lapsed; ended_at = some c.now }

  unfoldable pub remove_group_role : Uuid → Uuid → Action Bool
  remove_group_role group_id role_id = do
    users ← reads (λ db. ok (rules.effective_group_users c.tenant_id group_id c.now db))
    removed ← writes (
        changed (λ db. any (is_group_role c.tenant_id group_id role_id) db.group_roles)
          (λ db. record db {
            group_roles =
                update_where (is_group_role c.tenant_id group_id role_id) ended_group_role
                  db.group_roles;
          }))
    settle_removal removed users (codes "security.group.role.remove") (codes "GROUP_ROLE")
        (pair_id group_id (uuid_text role_id))
