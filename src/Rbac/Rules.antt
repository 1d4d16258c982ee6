-- ===== src/Rbac/Rules.antt =====
-- The methods that TenantRbacGateService overrides: who counts as an active user of the tenant, whom a
-- group or a role reaches, and which row holds the authorization version of a user.
pub mod Bumped
pub mod Versions
use verigence_security.Common.{
  ℕ, suc, Bool, true, false, ◌&&◌, ◌||◌, not, List, [], ◌∷◌, ◌++◌, map, Option, none, some, ltb,
  ◌==◌, select, flat_map, update_where, any, if◌then◌else◌,
}
use verigence_security.Core.Types.{Uuid, Instant}
use verigence_security.Db.Schema.{
  Db, MembershipRow, AuthorizationStateRow, GroupMembershipRow, GroupRoleRow, UserRoleRow,
  membership_active, user_active, principal_active, in_force, valid_at,
}

pub record Rules : Type 0 where
  pub active_membership : Uuid → Uuid → Instant → Db → Bool
  pub effective_group_users : Uuid → Uuid → Instant → Db → List Uuid
  pub effective_role_users : Uuid → Uuid → Instant → Db → List Uuid
  pub bump_version : Uuid → Instant → Uuid → Db → Db

-- Into its place in an ascending list, unless it is there.
insert_id : Uuid → List Uuid → List Uuid
insert_id a [] = a ∷ []
insert_id a (b ∷ bs) =
    let rest = insert_id a bs in if a == b then b ∷ bs else if ltb a b then a ∷ b ∷ bs else b ∷ rest

-- `sorted(set(user_ids))`: the canonical texts of UUIDs are ordered as their numbers are.
unfoldable pub sorted_ids : List Uuid → List Uuid
unfolding insert_id
sorted_ids [] = []
sorted_ids (a ∷ ids) = insert_id a (sorted_ids ids)

bump_each : (Uuid → Db → Db) → List Uuid → Db → Db
bump_each f [] db = db
bump_each f (u ∷ us) db = bump_each f us (f u db)

-- `_bump_versions`
unfoldable pub bump_versions : Rules → Uuid → List Uuid → Instant → Db → Db
unfolding bump_each
bump_versions rules tenant_id user_ids now db =
    bump_each (rules.bump_version tenant_id now) (sorted_ids user_ids) db

-- The users of the rows of a group that are in force.
abbrev pub is_in_group : Uuid → Uuid → Instant → GroupMembershipRow → Bool
is_in_group tenant_id group_id now m =
    m.tenant_id == tenant_id
    && (m.group_id == group_id && (in_force m.status && valid_at now m.valid_from m.valid_to))

abbrev pub group_users : Uuid → Uuid → Instant → Db → List Uuid
group_users tenant_id group_id now db =
    map (λ m. m.user_id) (select (is_in_group tenant_id group_id now) db.group_memberships)

-- The users to whom the role is assigned, and those of the groups that have it.
abbrev pub holds_role : Uuid → Uuid → Instant → UserRoleRow → Bool
holds_role tenant_id role_id now r =
    r.tenant_id == tenant_id
    && (r.role_id == role_id && (in_force r.status && valid_at now r.valid_from r.valid_to))

abbrev pub direct_users : Uuid → Uuid → Instant → Db → List Uuid
direct_users tenant_id role_id now db =
    map (λ r. r.user_id) (select (holds_role tenant_id role_id now) db.user_roles)

abbrev pub group_has_role : Uuid → Uuid → GroupRoleRow → Bool
group_has_role tenant_id role_id r =
    r.tenant_id == tenant_id && (r.role_id == role_id && in_force r.status)

abbrev pub role_groups : Uuid → Uuid → Db → List Uuid
role_groups tenant_id role_id db =
    flat_map
      (λ a.
        map (λ g. g.group_id)
          (select
            (λ g. g.tenant_id == a.tenant_id && (g.group_id == a.group_id && in_force g.status))
            db.groups))
      (select (group_has_role tenant_id role_id) db.group_roles)

-- The base class joins the membership row of the tenant.
abbrev pub is_active_member : Uuid → Uuid → MembershipRow → Bool
is_active_member tenant_id user_id m =
    m.tenant_id == tenant_id && (m.user_id == user_id && membership_active m.status)

abbrev pub has_membership : Uuid → Uuid → Db → Bool
has_membership tenant_id user_id db = any (is_active_member tenant_id user_id) db.memberships

abbrev pub has_valid_membership : Uuid → Uuid → Instant → Db → Bool
has_valid_membership tenant_id user_id now db =
    any (λ m. is_active_member tenant_id user_id m && valid_at now m.valid_from m.valid_to)
      db.memberships

abbrev pub bumped_membership : Instant → MembershipRow → MembershipRow
bumped_membership now m = record m {
  authorization_version = suc m.authorization_version;
  updated_at = now;
}

-- TenantRbacAdminService. The users of a role's groups are joined to the membership with no test of its
-- validity.
abbrev pub membership_rules : Rules
membership_rules = record {
  active_membership = has_valid_membership;
  effective_group_users = λ tenant_id group_id now db.
      select (λ u. has_valid_membership tenant_id u now db) (group_users tenant_id group_id now db);
  effective_role_users = λ tenant_id role_id now db.
      select (λ u. has_membership tenant_id u db)
        (direct_users tenant_id role_id now db
          ++ flat_map (λ g. group_users tenant_id g now db) (role_groups tenant_id role_id db));
  bump_version = λ tenant_id now user_id db. record db {
    memberships =
        update_where (is_active_member tenant_id user_id) (bumped_membership now) db.memberships;
  };
}

-- The gate joins the user and the principal, whatever the tenant.
abbrev pub is_active_user : Uuid → Db → Bool
is_active_user user_id db =
    any (λ u. u.user_id == user_id && user_active u.status) db.users
    && any (λ p. p.principal_id == user_id && principal_active p.status) db.principals

abbrev pub is_state_of : Uuid → Uuid → AuthorizationStateRow → Bool
is_state_of tenant_id user_id a = a.user_id == user_id && a.tenant_id == tenant_id

abbrev pub bumped_state : Instant → AuthorizationStateRow → AuthorizationStateRow
bumped_state now a = record a {
  authorization_version = suc a.authorization_version;
  updated_at = now;
}

-- `INSERT ... VALUES (:user_id,:tenant_id,2,:now) ON CONFLICT DO UPDATE`
unfoldable pub upsert_version : Uuid → Instant → Uuid → Db → Db
upsert_version tenant_id now user_id db =
    if any (is_state_of tenant_id user_id) db.authorization_states
    then record db {
      authorization_states =
          update_where (is_state_of tenant_id user_id) (bumped_state now) db.authorization_states;
    }
    else record db {
      authorization_states =
          record {
            user_id = user_id;
            tenant_id = tenant_id;
            authorization_version = 2;
            updated_at = now;
          }
          ∷ db.authorization_states;
    }

-- TenantRbacGateService
abbrev pub global_rules : Rules
global_rules = record {
  active_membership = λ tenant_id user_id now db. is_active_user user_id db;
  effective_group_users = λ tenant_id group_id now db.
      select (λ u. is_active_user u db) (group_users tenant_id group_id now db);
  effective_role_users = λ tenant_id role_id now db.
      select (λ u. is_active_user u db)
        (direct_users tenant_id role_id now db
          ++ flat_map (λ g. group_users tenant_id g now db) (role_groups tenant_id role_id db));
  bump_version = upsert_version;
}
