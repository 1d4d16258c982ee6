-- ===== src/Rbac/Gate/Authorized.antt =====
-- What the permission check of the administration routes lets through.
use mathlib.Core.Path.{◌≡◌, ◌∙◌, sym, ap}
use mathlib.Core.Logic.{◌⊎◌}
use verigence_security.Common.{true, not, List, some, Text, flat_map, head?, not-true}
use verigence_security.Core.Types.{Uuid, Instant}
use verigence_security.Core.Errors.{
  tenant_not_active, principal_not_active, user_not_active, permission_denied,
}
use verigence_security.Core.Result.{
  ok, deny_if, or_deny, >>=-eq-ok, deny_if-eq-ok, or_deny-eq-ok, ok-injective,
}
use verigence_security.Db.Schema.{
  Db, TenantRow, UserRow, PrincipalRow, tenant_active, principal_active, user_active,
}
use verigence_security.Permissions.Ordered.{has}
use verigence_security.Repository.Directory.{find_user, principals_of}
use verigence_security.Repository.Roles.{
  direct_roles, group_roles_of, grants_of, platform_grants, group_aware_permissions,
}
use verigence_security.Rbac.Gate.Sources.{Grants, permission_source}
use verigence_security.Rbac.Gate.{find_tenant, authorize_user}

-- Who is let through, and with what.
pub record IsAuthorizedUser (tenant_id user_id : Uuid) (permission_key : Text) (now : Instant)
    (db : Db) (g : List Text × List Text) : Type 0 where
  pub tenant : TenantRow
  pub user : UserRow
  pub principal : PrincipalRow
  pub found_tenant : find_tenant tenant_id db ≡ some tenant
  pub found_user : find_user db user_id ≡ some user
  pub found_principal : head? (principals_of db user_id) ≡ some principal
  pub tenant_is_active : tenant_active tenant.status ≡ true
  pub user_is_active : user_active user.status ≡ true
  pub principal_is_active : principal_active principal.status ≡ true
  pub effective : group_aware_permissions tenant_id user_id now db ≡ ok g
  pub has_permission : has permission_key g.1 ≡ true
  pub source :
      Grants
        (flat_map (grants_of tenant_id db) (direct_roles tenant_id user_id now db))
        permission_key
      ⊎ Grants
          (flat_map (grants_of tenant_id db) (group_roles_of tenant_id user_id now db))
          permission_key
      ⊎ Grants (platform_grants user_id db) permission_key

-- An administration route goes on only for an ACTIVE user with an ACTIVE principal in an ACTIVE tenant,
-- whose effective permissions hold the one that the route asks for; and it goes on with those roles and
-- permissions. The effective ones are those of the group-aware query, and the one that is held comes from a
-- role that the user has in the tenant, directly or through a group, or from a platform role of the
-- user, which is tied to no tenant.
pub authorize_user-IsAuthorizedUser :
    (tenant_id user_id : Uuid) (permission_key : Text) (now : Instant) (db : Db)
    (g : List Text × List Text)
    → authorize_user tenant_id user_id permission_key now db ≡ ok g
    → IsAuthorizedUser tenant_id user_id permission_key now db g
unfolding authorize_user
authorize_user-IsAuthorizedUser tenant_id user_id permission_key now db g h =
    let (u, e1, h1) = >>=-eq-ok (or_deny (find_user db user_id) tenant_not_active) _ h in
    let (p, e2, h2) =
      >>=-eq-ok (or_deny (head? (principals_of db user_id)) tenant_not_active) _ h1 in
    let (t, e3, h3) = >>=-eq-ok (or_deny (find_tenant tenant_id db) tenant_not_active) _ h2 in
    let (_, e4, h4) = >>=-eq-ok (deny_if (not (tenant_active t.status)) tenant_not_active) _ h3 in
    let (_, e5, h5) =
      >>=-eq-ok (deny_if (not (principal_active p.status)) principal_not_active) _ h4 in
    let (_, e6, h6) = >>=-eq-ok (deny_if (not (user_active u.status)) user_not_active) _ h5 in
    let (x, e7, h7) = >>=-eq-ok (group_aware_permissions tenant_id user_id now db) _ h6 in
    let (_, e8, h8) = >>=-eq-ok (deny_if (not (has permission_key x.1)) permission_denied) _ h7 in
    let same = ok-injective h8 in
    let known = e7 ∙ ap ok same in
    let held =
      ap (λ (y : List Text × List Text). has permission_key y.1) (sym same)
      ∙ not-true (has permission_key x.1) (deny_if-eq-ok _ permission_denied e8) in
    record {
      tenant = t;
      user = u;
      principal = p;
      found_tenant = or_deny-eq-ok (find_tenant tenant_id db) tenant_not_active e3;
      found_user = or_deny-eq-ok (find_user db user_id) tenant_not_active e1;
      found_principal = or_deny-eq-ok (head? (principals_of db user_id)) tenant_not_active e2;
      tenant_is_active = not-true (tenant_active t.status) (deny_if-eq-ok _ tenant_not_active e4);
      user_is_active = not-true (user_active u.status) (deny_if-eq-ok _ user_not_active e6);
      principal_is_active =
          not-true (principal_active p.status) (deny_if-eq-ok _ principal_not_active e5);
      effective = known;
      has_permission = held;
      source = permission_source tenant_id user_id now db g permission_key known held;
    }
