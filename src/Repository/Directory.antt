-- ===== src/Repository/Directory.antt =====
-- SecurityRepository: identities, tenants, users and policies.
use verigence_security.Common.{
  ℕ, false, ◌&&◌, not, List, map, Option, some, Text, text_eq, ltb, leb, ◌==◌, select, find_first,
  flat_map, head?, option_or,
}
use verigence_security.Core.Types.{Uuid, Instant, is_user}
use verigence_security.Core.Errors.{
  user_not_onboarded, actor_type_not_allowed, principal_not_active, tenant_not_active,
  user_not_active, tenant_membership_required, tenant_membership_inactive,
  tenant_security_not_ready,
}
use verigence_security.Core.Result.{Result, ok, deny_if, or_deny, ◌>>=◌, ◌>>◌}
use verigence_security.Db.Schema.{
  Db, TenantStatus, UserStatus, MembershipStatus, principal_active, user_active, membership_active,
  policy_active, in_force, PrincipalRow, UserRow, MembershipRow, PolicyRow,
}

-- The rows of the join of an identity with its user and principal.
abbrev pub principals_of : Db → Uuid → List PrincipalRow
principals_of db id = select (λ p. p.principal_id == id) db.principals

abbrev pub users_of : Db → Uuid → List UserRow
users_of db id = select (λ u. u.user_id == id) db.users

abbrev pub identity_rows : Db → Text → Text → List (UserRow × PrincipalRow)
identity_rows db provider subject =
    flat_map
      (λ ei.
        flat_map (λ u. map (λ p. (u, p)) (principals_of db u.user_id)) (users_of db ei.user_id))
      (select
        (λ ei.
          text_eq ei.provider provider
          && (text_eq ei.provider_subject subject && in_force ei.status))
        db.identities)

unfoldable pub resolve_identity_user : Text → Text → Db → Result Uuid
resolve_identity_user provider subject db = do
  row ← or_deny (head? (identity_rows db provider subject)) user_not_onboarded
  deny_if (not (is_user row.1.actor_type)) actor_type_not_allowed
  deny_if (not (principal_active row.1.status)) principal_not_active
  ok row.0.user_id

unfoldable pub tenant_status : Uuid → Db → Result TenantStatus
tenant_status tenant_id db = do
  row ← or_deny (find_first (λ t. t.tenant_id == tenant_id) db.tenants) tenant_not_active
  ok row.status

-- `membership` is the id and status of the membership row; a repository that needs none gives `none`
-- for the empty id and the status `NOT_REQUIRED`.
pub record UserContext : Type 0 where
  pub user_id : Uuid
  pub user_status : UserStatus
  pub membership : Option (Uuid × MembershipStatus)
  pub authorization_version : ℕ

abbrev pub find_user : Db → Uuid → Option UserRow
find_user db user_id = find_first (λ u. u.user_id == user_id) db.users

abbrev pub find_membership : Db → Uuid → Uuid → Option MembershipRow
find_membership db tenant_id user_id =
    find_first (λ m. m.user_id == user_id && m.tenant_id == tenant_id) db.memberships

unfoldable pub get_user_context : Uuid → Uuid → Instant → Db → Result UserContext
get_user_context user_id tenant_id now db = do
  u ← or_deny (find_user db user_id) user_not_onboarded
  deny_if (not (user_active u.status)) user_not_active
  m ← or_deny (find_membership db tenant_id user_id) tenant_membership_required
  deny_if (not (membership_active m.status)) tenant_membership_inactive
  deny_if (option_or false (λ t. ltb now t) m.valid_from) tenant_membership_inactive
  deny_if (option_or false (λ t. leb t now) m.valid_to) tenant_membership_inactive
  ok (record {
    user_id = u.user_id;
    user_status = u.status;
    membership = some (m.membership_id, m.status);
    authorization_version = m.authorization_version;
  })

-- `TenantPolicy` carries the columns of the row.
unfoldable pub get_tenant_policy : Uuid → Db → Result PolicyRow
get_tenant_policy tenant_id db = do
  row ← or_deny (find_first (λ p. p.tenant_id == tenant_id) db.policies) tenant_security_not_ready
  deny_if (not (policy_active row.status)) tenant_security_not_ready
  ok row
