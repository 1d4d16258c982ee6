-- ===== src/Access/Checks/Standing.antt =====
-- Who may use a tenant, by either of the two repositories of the USER runtime.
use mathlib.Core.Path.{◌≡◌, subst}
use mathlib.Core.Logic.{◌⊎◌, inl, inr}
use mathlib.Core.Option.{some}
use verigence_security.Common.{true, false, not, Text, ltb, leb, head?, option_or, not-true}
use verigence_security.Core.Types.{Uuid, Instant, is_user}
use verigence_security.Core.Errors.{
  user_not_onboarded, actor_type_not_allowed, principal_not_active, user_not_active,
  tenant_membership_required, tenant_membership_inactive,
}
use verigence_security.Core.Result.{
  ok, deny_if, or_deny, >>=-eq-ok, deny_if-eq-ok, or_deny-eq-ok, ok-injective,
}
use verigence_security.Db.Schema.{
  Db, UserRow, PrincipalRow, MembershipRow, principal_active, user_active, membership_active,
}
use verigence_security.Repository.Directory.{
  UserContext, identity_rows, resolve_identity_user, find_user, find_membership, principals_of,
  get_user_context,
}
use verigence_security.Runtime.{
  UserRepository, security_repository, group_aware_repository, global_user_context,
}

-- The classes of repository that the source has.
abbrev pub IsRuntimeRepository : UserRepository → Type 0
IsRuntimeRepository repo = (repo ≡ security_repository) ⊎ (repo ≡ group_aware_repository)

-- The identity is that of a USER principal, which is ACTIVE.
pub record IsIdentified (provider subject : Text) (db : Db) (user_id : Uuid) : Type 0 where
  pub user : UserRow
  pub principal : PrincipalRow
  pub found : head? (identity_rows db provider subject) ≡ some (user, principal)
  pub is_actor : is_user principal.actor_type ≡ true
  pub is_active : principal_active principal.status ≡ true
  pub same_id : user.user_id ≡ user_id

pub resolve_identity_user-IsIdentified :
    (provider subject : Text) (db : Db) (user_id : Uuid)
    → resolve_identity_user provider subject db ≡ ok user_id
    → IsIdentified provider subject db user_id
unfolding resolve_identity_user
resolve_identity_user-IsIdentified provider subject db user_id h =
    let (r, e1, h1) =
      >>=-eq-ok (or_deny (head? (identity_rows db provider subject)) user_not_onboarded) _ h in
    let (_, e2, h2) =
      >>=-eq-ok (deny_if (not (is_user r.1.actor_type)) actor_type_not_allowed) _ h1 in
    let (_, e3, h3) =
      >>=-eq-ok (deny_if (not (principal_active r.1.status)) principal_not_active) _ h2 in
    record {
      user = r.0;
      principal = r.1;
      found = or_deny-eq-ok _ user_not_onboarded e1;
      is_actor = not-true (is_user r.1.actor_type) (deny_if-eq-ok _ actor_type_not_allowed e2);
      is_active = not-true (principal_active r.1.status) (deny_if-eq-ok _ principal_not_active e3);
      same_id = ok-injective h3;
    }

-- The user's membership of the tenant, which is ACTIVE and in its time.
pub record IsMember (user_id tenant_id : Uuid) (now : Instant) (db : Db) : Type 0 where
  pub membership : MembershipRow
  pub found : find_membership db tenant_id user_id ≡ some membership
  pub is_active : membership_active membership.status ≡ true
  pub has_begun : option_or false (λ t. ltb now t) membership.valid_from ≡ false
  pub not_over : option_or false (λ t. leb t now) membership.valid_to ≡ false

-- The group-aware repository asks for the user's principal, which is ACTIVE, in place of a membership.
pub record IsGlobal (repo : UserRepository) (user_id : Uuid) (db : Db) : Type 0 where
  pub principal : PrincipalRow
  pub found : head? (principals_of db user_id) ≡ some principal
  pub is_active : principal_active principal.status ≡ true
  pub group_aware : repo ≡ group_aware_repository

-- The user's row, which is ACTIVE, and the standing that the repository asks for.
pub record IsActiveUser (repo : UserRepository) (user_id tenant_id : Uuid) (now : Instant) (db : Db)
    : Type 0 where
  pub user : UserRow
  pub found : find_user db user_id ≡ some user
  pub is_active : user_active user.status ≡ true
  pub standing : IsMember user_id tenant_id now db ⊎ IsGlobal repo user_id db

module _ (user_id tenant_id : Uuid) (now : Instant) (db : Db) (c : UserContext) where
  get_user_context_sound :
      (repo : UserRepository)
      → get_user_context user_id tenant_id now db ≡ ok c
      → IsActiveUser repo user_id tenant_id now db
  unfolding get_user_context
  get_user_context_sound repo h =
      let (u, e1, h1) = >>=-eq-ok (or_deny (find_user db user_id) user_not_onboarded) _ h in
      let (_, e2, h2) = >>=-eq-ok (deny_if (not (user_active u.status)) user_not_active) _ h1 in
      let (m, e3, h3) =
        >>=-eq-ok (or_deny (find_membership db tenant_id user_id) tenant_membership_required) _
          h2 in
      let (_, e4, h4) =
        >>=-eq-ok (deny_if (not (membership_active m.status)) tenant_membership_inactive) _ h3 in
      let (_, e5, h5) =
        >>=-eq-ok
          (deny_if (option_or false (λ t. ltb now t) m.valid_from) tenant_membership_inactive) _
          h4 in
      let (_, e6, h6) =
        >>=-eq-ok (deny_if (option_or false (λ t. leb t now) m.valid_to) tenant_membership_inactive)
          _ h5 in
      record {
        user = u;
        found = or_deny-eq-ok _ user_not_onboarded e1;
        is_active = not-true (user_active u.status) (deny_if-eq-ok _ user_not_active e2);
        standing = inl (record {
          membership = m;
          found = or_deny-eq-ok _ tenant_membership_required e3;
          is_active =
              not-true (membership_active m.status) (deny_if-eq-ok _ tenant_membership_inactive e4);
          has_begun = deny_if-eq-ok _ tenant_membership_inactive e5;
          not_over = deny_if-eq-ok _ tenant_membership_inactive e6;
        });
      }

  global_user_context_sound :
      (repo : UserRepository)
      → repo ≡ group_aware_repository
      → global_user_context user_id tenant_id now db ≡ ok c
      → IsActiveUser repo user_id tenant_id now db
  unfolding global_user_context
  global_user_context_sound repo g h =
      let (u, e1, h1) = >>=-eq-ok (or_deny (find_user db user_id) user_not_onboarded) _ h in
      let (p, e2, h2) =
        >>=-eq-ok (or_deny (head? (principals_of db user_id)) user_not_onboarded) _ h1 in
      let (_, e3, h3) =
        >>=-eq-ok (deny_if (not (principal_active p.status)) principal_not_active) _ h2 in
      let (_, e4, h4) = >>=-eq-ok (deny_if (not (user_active u.status)) user_not_active) _ h3 in
      record {
        user = u;
        found = or_deny-eq-ok _ user_not_onboarded e1;
        is_active = not-true (user_active u.status) (deny_if-eq-ok _ user_not_active e4);
        standing = inr (record {
          principal = p;
          found = or_deny-eq-ok _ user_not_onboarded e2;
          is_active =
              not-true (principal_active p.status) (deny_if-eq-ok _ principal_not_active e3);
          group_aware = g;
        });
      }

  -- Either class gives a context only of an active user.
  pub get_user_context-IsActiveUser :
      (repo : UserRepository)
      → IsRuntimeRepository repo
      → repo.get_user_context user_id tenant_id now db ≡ ok c
      → IsActiveUser repo user_id tenant_id now db
  get_user_context-IsActiveUser repo k h = elim k [
    | inl e ↦
        get_user_context_sound repo
          (subst (λ (r : UserRepository). r.get_user_context user_id tenant_id now db ≡ ok c) e h)
    | inr e ↦
        global_user_context_sound repo e
          (subst (λ (r : UserRepository). r.get_user_context user_id tenant_id now db ≡ ok c) e h)
  ]
