-- ===== src/Rbac/Roles/Removed.antt =====
-- What the removal of a role from a user leaves behind.
use mathlib.Core.Path.{◌≡◌, refl, ◌∙◌, sym, ap}
use verigence_security.Common.{
  ℕ, suc, Bool, true, false, ◌&&◌, List, [], ◌∷◌, Text, ◌==◌, any, update_where, Bool-cases, arith,
  ◌⊎◌, inl, inr, or_false_both, if◌then◌else◌,
}
use verigence_security.Core.Types.{Uuid}
use verigence_security.Core.Result.{Result, ok, ok-injective}
use verigence_security.Db.Schema.{Db, UserRoleRow}
use verigence_security.Db.Transaction.{Session, ◌>>=◌, pure, writes, rollback}
use verigence_security.Db.Steps.{Outcome, run_ok, writes-eq-ok}
use verigence_security.Runtime.{authorization_version_of}
use verigence_security.Rbac.Rows.{Change, is_assignment, is_assigned}
use verigence_security.Rbac.Rules.{global_rules}
use verigence_security.Rbac.Rules.Bumped.{global_bump-keeps}
use verigence_security.Rbac.Rules.Versions.{bump_one}
use verigence_security.Rbac.Groups.{changed, settle_removal}
use verigence_security.Rbac.Roles.{remove_user_role, ended_assignment}
use verigence_security.Rbac.Roles.Assigned.{conclude_ok}
use verigence_security.Rbac.Roles.Assigned.{conclude_ok}

module _ (uuid4 : ℕ → Uuid) (c : Change) where
  -- No assignment of the role is left.
  none_assigned :
      (t u r : Uuid) (rows : List UserRoleRow)
      → any
          (is_assignment t u r)
          (update_where (is_assignment t u r) (ended_assignment uuid4 global_rules c) rows)
        ≡ false
  none_assigned t u r [] = refl
  none_assigned t u r (x ∷ rows) =
      or_false_both
        (is_assignment t u r
          (if is_assignment t u r x then ended_assignment uuid4 global_rules c x else x))
        (any (is_assignment t u r)
          (update_where (is_assignment t u r) (ended_assignment uuid4 global_rules c) rows))
        (chosen (Bool-cases (is_assignment t u r x))) (none_assigned t u r rows)
    where
      lapsed : (a b d : Bool) → (a && (b && (d && false))) ≡ false
      lapsed a b d = ground arith

      chosen :
          (is_assignment t u r x ≡ true) ⊎ (is_assignment t u r x ≡ false)
          → is_assignment t u r
              (if is_assignment t u r x then ended_assignment uuid4 global_rules c x else x)
            ≡ false
      chosen (inl q) = rw q (lapsed (x.tenant_id == t) (x.user_id == u) (x.role_id == r))
      chosen (inr q) = rw q q

  -- The role is no longer assigned in the committed tables, and the version of the user has moved on.
  pub record IsRemovedNow (user_id role_id : Uuid) (before after : Db) : Type 0 where
    pub removed : is_assigned c.tenant_id user_id role_id after ≡ false
    pub advanced :
        authorization_version_of user_id c.tenant_id after
        ≡ suc (authorization_version_of user_id c.tenant_id before)

  settle_ok :
      (user_id role_id : Uuid) (x : Bool) (k ty i : Text) (s t : Session) (b : Bool)
      → is_assigned c.tenant_id user_id role_id s.working ≡ false
      → settle_removal uuid4 global_rules c x (user_id ∷ []) k ty i s ≡ (ok b, t)
      → ((b ≡ true) × (x ≡ true) × IsRemovedNow user_id role_id s.working t.committed)
        ⊎ ((b ≡ false) × (x ≡ false) × (t.committed ≡ s.committed) × (t.working ≡ s.committed))
  unfolding rollback pure ◌>>=◌
  settle_ok user_id role_id true k ty i s t b e h =
      let assigned = is_assigned c.tenant_id user_id role_id in
      let version = authorization_version_of user_id c.tenant_id in
      let (y, q) =
        conclude_ok uuid4 c (λ db. (assigned db ≡ false) × (version db ≡ suc (version s.working)))
          (λ d rows m. m) (user_id ∷ []) k ty i s t b h
          (
            global_bump-keeps (λ db. assigned db ≡ false) (λ d rows m. m) c.tenant_id c.now
                (user_id ∷ []) s.working e,
            bump_one c.tenant_id c.now user_id s.working,
          ) in
      inl (y, refl, record { removed = q.0; advanced = q.1 })
  settle_ok user_id role_id false k ty i s t b e h = inr (
    sym (ok-injective (ap (λ (o : Outcome Bool). o.0) h)),
    refl,
    ap (λ (o : Outcome Bool). o.1.committed) (sym h),
    ap (λ (o : Outcome Bool). o.1.working) (sym h),
  )

  -- The removal of a role from a user answers true when the role was assigned: then no assignment of it is
  -- left in the committed tables, and the user's authorization version in the tenant has moved on by one.
  -- It answers false when the role was not assigned, and then ends at the committed tables, unchanged.
  pub remove_user_role-IsRemovedNow :
      (user_id role_id : Uuid) (s t : Session) (b : Bool)
      → remove_user_role uuid4 global_rules c user_id role_id s ≡ (ok b, t)
      → ((b ≡ true)
          × (is_assigned c.tenant_id user_id role_id s.working ≡ true)
          × IsRemovedNow user_id role_id s.working t.committed)
        ⊎ ((b ≡ false)
            × (is_assigned c.tenant_id user_id role_id s.working ≡ false)
            × (t.committed ≡ s.committed)
            × (t.working ≡ s.committed))
  unfolding remove_user_role
  remove_user_role-IsRemovedNow user_id role_id s t b h =
      let f : Db → Result Bool × Db = changed (is_assigned c.tenant_id user_id role_id) (λ db.
        record db {
          user_roles =
              update_where (is_assignment c.tenant_id user_id role_id)
                (ended_assignment uuid4 global_rules c) db.user_roles;
        }) in
      let (x, s1, q1, h1) = run_ok (writes f) _ s h in
      let (e1, w1, c1) = writes-eq-ok f s q1 in
      let found = ok-injective e1 in
      let gone =
        ap (is_assigned c.tenant_id user_id role_id) w1
        ∙ none_assigned c.tenant_id user_id role_id s.working.user_roles in
      let version : authorization_version_of user_id c.tenant_id s1.working
          ≡ authorization_version_of user_id c.tenant_id s.working =
        ap (authorization_version_of user_id c.tenant_id) w1 in
      elim (settle_ok user_id role_id x _ _ _ s1 t b gone h1) [
        | inl (y, z, m) ↦
            inl
              (y, found ∙ z, record { removed = m.removed; advanced = m.advanced ∙ ap suc version })
        | inr (y, z, m, n) ↦ inr (y, found ∙ z, m ∙ c1, n ∙ c1)
      ]
