-- ===== src/Rbac/Roles/Assigned.antt =====
-- What the assignment of a role, and its removal, leave behind.
use mathlib.Core.Path.{◌≡◌, refl, ◌∙◌, sym, ap, subst}
use verigence_security.Common.{
  ℕ, suc, Bool, true, false, ◌&&◌, ◌||◌, List, [], ◌∷◌, Text, ◌==◌, arith, ◌⊎◌, inl, inr, ==_refl,
}
use verigence_security.Core.Types.{Uuid}
use verigence_security.Core.Result.{Result, ok, ok-injective}
use verigence_security.Db.Schema.{Db, AdminChangeRow}
use verigence_security.Db.Transaction.{Session, pure, reads, writes, modify, commit, draw}
use verigence_security.Db.Steps.{Outcome, run_ok, reads-eq-ok, writes-eq-ok}
use verigence_security.Db.Kept.{Keeps}
use verigence_security.Runtime.{authorization_version_of}
use verigence_security.Rbac.Kept.{audit-Keeps, insert_unless_ok, require-eq-ok}
use verigence_security.Rbac.Rows.{
  Change, audit, require, active_role, is_assigned, insert_unless, insert_assignment,
}
use verigence_security.Rbac.Rules.{global_rules, bump_versions, is_active_user}
use verigence_security.Rbac.Rules.Bumped.{global_bump-keeps}
use verigence_security.Rbac.Rules.Versions.{bump_one}
use verigence_security.Rbac.Groups.{conclude}
use verigence_security.Rbac.Roles.{new_assignment, assign_unless, assign_user_role}

-- An assignment that was inserted is found.
pub insert_assignment_ok :
    (c : Change) (id u r by : Uuid) (db : Db)
    → (insert_assignment (new_assignment c id u r by) db).0 ≡ ok tt
    → is_assigned c.tenant_id u r (insert_assignment (new_assignment c id u r by) db).1 ≡ true
insert_assignment_ok c id u r by db h =
    ap (is_assigned c.tenant_id u r) (insert_unless_ok _ db _ h)
    ∙ both (c.tenant_id == c.tenant_id) (u == u) (r == r) (is_assigned c.tenant_id u r db)
        (==_refl c.tenant_id) (==_refl u) (==_refl r)
  where
    both :
        (a b d e : Bool) → a ≡ true → b ≡ true → d ≡ true → ((a && (b && (d && true))) || e) ≡ true
    both a b d e h1 h2 h3 = ground arith

-- The versions that an insert leaves alone.
pub insert_unless-versions :
    (u t : Uuid) (b : Bool) (d e : Db)
    → authorization_version_of u t e ≡ authorization_version_of u t d
    → authorization_version_of u t (insert_unless b d e).1 ≡ authorization_version_of u t d
insert_unless-versions u t true d e h = refl
insert_unless-versions u t false d e h = h

module _ (uuid4 : ℕ → Uuid) (c : Change) where
  -- The end of a change: what the bumped tables have is committed.
  pub conclude_ok :
      (Q : Db → Type 0)
      → ((db : Db) (rows : List AdminChangeRow) → Q db → Q (record db { admin_changes = rows }))
      → (users : List Uuid) (k ty i : Text) (s t : Session) (b : Bool)
      → conclude uuid4 global_rules c users k ty i s ≡ (ok b, t)
      → Q (bump_versions global_rules c.tenant_id users c.now s.working)
      → (b ≡ true) × Q t.committed
  unfolding modify commit pure
  conclude_ok Q apart users k ty i s t b h q =
      let (_, s1, q1, h1) =
        run_ok (modify (bump_versions global_rules c.tenant_id users c.now)) _ s h in
      let (_, s2, q2, h2) = run_ok (audit uuid4 c k ty i) _ s1 h1 in
      let (_, s3, q3, h3) = run_ok commit _ s2 h2 in
      let kept : Keeps (λ _. Unit {0}) Q (audit uuid4 c k ty i) =
        audit-Keeps apart uuid4 c k ty i in
      let before : Q s1.working = subst (λ (o : Outcome (Unit {0})). Q o.1.working) q1 q in
      let behind : Q s2.working =
        subst (λ (o : Outcome (Unit {0})). Q o.1.working) q2 ((kept.keeps s1 (tt, before)).1) in
      let there : s2.working ≡ t.committed =
        ap (λ (o : Outcome (Unit {0})). o.1.committed) q3
        ∙ ap (λ (o : Outcome Bool). o.1.committed) h3 in
      (sym (ok-injective (ap (λ (o : Outcome Bool). o.0) h3)), subst Q there behind)

  -- The role is assigned in the committed tables, and the version of the user has moved on.
  pub record IsAssignedNow (user_id role_id : Uuid) (before after : Db) : Type 0 where
    pub assigned : is_assigned c.tenant_id user_id role_id after ≡ true
    pub advanced :
        authorization_version_of user_id c.tenant_id after
        ≡ suc (authorization_version_of user_id c.tenant_id before)

  assign_unless_ok :
      (user_id role_id : Uuid) (s t : Session) (b : Bool)
      → assign_unless uuid4 global_rules c false user_id role_id s ≡ (ok b, t)
      → (b ≡ true) × IsAssignedNow user_id role_id s.working t.committed
  unfolding assign_unless draw
  assign_unless_ok user_id role_id s t b h =
      let (id, s1, q1, h1) = run_ok (draw uuid4) _ s h in
      let f = insert_assignment (new_assignment c id user_id role_id c.actor_user_id) in
      let (_, s2, q2, h2) = run_ok (writes f) _ s1 h1 in
      let (e2, w2, _) = writes-eq-ok f s1 q2 in
      let assigned = is_assigned c.tenant_id user_id role_id in
      let version = authorization_version_of user_id c.tenant_id in
      let there =
        ap assigned w2 ∙ insert_assignment_ok c id user_id role_id c.actor_user_id s1.working e2 in
      let same : version s2.working ≡ version s.working =
        ap version w2
        ∙ insert_unless-versions user_id c.tenant_id _ s1.working _ refl
        ∙ ap (λ (o : Outcome Uuid). version o.1.working) (sym q1) in
      let (e, q) =
        conclude_ok (λ db. (assigned db ≡ true) × (version db ≡ suc (version s.working)))
          (λ d rows m. m) (user_id ∷ []) _ _ _ s2 t b h2
          (
            global_bump-keeps (λ db. assigned db ≡ true) (λ d rows m. m) c.tenant_id c.now
                (user_id ∷ []) s2.working there,
            bump_one c.tenant_id c.now user_id s2.working ∙ ap suc same,
          ) in
      (e, record { assigned = q.0; advanced = q.1 })

  assign_ok :
      (user_id role_id : Uuid) (x : Bool) (s t : Session) (b : Bool)
      → is_assigned c.tenant_id user_id role_id s.working ≡ x
      → assign_unless uuid4 global_rules c x user_id role_id s ≡ (ok b, t)
      → ((b ≡ true) × (x ≡ false) × IsAssignedNow user_id role_id s.working t.committed)
        ⊎ ((b ≡ false) × (is_assigned c.tenant_id user_id role_id s.working ≡ true) × (t ≡ s))
  unfolding assign_unless pure
  assign_ok user_id role_id false s t b e h =
      let (q, now) = assign_unless_ok user_id role_id s t b h in inl (q, refl, now)
  assign_ok user_id role_id true s t b e h = inr (
    sym (ok-injective (ap (λ (o : Outcome Bool). o.0) h)),
    e,
    ap (λ (o : Outcome Bool). o.1) (sym h),
  )

  -- The assignment of a role to a user, when it answers, found the user and the role ACTIVE. It answers
  -- true when the role was not assigned before: then it is in the committed tables, and the user's
  -- authorization version in the tenant has moved on by one. It answers false when the role was assigned,
  -- and then leaves the session as it was.
  pub assign_user_role-IsAssignedNow :
      (user_id role_id : Uuid) (s t : Session) (b : Bool)
      → assign_user_role uuid4 global_rules c user_id role_id s ≡ (ok b, t)
      → ((is_active_user user_id s.working ≡ true)
          × (active_role c.tenant_id role_id s.working ≡ true))
        × (((b ≡ true)
              × (is_assigned c.tenant_id user_id role_id s.working ≡ false)
              × IsAssignedNow user_id role_id s.working t.committed)
            ⊎ ((b ≡ false) × (is_assigned c.tenant_id user_id role_id s.working ≡ true) × (t ≡ s)))
  unfolding assign_user_role
  assign_user_role-IsAssignedNow user_id role_id s t b h =
      let active : Db → Result (Unit {0}) = λ db. require (is_active_user user_id db) in
      let role : Db → Result (Unit {0}) = λ db. require (active_role c.tenant_id role_id db) in
      let assigned : Db → Result Bool = λ db. ok (is_assigned c.tenant_id user_id role_id db) in
      let (_, s1, q1, h1) = run_ok (reads active) _ s h in
      let (e1, w1) = reads-eq-ok active s q1 in
      let (_, s2, q2, h2) = run_ok (reads role) _ s1 h1 in
      let (e2, w2) = reads-eq-ok role s1 q2 in
      let (x, s3, q3, h3) = run_ok (reads assigned) _ s2 h2 in
      let (e3, w3) = reads-eq-ok assigned s2 q3 in
      let here : s3 ≡ s = w3 ∙ w2 ∙ w1 in
      let found =
        ap (λ (u : Session). is_assigned c.tenant_id user_id role_id u.working) (sym (w2 ∙ w1))
        ∙ ok-injective e3 in
      let done =
        subst (λ (u : Session). assign_unless uuid4 global_rules c x user_id role_id u ≡ (ok b, t))
          here h3 in
      (
        (
          require-eq-ok _ e1,
          ap (λ (u : Session). active_role c.tenant_id role_id u.working) (sym w1)
              ∙ require-eq-ok _ e2,
        ),
        elim (assign_ok user_id role_id x s t b found done) [
          | inl (y, f, z) ↦ inl (y, found ∙ f, z)
          | inr z ↦ inr z
        ],
      )
