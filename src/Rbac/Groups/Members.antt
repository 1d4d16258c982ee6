-- ===== src/Rbac/Groups/Members.antt =====
-- What the addition of a member to a group leaves behind.
use mathlib.Core.Path.{◌≡◌, refl, ◌∙◌, sym, ap, subst}
use verigence_security.Common.{
  ℕ, suc, Bool, true, false, ◌&&◌, ◌||◌, [], ◌∷◌, ◌==◌, any, arith, ◌⊎◌, inl, inr, ==_refl,
}
use verigence_security.Core.Types.{Uuid}
use verigence_security.Core.Result.{Result, ok, ok-injective}
use verigence_security.Db.Schema.{Db}
use verigence_security.Db.Transaction.{Session, pure, reads, writes, draw}
use verigence_security.Db.Steps.{Outcome, run_ok, reads-eq-ok, writes-eq-ok}
use verigence_security.Runtime.{authorization_version_of}
use verigence_security.Rbac.Kept.{insert_unless_ok, require-eq-ok}
use verigence_security.Rbac.Rows.{Change, require, active_group, is_member, insert_membership}
use verigence_security.Rbac.Rules.{global_rules, is_active_user}
use verigence_security.Rbac.Rules.Bumped.{global_bump-keeps}
use verigence_security.Rbac.Rules.Versions.{bump_one}
use verigence_security.Rbac.Roles.Assigned.{conclude_ok, insert_unless-versions}
use verigence_security.Rbac.Groups.{new_membership, add_member_unless, add_group_member}

abbrev pub has_member : Uuid → Uuid → Uuid → Db → Bool
has_member t g u db = any (is_member t g u) db.group_memberships

-- A membership that was inserted is found.
insert_membership_ok :
    (c : Change) (id g u : Uuid) (db : Db)
    → (insert_membership (new_membership c id g u) db).0 ≡ ok tt
    → has_member c.tenant_id g u (insert_membership (new_membership c id g u) db).1 ≡ true
insert_membership_ok c id g u db h =
    ap (has_member c.tenant_id g u) (insert_unless_ok _ db _ h)
    ∙ both (c.tenant_id == c.tenant_id) (g == g) (u == u) (has_member c.tenant_id g u db)
        (==_refl c.tenant_id) (==_refl g) (==_refl u)
  where
    both :
        (a b d e : Bool) → a ≡ true → b ≡ true → d ≡ true → ((a && (b && (d && true))) || e) ≡ true
    both a b d e h1 h2 h3 = ground arith

module _ (uuid4 : ℕ → Uuid) (c : Change) where
  -- The user is in the group in the committed tables, and the version of the user has moved on.
  pub record IsMemberNow (group_id user_id : Uuid) (before after : Db) : Type 0 where
    pub member : has_member c.tenant_id group_id user_id after ≡ true
    pub advanced :
        authorization_version_of user_id c.tenant_id after
        ≡ suc (authorization_version_of user_id c.tenant_id before)

  add_member_unless_ok :
      (group_id user_id : Uuid) (s t : Session) (b : Bool)
      → add_member_unless uuid4 global_rules c false group_id user_id s ≡ (ok b, t)
      → (b ≡ true) × IsMemberNow group_id user_id s.working t.committed
  unfolding add_member_unless draw
  add_member_unless_ok group_id user_id s t b h =
      let (id, s1, q1, h1) = run_ok (draw uuid4) _ s h in
      let f = insert_membership (new_membership c id group_id user_id) in
      let (_, s2, q2, h2) = run_ok (writes f) _ s1 h1 in
      let (e2, w2, _) = writes-eq-ok f s1 q2 in
      let member = has_member c.tenant_id group_id user_id in
      let version = authorization_version_of user_id c.tenant_id in
      let there = ap member w2 ∙ insert_membership_ok c id group_id user_id s1.working e2 in
      let same : version s2.working ≡ version s.working =
        ap version w2
        ∙ insert_unless-versions user_id c.tenant_id _ s1.working _ refl
        ∙ ap (λ (o : Outcome Uuid). version o.1.working) (sym q1) in
      let (e, q) =
        conclude_ok uuid4 c (λ db. (member db ≡ true) × (version db ≡ suc (version s.working)))
          (λ d rows m. m) (user_id ∷ []) _ _ _ s2 t b h2
          (
            global_bump-keeps (λ db. member db ≡ true) (λ d rows m. m) c.tenant_id c.now
                (user_id ∷ []) s2.working there,
            bump_one c.tenant_id c.now user_id s2.working ∙ ap suc same,
          ) in
      (e, record { member = q.0; advanced = q.1 })

  add_ok :
      (group_id user_id : Uuid) (x : Bool) (s t : Session) (b : Bool)
      → has_member c.tenant_id group_id user_id s.working ≡ x
      → add_member_unless uuid4 global_rules c x group_id user_id s ≡ (ok b, t)
      → ((b ≡ true) × (x ≡ false) × IsMemberNow group_id user_id s.working t.committed)
        ⊎ ((b ≡ false) × (has_member c.tenant_id group_id user_id s.working ≡ true) × (t ≡ s))
  unfolding add_member_unless pure
  add_ok group_id user_id false s t b e h =
      let (q, now) = add_member_unless_ok group_id user_id s t b h in inl (q, refl, now)
  add_ok group_id user_id true s t b e h = inr (
    sym (ok-injective (ap (λ (o : Outcome Bool). o.0) h)),
    e,
    ap (λ (o : Outcome Bool). o.1) (sym h),
  )

  -- The addition of a user to a group, when it answers, found the group and the user ACTIVE. It answers
  -- true when the user was not a member: then the membership is in the committed tables, and the user's
  -- authorization version in the tenant has moved on by one. It answers false when the user was a member,
  -- and then leaves the session as it was.
  pub add_group_member-IsMemberNow :
      (group_id user_id : Uuid) (s t : Session) (b : Bool)
      → add_group_member uuid4 global_rules c group_id user_id s ≡ (ok b, t)
      → ((active_group c.tenant_id group_id s.working ≡ true)
          × (is_active_user user_id s.working ≡ true))
        × (((b ≡ true)
              × (has_member c.tenant_id group_id user_id s.working ≡ false)
              × IsMemberNow group_id user_id s.working t.committed)
            ⊎ ((b ≡ false) × (has_member c.tenant_id group_id user_id s.working ≡ true) × (t ≡ s)))
  unfolding add_group_member
  add_group_member-IsMemberNow group_id user_id s t b h =
      let group : Db → Result (Unit {0}) = λ db. require (active_group c.tenant_id group_id db) in
      let active : Db → Result (Unit {0}) = λ db. require (is_active_user user_id db) in
      let member : Db → Result Bool = λ db. ok (has_member c.tenant_id group_id user_id db) in
      let (_, s1, q1, h1) = run_ok (reads group) _ s h in
      let (e1, w1) = reads-eq-ok group s q1 in
      let (_, s2, q2, h2) = run_ok (reads active) _ s1 h1 in
      let (e2, w2) = reads-eq-ok active s1 q2 in
      let (x, s3, q3, h3) = run_ok (reads member) _ s2 h2 in
      let (e3, w3) = reads-eq-ok member s2 q3 in
      let here : s3 ≡ s = w3 ∙ w2 ∙ w1 in
      let found =
        ap (λ (u : Session). has_member c.tenant_id group_id user_id u.working) (sym (w2 ∙ w1))
        ∙ ok-injective e3 in
      let done =
        subst
          (λ (u : Session). add_member_unless uuid4 global_rules c x group_id user_id u ≡ (ok b, t))
          here h3 in
      (
        (
          require-eq-ok _ e1,
          ap (λ (u : Session). is_active_user user_id u.working) (sym w1) ∙ require-eq-ok _ e2,
        ),
        elim (add_ok group_id user_id x s t b found done) [
          | inl (y, f, z) ↦ inl (y, found ∙ f, z)
          | inr z ↦ inr z
        ],
      )
