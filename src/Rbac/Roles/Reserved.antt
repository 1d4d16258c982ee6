-- ===== src/Rbac/Roles/Reserved.antt =====
-- The roles that a tenant may make.
use mathlib.Core.Path.{◌≡◌, refl, ◌∙◌, sym, ap, subst}
use verigence_security.Common.{
  ℕ, Bool, true, false, not, List, [], ◌∷◌, Option, Text, codes, Bool-cases, inl, inr, arith,
  true-false,
}
use verigence_security.Core.Types.{Uuid}
use verigence_security.Core.Result.{ok, ok-injective}
use verigence_security.Db.Schema.{Db, RoleRow, RowStatus}
use verigence_security.Db.Transaction.{Session, Action, lift, reads, writes, commit, draw}
use verigence_security.Db.Steps.{Outcome, run_ok, lift-eq-ok, reads-eq-ok, writes-eq-ok, draw-eq-ok}
use verigence_security.Db.Kept.{Keeps, >>=-Keeps, pure-Keeps, writes-Keeps}
use verigence_security.Permissions.Ordered.{every-has}
use verigence_security.Platform.Uuids.{uuid_text}
use verigence_security.Rbac.Kept.{require-eq-ok, insert_unless-keeps, insert_unless_ok, audit-Keeps}
use verigence_security.Rbac.Rows.{Change, require, is_role, get_role, insert_role, audit}
use verigence_security.Rbac.Rules.{Rules}
use verigence_security.Rbac.Roles.{
  is_reserved, all_active, reload_role, grant_permissions, create_role,
}
use verigence_security.Rbac.Gate.{privileged_role_keys, is_privileged}

-- Every privileged key is a reserved one.
is_privileged-is_reserved : (key : Text) → is_privileged key ≡ true → is_reserved key ≡ true
is_privileged-is_reserved key h = every-has is_reserved privileged_role_keys key refl h

module _ (uuid4 : ℕ → Uuid) (rules : Rules) (c : Change) where
  -- The role that was made: the one row that the tables as committed have more than before the call. It
  -- is the tenant's, and its key is the one that was asked for, which is not reserved.
  pub record IsNewRole (key : Text) (before after : Db) (role : RoleRow) : Type 0 where
    pub stored : after.roles ≡ role ∷ before.roles
    pub of_tenant : role.tenant_id ≡ c.tenant_id
    pub asked : role.role_key ≡ key
    pub is_open : is_reserved role.role_key ≡ false
    pub is_plain : is_privileged role.role_key ≡ false

  -- The rows of the roles.
  abbrev Has : List RoleRow → Db → Type 0
  Has rows db = db.roles ≡ rows

  grant_permissions-Keeps :
      (rows : List RoleRow) (role_id : Uuid) (ks : List Text)
      → Keeps (λ db. Unit {0}) (Has rows) (grant_permissions uuid4 rules c role_id ks)
  grant_permissions-Keeps rows role_id [] = pure-Keeps tt
  grant_permissions-Keeps rows role_id (k ∷ ks) =
      >>=-Keeps {C = λ db. Unit {0}} {W = Has rows}
        (writes-Keeps _ (λ db h. insert_unless-keeps (Has rows) _ db _ h h))
        (λ u. grant_permissions-Keeps rows role_id ks)

  kept :
      (rows : List RoleRow) (m : Action (Unit {0})) (s t : Session) {u : Unit {0}}
      → Keeps (λ db. Unit {0}) (Has rows) m
      → m s ≡ (ok u, t)
      → Has rows s.working
      → Has rows t.working
  kept rows m s t k q h =
      subst (λ (o : Outcome (Unit {0})). Has rows o.1.working) q ((k.keeps s (tt, h)).1)

  is_role-own :
      (tenant_id role_id : Uuid) (row : RoleRow)
      → row.tenant_id ≡ tenant_id
      → row.role_id ≡ role_id
      → is_role tenant_id role_id row ≡ true
  is_role-own tenant_id role_id row h k = ground arith

  reload_role_lem :
      (rows : List RoleRow) (row role : RoleRow) (db : Db)
      → row.tenant_id ≡ c.tenant_id
      → Has (row ∷ rows) db
      → reload_role uuid4 rules c (get_role c.tenant_id row.role_id db) ≡ ok role
      → row ≡ role
  unfolding get_role
  reload_role_lem rows row role db ht h e =
      ok-injective (rw (h, is_role-own c.tenant_id row.role_id row ht refl) at e)

  not_privileged : (key : Text) → is_reserved key ≡ false → is_privileged key ≡ false
  not_privileged key h = elim (Bool-cases (is_privileged key)) [
    | inl q ↦ absurd (true-false (is_reserved key) (is_privileged-is_reserved key q) h)
    | inr q ↦ q
  ]

  -- A role that a tenant makes is the one row by which the committed roles grow, under the key that was
  -- asked for, which lies outside the reserved prefixes, so that it is never a privileged one: no such
  -- role leads around the approval of the privileged roles.
  pub create_role-not_privileged :
      (key name : Text) (description : Option Text) (permission_keys : List Text) (s t : Session)
      (role : RoleRow)
      → create_role uuid4 rules c key name description permission_keys s ≡ (ok role, t)
      → IsNewRole key s.working t.committed role
  unfolding create_role commit
  create_role-not_privileged key name description permission_keys s t role h =
      let rows = s.working.roles in
      let (_, s1, q1, h1) = run_ok (lift (require (not (is_reserved key)))) _ s h in
      let (e1, w1) = lift-eq-ok (require (not (is_reserved key))) s q1 in
      let free = not_false (is_reserved key) (require-eq-ok (not (is_reserved key)) e1) in
      let (_, s2, q2, h2) = run_ok (reads (all_active permission_keys)) _ s1 h1 in
      let (_, w2) = reads-eq-ok (all_active permission_keys) s1 q2 in
      let (id, s3, q3, h3) = run_ok (draw uuid4) _ s2 h2 in
      let row : RoleRow = record {
        tenant_id = c.tenant_id;
        role_id = id;
        role_key = key;
        status = RowStatus.active;
        role_name = name;
        description = description;
        created_at = c.now;
        updated_at = c.now;
      } in
      let (_, s4, q4, h4) = run_ok (writes (insert_role row)) _ s3 h3 in
      let (e4, w4, _) = writes-eq-ok (insert_role row) s3 q4 in
      let has4 : Has (row ∷ rows) s4.working =
        ap (λ (db : Db). db.roles) w4
        ∙ ap (λ (db : Db). db.roles) (insert_unless_ok _ s3.working _ e4)
        ∙ ap (λ (db : Db). row ∷ db.roles) (draw-eq-ok uuid4 s2 q3).0
        ∙ ap (λ (u : Session). row ∷ u.working.roles) (w2 ∙ w1) in
      let (_, s5, q5, h5) = run_ok (grant_permissions uuid4 rules c id permission_keys) _ s4 h4 in
      let has5 =
        kept (row ∷ rows) (grant_permissions uuid4 rules c id permission_keys) s4 s5
          (grant_permissions-Keeps (row ∷ rows) id permission_keys) q5 has4 in
      let record_change =
        audit uuid4 c (codes "security.role.create") (codes "ROLE") (uuid_text id) in
      let (_, s6, q6, h6) = run_ok record_change _ s5 h5 in
      let has6 =
        kept (row ∷ rows) record_change s5 s6
          (audit-Keeps (λ db l k. k) uuid4 c (codes "security.role.create") (codes "ROLE")
            (uuid_text id))
          q6 has5 in
      let (_, s7, q7, h7) = run_ok commit _ s6 h6 in
      let (found, s8, q8, h8) = run_ok (reads (λ db. ok (get_role c.tenant_id id db))) _ s7 h7 in
      let (e8, w8) = reads-eq-ok (λ db. ok (get_role c.tenant_id id db)) s7 q8 in
      let (e9, w9) = lift-eq-ok (reload_role uuid4 rules c found) s8 h8 in
      let has7 : Has (row ∷ rows) s7.working =
        ap (λ (o : Outcome (Unit {0})). o.1.working.roles) (sym q7) ∙ has6 in
      let stored : Has (row ∷ rows) t.committed =
        ap (λ (u : Session). u.committed.roles) (w9 ∙ w8)
        ∙ ap (λ (o : Outcome (Unit {0})). o.1.committed.roles) (sym q7)
        ∙ has6 in
      subst (IsNewRole key s.working t.committed)
        (reload_role_lem rows row role s7.working refl has7
          (ap (reload_role uuid4 rules c) (ok-injective e8) ∙ e9))
        (record {
          stored = stored;
          of_tenant = refl;
          asked = refl;
          is_open = free;
          is_plain = not_privileged key free;
        })
    where
      not_false : (b : Bool) → not b ≡ true → b ≡ false
      not_false b k = ground arith
