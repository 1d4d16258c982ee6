-- ===== src/Rbac/Privileged/Asked.antt =====
-- Asking for a privileged role assigns it to nobody.
use mathlib.Core.Path.{◌≡◌, ◌∙◌, sym, ap, subst}
use verigence_security.Common.{ℕ, Bool, true, false, List, Option, none, some, arith}
use verigence_security.Core.Errors.{value_error}
use verigence_security.Core.Types.{Uuid}
use verigence_security.Core.Result.{Result, ok, err, ok-injective, ok-ne-err}
use verigence_security.Db.Schema.{Db, RoleRow, UserRoleRow, in_force}
use verigence_security.Db.Transaction.{Session, Action, ◌>>=◌, reads}
use verigence_security.Db.Steps.{reads-eq-ok}
use verigence_security.Db.Kept.{Holds, Keeps, reads-Keeps, after_ok}
use verigence_security.Rbac.Kept.{insert_unless-keeps}
use verigence_security.Rbac.Rows.{Change, require, get_role}
use verigence_security.Rbac.Rules.{is_active_user}
use verigence_security.Rbac.Gate.{is_privileged, require_active_role}
use verigence_security.Rbac.Gate.Assign
use verigence_security.Rbac.Gate.Assign.{assign_by_key}
use verigence_security.Rbac.Privileged.{request_or_assign_by_key, request_or_assign_user_role}
use verigence_security.Rbac.Privileged.Opens.{assign_privileged-Keeps, request_privileged-Keeps}

-- A role that is found ACTIVE is the role that was read.
found_active :
    (o : Option RoleRow) (role r : RoleRow)
    → o ≡ some role
    → require_active_role o ≡ ok r
    → r ≡ role
found_active none role r e h = absurd (ok-ne-err (sym h))
found_active (some x) role r e h = active (in_force x.status) h ∙ same
  where
    same : x ≡ role
    same = ground arith

    active : (b : Bool) → elim b [ true ↦ ok x | false ↦ err value_error ] ≡ ok r → r ≡ x
    active true q = sym (ok-injective q)
    active false q = absurd (ok-ne-err (sym q))

module _ (uuid4 : ℕ → Uuid) (others : Db → Db) (c : Change) (user_id role_id : Uuid)
    (role : RoleRow) (privileged : is_privileged role.role_key ≡ true)
    (Q : List UserRoleRow → Type 0)
    (rely : (db : Db) → Q db.user_roles → Q (others db).user_roles) where
  abbrev U : Db → Type 0
  U db = Q db.user_roles

  -- The role is read as `role`, and what follows takes the way of privileged roles.
  behind_role :
      {A : Type 0} (f : Bool → RoleRow → Action A)
      → Keeps U U (f true role)
      → (s : Session) → get_role c.tenant_id role_id s.working ≡ some role
      → Holds U U s
      → Holds U U
          ((reads (λ db. require_active_role (get_role c.tenant_id role_id db)) >>= λ r.
              f (is_privileged r.role_key) r)
            s).1
  behind_role f k s e h =
      let g : Db → Result RoleRow = λ db. require_active_role (get_role c.tenant_id role_id db) in
      after_ok (Holds U U) (reads g) (λ r. f (is_privileged r.role_key) r) s
        (λ r t q.
          let (er, et) = reads-eq-ok g s q in
          let same = found_active (get_role c.tenant_id role_id s.working) role r e er in
          subst (λ (x : RoleRow). Holds U U (f (is_privileged x.role_key) x t).1) (sym same)
            (subst (λ b. Holds U U (f b role t).1) (sym privileged)
              (k.keeps t (subst (Holds U U) (sym et) h))))
        ((reads-Keeps {C = U} {W = U} g).keeps s h)

  -- When the role is privileged, neither the assignment of a role nor the request for it adds, ends or
  -- changes an assignment: whatever is true of the assignments, committed and in the transaction, and is
  -- kept by the other writers, is true of them behind the call, whether it answers or raises.
  pub request_or_assign-adds_none :
      (s : Session)
      → get_role c.tenant_id role_id s.working ≡ some role
      → Holds U U s
      → Holds U U (Assign.assign_user_role uuid4 others c user_id role_id s).1
        × Holds U U (request_or_assign_user_role uuid4 others c user_id role_id s).1
  unfolding Assign.assign_user_role assign_by_key request_or_assign_user_role
      request_or_assign_by_key
  request_or_assign-adds_none s e h = (
    behind_role (λ b r. assign_by_key uuid4 others c b user_id role_id)
        (assign_privileged-Keeps uuid4 others U rely (λ d rows q. q)
          (λ r _ _ db q. insert_unless-keeps U _ db _ q q) c user_id role_id)
        s e h,
    after_ok (Holds U U) (reads active) _ s
        (λ _ t q.
          let (_, et) = reads-eq-ok active s q in
          behind_role (λ b r. request_or_assign_by_key uuid4 others c b user_id role_id r.role_key)
            (request_privileged-Keeps uuid4 others U rely (λ d rows m. m)
              (λ r _ _ db m. insert_unless-keeps U _ db _ m m) c user_id role_id role.role_key)
            t (ap (λ (x : Session). get_role c.tenant_id role_id x.working) et ∙ e)
            (subst (Holds U U) (sym et) h))
        ((reads-Keeps {C = U} {W = U} active).keeps s h),
  )
    where
      active : Db → Result (Unit {0})
      active db = require (is_active_user user_id db)
