-- ===== src/Rbac/Privileged/Granted.antt =====
-- What an approval rests on, and what it leaves.
use mathlib.Core.Path.{◌≡◌, refl, ◌∙◌, sym, ap, subst}
use verigence_security.Common.{
  ℕ, Bool, true, false, ◌&&◌, not, List, [], ◌∷◌, Option, Text, codes, update_where, any,
  Bool-cases, ◌⊎◌, inl, inr,
}
use verigence_security.Core.Types.{Uuid}
use verigence_security.Core.Result.{Result, ok, ok-ne-err, ok-injective}
use verigence_security.Db.Schema.{Db, PrivilegedRequestRow, PrivilegedStatus, AdminChangeRow}
use verigence_security.Db.Transaction.{Session, pure, reads, writes, modify, commit, draw}
use verigence_security.Db.Steps.{Outcome, run_ok, reads-eq-ok, writes-eq-ok}
use verigence_security.Db.Kept.{Keeps}
use verigence_security.Platform.Uuids.{uuid_text}
use verigence_security.Rbac.Kept.{audit-Keeps, require-eq-ok}
use verigence_security.Rbac.Rows.{
  Change, audit, require, active_role, is_assignment, is_assigned, insert_assignment,
}
use verigence_security.Rbac.Rules.{is_active_user}
use verigence_security.Rbac.Rules.Bumped.{global_bump-keeps}
use verigence_security.Rbac.Roles.{new_assignment}
use verigence_security.Rbac.Roles.Assigned.{insert_assignment_ok}
use verigence_security.Rbac.Privileged.{
  Answer, is_request, request_of, is_independent, decide, decided, settle_request,
  conclude_decision, open_for_decision, grant, grant_unless, approve,
}
use verigence_security.Rbac.Privileged.Decision.{IsOpenRequest, open_for_decision_ok, grant-Keeps}

module _ (uuid4 : ℕ → Uuid) (others : Db → Db) (c : Change) where
  grant_unless_ok :
      (b : Bool) (r : PrivilegedRequestRow) (s t : Session)
      → is_assigned c.tenant_id r.subject_user_id r.role_id s.working ≡ b
      → grant_unless uuid4 others c b r s ≡ (ok tt, t)
      → is_assigned c.tenant_id r.subject_user_id r.role_id t.working ≡ true
  unfolding grant_unless modify draw pure
  grant_unless_ok true r s t e h =
      ap
        (λ (o : Outcome (Unit {0})).
          is_assigned c.tenant_id r.subject_user_id r.role_id o.1.working)
        (sym h)
      ∙ e
  grant_unless_ok false r s t e h =
      let (id, s1, q1, h1) = run_ok (draw uuid4) _ s h in
      let f =
        insert_assignment
          (new_assignment c id r.subject_user_id r.role_id r.requested_by_user_id) in
      let (_, s2, q2, h2) = run_ok (writes f) _ s1 h1 in
      let (e2, w2, _) = writes-eq-ok f s1 q2 in
      let assigned = is_assigned c.tenant_id r.subject_user_id r.role_id in
      let there =
        ap assigned w2
        ∙ insert_assignment_ok c id r.subject_user_id r.role_id r.requested_by_user_id s1.working
            e2 in
      let bumped =
        global_bump-keeps (λ db. assigned db ≡ true) (λ d rows q. q) c.tenant_id c.now
          (r.subject_user_id ∷ []) s2.working there in
      ap (λ (o : Outcome (Unit {0})). assigned o.1.working) (sym h2) ∙ bumped

  -- The subject and the role are active, and the role is assigned.
  grant_ok :
      (r : PrivilegedRequestRow) (s t : Session)
      → grant uuid4 others c r s ≡ (ok tt, t)
      → (is_active_user r.subject_user_id s.working ≡ true)
        × (active_role c.tenant_id r.role_id s.working ≡ true)
        × (is_assigned c.tenant_id r.subject_user_id r.role_id t.working ≡ true)
  unfolding grant
  grant_ok r s t h =
      let active : Db → Result (Unit {0}) = λ db. require (is_active_user r.subject_user_id db) in
      let role : Db → Result (Unit {0}) = λ db. require (active_role c.tenant_id r.role_id db) in
      let assigned : Db → Result Bool =
        λ db. ok (is_assigned c.tenant_id r.subject_user_id r.role_id db) in
      let (_, s1, q1, h1) = run_ok (reads active) _ s h in
      let (e1, w1) = reads-eq-ok active s q1 in
      let (_, s2, q2, h2) = run_ok (reads role) _ s1 h1 in
      let (e2, w2) = reads-eq-ok role s1 q2 in
      let (b, s3, q3, h3) = run_ok (reads assigned) _ s2 h2 in
      let (e3, w3) = reads-eq-ok assigned s2 q3 in
      (
        require-eq-ok _ e1,
        ap (λ (u : Session). active_role c.tenant_id r.role_id u.working) (sym w1)
            ∙ require-eq-ok _ e2,
        grant_unless_ok b r s3 t
            (ap (λ (u : Session). is_assigned c.tenant_id r.subject_user_id r.role_id u.working) w3
              ∙ ok-injective e3)
            h3,
      )

  -- What holds of the tables before the record of a decision is committed with it.
  pub conclude_decision_ok :
      (Q : Db → Type 0)
      → ((db : Db) (rows : List AdminChangeRow) → Q db → Q (record db { admin_changes = rows }))
      → (k : Text) (id : Uuid) (key : Text) (s t : Session) (a : Answer)
      → conclude_decision uuid4 others c k id key s ≡ (ok a, t)
      → Q s.working
      → Q t.committed
  unfolding conclude_decision commit pure
  conclude_decision_ok Q apart k id key s t a h q =
      let m = audit uuid4 c k (codes "PRIVILEGED_ACCESS_REQUEST") (uuid_text id) in
      let (_, s1, q1, h1) = run_ok m _ s h in
      let kept : Keeps (λ _. Unit {0}) Q m = audit-Keeps apart uuid4 c k _ _ in
      let q' : Q s1.working =
        subst (λ (o : Outcome (Unit {0})). Q o.1.working) q1 ((kept.keeps s (tt, q)).1) in
      let (_, s2, q2, h2) = run_ok commit _ s1 h1 in
      let (j, s3, q3, h3) = run_ok (reads (request_of c.tenant_id id)) _ s2 h2 in
      let (_, w3) = reads-eq-ok (request_of c.tenant_id id) s2 q3 in
      let there : s1.working ≡ t.committed =
        ap (λ (o : Outcome (Unit {0})). o.1.committed) q2
        ∙ ap (λ (u : Session). u.committed) (sym w3)
        ∙ ap (λ (o : Outcome Answer). o.1.committed) h3 in
      subst Q there q'

  decide_ok :
      (status : PrivilegedStatus) (reason : Option Text) (id : Uuid) (db : Db)
      → (decide c status reason id db).0 ≡ ok tt
      → (decide c status reason id db).1 ≡ record db {
        privileged_requests =
            update_where
              (is_request c.tenant_id id)
              (decided c status reason)
              db.privileged_requests;
      }
  decide_ok status reason id db h = chosen (Bool-cases refused)
    where
      refused : Bool
      refused =
          any (λ x. is_request c.tenant_id id x && not (is_independent (decided c status reason x)))
            db.privileged_requests

      chosen :
          (refused ≡ true) ⊎ (refused ≡ false)
          → (decide c status reason id db).1 ≡ record db {
            privileged_requests =
                update_where
                  (is_request c.tenant_id id)
                  (decided c status reason)
                  db.privileged_requests;
          }
      chosen (inl q) = absurd (ok-ne-err (sym (rw (decide, q) at h)))
      chosen (inr q) = rw (decide, q) refl

  -- The committed tables behind a decision: the request decided, the assignments as they were.
  pub settle_request_ok :
      (status : PrivilegedStatus) (reason : Option Text) (k : Text) (id : Uuid) (key : Text)
      (s t : Session) (a : Answer)
      → settle_request uuid4 others c status reason k id key s ≡ (ok a, t)
      → (t.committed.privileged_requests
          ≡ update_where
              (is_request c.tenant_id id)
              (decided c status reason)
              s.working.privileged_requests)
        × (t.committed.user_roles ≡ s.working.user_roles)
  unfolding settle_request
  settle_request_ok status reason k id key s t a h =
      let (_, s1, q1, h1) = run_ok (writes (decide c status reason id)) _ s h in
      let (e1, w1, _) = writes-eq-ok (decide c status reason id) s q1 in
      let e = w1 ∙ decide_ok status reason id s.working e1 in
      conclude_decision_ok
        (λ db.
          (db.privileged_requests
            ≡ update_where (is_request c.tenant_id id) (decided c status reason)
                s.working.privileged_requests)
          × (db.user_roles ≡ s.working.user_roles))
        (λ d rows q. q) k id key s1 t a h1
        (ap (λ (d : Db). d.privileged_requests) e, ap (λ (d : Db). d.user_roles) e)

-- What an approval rests on, in the tables `before`, and what it leaves in those `after`.
pub record IsApproval (c : Change) (reason : Option Text) (request_id : Uuid) (before after : Db)
    : Type 0 where
  pub request : PrivilegedRequestRow
  pub asked : IsOpenRequest c request_id before request
  pub subject_active : is_active_user request.subject_user_id before ≡ true
  pub role_active : active_role c.tenant_id request.role_id before ≡ true
  pub granted : is_assigned c.tenant_id request.subject_user_id request.role_id after ≡ true
  pub settled :
      after.privileged_requests
      ≡ update_where
          (is_request c.tenant_id request_id)
          (decided c PrivilegedStatus.approved reason)
          before.privileged_requests

-- An approval succeeds only on a request that is PENDING, by a user who neither made it nor is its
-- subject, for an ACTIVE user and an ACTIVE role, all as found behind the wait for its lock. Then the
-- role is assigned to the subject in the committed tables, and the request is APPROVED there.
pub approve-IsApproval :
    (uuid4 : ℕ → Uuid) (others : Db → Db) (c : Change) (request_id : Uuid) (reason : Option Text)
    (s s' : Session) (a : Answer)
    → approve uuid4 others c request_id reason s ≡ (ok a, s')
    → IsApproval c reason request_id (others s.working) s'.committed
unfolding approve
approve-IsApproval uuid4 others c request_id reason s s' a h =
    let (k, t, q, h1) = run_ok (open_for_decision uuid4 others c request_id) _ s h in
    let (_, w, asked) = open_for_decision_ok uuid4 others c request_id s t k q in
    let (_, u, q2, h2) = run_ok (grant uuid4 others c k.row) _ t h1 in
    let (active, role, there) = grant_ok uuid4 others c k.row t u q2 in
    let (settled, roles) =
      settle_request_ok uuid4 others c PrivilegedStatus.approved reason _ request_id k.role_key u s'
        a h2 in
    let kept : Keeps (λ _. Unit {0}) (λ db. db.privileged_requests ≡ t.working.privileged_requests)
        (grant uuid4 others c k.row) =
      grant-Keeps uuid4 others c (λ d rows e. e) (λ d rows e. e) k.row in
    let same : u.working.privileged_requests ≡ t.working.privileged_requests =
      subst
        (λ (o : Outcome (Unit {0})).
          o.1.working.privileged_requests ≡ t.working.privileged_requests)
        q2 ((kept.keeps t (tt, refl)).1) in
    record {
      request = k.row;
      asked = subst (λ db. IsOpenRequest c request_id db k.row) w asked;
      subject_active = ap (is_active_user k.row.subject_user_id) (sym w) ∙ active;
      role_active = ap (active_role c.tenant_id k.row.role_id) (sym w) ∙ role;
      granted =
          ap (any (is_assignment c.tenant_id k.row.subject_user_id k.row.role_id)) roles ∙ there;
      settled =
          settled
          ∙ ap
              (update_where (is_request c.tenant_id request_id)
                (decided c PrivilegedStatus.approved reason))
              (same ∙ ap (λ (d : Db). d.privileged_requests) w);
    }
