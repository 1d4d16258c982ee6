-- ===== src/Rbac/Privileged/Rejected.antt =====
-- What a rejection rests on, and what it leaves.
use mathlib.Core.Path.{◌≡◌, ◌∙◌, ap, subst}
use verigence_security.Common.{ℕ, Option, Text, update_where}
use verigence_security.Core.Types.{Uuid}
use verigence_security.Core.Result.{ok}
use verigence_security.Db.Schema.{Db, PrivilegedRequestRow, PrivilegedStatus}
use verigence_security.Db.Transaction.{Session}
use verigence_security.Db.Steps.{run_ok}
use verigence_security.Rbac.Rows.{Change}
use verigence_security.Rbac.Privileged.{Answer, is_request, decided, open_for_decision, reject}
use verigence_security.Rbac.Privileged.Decision.{IsOpenRequest, open_for_decision_ok}
use verigence_security.Rbac.Privileged.Granted.{settle_request_ok}

-- What a rejection rests on, in the tables `before`, and what it leaves in those `after`.
pub record IsRejection (c : Change) (reason : Option Text) (request_id : Uuid) (before after : Db)
    : Type 0 where
  pub request : PrivilegedRequestRow
  pub asked : IsOpenRequest c request_id before request
  pub assignments : after.user_roles ≡ before.user_roles
  pub settled :
      after.privileged_requests
      ≡ update_where
          (is_request c.tenant_id request_id)
          (decided c PrivilegedStatus.rejected reason)
          before.privileged_requests

-- A rejection succeeds only on a request that is PENDING, by a user who neither made it nor is its
-- subject, as found behind the wait for its lock. Then the request is REJECTED in the committed tables,
-- and every assignment of a role is as it was.
pub reject-IsRejection :
    (uuid4 : ℕ → Uuid) (others : Db → Db) (c : Change) (request_id : Uuid) (reason : Option Text)
    (s s' : Session) (a : Answer)
    → reject uuid4 others c request_id reason s ≡ (ok a, s')
    → IsRejection c reason request_id (others s.working) s'.committed
unfolding reject
reject-IsRejection uuid4 others c request_id reason s s' a h =
    let (k, t, q, h1) = run_ok (open_for_decision uuid4 others c request_id) _ s h in
    let (_, w, asked) = open_for_decision_ok uuid4 others c request_id s t k q in
    let (settled, roles) =
      settle_request_ok uuid4 others c PrivilegedStatus.rejected reason _ request_id k.role_key t s'
        a h1 in
    record {
      request = k.row;
      asked = subst (λ db. IsOpenRequest c request_id db k.row) w asked;
      assignments = roles ∙ ap (λ (d : Db). d.user_roles) w;
      settled =
          settled
          ∙ ap
              (λ (d : Db).
                update_where (is_request c.tenant_id request_id)
                  (decided c PrivilegedStatus.rejected reason) d.privileged_requests)
              w;
    }
