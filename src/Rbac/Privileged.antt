-- ===== src/Rbac/Privileged.antt =====
-- services/privileged_access.py: a privileged role is asked for by one user and granted by another. The
-- constraints are those of migrations/0002 and 0008. The identifiers are canonical UUIDs; a decision
-- waits for the lock on its request, during which others may commit.
pub mod Ledger
pub mod Once
pub mod Opens
pub mod Follows
pub mod Decision
pub mod History
pub mod Granted
pub mod Rejected
pub mod Asked
use verigence_security.Common.{
  ℕ, Bool, true, false, ◌&&◌, ◌||◌, not, List, [], ◌∷◌, Option, none, some, Text, codes, ltb, ◌==◌,
  find_first, select, update_where, any, option_or, if◌then◌else◌,
}
use verigence_security.Core.Types.{Uuid, Instant}
use verigence_security.Core.Errors.{integrity_error, value_error, lookup_error}
use verigence_security.Core.Result.{Result, ok, err}
use verigence_security.Db.Schema.{
  Db, RoleRow, UserRoleRow, RowStatus, PrivilegedRequestRow, PrivilegedStatus, privileged_pending,
}
use verigence_security.Db.Transaction.{
  Action, ◌>>=◌, ◌>>◌, pure, raise, lift, reads, writes, modify, commit, rollback, draw,
  wait_for_lock,
}
use verigence_security.Platform.Uuids.{uuid_text}
use verigence_security.Rbac.Rows.{
  require, is_role, get_role, active_role, is_assigned, insert_assignment, Change, audit,
}
use verigence_security.Rbac.Rules.{global_rules, is_active_user, bump_versions}
use verigence_security.Rbac.Roles.{new_assignment}
use verigence_security.Rbac.Gate.{is_privileged, require_active_role, is_pending_for}
use verigence_security.Rbac.Gate.Assign.{on_integrity_error, unless_found, open_request}
use verigence_security.Rbac.Gate.Assign

-- A row of the join of the requests with the roles.
pub record KeyedRequest : Type 0 where
  pub row : PrivilegedRequestRow
  pub role_key : Text

-- What the calls answer: the dictionaries of `request_or_assign_user_role`, and `_public`.
pub data Answer : Type 0 where
  assignment : (created privileged : Bool) → Answer
  opened :
      (request_id tenant_id subject_user_id role_id requested_by_user_id : Uuid) (role_key : Text)
      → Answer
  known : KeyedRequest → Answer

abbrev pub role_of : PrivilegedRequestRow → Db → Option RoleRow
role_of r db = get_role r.tenant_id r.role_id db

abbrev pub keyed : PrivilegedRequestRow → Option RoleRow → Option KeyedRequest
keyed r none = none
keyed r (some role) = some (record { row = r; role_key = role.role_key })

abbrev pub joined : Option PrivilegedRequestRow → Db → Option KeyedRequest
joined none db = none
joined (some r) db = keyed r (role_of r db)

abbrev pub later : PrivilegedRequestRow → Option PrivilegedRequestRow → PrivilegedRequestRow
later r none = r
later r (some x) = if ltb r.requested_at x.requested_at then x else r

-- `ORDER BY requested_at_utc DESC LIMIT 1`
abbrev pub latest : List PrivilegedRequestRow → Option PrivilegedRequestRow
latest [] = none
latest (r ∷ rs) = some (later r (latest rs))

-- `_pending_request`
unfoldable pub pending_request : Uuid → Uuid → Uuid → Db → Option KeyedRequest
pending_request tenant_id user_id role_id db =
    joined (latest (select (is_pending_for tenant_id user_id role_id) db.privileged_requests)) db

abbrev pub is_request : Uuid → Uuid → PrivilegedRequestRow → Bool
is_request tenant_id request_id r = r.tenant_id == tenant_id && r.request_id == request_id

abbrev pub require_request : Option KeyedRequest → Result KeyedRequest
require_request none = err lookup_error
require_request (some k) = ok k

-- `_request`, and `_locked_request` behind its wait.
unfoldable pub request_of : Uuid → Uuid → Db → Result KeyedRequest
request_of tenant_id request_id db =
    require_request
      (joined (find_first (is_request tenant_id request_id) db.privileged_requests) db)

-- `_require_pending_and_independent`
abbrev pub require_pending_and_independent : PrivilegedRequestRow → Uuid → Result (Unit {0})
require_pending_and_independent r approver_user_id = require (
    privileged_pending r.status
    && (not (r.requested_by_user_id == approver_user_id)
        && not (r.subject_user_id == approver_user_id)))

-- The `CHECK`s on `approved_by_user_id`.
abbrev pub is_independent : PrivilegedRequestRow → Bool
is_independent r =
    option_or true (λ a. not (a == r.subject_user_id) && not (a == r.requested_by_user_id))
      r.approved_by_user_id

module _ (c : Change) where
  abbrev pub decided : PrivilegedStatus → Option Text → PrivilegedRequestRow → PrivilegedRequestRow
  decided status reason r = record r {
    status = status;
    approved_by_user_id = some c.actor_user_id;
    decided_at = some c.now;
    decision_reason = reason;
  }

  -- The `UPDATE`, which a `CHECK` may refuse.
  abbrev pub decide : PrivilegedStatus → Option Text → Uuid → Db → Result (Unit {0}) × Db
  decide status reason request_id db =
      elim (any
        (λ r. is_request c.tenant_id request_id r && not (is_independent (decided status reason r)))
        db.privileged_requests) [
          | true ↦ (err integrity_error, db)
          | false ↦ (
            ok tt,
            record db {
              privileged_requests =
                  update_where (is_request c.tenant_id request_id) (decided status reason)
                    db.privileged_requests;
            },
          )
        ]

module _ (uuid4 : ℕ → Uuid) (others : Db → Db) (c : Change) where
  -- The end of a decision: the record, the commit, and the answer read again.
  unfoldable pub conclude_decision : Text → Uuid → Text → Action Answer
  conclude_decision operation_key request_id role_key = do
    audit uuid4 c operation_key (codes "PRIVILEGED_ACCESS_REQUEST") (uuid_text request_id)
    commit
    k ← reads (request_of c.tenant_id request_id)
    pure (Answer.known (record k { role_key = role_key }))

  unfoldable pub settle_request :
      PrivilegedStatus → Option Text → Text → Uuid → Text → Action Answer
  unfolding conclude_decision
  settle_request status reason operation_key request_id role_key =
      writes (decide c status reason request_id)
      >> conclude_decision operation_key request_id role_key

  -- `_locked_request` and the checks.
  unfoldable pub open_for_decision : Uuid → Action KeyedRequest
  open_for_decision request_id = do
    wait_for_lock others
    k ← reads (request_of c.tenant_id request_id)
    lift (require_pending_and_independent k.row c.actor_user_id)
    pure k

  -- `if exists is None: INSERT; _bump_versions`
  unfoldable pub grant_unless : Bool → PrivilegedRequestRow → Action (Unit {0})
  grant_unless true r = pure tt
  grant_unless false r = do
    id ← draw uuid4
    writes
        (insert_assignment (new_assignment c id r.subject_user_id r.role_id r.requested_by_user_id))
    modify (bump_versions global_rules c.tenant_id (r.subject_user_id ∷ []) c.now)

  -- The checks on the subject and the role, and the assignment.
  unfoldable pub grant : PrivilegedRequestRow → Action (Unit {0})
  unfolding grant_unless
  grant r = do
    reads (λ db. require (is_active_user r.subject_user_id db))
    reads (λ db. require (active_role c.tenant_id r.role_id db))
    exists ← reads (λ db. ok (is_assigned c.tenant_id r.subject_user_id r.role_id db))
    grant_unless exists r

  unfoldable pub approve : Uuid → Option Text → Action Answer
  unfolding open_for_decision grant settle_request
  approve request_id reason = do
    k ← open_for_decision request_id
    grant k.row
    settle_request PrivilegedStatus.approved reason (codes "security.privileged_access.approve")
        request_id k.role_key

  unfoldable pub reject : Uuid → Option Text → Action Answer
  unfolding open_for_decision settle_request
  reject request_id reason = do
    k ← open_for_decision request_id
    settle_request PrivilegedStatus.rejected reason (codes "security.privileged_access.reject")
        request_id k.role_key

  -- `if pending is None: raise; return self._public(pending, role_key)`
  abbrev pub known_or_reraise : Text → Option KeyedRequest → Action Answer
  known_or_reraise role_key none = raise integrity_error
  known_or_reraise role_key (some k) = pure (Answer.known (record k { role_key = role_key }))

  abbrev pub opened_as : Uuid → Uuid → Text → Uuid → Action Answer
  opened_as user_id role_id role_key id =
      pure (Answer.opened id c.tenant_id user_id role_id c.actor_user_id role_key)

  unfoldable pub request_role : Uuid → Uuid → Text → Action Answer
  request_role user_id role_id role_key =
      on_integrity_error
        (open_request uuid4 others c user_id role_id >>= opened_as user_id role_id role_key)
        (rollback
          >> reads (λ db. ok (pending_request c.tenant_id user_id role_id db))
          >>= known_or_reraise role_key)

  -- A row that was found ends the call with the answer made of it.
  unfoldable pub unless_active : Bool → Action Answer → Action Answer
  unless_active true k = rollback >> pure (Answer.assignment false true)
  unless_active false k = k

  unfoldable pub unless_pending : Text → Option KeyedRequest → Action Answer → Action Answer
  unless_pending role_key none k = k
  unless_pending role_key (some p) k =
      rollback >> pure (Answer.known (record p { role_key = role_key }))

  unfoldable pub request_privileged : Uuid → Uuid → Text → Action Answer
  unfolding request_role
  request_privileged user_id role_id role_key = do
    active ← reads (λ db. ok (is_assigned c.tenant_id user_id role_id db))
    unless_active active (do
      pending ← reads (λ db. ok (pending_request c.tenant_id user_id role_id db))
      unless_pending role_key pending (request_role user_id role_id role_key))

  unfoldable pub request_or_assign_by_key : Bool → Uuid → Uuid → Text → Action Answer
  unfolding request_privileged
  request_or_assign_by_key true user_id role_id role_key =
      request_privileged user_id role_id role_key
  request_or_assign_by_key false user_id role_id role_key = do
    created ← Assign.assign_user_role uuid4 others c user_id role_id
    pure (Answer.assignment created false)

  unfoldable pub request_or_assign_user_role : Uuid → Uuid → Action Answer
  unfolding request_or_assign_by_key
  request_or_assign_user_role user_id role_id = do
    reads (λ db. require (is_active_user user_id db))
    role ← reads (λ db. require_active_role (get_role c.tenant_id role_id db))
    request_or_assign_by_key (is_privileged role.role_key) user_id role_id role.role_key
