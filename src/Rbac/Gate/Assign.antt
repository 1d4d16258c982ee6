-- ===== src/Rbac/Gate/Assign.antt =====
-- TenantRbacGateService.assign_user_role: an ordinary role is assigned, a privileged one is asked for.
use verigence_security.Common.{ℕ, Bool, true, false, Option, none, some, codes, any}
use verigence_security.Core.Types.{Uuid}
use verigence_security.Core.Errors.{Exc, integrity_error}
use verigence_security.Core.Result.{Result, ok, err}
use verigence_security.Db.Schema.{Db, PrivilegedRequestRow, PrivilegedStatus}
use verigence_security.Db.Transaction.{
  Session, Action, ◌>>=◌, ◌>>◌, pure, raise, reads, writes, commit, rollback, draw, wait_for_lock,
}
use verigence_security.Platform.Uuids.{uuid_text}
use verigence_security.Rbac.Rows.{require, get_role, is_assigned, Change, audit}
use verigence_security.Rbac.Rules.{global_rules, is_active_user}
use verigence_security.Rbac.Roles
use verigence_security.Rbac.Gate.{
  is_privileged, require_active_role, is_pending_for, insert_request,
}

-- `except IntegrityError: handler`
abbrev pub caught : {A : Type 0} → Action A → Result A × Session → Result A × Session
caught handler (ok a, s) = (ok a, s)
caught handler (err Exc.integrity_error, s) = handler s
caught handler (err e, s) = (err e, s)

-- `try: body`, with that handler.
unfoldable pub on_integrity_error : {A : Type 0} → Action A → Action A → Action A
on_integrity_error body handler s = caught handler (body s)

-- `if row is not None: rollback; return answer`
unfoldable pub unless_found : {A : Type 0} → Option A → Action A → Action A
unless_found none k = k
unless_found (some a) k = rollback >> pure a

-- A row was found, or not.
abbrev pub when_found {ℓ} : {A : Type ℓ} → Bool → A → Option A
when_found true a = some a
when_found false a = none

module _ (c : Change) where
  abbrev pub new_request : Uuid → Uuid → Uuid → PrivilegedRequestRow
  new_request id user_id role_id = record {
    request_id = id;
    tenant_id = c.tenant_id;
    subject_user_id = user_id;
    role_id = role_id;
    source_invitation_id = none;
    status = PrivilegedStatus.pending;
    requested_by_user_id = c.actor_user_id;
    requested_at = c.now;
    approved_by_user_id = none;
    decided_at = none;
    decision_reason = none;
    correlation_id = c.correlation_id;
  }

module _ (uuid4 : ℕ → Uuid) (others : Db → Db) (c : Change) where
  -- The insert waits for those that others make of the same request.
  unfoldable pub open_request : Uuid → Uuid → Action Uuid
  open_request user_id role_id = do
    id ← draw uuid4
    wait_for_lock others
    writes (insert_request (new_request c id user_id role_id))
    audit uuid4 c (codes "security.privileged_access.request") (codes "PRIVILEGED_ACCESS_REQUEST")
        (uuid_text id)
    commit
    pure id

  abbrev pub is_pending : Uuid → Uuid → Db → Bool
  is_pending user_id role_id db =
      any (is_pending_for c.tenant_id user_id role_id) db.privileged_requests

  -- `if existing is None: raise`
  abbrev pub or_reraise : Bool → Action Bool
  or_reraise true = pure false
  or_reraise false = raise integrity_error

  unfoldable pub ask_for_role : Uuid → Uuid → Action Bool
  ask_for_role user_id role_id =
      on_integrity_error (open_request user_id role_id >> pure true)
        (rollback >> reads (λ db. ok (is_pending user_id role_id db)) >>= or_reraise)

  unfoldable pub assign_privileged : Uuid → Uuid → Action Bool
  assign_privileged user_id role_id = do
    reads (λ db. require (is_active_user user_id db))
    active ← reads (λ db. ok (is_assigned c.tenant_id user_id role_id db))
    unless_found (when_found active false) (do
      pending ← reads (λ db. ok (is_pending user_id role_id db))
      unless_found (when_found pending false) (ask_for_role user_id role_id))

  unfoldable pub assign_by_key : Bool → Uuid → Uuid → Action Bool
  assign_by_key true user_id role_id = assign_privileged user_id role_id
  assign_by_key false user_id role_id = Roles.assign_user_role uuid4 global_rules c user_id role_id

  unfoldable pub assign_user_role : Uuid → Uuid → Action Bool
  unfolding assign_by_key
  assign_user_role user_id role_id = do
    role ← reads (λ db. require_active_role (get_role c.tenant_id role_id db))
    assign_by_key (is_privileged role.role_key) user_id role_id
