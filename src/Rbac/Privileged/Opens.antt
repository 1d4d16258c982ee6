-- ===== src/Rbac/Privileged/Opens.antt =====
-- The path of a request for a privileged role: what it keeps true of the tables, where the insert of a
-- pending request, the record of a change and the other writers keep it.
use mathlib.Core.Path.{◌≡◌, refl}
use verigence_security.Common.{ℕ, Bool, true, false, List, Option, none, some, Text}
use verigence_security.Core.Types.{Uuid}
use verigence_security.Db.Schema.{Db, AdminChangeRow, PrivilegedRequestRow, PrivilegedStatus}
use verigence_security.Db.Transaction.{Action}
use verigence_security.Db.Kept.{
  Keeps, >>=-Keeps, pure-Keeps, raise-Keeps, reads-Keeps, writes-Keeps, draw-Keeps, commit-Keeps,
  rollback-Keeps, wait_for_lock-Keeps,
}
use verigence_security.Rbac.Kept.{audit-Keeps, on_integrity_error-Keeps}
use verigence_security.Rbac.Rows.{Change}
use verigence_security.Rbac.Gate.{insert_request}
use verigence_security.Rbac.Gate.Assign.{
  new_request, open_request, unless_found, when_found, ask_for_role, or_reraise, assign_privileged,
}
use verigence_security.Rbac.Privileged.{
  Answer, KeyedRequest, request_role, request_privileged, unless_active, unless_pending,
  known_or_reraise,
}

module _ (uuid4 : ℕ → Uuid) (others : Db → Db) (P : Db → Type 0)
    (rely : (db : Db) → P db → P (others db))
    (apart : (db : Db) (rows : List AdminChangeRow) → P db → P (record db { admin_changes = rows }))
    (opens : (r : PrivilegedRequestRow)
      → r.status ≡ PrivilegedStatus.pending
      → r.approved_by_user_id ≡ none
      → (db : Db) → P db
      → P (insert_request r db).1)
    (c : Change) where
  open_request-Keeps :
      (user_id role_id : Uuid) → Keeps P P (open_request uuid4 others c user_id role_id)
  unfolding open_request
  open_request-Keeps user_id role_id = >>=-Keeps (draw-Keeps uuid4) (λ id.
      >>=-Keeps (wait_for_lock-Keeps others rely rely) (λ _.
        >>=-Keeps (writes-Keeps _ (opens (new_request c id user_id role_id) refl refl)) (λ _.
          >>=-Keeps (audit-Keeps apart uuid4 c _ _ _)
            (λ _. >>=-Keeps (commit-Keeps (λ db h. h)) (λ _. pure-Keeps id)))))

  or_reraise-Keeps : (b : Bool) → Keeps P P (or_reraise uuid4 others c b)
  or_reraise-Keeps true = pure-Keeps false
  or_reraise-Keeps false = raise-Keeps _

  ask_for_role-Keeps :
      (user_id role_id : Uuid) → Keeps P P (ask_for_role uuid4 others c user_id role_id)
  unfolding ask_for_role
  ask_for_role-Keeps user_id role_id =
      on_integrity_error-Keeps
        (>>=-Keeps (open_request-Keeps user_id role_id) (λ _. pure-Keeps true))
        (>>=-Keeps (>>=-Keeps (rollback-Keeps (λ db h. h)) (λ _. reads-Keeps _))
          (λ b. or_reraise-Keeps b))

  unless_found-Keeps :
      {A : Type 0} (o : Option A) {k : Action A} → Keeps P P k → Keeps P P (unless_found o k)
  unfolding unless_found
  unless_found-Keeps none k = k
  unless_found-Keeps (some a) k = >>=-Keeps (rollback-Keeps (λ db h. h)) (λ _. pure-Keeps a)

  pub assign_privileged-Keeps :
      (user_id role_id : Uuid) → Keeps P P (assign_privileged uuid4 others c user_id role_id)
  unfolding assign_privileged
  assign_privileged-Keeps user_id role_id = >>=-Keeps (reads-Keeps _) (λ _.
      >>=-Keeps (reads-Keeps _) (λ active. unless_found-Keeps (when_found active false) (
        >>=-Keeps (reads-Keeps _) (λ pending.
          unless_found-Keeps (when_found pending false) (ask_for_role-Keeps user_id role_id)))))

  known_or_reraise-Keeps :
      (key : Text) (o : Option KeyedRequest) → Keeps P P (known_or_reraise uuid4 others c key o)
  known_or_reraise-Keeps key none = raise-Keeps _
  known_or_reraise-Keeps key (some k) = pure-Keeps _

  request_role-Keeps :
      (user_id role_id : Uuid) (key : Text)
      → Keeps P P (request_role uuid4 others c user_id role_id key)
  unfolding request_role
  request_role-Keeps user_id role_id key =
      on_integrity_error-Keeps (>>=-Keeps (open_request-Keeps user_id role_id) (λ id. pure-Keeps _))
        (>>=-Keeps (>>=-Keeps (rollback-Keeps (λ db h. h)) (λ _. reads-Keeps _))
          (λ o. known_or_reraise-Keeps key o))

  unless_active-Keeps :
      (b : Bool) {k : Action Answer} → Keeps P P k → Keeps P P (unless_active uuid4 others c b k)
  unfolding unless_active
  unless_active-Keeps true k = >>=-Keeps (rollback-Keeps (λ db h. h)) (λ _. pure-Keeps _)
  unless_active-Keeps false k = k

  unless_pending-Keeps :
      (key : Text) (o : Option KeyedRequest) {k : Action Answer}
      → Keeps P P k
      → Keeps P P (unless_pending uuid4 others c key o k)
  unfolding unless_pending
  unless_pending-Keeps key none k = k
  unless_pending-Keeps key (some p) k = >>=-Keeps (rollback-Keeps (λ db h. h)) (λ _. pure-Keeps _)

  pub request_privileged-Keeps :
      (user_id role_id : Uuid) (key : Text)
      → Keeps P P (request_privileged uuid4 others c user_id role_id key)
  unfolding request_privileged
  request_privileged-Keeps user_id role_id key = >>=-Keeps (reads-Keeps _) (λ active.
      unless_active-Keeps active (
        >>=-Keeps (reads-Keeps _)
          (λ o. unless_pending-Keeps key o (request_role-Keeps user_id role_id key))))
