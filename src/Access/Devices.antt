-- ===== src/Access/Devices.antt =====
-- services/device_lifecycle.py: the approval of a device under the tenant's limit of active devices.
pub mod Limit
pub mod Refused
use verigence_security.Common.{Bool, true, false, not, Option, none, some, leb}
use verigence_security.Core.Errors.{
  tenant_membership_required, tenant_membership_inactive, device_limit_reached,
}
use verigence_security.Core.Result.{Result, ok, deny, deny_if}
use verigence_security.Db.Schema.{Db, MembershipRow, DeviceRow, PolicyRow, membership_active}
use verigence_security.Db.Transaction.{
  Action, ◌>>=◌, ◌>>◌, pure, lift, reads, writes, commit, rollback, or_rollback, wait_for_lock,
}
use verigence_security.Repository.Directory.{get_tenant_policy}
use verigence_security.Repository.Devices.{
  Approval, lock_membership_for_device_limit, count_active_devices, pending_device_for_update,
  activate_pending_device,
}

abbrev pub require_row : Option MembershipRow → Result (Unit {0})
require_row none = deny tenant_membership_required
require_row (some m) = deny_if (not (membership_active m.status)) tenant_membership_inactive

module _ (others : Db → Db) (a : Approval) where
  abbrev pub activate : Db → Result Bool × Db
  activate db = let (done, db') = activate_pending_device a db in (ok done, db')

  -- `if not activated: rollback; return False`
  abbrev pub settle : Bool → Action Bool
  settle true = commit >> pure true
  settle false = rollback >> pure false

  unfoldable pub decide_pending : PolicyRow → Option DeviceRow → Action Bool
  decide_pending policy none = rollback >> pure false
  decide_pending policy (some d) = do
    active_devices ← reads (λ db. ok (count_active_devices a.tenant_id a.user_id db))
    lift (deny_if (leb policy.max_active_devices_per_user active_devices) device_limit_reached)
    done ← writes activate
    settle done

  unfoldable pub approve : Action Bool
  unfolding decide_pending
  approve = do
    wait_for_lock others
    reads (λ db. require_row (lock_membership_for_device_limit a.tenant_id a.user_id db))
    policy ← reads (get_tenant_policy a.tenant_id)
    pending ← reads (λ db. ok (pending_device_for_update a.tenant_id a.user_id a.device_id db))
    decide_pending policy pending

  unfoldable pub approve_pending_device : Action Bool
  unfolding approve
  approve_pending_device = or_rollback approve
