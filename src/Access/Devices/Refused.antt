-- ===== src/Access/Devices/Refused.antt =====
-- What an approval leaves behind when it does not succeed.
use mathlib.Core.Path.{◌≡◌}
use mathlib.Core.Logic.{◌⊎◌}
use mathlib.Core.Option.{Option, none, some}
use verigence_security.Common.{Bool, true, false}
use verigence_security.Core.Result.{ok}
use verigence_security.Db.Schema.{Db, DeviceRow, PolicyRow}
use verigence_security.Db.Transaction.{Session, Action, ◌>>=◌, reads, or_rollback, wait_for_lock}
use verigence_security.Db.Steps.{commits_nothing}
use verigence_security.Db.Settled.{CommitsIfTrue, commits_if_true, or_rollback-CommitsIfTrue}
use verigence_security.Repository.Directory.{get_tenant_policy}
use verigence_security.Repository.Devices.{
  Approval, lock_membership_for_device_limit, pending_device_for_update,
}
use verigence_security.Access.Devices.{
  require_row, settle, decide_pending, approve, approve_pending_device,
}

module _ (others : Db → Db) (a : Approval) where
  settle-CommitsIfTrue : (b : Bool) → CommitsIfTrue (settle others a b)
  settle-CommitsIfTrue true = search commits_if_true depth 3
  settle-CommitsIfTrue false = search commits_if_true depth 3

  decide_pending-CommitsIfTrue :
      (p : PolicyRow) (o : Option DeviceRow) → CommitsIfTrue (decide_pending others a p o)
  unfolding decide_pending
  decide_pending-CommitsIfTrue p none = search commits_if_true depth 3
  decide_pending-CommitsIfTrue p (some d) =
      search (commits_if_true, commits_nothing, settle-CommitsIfTrue) depth 9

  -- The call behind the lock.
  abbrev locked : Action Bool
  locked =
      reads (λ db. require_row (lock_membership_for_device_limit a.tenant_id a.user_id db)) >>= λ _.
      reads (get_tenant_policy a.tenant_id) >>= λ policy.
      reads (λ db. ok (pending_device_for_update a.tenant_id a.user_id a.device_id db))
      >>= λ pending. decide_pending others a policy pending

  locked-CommitsIfTrue : CommitsIfTrue locked
  locked-CommitsIfTrue =
      search (commits_if_true, commits_nothing, decide_pending-CommitsIfTrue) depth 12

  -- An approval that raises or answers false changes nothing: the tables are, as committed and as the
  -- transaction sees them, what the other transactions committed while it waited.
  pub approve_pending_device_refused :
      (s : Session)
      → ((approve_pending_device others a s).0 ≡ ok true)
        ⊎ (((approve_pending_device others a s).1.committed ≡ others s.committed)
            × ((approve_pending_device others a s).1.working ≡ others s.committed))
  unfolding approve_pending_device approve wait_for_lock ◌>>=◌ or_rollback
  approve_pending_device_refused s =
      or_rollback-CommitsIfTrue locked locked-CommitsIfTrue
        (record s { committed = others s.committed; working = others s.working })
