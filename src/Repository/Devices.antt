-- ===== src/Repository/Devices.antt =====
-- DeviceSessionLifecycleRepository: enrollment and approval of devices.
use verigence_security.Common.{
  ℕ, Bool, false, ◌&&◌, not, ◌∷◌, Option, none, some, Text, ◌==◌, find_first, update_where, any,
  count_where, if◌then◌else◌,
}
use verigence_security.Core.Types.{Uuid, Instant, Double}
use verigence_security.Core.Errors.{integrity_error}
use verigence_security.Core.Result.{Result, ok, err}
use verigence_security.Db.Schema.{
  Db, DeviceDetails, DeviceRow, EnrollmentRow, MembershipRow, DeviceStatus, RequestStatus,
  device_active, device_pending, request_pending,
}
use verigence_security.Repository.Directory.{find_membership}
use verigence_security.Repository.Context.{is_device}

-- The arguments of `create_pending_enrollment`.
pub record NewEnrollment : Type 0 where
  pub enrollment_request_id : Uuid
  pub device_id : Uuid
  pub tenant_id : Uuid
  pub user_id : Uuid
  pub details : DeviceDetails
  pub source_ip : Text
  pub latitude : Option Double
  pub longitude : Option Double
  pub accuracy_meters : Option Double
  pub now : Instant

abbrev pub pending_device : NewEnrollment → DeviceRow
pending_device n = record {
  device_id = n.device_id;
  tenant_id = n.tenant_id;
  user_id = n.user_id;
  details = n.details;
  first_seen_ip = n.source_ip;
  last_seen_ip = n.source_ip;
  status = DeviceStatus.pending;
  registered_at = n.now;
  last_seen_at = n.now;
  approved_by_user_id = none;
  approved_at = none;
}

abbrev pub pending_request : NewEnrollment → EnrollmentRow
pending_request n = record {
  enrollment_request_id = n.enrollment_request_id;
  tenant_id = n.tenant_id;
  user_id = n.user_id;
  device_id = n.device_id;
  source_ip = n.source_ip;
  latitude = n.latitude;
  longitude = n.longitude;
  accuracy_meters = n.accuracy_meters;
  requested_at = n.now;
  status = RequestStatus.pending;
  decided_by_user_id = none;
  decided_at = none;
}

-- Two inserts, each of which its primary key can refuse; the first one stands when the second is
-- refused, until the rollback.
unfoldable pub create_pending_enrollment : NewEnrollment → Db → Result (Unit {0}) × Db
create_pending_enrollment n db =
    if any (λ r. r.device_id == n.device_id) db.devices
    then (err integrity_error, db)
    else let db' = record db { devices = pending_device n ∷ db.devices } in
      if any (λ r. r.enrollment_request_id == n.enrollment_request_id) db.enrollments
      then (err integrity_error, db')
      else (ok tt, record db' { enrollments = pending_request n ∷ db.enrollments })

unfoldable pub lock_membership_for_device_limit : Uuid → Uuid → Db → Option MembershipRow
lock_membership_for_device_limit tenant_id user_id db = find_membership db tenant_id user_id

abbrev pub is_active_device_of : Uuid → Uuid → DeviceRow → Bool
is_active_device_of tenant_id user_id r =
    r.tenant_id == tenant_id && (r.user_id == user_id && device_active r.status)

unfoldable pub count_active_devices : Uuid → Uuid → Db → ℕ
count_active_devices tenant_id user_id db =
    count_where (is_active_device_of tenant_id user_id) db.devices

abbrev pub is_pending_device : Uuid → Uuid → Uuid → DeviceRow → Bool
is_pending_device tenant_id user_id device_id r =
    is_device user_id tenant_id device_id r && device_pending r.status

unfoldable pub pending_device_for_update : Uuid → Uuid → Uuid → Db → Option DeviceRow
pending_device_for_update tenant_id user_id device_id db =
    find_first (is_pending_device tenant_id user_id device_id) db.devices

-- The arguments of `activate_pending_device`.
pub record Approval : Type 0 where
  pub enrollment_request_id : Uuid
  pub tenant_id : Uuid
  pub user_id : Uuid
  pub device_id : Uuid
  pub decided_by_user_id : Uuid
  pub decided_at : Instant

abbrev pub is_pending_request : Approval → EnrollmentRow → Bool
is_pending_request a r =
    r.enrollment_request_id == a.enrollment_request_id
    && (r.tenant_id == a.tenant_id
        && (r.user_id == a.user_id && (r.device_id == a.device_id && request_pending r.status)))

abbrev pub activated : Approval → DeviceRow → DeviceRow
activated a r = record r {
  status = DeviceStatus.active;
  approved_by_user_id = some a.decided_by_user_id;
  approved_at = some a.decided_at;
}

abbrev pub approved : Approval → EnrollmentRow → EnrollmentRow
approved a r = record r {
  status = RequestStatus.approved;
  decided_by_user_id = some a.decided_by_user_id;
  decided_at = some a.decided_at;
}

-- The request row is looked for first, then the device is updated, then the request; the last update
-- finds the row that the first query found.
unfoldable pub activate_pending_device : Approval → Db → Bool × Db
activate_pending_device a db =
    let p = is_pending_device a.tenant_id a.user_id a.device_id in
    if not (any (is_pending_request a) db.enrollments)
    then (false, db)
    else if not (any p db.devices)
    then (false, db)
    else (
      any (is_pending_request a) db.enrollments,
      record db {
        devices = update_where p (activated a) db.devices;
        enrollments = update_where (is_pending_request a) (approved a) db.enrollments;
      },
    )
