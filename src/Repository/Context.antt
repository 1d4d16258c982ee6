-- ===== src/Repository/Context.antt =====
-- SecurityRepository: the device row, assigned locations, schedules and overrides.
use verigence_security.Common.{
  Bool, ◌&&◌, not, List, [], ◌∷◌, map, Option, none, some, ltb, leb, ◌==◌, select, find_first,
  flat_map, if◌then◌else◌,
}
use verigence_security.Core.Types.{Uuid, Instant}
use verigence_security.Core.Errors.{
  device_not_registered, device_approval_required, device_not_active, access_schedule_missing,
}
use verigence_security.Core.Result.{Result, ok, deny_if, or_deny, ◌>>=◌, ◌>>◌}
use verigence_security.Db.Schema.{
  Db, DeviceRow, LocationRow, LocationAssignmentRow, WindowRow, OverrideRow, device_active,
  device_pending, in_force, valid_at,
}
use verigence_security.Geo.Distance.{LocationCandidate}
use verigence_security.Schedule.{ScheduleWindow}

abbrev pub is_device : Uuid → Uuid → Uuid → DeviceRow → Bool
is_device user_id tenant_id device_id r =
    r.tenant_id == tenant_id && (r.user_id == user_id && r.device_id == device_id)

-- The query behind `FOR UPDATE`, once the lock is held.
unfoldable pub lock_active_device : Uuid → Uuid → Uuid → Db → Result DeviceRow
lock_active_device user_id tenant_id device_id db = do
  row ←
      or_deny (find_first (is_device user_id tenant_id device_id) db.devices) device_not_registered
  deny_if (device_pending row.status) device_approval_required
  deny_if (not (device_active row.status)) device_not_active
  ok row

abbrev pub candidate : LocationAssignmentRow → LocationRow → LocationCandidate
candidate a l = record {
  location_id = l.location_id;
  latitude = l.latitude;
  longitude = l.longitude;
  allowed_radius_meters = l.allowed_radius_meters;
  timezone_iana = l.timezone_iana;
  schedule_id = a.schedule_id;
}

abbrev pub is_assigned : Uuid → Uuid → Instant → LocationAssignmentRow → Bool
is_assigned user_id tenant_id now a =
    a.tenant_id == tenant_id
    && (a.user_id == user_id && (in_force a.status && valid_at now a.valid_from a.valid_to))

abbrev pub is_location_of : LocationAssignmentRow → LocationRow → Bool
is_location_of a l =
    l.tenant_id == a.tenant_id && (l.location_id == a.location_id && in_force l.status)

unfoldable pub assigned_locations : Uuid → Uuid → Instant → Db → List LocationCandidate
assigned_locations user_id tenant_id now db =
    flat_map (λ a. map (candidate a) (select (is_location_of a) db.locations))
      (select (is_assigned user_id tenant_id now) db.location_assignments)

unfoldable pub ensure_active_schedule : Uuid → Uuid → Db → Result (Unit {0})
ensure_active_schedule tenant_id schedule_id db = do
  row ←
      or_deny
        (find_first (λ r. r.tenant_id == tenant_id && r.schedule_id == schedule_id) db.schedules)
        access_schedule_missing
  deny_if (not (in_force row.status)) access_schedule_missing

abbrev pub window_of : WindowRow → ScheduleWindow
window_of r = record {
  iso_day_of_week = r.iso_day_of_week;
  start_local_time = r.start_local_time;
  end_local_time = r.end_local_time;
  crosses_midnight = r.crosses_midnight;
}

unfoldable pub schedule_windows : Uuid → Uuid → Db → List ScheduleWindow
schedule_windows tenant_id schedule_id db = map window_of (
    select (λ r. r.tenant_id == tenant_id && (r.schedule_id == schedule_id && in_force r.status))
      db.windows)

abbrev pub overrides_now : Uuid → Uuid → Uuid → Instant → OverrideRow → Bool
overrides_now tenant_id user_id location_id now r =
    r.tenant_id == tenant_id
    && (r.user_id == user_id
        && (r.location_id == location_id
            && (in_force r.status && (leb r.valid_from now && ltb now r.valid_to))))

-- `ORDER BY valid_to_utc DESC LIMIT 1`: the latest end among the rows.
abbrev pub latest_end : List OverrideRow → Option Instant
latest_end [] = none
latest_end (r ∷ rs) = elim (latest_end rs) [
  | none ↦ some r.valid_to
  | some t ↦ some (if ltb t r.valid_to then r.valid_to else t)
]

unfoldable pub active_override_until : Uuid → Uuid → Uuid → Instant → Db → Option Instant
active_override_until tenant_id user_id location_id now db =
    latest_end (select (overrides_now tenant_id user_id location_id now) db.overrides)
