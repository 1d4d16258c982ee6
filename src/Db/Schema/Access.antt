-- ===== src/Db/Schema/Access.antt =====
-- Devices, locations, schedules, access sessions and the evidence of access decisions.
use Prim.Native.Nat.{ℕ}
use mathlib.Core.Bool.{Bool}
use mathlib.Core.Option.{Option}
use verigence_security.Common.{Text}
use verigence_security.Core.Types.{
  Uuid, Instant, WallTime, Double, Timestamp, ActorType, GeoSource, GeoIntegrityStatus, VpnStatus,
}
use verigence_security.Db.Schema.Status.{DeviceStatus, RequestStatus, SessionStatus, RowStatus}

-- What the enrolling client says of a device.
pub record DeviceDetails : Type 0 where
  pub device_type : Text
  pub platform : Text
  pub device_name : Option Text
  pub device_model : Option Text
  pub os_version : Option Text
  pub browser_name : Option Text
  pub browser_version : Option Text
  pub app_version : Option Text
  pub platform_device_identifier : Option Text
  pub mac_address : Option Text

pub record DeviceRow : Type 0 where
  pub device_id : Uuid
  pub tenant_id : Uuid
  pub user_id : Uuid
  pub details : DeviceDetails
  pub first_seen_ip : Text
  pub last_seen_ip : Text
  pub status : DeviceStatus
  pub registered_at : Instant
  pub last_seen_at : Instant
  pub approved_by_user_id : Option Uuid
  pub approved_at : Option Instant

pub record EnrollmentRow : Type 0 where
  pub enrollment_request_id : Uuid
  pub tenant_id : Uuid
  pub user_id : Uuid
  pub device_id : Uuid
  pub source_ip : Text
  pub latitude : Option Double
  pub longitude : Option Double
  pub accuracy_meters : Option Double
  pub requested_at : Instant
  pub status : RequestStatus
  pub decided_by_user_id : Option Uuid
  pub decided_at : Option Instant

pub record LocationRow : Type 0 where
  pub tenant_id : Uuid
  pub location_id : Uuid
  pub latitude : Double
  pub longitude : Double
  pub allowed_radius_meters : Double
  pub timezone_iana : Text
  pub status : RowStatus

pub record LocationAssignmentRow : Type 0 where
  pub tenant_id : Uuid
  pub user_id : Uuid
  pub location_id : Uuid
  pub schedule_id : Uuid
  pub status : RowStatus
  pub valid_from : Option Instant
  pub valid_to : Option Instant

pub record ScheduleRow : Type 0 where
  pub tenant_id : Uuid
  pub schedule_id : Uuid
  pub status : RowStatus

-- The times of day are microseconds since midnight.
pub record WindowRow : Type 0 where
  pub tenant_id : Uuid
  pub schedule_id : Uuid
  pub iso_day_of_week : ℕ
  pub start_local_time : ℕ
  pub end_local_time : ℕ
  pub crosses_midnight : Bool
  pub status : RowStatus

pub record OverrideRow : Type 0 where
  pub tenant_id : Uuid
  pub user_id : Uuid
  pub location_id : Uuid
  pub status : RowStatus
  pub valid_from : Instant
  pub valid_to : Instant

pub record SessionRow : Type 0 where
  pub access_session_id : Uuid
  pub tenant_id : Uuid
  pub principal_id : Uuid
  pub actor_type : ActorType
  pub membership_id : Option Uuid
  pub device_id : Option Uuid
  pub location_id : Option Uuid
  pub credential_id : Option Uuid
  pub authentication_source : Text
  pub authorization_version : Option ℕ
  pub source_ip : Text
  pub vpn_status : Option VpnStatus
  pub started_at : Instant
  pub expires_at : Instant
  pub last_activity_at : Instant
  pub last_geo_validated_at : Option Instant
  pub status : SessionStatus

pub data Decision : Type 0 where
  allow deny : Decision

-- The geo columns of an evaluation.
pub record SuppliedGeo : Type 0 where
  pub latitude : Double
  pub longitude : Double
  pub accuracy_meters : Double
  pub captured_at : Timestamp
  pub source : GeoSource
  pub integrity_status : GeoIntegrityStatus
  pub integrity_reason : Option Text

-- The location columns of an evaluation.
pub record MatchedLocation : Type 0 where
  pub matched_location_id : Uuid
  pub matched_distance_meters : Double
  pub evaluated_timezone : Text
  pub schedule_id : Uuid

pub record EvaluationRow : Type 0 where
  pub evaluation_id : Uuid
  pub access_session_id : Option Uuid
  pub tenant_id : Uuid
  pub principal_id : Uuid
  pub actor_type : ActorType
  pub supplied : Option SuppliedGeo
  pub matched : Option MatchedLocation
  pub evaluated_local_time : Option WallTime
  pub source_ip : Text
  pub vpn_status : Option VpnStatus
  pub decision : Decision
  pub decision_reason_code : Text
  pub correlation_id : Text
  pub evaluated_at : Instant
