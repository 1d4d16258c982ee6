-- ===== src/Tests/Data.antt =====
-- One tenant with a user, a device, a location and a schedule, and a request that is granted there.
use mathlib.Core.Option.{none, some}
use verigence_security.Common.{ℕ, false, List, [], ◌∷◌, Text, codes}
use verigence_security.Core.Types.{
  Instant, aware, user, system, GeoSource, GeoIntegrityStatus, PolicyAction, VpnStatus,
}
use verigence_security.Db.Schema.{
  Db, PolicyRow, DeviceDetails, DeviceRow, EnrollmentRow, SessionRow, TenantStatus, PrincipalStatus,
  UserStatus, MembershipStatus, PolicyStatus, RoleRow, CredentialRow, CredentialStatus, RowStatus,
  DeviceStatus, RequestStatus, SessionStatus,
}
use verigence_security.Db.Transaction.{Session}
use verigence_security.Geo.Distance.{GeoSample, LocationCandidate}
use verigence_security.Schedule.{ScheduleWindow}
use verigence_security.Access.Checks.{AccessRequest}

-- Noon of a Monday, the eighth day of the calendar.
abbrev pub noon : Instant
noon = 648000000000

abbrev pub sample : GeoSample
sample = record {
  latitude = 10;
  longitude = 20;
  accuracy_meters = 5;
  captured_at = aware noon;
  source = GeoSource.browser;
  integrity_status = GeoIntegrityStatus.normal;
  integrity_reason = none;
}

abbrev pub office : LocationCandidate
office = record {
  location_id = 41;
  latitude = 10;
  longitude = 20;
  allowed_radius_meters = 100;
  timezone_iana = codes "UTC";
  schedule_id = 51;
}

-- Mondays from nine to five.
abbrev pub window : ScheduleWindow
window = record {
  iso_day_of_week = 1;
  start_local_time = 32400000000;
  end_local_time = 61200000000;
  crosses_midnight = false;
}

abbrev pub read_key : Text
read_key = codes "erp.invoices.read"

abbrev pub details : DeviceDetails
details = record {
  device_type = codes "LAPTOP";
  platform = codes "WEB";
  device_name = none;
  device_model = none;
  os_version = none;
  browser_name = none;
  browser_version = none;
  app_version = none;
  platform_device_identifier = none;
  mac_address = none;
}

abbrev pub device : DeviceStatus → ℕ → DeviceRow
device status id = record {
  device_id = id;
  tenant_id = 1;
  user_id = 2;
  details = details;
  first_seen_ip = codes "10.0.0.1";
  last_seen_ip = codes "10.0.0.1";
  status = status;
  registered_at = 0;
  last_seen_at = 0;
  approved_by_user_id = none;
  approved_at = none;
}

abbrev pub enrollment : EnrollmentRow
enrollment = record {
  enrollment_request_id = 71;
  tenant_id = 1;
  user_id = 2;
  device_id = 32;
  source_ip = codes "10.0.0.1";
  latitude = none;
  longitude = none;
  accuracy_meters = none;
  requested_at = 0;
  status = RequestStatus.pending;
  decided_by_user_id = none;
  decided_at = none;
}

abbrev pub policy : PolicyRow
policy = record {
  tenant_id = 1;
  max_active_devices_per_user = 2;
  max_geo_accuracy_meters = 50;
  max_geo_age_seconds = 60;
  geo_revalidation_interval_seconds = 900;
  access_token_ttl_minutes = 10;
  machine_token_ttl_minutes = 10;
  session_idle_timeout_minutes = 30;
  session_max_duration_minutes = 480;
  vpn_detected_action = PolicyAction.deny;
  vpn_unknown_action = PolicyAction.deny;
  status = PolicyStatus.active;
}

-- A session that began a minute before noon.
abbrev pub open_row : SessionRow
open_row = record {
  access_session_id = 81;
  tenant_id = 1;
  principal_id = 2;
  actor_type = user;
  membership_id = some 21;
  device_id = some 31;
  location_id = some 41;
  credential_id = none;
  authentication_source = codes "CLERK";
  authorization_version = some 1;
  source_ip = codes "10.0.0.1";
  vpn_status = some VpnStatus.not_detected;
  started_at = 647940000000;
  expires_at = 648540000000;
  last_activity_at = 647940000000;
  last_geo_validated_at = some 647940000000;
  status = SessionStatus.active;
}

-- A secret that is its own hash.
abbrev pub secret : Text
secret = codes "00112233445566778899aabbccddeeff00112233445566778899aabbccddeeff"

abbrev pub credential : CredentialRow
credential = record {
  credential_id = 91;
  principal_id = 7;
  client_id = codes "svc";
  secret_hash = secret;
  status = CredentialStatus.active;
  valid_from = 0;
  valid_to = none;
  last_used_at = none;
}

abbrev pub role : ℕ → Text → RoleRow
role id key = record {
  tenant_id = 1;
  role_id = id;
  role_key = key;
  status = RowStatus.active;
  role_name = key;
  description = none;
  created_at = 0;
  updated_at = 0;
}

abbrev pub tables : List SessionRow → Db
tables sessions = record {
  tenants = record { tenant_id = 1; status = TenantStatus.active } ∷ [];
  principals =
      record { principal_id = 2; actor_type = user; status = PrincipalStatus.active }
      ∷ record { principal_id = 7; actor_type = system; status = PrincipalStatus.active }
      ∷ [];
  users = record { user_id = 2; status = UserStatus.active } ∷ [];
  identities =
      record {
        external_identity_id = 3;
        user_id = 2;
        provider = codes "CLERK";
        provider_subject = codes "u";
        status = RowStatus.active;
      }
      ∷ [];
  memberships =
      record {
        membership_id = 21;
        tenant_id = 1;
        user_id = 2;
        status = MembershipStatus.active;
        valid_from = none;
        valid_to = none;
        authorization_version = 1;
        updated_at = 0;
      }
      ∷ [];
  authorization_states = [];
  policies = policy ∷ [];
  credentials = credential ∷ [];
  scopes =
      record {
        principal_id = 7;
        tenant_id = 1;
        status = RowStatus.active;
        valid_from = none;
        valid_to = none;
      }
      ∷ [];
  grants =
      record {
        principal_id = 7;
        tenant_id = 1;
        permission_key = read_key;
        status = RowStatus.active;
      }
      ∷ [];
  permissions = record { permission_key = read_key; status = RowStatus.active } ∷ [];
  roles = role 61 (codes "CLERK") ∷ role 62 (codes "tenant.admin") ∷ [];
  user_roles =
      record {
        tenant_id = 1;
        user_id = 2;
        role_id = 61;
        status = RowStatus.active;
        valid_from = none;
        valid_to = none;
        assignment_id = 63;
        assigned_by_user_id = 5;
        assigned_at = 0;
      }
      ∷ [];
  role_permissions =
      record { tenant_id = 1; role_id = 61; permission_key = read_key; assigned_at = 0 } ∷ [];
  groups = [];
  group_memberships = [];
  group_roles = [];
  platform_roles = [];
  platform_user_roles = [];
  platform_role_permissions = [];
  devices = device DeviceStatus.active 31 ∷ device DeviceStatus.pending 32 ∷ [];
  enrollments = enrollment ∷ [];
  locations =
      record {
        tenant_id = 1;
        location_id = 41;
        latitude = 10;
        longitude = 20;
        allowed_radius_meters = 100;
        timezone_iana = codes "UTC";
        status = RowStatus.active;
      }
      ∷ [];
  location_assignments =
      record {
        tenant_id = 1;
        user_id = 2;
        location_id = 41;
        schedule_id = 51;
        status = RowStatus.active;
        valid_from = none;
        valid_to = none;
      }
      ∷ [];
  schedules = record { tenant_id = 1; schedule_id = 51; status = RowStatus.active } ∷ [];
  windows =
      record {
        tenant_id = 1;
        schedule_id = 51;
        iso_day_of_week = 1;
        start_local_time = 32400000000;
        end_local_time = 61200000000;
        crosses_midnight = false;
        status = RowStatus.active;
      }
      ∷ [];
  overrides = [];
  sessions = sessions;
  evaluations = [];
  privileged_requests = [];
  admin_changes = [];
}

abbrev pub session : List SessionRow → Session
session sessions = record { committed = tables sessions; working = tables sessions; draws = 0 }

abbrev pub request : AccessRequest
request = record {
  provider = codes "CLERK";
  provider_subject = codes "u";
  tenant_id = 1;
  device_id = 31;
  geo = sample;
  source_ip = codes "10.0.0.1";
  correlation_id = codes "c";
  signed_at = noon;
}
