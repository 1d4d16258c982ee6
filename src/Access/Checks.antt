-- ===== src/Access/Checks.antt =====
-- The reads and tests of `create_or_reuse`, in their order, as functions of the tables: those before
-- the wait for the device's row lock, and those behind it.
pub mod Sound
pub mod Standing
use verigence_security.Common.{ℕ, ◌+◌, ◌*◌, ◌&&◌, not, List, Option, none, some, Text}
use Prim.Native.Nat.{min}
use verigence_security.Core.Types.{Uuid, Instant, is_detected, is_unknown, is_deny, Double}
use verigence_security.Core.Errors.{
  tenant_offboarding, tenant_not_active, vpn_access_denied, network_risk_unknown_denied,
}
use verigence_security.Core.Result.{Result, ok, deny_if, ◌>>=◌, ◌>>◌}
use verigence_security.Db.Schema.{Db, PolicyRow, tenant_active, tenant_leaving, SessionRow}
use verigence_security.Geo.Distance.{GeoSample, LocationCandidate, validate_geo}
use verigence_security.Geo.Matching.{match_location}
use verigence_security.Schedule.{ScheduleDecision, evaluate_schedule}
use verigence_security.Permissions.Validate.{validate_permissions}
use verigence_security.Network.{NetworkRiskResult}
use verigence_security.Runtime.{Runtime, UserRepository}
use verigence_security.Repository.Directory.{
  UserContext, tenant_status, resolve_identity_user, get_tenant_policy,
}
use verigence_security.Repository.Context.{
  lock_active_device, assigned_locations, ensure_active_schedule, schedule_windows,
  active_override_until,
}

-- The arguments of the call. `signed_at` is what the clock shows when the token is signed.
pub record AccessRequest : Type 0 where
  pub provider : Text
  pub provider_subject : Text
  pub tenant_id : Uuid
  pub device_id : Uuid
  pub geo : GeoSample
  pub source_ip : Text
  pub correlation_id : Text
  pub signed_at : Instant

-- Who asks, as the checks before the lock establish it.
pub record Admission : Type 0 where
  pub user_id : Uuid
  pub context : UserContext
  pub policy : PolicyRow

unfoldable pub require_tenant : Uuid → Db → Result (Unit {0})
require_tenant tenant_id db = do
  status ← tenant_status tenant_id db
  deny_if (tenant_leaving status) tenant_offboarding
  deny_if (not (tenant_active status)) tenant_not_active

-- The network policy of the tenant.
unfoldable pub require_network : NetworkRiskResult → PolicyRow → Result (Unit {0})
require_network risk policy = do
  deny_if (is_detected risk.vpn_status && is_deny policy.vpn_detected_action) vpn_access_denied
  deny_if (is_unknown risk.vpn_status && is_deny policy.vpn_unknown_action)
      network_risk_unknown_denied

-- What the checks behind the lock establish.
pub record Clearance : Type 0 where
  pub location : LocationCandidate
  pub distance : Double
  pub schedule : ScheduleDecision
  pub roles : List Text
  pub permissions : List Text

-- The geo checks, the match of the location and its schedule.
unfoldable pub locate :
    Runtime
    → Uuid
    → Uuid
    → PolicyRow
    → GeoSample
    → Instant
    → Db
    → Result (LocationCandidate × Double)
locate rt user_id tenant_id policy geo now db = do
  validate_geo rt.doubles geo policy.max_geo_accuracy_meters policy.max_geo_age_seconds now
  match_location rt.doubles geo (assigned_locations user_id tenant_id now db)

unfoldable pub check_schedule :
    Runtime → Uuid → Uuid → LocationCandidate → Instant → Db → Result ScheduleDecision
check_schedule rt user_id tenant_id location now db = do
  ensure_active_schedule tenant_id location.schedule_id db
  evaluate_schedule rt.zones now location.timezone_iana
      (schedule_windows tenant_id location.schedule_id db)
      (active_override_until tenant_id user_id location.location_id now db)

unfoldable pub check_context :
    Runtime
    → UserRepository
    → Uuid
    → Uuid
    → PolicyRow
    → GeoSample
    → NetworkRiskResult
    → Instant
    → Db
    → Result Clearance
check_context rt repo user_id tenant_id policy geo risk now db = do
  found ← locate rt user_id tenant_id policy geo now db
  schedule ← check_schedule rt user_id tenant_id found.0 now db
  require_network risk policy
  granted ← repo.effective_user_permissions tenant_id user_id now db
  permissions ← validate_permissions granted.1
  ok (record {
    location = found.0;
    distance = found.1;
    schedule = schedule;
    roles = granted.0;
    permissions = permissions;
  })

-- `timedelta(minutes=...)` and `timedelta(seconds=...)`, in microseconds. The policy columns are
-- 32-bit integers, so the sums stay within the years of a datetime.
abbrev pub minutes : ℕ → ℕ
minutes n = n * 60000000

abbrev pub seconds : ℕ → ℕ
seconds n = n * 1000000

-- The end that the policy sets to the session: counted from its start, or from now for a new one.
abbrev pub session_max_end : PolicyRow → Instant → Option SessionRow → Instant
session_max_end policy now none = now + minutes policy.session_max_duration_minutes
session_max_end policy now (some row) = row.started_at + minutes policy.session_max_duration_minutes

abbrev pub expiry_of : PolicyRow → Instant → Option SessionRow → ScheduleDecision → Instant
expiry_of policy now active schedule = min (now + minutes policy.access_token_ttl_minutes) (
    min (now + seconds policy.geo_revalidation_interval_seconds)
      (min (session_max_end policy now active) schedule.authorized_until))

unfoldable pub admit : UserRepository → AccessRequest → Instant → Db → Result Admission
admit repo req now db = do
  require_tenant req.tenant_id db
  user_id ← resolve_identity_user req.provider req.provider_subject db
  context ← repo.get_user_context user_id req.tenant_id now db
  policy ← get_tenant_policy req.tenant_id db
  ok (record { user_id = user_id; context = context; policy = policy })

-- The device, once its lock is held, and the context of the request.
unfoldable pub clear :
    Runtime
    → UserRepository
    → AccessRequest
    → Admission
    → NetworkRiskResult
    → Instant
    → Db
    → Result Clearance
clear rt repo req who risk now db = do
  device ← lock_active_device who.user_id req.tenant_id req.device_id db
  check_context rt repo who.user_id req.tenant_id who.policy req.geo risk now db
