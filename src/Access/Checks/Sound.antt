-- ===== src/Access/Checks/Sound.antt =====
-- What the checks of an access establish when they let it through.
use mathlib.Core.Path.{◌≡◌, ◌∙◌, ap, subst}
use mathlib.Core.Logic.{◌⊎◌}
use mathlib.Core.Option.{some}
use native.Mathlib.Omega.{arith}
use verigence_security.Common.{true, false, ◌&&◌, not, ◌==◌, List, Text, find_first}
use verigence_security.Core.Types.{Uuid, Instant, VpnStatus, is_detected, is_unknown, is_deny}
use verigence_security.Core.Result.{
  ok, deny_if, or_deny, >>=-eq-ok, deny_if-eq-ok, or_deny-eq-ok, ok-injective,
}
use verigence_security.Core.Errors.{
  tenant_offboarding, tenant_not_active, vpn_access_denied, network_risk_unknown_denied,
  tenant_security_not_ready, device_not_registered, device_approval_required, device_not_active,
}
use verigence_security.Db.Schema.{
  Db, DeviceRow, PolicyRow, TenantStatus, tenant_active, tenant_leaving, policy_active,
  device_active, device_pending,
}
use verigence_security.Platform.Doubles.{IsOrdered}
use verigence_security.Geo.Distance.{
  GeoSample, LocationCandidate, IsFresh, validate_geo, validate_geo_iff,
}
use verigence_security.Geo.Matching.{Match, Holds, Nearest}
use verigence_security.Geo.Matching.Nearest.{match_location-Nearest}
use verigence_security.Schedule.{ScheduleDecision}
use verigence_security.Schedule.Windows.{ByOverride, ByWindow, evaluate_schedule_sound}
use verigence_security.Permissions.Validate.{
  validate_permissions, IsValidated, validate_permissions-IsValidated,
}
use verigence_security.Network.{NetworkRiskResult}
use verigence_security.Runtime.{Runtime, UserRepository}
use verigence_security.Repository.Directory.{tenant_status, get_tenant_policy}
use verigence_security.Repository.Context.{
  lock_active_device, is_device, assigned_locations, ensure_active_schedule, schedule_windows,
  active_override_until,
}
use verigence_security.Access.Checks.{
  Clearance, require_tenant, require_network, locate, check_schedule, check_context,
}

pub tenant_active_sound : (t : TenantStatus) → tenant_active t ≡ true → t ≡ TenantStatus.active
tenant_active_sound t h = ground arith

pub require_tenant_sound :
    (tenant_id : Uuid) (db : Db) {u : Unit {0}}
    → require_tenant tenant_id db ≡ ok u
    → tenant_status tenant_id db ≡ ok TenantStatus.active
unfolding require_tenant
require_tenant_sound tenant_id db h =
    let (t, et, h1) = >>=-eq-ok (tenant_status tenant_id db) _ h in
    let (_, e1, h2) = >>=-eq-ok (deny_if (tenant_leaving t) tenant_offboarding) _ h1 in
    et
    ∙ ap ok (
        tenant_active_sound t
          (ground (arith, deny_if-eq-ok (not (tenant_active t)) tenant_not_active h2)))

-- The tenant's policy, which is ACTIVE.
pub record HasPolicy (tenant_id : Uuid) (db : Db) (policy : PolicyRow) : Type 0 where
  pub found : find_first (λ p. p.tenant_id == tenant_id) db.policies ≡ some policy
  pub is_active : policy_active policy.status ≡ true

pub get_tenant_policy_sound :
    (tenant_id : Uuid) (db : Db) (p : PolicyRow)
    → get_tenant_policy tenant_id db ≡ ok p
    → HasPolicy tenant_id db p
unfolding get_tenant_policy
get_tenant_policy_sound tenant_id db p h =
    let (row, er, h1) =
      >>=-eq-ok
        (or_deny (find_first (λ x. x.tenant_id == tenant_id) db.policies) tenant_security_not_ready)
        _ h in
    let (_, ea, h2) =
      >>=-eq-ok (deny_if (not (policy_active row.status)) tenant_security_not_ready) _ h1 in
    subst (HasPolicy tenant_id db) (ok-injective h2) (record {
      found = or_deny-eq-ok _ tenant_security_not_ready er;
      is_active =
          ground
            (arith, deny_if-eq-ok (not (policy_active row.status)) tenant_security_not_ready ea);
    })

-- The device row that the lock found, which is ACTIVE.
pub record HasDevice (user_id tenant_id device_id : Uuid) (db : Db) : Type 0 where
  pub device : DeviceRow
  pub found : find_first (is_device user_id tenant_id device_id) db.devices ≡ some device
  pub is_active : device_active device.status ≡ true

pub lock_active_device_sound :
    (user_id tenant_id device_id : Uuid) (db : Db) (d : DeviceRow)
    → lock_active_device user_id tenant_id device_id db ≡ ok d
    → HasDevice user_id tenant_id device_id db
unfolding lock_active_device
lock_active_device_sound user_id tenant_id device_id db d h =
    let (r, er, h1) =
      >>=-eq-ok
        (or_deny (find_first (is_device user_id tenant_id device_id) db.devices)
          device_not_registered)
        _ h in
    let (_, e1, h2) = >>=-eq-ok (deny_if (device_pending r.status) device_approval_required) _ h1 in
    let (_, e2, h3) = >>=-eq-ok (deny_if (not (device_active r.status)) device_not_active) _ h2 in
    record {
      device = r;
      found = or_deny-eq-ok _ device_not_registered er;
      is_active = ground (arith, deny_if-eq-ok (not (device_active r.status)) device_not_active e2);
    }

-- The tenant's policy tolerates what the network adapter found.
pub record IsTolerated (v : VpnStatus) (policy : PolicyRow) : Type 0 where
  pub vpn_allowed : (is_detected v && is_deny policy.vpn_detected_action) ≡ false
  pub unknown_allowed : (is_unknown v && is_deny policy.vpn_unknown_action) ≡ false

pub require_network_sound :
    (risk : NetworkRiskResult) (policy : PolicyRow) {u : Unit {0}}
    → require_network risk policy ≡ ok u
    → IsTolerated risk.vpn_status policy
unfolding require_network
require_network_sound risk policy h =
    let (_, e1, h1) =
      >>=-eq-ok
        (deny_if (is_detected risk.vpn_status && is_deny policy.vpn_detected_action)
          vpn_access_denied)
        _ h in
    record {
      vpn_allowed = deny_if-eq-ok _ vpn_access_denied e1;
      unknown_allowed = deny_if-eq-ok _ network_risk_unknown_denied h1;
    }

-- The location is the nearest of those assigned to the user whose radius holds the sample, and the
-- sample is fresh.
pub record IsLocated (rt : Runtime) (user_id tenant_id : Uuid) (policy : PolicyRow)
    (geo : GeoSample) (now : Instant) (db : Db) (m : Match) : Type 0 where
  pub fresh : IsFresh rt.doubles geo policy.max_geo_accuracy_meters policy.max_geo_age_seconds now
  pub holds : Holds rt.doubles geo (assigned_locations user_id tenant_id now db) m
  pub is_nearest : Nearest rt.doubles geo (assigned_locations user_id tenant_id now db) m

locate_sound :
    (rt : Runtime)
    → IsOrdered rt.doubles
    → (user_id tenant_id : Uuid) (policy : PolicyRow) (geo : GeoSample) (now : Instant) (db : Db)
      (m : Match)
    → locate rt user_id tenant_id policy geo now db ≡ ok m
    → IsLocated rt user_id tenant_id policy geo now db m
unfolding locate
locate_sound rt o user_id tenant_id policy geo now db m h =
    let (_, ev, em) =
      >>=-eq-ok
        (validate_geo rt.doubles geo policy.max_geo_accuracy_meters policy.max_geo_age_seconds now)
        _ h in
    let (k, n) =
      match_location-Nearest rt.doubles o geo (assigned_locations user_id tenant_id now db) m em in
    record {
      fresh =
          (validate_geo_iff rt.doubles geo policy.max_geo_accuracy_meters policy.max_geo_age_seconds
              now).0
            ev;
      holds = k;
      is_nearest = n;
    }

-- The instant lies in an override or in a window of the location's schedule.
abbrev pub IsScheduled :
    Runtime → Uuid → Uuid → LocationCandidate → Instant → Db → ScheduleDecision → Type 0
IsScheduled rt user_id tenant_id l now db dec =
    ByOverride now (active_override_until tenant_id user_id l.location_id now db) dec
    ⊎ ByWindow rt.zones now l.timezone_iana (schedule_windows tenant_id l.schedule_id db) dec

check_schedule_sound :
    (rt : Runtime) (user_id tenant_id : Uuid) (l : LocationCandidate) (now : Instant) (db : Db)
    (dec : ScheduleDecision)
    → check_schedule rt user_id tenant_id l now db ≡ ok dec
    → IsScheduled rt user_id tenant_id l now db dec
unfolding check_schedule
check_schedule_sound rt user_id tenant_id l now db dec h =
    let (_, e, h1) = >>=-eq-ok (ensure_active_schedule tenant_id l.schedule_id db) _ h in
    evaluate_schedule_sound rt.zones now l.timezone_iana
      (schedule_windows tenant_id l.schedule_id db)
      (active_override_until tenant_id user_id l.location_id now db) dec h1

-- All that `check_context` has established of its answer.
pub record IsCleared (rt : Runtime) (repo : UserRepository) (user_id tenant_id : Uuid)
    (policy : PolicyRow) (geo : GeoSample) (risk : NetworkRiskResult) (now : Instant) (db : Db)
    (c : Clearance) : Type 0 where
  pub located : IsLocated rt user_id tenant_id policy geo now db (c.location, c.distance)
  pub scheduled : IsScheduled rt user_id tenant_id c.location now db c.schedule
  pub tolerated : IsTolerated risk.vpn_status policy
  pub stored : List Text
  pub granted : repo.effective_user_permissions tenant_id user_id now db ≡ ok (c.roles, stored)
  pub validated : IsValidated stored c.permissions

pub check_context-IsCleared :
    (rt : Runtime)
    → IsOrdered rt.doubles
    → (repo : UserRepository) (user_id tenant_id : Uuid) (policy : PolicyRow) (geo : GeoSample)
      (risk : NetworkRiskResult) (now : Instant) (db : Db) (c : Clearance)
    → check_context rt repo user_id tenant_id policy geo risk now db ≡ ok c
    → IsCleared rt repo user_id tenant_id policy geo risk now db c
unfolding check_context
check_context-IsCleared rt o repo user_id tenant_id policy geo risk now db c h =
    let (m, em, h1) = >>=-eq-ok (locate rt user_id tenant_id policy geo now db) _ h in
    let (sch, es, h2) = >>=-eq-ok (check_schedule rt user_id tenant_id m.0 now db) _ h1 in
    let (_, en, h3) = >>=-eq-ok (require_network risk policy) _ h2 in
    let (g, eg, h4) = >>=-eq-ok (repo.effective_user_permissions tenant_id user_id now db) _ h3 in
    let (ps, ep, h5) = >>=-eq-ok (validate_permissions g.1) _ h4 in
    subst (IsCleared rt repo user_id tenant_id policy geo risk now db) (ok-injective h5) (record {
      located = locate_sound rt o user_id tenant_id policy geo now db m em;
      scheduled = check_schedule_sound rt user_id tenant_id m.0 now db sch es;
      tolerated = require_network_sound risk policy en;
      stored = g.1;
      granted = eg;
      validated = validate_permissions-IsValidated g.1 ps ep;
    })
