-- ===== src/Access/User/Allowed.antt =====
-- What holds of every access that `create_or_reuse` grants.
use mathlib.Core.Path.{◌≡◌, subst, sym}
use mathlib.Core.Option.{Option}
use native.Mathlib.Omega.{arith}
use verigence_security.Common.{◌+◌, ◌≤◌}
use verigence_security.Core.Types.{Instant}
use verigence_security.Core.Result.{ok, >>=-eq-ok, ok-injective}
use verigence_security.Db.Schema.{Db, PolicyRow, SessionRow, TenantStatus}
use verigence_security.Db.Transaction.{Session}
use verigence_security.Platform.Doubles.{IsOrdered}
use verigence_security.Network.{NetworkRiskResult}
use verigence_security.Schedule.{ScheduleDecision}
use verigence_security.Runtime.{Runtime, UserRepository}
use verigence_security.Repository.Directory.{
  tenant_status, resolve_identity_user, get_tenant_policy,
}
use verigence_security.Repository.Context.{lock_active_device}
use verigence_security.Access.Checks.{
  AccessRequest, Admission, Clearance, require_tenant, admit, clear, expiry_of, minutes, seconds,
  session_max_end,
}
use verigence_security.Access.Checks.Sound.{
  require_tenant_sound, HasPolicy, get_tenant_policy_sound, HasDevice, lock_active_device_sound,
  IsCleared, check_context-IsCleared,
}
use verigence_security.Access.Checks.Standing.{
  IsRuntimeRepository, IsIdentified, resolve_identity_user-IsIdentified, IsActiveUser,
  get_user_context-IsActiveUser,
}
use verigence_security.Access.User.Granted.{IsGranted}
use verigence_security.Access.User.{AccessGrant, create_or_reuse}
use verigence_security.Access.User.Decided.{create_or_reuse-Decided, seen_after}

module _ (rt : Runtime) (repo : UserRepository) (req : AccessRequest) (now : Instant) where
  -- What the checks before the lock establish.
  pub record IsAdmitted (db : Db) (who : Admission) : Type 0 where
    pub tenant_is_active : tenant_status req.tenant_id db ≡ ok TenantStatus.active
    pub identity : IsIdentified req.provider req.provider_subject db who.user_id
    pub is_active : IsActiveUser repo who.user_id req.tenant_id now db
    pub policy_known : HasPolicy req.tenant_id db who.policy

  admit_sound :
      IsRuntimeRepository repo
      → (db : Db) (who : Admission) → admit repo req now db ≡ ok who
      → IsAdmitted db who
  unfolding admit
  admit_sound k db who h =
      let (_, et, h1) = >>=-eq-ok (require_tenant req.tenant_id db) _ h in
      let (u, eu, h2) =
        >>=-eq-ok (resolve_identity_user req.provider req.provider_subject db) _ h1 in
      let (c, ec, h3) = >>=-eq-ok (repo.get_user_context u req.tenant_id now db) _ h2 in
      let (p, ep, h4) = >>=-eq-ok (get_tenant_policy req.tenant_id db) _ h3 in
      subst (IsAdmitted db) (ok-injective h4) (record {
        tenant_is_active = require_tenant_sound req.tenant_id db et;
        identity = resolve_identity_user-IsIdentified req.provider req.provider_subject db u eu;
        is_active = get_user_context-IsActiveUser u req.tenant_id now db c repo k ec;
        policy_known = get_tenant_policy_sound req.tenant_id db p ep;
      })

  clear_sound :
      IsOrdered rt.doubles
      → (who : Admission) (risk : NetworkRiskResult) (db : Db) (c : Clearance)
      → clear rt repo req who risk now db ≡ ok c
      → HasDevice who.user_id req.tenant_id req.device_id db
        × IsCleared rt repo who.user_id req.tenant_id who.policy req.geo risk now db c
  unfolding clear
  clear_sound o who risk db c h =
      let (d, ed, h1) =
        >>=-eq-ok (lock_active_device who.user_id req.tenant_id req.device_id db) _ h in
      (
        lock_active_device_sound who.user_id req.tenant_id req.device_id db d ed,
        check_context-IsCleared rt o repo who.user_id req.tenant_id who.policy req.geo risk now db c
            h1,
      )

  expiry_bounds :
      (p : PolicyRow) (active : Option SessionRow) (sch : ScheduleDecision)
      → (expiry_of p now active sch ≤ now + minutes p.access_token_ttl_minutes)
        × (expiry_of p now active sch ≤ now + seconds p.geo_revalidation_interval_seconds)
        × (expiry_of p now active sch ≤ session_max_end p now active)
        × (expiry_of p now active sch ≤ sch.authorized_until)
  expiry_bounds p active sch = omega arith

  -- Everything that an access rests on: before the lock the tenant, the identity, the user and the
  -- policy; behind it the device, the location, the schedule, the network and the permissions; and what
  -- is signed and stored, with the bounds on its end.
  pub record IsAllowed (s : Session) (after : Db) (g : AccessGrant) : Type 0 where
    pub risk : NetworkRiskResult
    pub who : Admission
    pub cleared : Clearance
    pub risk_known : rt.network req.source_ip req.correlation_id ≡ ok risk
    pub admitted : IsAdmitted s.working who
    pub device : HasDevice who.user_id req.tenant_id req.device_id (seen_after rt repo req now s)
    pub context :
        IsCleared rt repo who.user_id req.tenant_id who.policy req.geo risk now
          (seen_after rt repo req now s)
          cleared
    pub granted : IsGranted rt repo req now who cleared risk (seen_after rt repo req now s) after g
    pub within_ttl : g.expires_at ≤ now + minutes who.policy.access_token_ttl_minutes
    pub within_geo : g.expires_at ≤ now + seconds who.policy.geo_revalidation_interval_seconds
    pub within_session : g.expires_at ≤ session_max_end who.policy now granted.active
    pub within_schedule : g.expires_at ≤ cleared.schedule.authorized_until

  -- By either class of repository, an access is granted only to the ACTIVE user behind the identity of
  -- an ACTIVE USER principal, in an ACTIVE tenant with an ACTIVE policy, on an ACTIVE device of that user
  -- in that tenant, from a fresh sample within the radius of an assigned location, the nearest such,
  -- inside an override or a schedule window, over a network that the policy tolerates, and with the
  -- user's effective permissions, which are canonical and in order; where the repository asks for a
  -- membership, with an ACTIVE one that is in its time. The access ends with the token's lifetime, the
  -- interval of the next geo check, the maximum duration of the session, counted from its start, and the
  -- override or window at the latest. The token is signed with this end, and the committed tables hold
  -- the session with it: a new row, or that of the user's ACTIVE session on the device, updated. What
  -- others commit while the call waits for the device is seen by the later checks.
  pub create_or_reuse-IsAllowed :
      IsOrdered rt.doubles
      → IsRuntimeRepository repo
      → (s s' : Session) (g : AccessGrant) → create_or_reuse rt repo req now s ≡ (ok g, s')
      → IsAllowed s s'.committed g
  create_or_reuse-IsAllowed o k s s' g h =
      let d = create_or_reuse-Decided rt repo req now k s s' g h in
      let (device, context) =
        clear_sound o d.who d.risk (seen_after rt repo req now s) d.cleared d.cleared_by in
      let (ttl, geo, session, until) =
        expiry_bounds d.who.policy d.granted.active d.cleared.schedule in
      let e = sym d.granted.ends in
      record {
        risk = d.risk;
        who = d.who;
        cleared = d.cleared;
        risk_known = d.risk_known;
        admitted = admit_sound k s.working d.who d.admitted;
        device = device;
        context = context;
        granted = d.granted;
        within_ttl = subst (λ x. x ≤ now + minutes d.who.policy.access_token_ttl_minutes) e ttl;
        within_geo =
            subst (λ x. x ≤ now + seconds d.who.policy.geo_revalidation_interval_seconds) e geo;
        within_session =
            subst (λ x. x ≤ session_max_end d.who.policy now d.granted.active) e session;
        within_schedule = subst (λ x. x ≤ d.cleared.schedule.authorized_until) e until;
      }
