-- ===== src/Access/Refresh.antt =====
-- `UserSessionRefreshService.refresh`: an ACTIVE session is checked again and extended, and a denial
-- leaves an evaluation of its own.
pub mod Request
pub mod Denied
pub mod Stored
pub mod Held
pub mod Extended
use verigence_security.Common.{
  Bool, true, false, not, List, Option, none, some, Text, codes, leb, ◌==◌, if◌then◌else◌,
}
use mathlib.Core.Option
use verigence_security.Core.Types.{Uuid, Instant, Double, user}
use verigence_security.Core.Errors.{
  Exc, SecurityError, security, is_server_error, data_error, code_text, session_revoked,
  auth_token_expired,
}
use verigence_security.Core.Result.{Result, ok, err, deny, deny_if}
use verigence_security.Db.Schema.{
  Db, PolicyRow, SessionRow, session_active, EvaluationRow, Decision,
}
use verigence_security.Db.Transaction.{
  Session, Step, Action, ◌>>=◌, ◌>>◌, pure, lift, reads, writes, commit, rollback, undo, draw,
  or_rollback, wait_for_lock,
}
use verigence_security.Geo.Distance.{GeoSample, LocationCandidate}
use verigence_security.Schedule.{ScheduleDecision}
use verigence_security.Permissions.Validate.{validate_permissions}
use verigence_security.Network.{NetworkRiskResult}
use verigence_security.Platform.Uuids.{uuid_text}
use verigence_security.Tokens.{AccessTokenClaims, issue}
use verigence_security.Runtime.{Runtime, UserRepository}
use verigence_security.Repository.Directory.{UserContext}
use verigence_security.Repository.Context.{lock_active_device}
use verigence_security.Repository.Sessions.{
  is_some_id, user_session, update_active_session_context, record_evaluation,
}
use verigence_security.Access.Checks.{locate, check_schedule, require_network, expiry_of}
use verigence_security.Access.Evidence.{supplied_geo, matched_location}
use verigence_security.Access.Revoke.{require_refresh_geo}
use verigence_security.Access.Refresh.Request.{RefreshRequest, Opening, open_refresh}

pub record RefreshedUserSession : Type 0 where
  pub access_session_id : Uuid
  pub access_token : Text
  pub expires_at : Instant
  pub tenant_id : Uuid
  pub user_id : Uuid
  pub device_id : Uuid
  pub location_id : Uuid
  pub roles : List Text
  pub permissions : List Text

-- _RefreshEvidenceContext
pub record Evidence : Type 0 where
  pub access_session_id : Option Uuid
  pub location : Option (LocationCandidate × Double)
  pub schedule : Option ScheduleDecision
  pub risk : Option NetworkRiskResult

abbrev pub no_evidence : Evidence
no_evidence = record { access_session_id = none; location = none; schedule = none; risk = none }

-- The session with the evidence that the call collects, which outlives a raise.
pub record Trace : Type 0 where
  pub evidence : Evidence
  pub session : Session

abbrev pub in_trace : {A : Type 0} → Evidence → Result A × Session → Result A × Trace
in_trace e (r, s) = (r, record { evidence = e; session = s })

unfoldable pub on : {A : Type 0} → Action A → Step Trace A
on m t = in_trace t.evidence (m t.session)

unfoldable pub note : (Evidence → Evidence) → Step Trace (Unit {0})
note f t = (ok tt, record t { evidence = f t.evidence })

unfoldable pub collected : Step Trace Evidence
collected t = (ok t.evidence, t)

-- `session is None or session["status"] != "ACTIVE"`
abbrev pub require_live : Option SessionRow → Result SessionRow
require_live none = deny session_revoked
require_live (some r) = if session_active r.status then ok r else deny session_revoked

-- The device of a USER session, which a CHECK makes NOT NULL; the text `None` would be no UUID.
abbrev pub device_of : Option Uuid → Result Uuid
device_of none = err data_error
device_of (some d) = ok d

-- The row behind its lock must still be for the locked device.
abbrev pub same_device : Uuid → SessionRow → Result SessionRow
same_device device_id r = if is_some_id device_id r.device_id then ok r else deny session_revoked

-- `session_others` is what others commit while the call waits for the lock of the session's row.
module _ (rt : Runtime) (repo : UserRepository) (session_others : Db → Db) (req : RefreshRequest)
    (now : Instant) where
  abbrev pub current : Db → Result SessionRow
  current db = require_live (user_session req.access_session_id req.tenant_id req.user_id db)

  -- `_evaluation_payload`
  abbrev pub evaluation_payload : Decision → Text → Evidence → Uuid → EvaluationRow
  evaluation_payload decision reason e evaluation_id = record {
    evaluation_id = evaluation_id;
    access_session_id = e.access_session_id;
    tenant_id = req.tenant_id;
    principal_id = req.user_id;
    actor_type = user;
    supplied = Option.map supplied_geo req.geo;
    matched = Option.map (λ m. matched_location m.0 m.1) e.location;
    evaluated_local_time = Option.map (λ d. d.local_time) e.schedule;
    source_ip = req.source_ip;
    vpn_status = Option.map (λ r. r.vpn_status) e.risk;
    decision = decision;
    decision_reason_code = reason;
    correlation_id = req.correlation_id;
    evaluated_at = now;
  }

  -- The session and its device, each behind its row lock.
  unfoldable pub hold : Step Trace (Uuid × SessionRow)
  hold = do
    observed ← on (reads current)
    note (λ e. record e { access_session_id = some req.access_session_id })
    device_id ← lift (device_of observed.device_id)
    on (wait_for_lock rt.others)
    device ← on (reads (lock_active_device req.user_id req.tenant_id device_id))
    on (wait_for_lock session_others)
    live ← on (reads current)
    row ← lift (same_device device_id live)
    lift (deny_if (leb row.expires_at now) auth_token_expired)
    pure (device_id, row)

  -- The context of the request, checked as for a new access.
  unfoldable pub recheck :
      Opening → Step Trace (LocationCandidate × ScheduleDecision × List Text × List Text)
  recheck o = do
    found ← on (reads (locate rt req.user_id req.tenant_id o.policy o.geo now))
    note (λ e. record e { location = some found })
    schedule ← on (reads (check_schedule rt req.user_id req.tenant_id found.0 now))
    note (λ e. record e { schedule = some schedule })
    lift (require_network o.risk o.policy)
    granted ← on (reads (repo.effective_user_permissions req.tenant_id req.user_id now))
    permissions ← lift (validate_permissions granted.1)
    pure (found.0, schedule, granted.0, permissions)

  abbrev pub refreshed_claims : Uuid → Uuid → List Text → List Text → Instant → AccessTokenClaims
  refreshed_claims device_id location_id roles permissions expiry = record {
    principal_id = uuid_text req.user_id;
    actor_type = user;
    tenant_id = uuid_text req.tenant_id;
    access_session_id = uuid_text req.access_session_id;
    permissions = permissions;
    expires_at = expiry;
    roles = roles;
    device_id = some (uuid_text device_id);
    location_id = some (uuid_text location_id);
    delegated_actor_id = none;
    subject = none;
  }

  unfoldable pub extend :
      Opening
      → Uuid
      → SessionRow
      → (LocationCandidate × ScheduleDecision × List Text × List Text)
      → Step Trace RefreshedUserSession
  extend o device_id row (location, schedule, roles, permissions) = do
    let expiry = expiry_of o.policy now (some row) schedule
    lift (deny_if (leb expiry now) auth_token_expired)
    updated ← on (
        writes (
          update_active_session_context req.access_session_id req.tenant_id req.user_id
            location.location_id req.source_ip o.risk.vpn_status o.context.authorization_version
            expiry now))
    lift (deny_if (not updated) session_revoked)
    evidence ← collected
    evaluation_id ← on (draw rt.uuid4)
    on (
        writes (
          record_evaluation
            (evaluation_payload Decision.allow (codes "ACCESS_GRANTED") evidence evaluation_id)))
    jti ← on (draw rt.uuid4)
    token ← lift (
        issue rt.jwt rt.settings
          (refreshed_claims device_id location.location_id roles permissions expiry) req.signed_at
          (uuid_text jti))
    on commit
    pure (record {
      access_session_id = req.access_session_id;
      access_token = token;
      expires_at = expiry;
      tenant_id = req.tenant_id;
      user_id = req.user_id;
      device_id = device_id;
      location_id = location.location_id;
      roles = roles;
      permissions = permissions;
    })

  -- The body of the `try`.
  unfoldable pub attempt : Step Trace RefreshedUserSession
  unfolding hold recheck extend
  attempt = do
    geo ← lift (require_refresh_geo req.geo)
    risk ← lift (rt.network req.source_ip req.correlation_id)
    note (λ e. record e { risk = some risk })
    o ← on (reads (open_refresh repo req geo risk now))
    held ← hold
    found ← recheck o
    extend o held.0 held.1 found

  -- The evaluation of a denial, in a transaction of its own.
  abbrev pub denial_evaluation : SecurityError → Evidence → Action (Unit {0})
  denial_evaluation e evidence = do
    evaluation_id ← draw rt.uuid4
    writes (
        record_evaluation
          (evaluation_payload Decision.deny (code_text e.code) evidence evaluation_id))
    commit

  -- `except Exception: rollback()`, which raises no further.
  unfoldable pub persist_denial_evidence_best_effort : SecurityError → Evidence → Session → Session
  persist_denial_evidence_best_effort e evidence s =
      let (r, t) = or_rollback (denial_evaluation e evidence) s in
      if is_server_error e then s else t

  -- The two handlers of the `try`.
  abbrev pub handled : Result RefreshedUserSession × Trace → Result RefreshedUserSession × Session
  handled (ok g, t) = (ok g, t.session)
  handled (err (security e), t) =
      (err (security e), persist_denial_evidence_best_effort e t.evidence (rollback t.session).1)
  handled (err e, t) = (err e, (rollback t.session).1)

  unfoldable pub refresh : Action RefreshedUserSession
  unfolding attempt rollback persist_denial_evidence_best_effort
  refresh s = handled (attempt (record { evidence = no_evidence; session = s }))
