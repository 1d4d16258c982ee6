-- ===== src/Access/User.antt =====
-- `UserAccessService.create_or_reuse`.
pub mod Outcomes
pub mod Granted
pub mod Decided
pub mod Allowed
use verigence_security.Common.{not, List, Option, none, some, Text, codes}
use verigence_security.Core.Types.{Uuid, Instant, user}
use verigence_security.Core.Errors.{access_session_context_conflict}
use verigence_security.Core.Result.{ok, deny_if}
use verigence_security.Db.Schema.{SessionRow, EvaluationRow, Decision}
use verigence_security.Db.Transaction.{
  Action, ◌>>=◌, ◌>>◌, pure, lift, reads, writes, modify, commit, draw, or_rollback, wait_for_lock,
}
use mathlib.Core.Option
use verigence_security.Access.Evidence.{supplied_geo, matched_location}
use verigence_security.Network.{NetworkRiskResult}
use verigence_security.Platform.Uuids.{uuid_text}
use verigence_security.Tokens.{AccessTokenClaims, issue}
use verigence_security.Runtime.{Runtime, UserRepository}
use verigence_security.Repository.Sessions.{
  NewSession, is_some_id, expire_stale_user_sessions, active_user_session,
  update_reused_user_session, record_evaluation,
}
use verigence_security.Access.Checks.{AccessRequest, Admission, Clearance, admit, clear, expiry_of}

-- The answer; the request's tenant and device and the actor type are repeated in it as they are.
pub record AccessGrant : Type 0 where
  pub access_session_id : Uuid
  pub access_token : Text
  pub expires_at : Instant
  pub location_id : Uuid
  pub roles : List Text
  pub permissions : List Text

module _ (rt : Runtime) (repo : UserRepository) (req : AccessRequest) (now : Instant) where
  abbrev pub new_session : Admission → Clearance → NetworkRiskResult → Instant → NewSession
  new_session who c risk expiry = record {
    tenant_id = req.tenant_id;
    user_id = who.user_id;
    membership_id = Option.map (λ m. m.0) who.context.membership;
    device_id = req.device_id;
    location_id = c.location.location_id;
    authentication_source = req.provider;
    authz_version = who.context.authorization_version;
    source_ip = req.source_ip;
    vpn_status = risk.vpn_status;
    expires_at = expiry;
    now = now;
  }

  -- The session of an earlier call is extended, if it is for the same location; else one is created.
  unfoldable pub open_session :
      Admission → Clearance → NetworkRiskResult → Option SessionRow → Action Uuid
  open_session who c risk none = do
    session_id ← draw rt.uuid4
    writes (
        repo.create_user_session session_id
          (new_session who c risk (expiry_of who.policy now none c.schedule)))
    pure session_id
  open_session who c risk (some row) = do
    lift (
        deny_if (not (is_some_id c.location.location_id row.location_id))
          access_session_context_conflict)
    writes (
        update_reused_user_session row.access_session_id req.source_ip risk.vpn_status
          who.context.authorization_version (expiry_of who.policy now (some row) c.schedule) now)
    pure row.access_session_id

  abbrev pub allow_evidence :
      Admission → Clearance → NetworkRiskResult → Uuid → Uuid → EvaluationRow
  allow_evidence who c risk session_id evaluation_id = record {
    evaluation_id = evaluation_id;
    access_session_id = some session_id;
    tenant_id = req.tenant_id;
    principal_id = who.user_id;
    actor_type = user;
    supplied = some (supplied_geo req.geo);
    matched = some (matched_location c.location c.distance);
    evaluated_local_time = some c.schedule.local_time;
    source_ip = req.source_ip;
    vpn_status = some risk.vpn_status;
    decision = Decision.allow;
    decision_reason_code = codes "ACCESS_GRANTED";
    correlation_id = req.correlation_id;
    evaluated_at = now;
  }

  abbrev pub user_claims : Admission → Clearance → Uuid → Instant → AccessTokenClaims
  user_claims who c session_id expiry = record {
    principal_id = uuid_text who.user_id;
    actor_type = user;
    tenant_id = uuid_text req.tenant_id;
    access_session_id = uuid_text session_id;
    permissions = c.permissions;
    expires_at = expiry;
    roles = c.roles;
    device_id = some (uuid_text req.device_id);
    location_id = some (uuid_text c.location.location_id);
    delegated_actor_id = none;
    subject = none;
  }

  -- The writes of an access that has been cleared, and its token, short of the commit.
  unfoldable pub grant : Admission → Clearance → NetworkRiskResult → Action AccessGrant
  unfolding open_session
  grant who c risk = do
    modify (expire_stale_user_sessions req.tenant_id who.user_id req.device_id now)
    active ← reads (λ db. ok (active_user_session req.tenant_id who.user_id req.device_id db))
    session_id ← open_session who c risk active
    let expiry = expiry_of who.policy now active c.schedule
    evaluation_id ← draw rt.uuid4
    writes (record_evaluation (allow_evidence who c risk session_id evaluation_id))
    jti ← draw rt.uuid4
    token ← lift (
        issue rt.jwt rt.settings (user_claims who c session_id expiry) req.signed_at
          (uuid_text jti))
    pure (record {
      access_session_id = session_id;
      access_token = token;
      expires_at = expiry;
      location_id = c.location.location_id;
      roles = c.roles;
      permissions = c.permissions;
    })

  -- The body of the `try`.
  unfoldable pub decide : NetworkRiskResult → Action AccessGrant
  unfolding grant wait_for_lock
  decide risk = do
    who ← reads (admit repo req now)
    wait_for_lock rt.others
    c ← reads (clear rt repo req who risk now)
    answer ← grant who c risk
    commit
    pure answer

  unfoldable pub create_or_reuse : Action AccessGrant
  unfolding decide
  create_or_reuse = do
    risk ← lift (rt.network req.source_ip req.correlation_id)
    or_rollback (decide risk)
