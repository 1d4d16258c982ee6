-- ===== src/Access/Machine.antt =====
-- `MachineAccessService`: tokens of machine clients, and of users that a machine acts for.
pub mod Credential
pub mod TokenSubject
pub mod Authentic
pub mod Scope
pub mod Delegation
use verigence_security.Common.{
  Bool, true, false, ◌&&◌, not, List, Option, none, some, Text, codes, select, [], ◌+◌,
}
use verigence_security.Core.Types.{Uuid, Instant, user}
use verigence_security.Core.Errors.{data_error, permission_denied}
use verigence_security.Core.Result.{Result, ok, err, deny_if}
use verigence_security.Db.Schema.{Db, PolicyRow, EvaluationRow, Decision}
use verigence_security.Db.Transaction.{
  Action, ◌>>=◌, ◌>>◌, pure, lift, reads, writes, modify, commit, draw, or_rollback,
}
use verigence_security.Permissions.Ordered.{has, is_subset}
use verigence_security.Permissions.Validate.{validate_permissions}
use verigence_security.Platform.Uuids.{uuid_text}
use verigence_security.Platform.Jwt.{Claims}
use verigence_security.Tokens.{AccessTokenClaims, issue, verify}
use verigence_security.Runtime.{Runtime}
use verigence_security.Repository.Directory.{get_tenant_policy}
use verigence_security.Repository.Machine.{
  MachineCredential, machine_permissions, mark_machine_credential_used,
}
use verigence_security.Repository.Sessions.{create_machine_session, record_evaluation}
use verigence_security.Access.Checks.{require_tenant, minutes}
use verigence_security.Access.Machine.Credential.{
  authenticate_credential, requested_permissions, authorized_permissions,
}
use verigence_security.Access.Machine.TokenSubject.{Subject, subject_of_claims}

-- What both calls answer.
pub record MachineGrant : Type 0 where
  pub access_token : Text
  pub expires_at : Instant
  pub permissions : List Text

-- The arguments of `issue_machine_token`; `signed_at` is what the clock shows at the signing.
pub record MachineRequest : Type 0 where
  pub client_id : Text
  pub client_secret : Text
  pub tenant_id : Uuid
  pub asked : List Text
  pub source_ip : Text
  pub correlation_id : Text
  pub signed_at : Instant

-- The arguments of `exchange_user_token`, with what the clock shows at both uses.
pub record ExchangeRequest : Type 0 where
  pub client_id : Text
  pub client_secret : Text
  pub subject_token : Text
  pub asked : List Text
  pub verified_at : Instant
  pub signed_at : Instant

module _ (rt : Runtime) (now : Instant) where
  abbrev pub machine_evaluation : MachineRequest → MachineCredential → Uuid → Uuid → EvaluationRow
  machine_evaluation req c session_id evaluation_id = record {
    evaluation_id = evaluation_id;
    access_session_id = some session_id;
    tenant_id = req.tenant_id;
    principal_id = c.principal_id;
    actor_type = c.actor_type;
    supplied = none;
    matched = none;
    evaluated_local_time = none;
    source_ip = req.source_ip;
    vpn_status = none;
    decision = Decision.allow;
    decision_reason_code = codes "MACHINE_ACCESS_GRANTED";
    correlation_id = req.correlation_id;
    evaluated_at = now;
  }

  abbrev pub machine_claims :
      MachineRequest → MachineCredential → Uuid → List Text → Instant → AccessTokenClaims
  machine_claims req c session_id permissions expiry = record {
    principal_id = uuid_text c.principal_id;
    actor_type = c.actor_type;
    tenant_id = uuid_text req.tenant_id;
    access_session_id = uuid_text session_id;
    permissions = permissions;
    expires_at = expiry;
    roles = [];
    device_id = none;
    location_id = none;
    delegated_actor_id = none;
    subject = some c.client_id;
  }

  -- What the call writes for an authorised client, short of the commit.
  unfoldable pub grant_machine :
      MachineRequest → MachineCredential → PolicyRow → List Text → Action MachineGrant
  grant_machine req c policy permissions = do
    let expiry = now + minutes policy.machine_token_ttl_minutes
    session_id ← draw rt.uuid4
    writes (
        create_machine_session session_id c.principal_id c.actor_type req.tenant_id c.credential_id
          req.source_ip expiry now)
    evaluation_id ← draw rt.uuid4
    writes (record_evaluation (machine_evaluation req c session_id evaluation_id))
    jti ← draw rt.uuid4
    token ← lift (
        issue rt.jwt rt.settings (machine_claims req c session_id permissions expiry) req.signed_at
          (uuid_text jti))
    modify (mark_machine_credential_used c.credential_id now)
    pure (record { access_token = token; expires_at = expiry; permissions = permissions })

  unfoldable pub machine_grant : MachineRequest → Action MachineGrant
  unfolding grant_machine
  machine_grant req = do
    c ← reads (authenticate_credential rt.sha256_hex req.client_id req.client_secret now)
    reads (require_tenant req.tenant_id)
    policy ← reads (get_tenant_policy req.tenant_id)
    permissions ← reads (authorized_permissions c.principal_id req.tenant_id req.asked now)
    grant_machine req c policy permissions

  -- `commit`, and the answer.
  abbrev pub committed : MachineGrant → Action MachineGrant
  committed g = commit >> pure g

  unfoldable pub issue_machine_token : MachineRequest → Action MachineGrant
  unfolding machine_grant
  issue_machine_token req = or_rollback (machine_grant req >>= committed)

  -- A text as a `uuid` of the database.
  abbrev pub as_uuid : Text → Result Uuid
  as_uuid t = elim (rt.parse_uuid t) [ none ↦ err data_error | some id ↦ ok id ]

  abbrev pub delegated_claims : Subject → Text → List Text → Instant → AccessTokenClaims
  delegated_claims s client_id permissions expiry = record {
    principal_id = s.subject;
    actor_type = user;
    tenant_id = s.tenant_id;
    access_session_id = s.access_session_id;
    permissions = permissions;
    expires_at = expiry;
    roles = s.roles;
    device_id = some s.device_id;
    location_id = some s.location_id;
    delegated_actor_id = some client_id;
    subject = none;
  }

  -- `machine_permissions.intersection(validated_user_permissions)`
  abbrev pub intersection : List Text → List Text → List Text
  intersection xs ys = select (λ x. has x ys) xs

  -- The new token and the mark on the credential, short of the commit.
  unfoldable pub grant_exchange :
      ExchangeRequest → MachineCredential → Subject → List Text → Action MachineGrant
  grant_exchange req c s requested = do
    let expiry = rt.jwt.from_timestamp s.expires_at
    jti ← draw rt.uuid4
    token ← lift (
        issue rt.jwt rt.settings (delegated_claims s c.client_id requested expiry) req.signed_at
          (uuid_text jti))
    modify (mark_machine_credential_used c.credential_id now)
    pure (record { access_token = token; expires_at = expiry; permissions = requested })

  unfoldable pub exchange_grant : ExchangeRequest → Action MachineGrant
  unfolding grant_exchange
  exchange_grant req = do
    c ← reads (authenticate_credential rt.sha256_hex req.client_id req.client_secret now)
    claims ← lift (verify rt.jwt rt.settings req.subject_token req.verified_at)
    s ← lift (subject_of_claims rt.doubles claims)
    tenant_id ← lift (as_uuid s.tenant_id)
    reads (require_tenant tenant_id)
    stored ← reads (machine_permissions c.principal_id tenant_id now)
    validated ← lift (validate_permissions s.user_permissions)
    requested ← lift (requested_permissions req.asked)
    lift (deny_if (not (is_subset requested (intersection stored validated))) permission_denied)
    grant_exchange req c s requested

  unfoldable pub exchange_user_token : ExchangeRequest → Action MachineGrant
  unfolding exchange_grant
  exchange_user_token req = or_rollback (exchange_grant req >>= committed)
