-- ===== src/Tests/Machine.antt =====
-- A machine's token, an exchange, and both refused.
use mathlib.Core.Path.{◌≡◌, refl}
use verigence_security.Common.{[], ◌∷◌, none, some, Text, codes}
use verigence_security.Core.Types.{user}
use verigence_security.Core.Errors.{
  Exc, security, machine_credential_invalid, permission_denied, errors, security_error,
}
use verigence_security.Core.Result.{Result, ok, err}
use verigence_security.Platform.Jwt.{Claims, payload}
use verigence_security.Platform.Uuids.{uuid_text, hex_run}
use verigence_security.Permissions.Canonical.{is_canonical_permission}
use verigence_security.Permissions.Ordered.{sorted_set}
use verigence_security.Permissions.Validate.{validate_permissions}
use verigence_security.Tokens.{
  token_payload, validate_actor_claim_shape, issue, verify, check_payload, actor_type_of,
}
use verigence_security.Runtime.{Runtime}
use verigence_security.Db.Transaction.{
  Session, ◌>>=◌, pure, lift, reads, writes, modify, commit, rollback, draw, or_rollback,
}
use verigence_security.Repository.Directory.{tenant_status, get_tenant_policy}
use verigence_security.Repository.Machine.{
  machine_credential, machine_permissions, mark_machine_credential_used,
}
use verigence_security.Repository.Sessions.{
  create_machine_session, insert_session, record_evaluation,
}
use verigence_security.Access.Checks.{require_tenant}
use verigence_security.Access.Machine.Credential.{
  check_secret, authenticate_credential, requested_permissions, authorized_permissions,
}
use verigence_security.Access.Machine.TokenSubject.{subject_of_claims}
use verigence_security.Access.Machine.{
  MachineGrant, MachineRequest, ExchangeRequest, grant_machine, machine_grant, issue_machine_token,
  grant_exchange, exchange_grant, exchange_user_token,
}
use verigence_security.Access.Machine.Scope.{
  IsMachineGrant, issue_machine_token-IsMachineGrant, issue_machine_token_atomic,
}
use verigence_security.Access.Machine.Delegation.{
  IsDelegated, exchange_user_token-IsDelegated, exchange_user_token_atomic,
}
use verigence_security.Tests.Platform.{any_jwt, settings, runtime, one_token}
use verigence_security.Tests.Data.{noon, session, read_key, secret}

abbrev machine_request : Text → MachineRequest
machine_request given = record {
  client_id = codes "svc";
  client_secret = given;
  tenant_id = 1;
  asked = read_key ∷ [];
  source_ip = codes "10.0.0.1";
  correlation_id = codes "c";
  signed_at = noon;
}

abbrev run : Text → Result MachineGrant × Session
run given = issue_machine_token runtime noon (machine_request given) (session [])

abbrev answer : MachineGrant
answer = record { access_token = one_token; expires_at = 648600000000; permissions = read_key ∷ [] }

granted : run secret ≡ (ok answer, (run secret).1)
unfolding issue_machine_token machine_grant grant_machine ◌>>=◌ pure lift reads writes modify commit
    rollback draw or_rollback authenticate_credential check_secret machine_credential require_tenant
    tenant_status get_tenant_policy authorized_permissions requested_permissions machine_permissions
    create_machine_session insert_session record_evaluation mark_machine_credential_used issue
    token_payload validate_actor_claim_shape validate_permissions is_canonical_permission sorted_set
    uuid_text
granted = refl

issue_machine_token-IsMachineGrant_example :
    IsMachineGrant runtime noon
      (machine_request secret)
      (session []).working
      (run secret).1.committed
      answer
issue_machine_token-IsMachineGrant_example =
    issue_machine_token-IsMachineGrant runtime noon (machine_request secret) (session [])
      (run secret).1 answer granted

abbrev bad_secret : Exc
bad_secret = security (record {
  code = machine_credential_invalid;
  status_code = 401;
  title = codes "Machine credential is invalid";
  detail = none;
})

refused : run (codes "wrong") ≡ (err bad_secret, (run (codes "wrong")).1)
unfolding issue_machine_token machine_grant grant_machine ◌>>=◌ pure lift reads writes modify commit
    rollback draw or_rollback authenticate_credential check_secret machine_credential security_error
    errors
refused = refl

issue_machine_token_atomic_example :
    ((run (codes "wrong")).1.committed ≡ (session []).committed)
    × ((run (codes "wrong")).1.working ≡ (session []).committed)
issue_machine_token_atomic_example =
    issue_machine_token_atomic runtime noon (machine_request (codes "wrong")) (session [])
      (run (codes "wrong")).1 bad_secret refused

-- The token of a user who works at the office.
abbrev user_claims : Claims
user_claims =
    token_payload any_jwt settings
      (record {
        principal_id = uuid_text 2;
        actor_type = user;
        tenant_id = uuid_text 1;
        access_session_id = uuid_text 9;
        permissions = read_key ∷ [];
        expires_at = 648900000000;
        roles = codes "CLERK" ∷ [];
        device_id = some (uuid_text 31);
        location_id = some (uuid_text 41);
        delegated_actor_id = none;
        subject = none;
      })
      (read_key ∷ []) noon (codes "j")

abbrev exchange_runtime : Runtime
exchange_runtime = record runtime {
  jwt = record any_jwt { decode = λ key issuer audience now token. payload user_claims };
  parse_uuid = λ t. some 1;
}

abbrev exchange_request : Text → ExchangeRequest
exchange_request permission = record {
  client_id = codes "svc";
  client_secret = secret;
  subject_token = codes "user-token";
  asked = permission ∷ [];
  verified_at = noon;
  signed_at = noon;
}

abbrev exchange : Text → Result MachineGrant × Session
exchange permission =
    exchange_user_token exchange_runtime noon (exchange_request permission) (session [])

abbrev exchanged : MachineGrant
exchanged = record {
  access_token = one_token;
  expires_at = 648900000000;
  permissions = read_key ∷ [];
}

delegated : exchange read_key ≡ (ok exchanged, (exchange read_key).1)
unfolding exchange_user_token exchange_grant grant_exchange ◌>>=◌ pure lift reads writes modify
    commit rollback draw or_rollback authenticate_credential check_secret machine_credential
    require_tenant tenant_status requested_permissions machine_permissions
    mark_machine_credential_used issue verify check_payload actor_type_of subject_of_claims
    token_payload validate_actor_claim_shape validate_permissions is_canonical_permission sorted_set
    uuid_text hex_run
delegated = refl

exchange_user_token-IsDelegated_example :
    IsDelegated exchange_runtime noon (exchange_request read_key) (session []).working exchanged
exchange_user_token-IsDelegated_example =
    exchange_user_token-IsDelegated exchange_runtime noon (exchange_request read_key) (session [])
      (exchange read_key).1 exchanged delegated

-- A permission that neither of them holds.
abbrev other_key : Text
other_key = codes "accounting.invoice.delete"

abbrev denied : Exc
denied = security (record {
  code = permission_denied;
  status_code = 403;
  title = codes "Permission denied";
  detail = none;
})

withheld : exchange other_key ≡ (err denied, (exchange other_key).1)
unfolding exchange_user_token exchange_grant grant_exchange ◌>>=◌ pure lift reads writes modify
    commit rollback draw or_rollback authenticate_credential check_secret machine_credential
    require_tenant tenant_status requested_permissions machine_permissions
    mark_machine_credential_used issue verify check_payload actor_type_of subject_of_claims
    token_payload validate_actor_claim_shape validate_permissions is_canonical_permission sorted_set
    uuid_text hex_run security_error errors
withheld = refl

exchange_user_token_atomic_example :
    ((exchange other_key).1.committed ≡ (session []).committed)
    × ((exchange other_key).1.working ≡ (session []).committed)
exchange_user_token_atomic_example =
    exchange_user_token_atomic exchange_runtime noon (exchange_request other_key) (session [])
      (exchange other_key).1 denied withheld
