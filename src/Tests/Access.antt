-- ===== src/Tests/Access.antt =====
-- An access that is granted, one that is refused, a refresh, an approval and a revocation.
use mathlib.Core.Path.{◌≡◌, refl}
use mathlib.Core.Logic.{◌⊎◌, inl}
use native.Mathlib.Omega.{arith}
use mathlib.Core.Option.{none, some}
use verigence_security.Common.{◌≤◌, Bool, true, List, [], ◌∷◌, codes}
use verigence_security.Core.Types.{Uuid}
use verigence_security.Core.Errors.{Exc, security, session_revoked, device_not_registered}
use verigence_security.Core.Result.{Result, ok, err}
use verigence_security.Db.Schema.{Db, SessionRow}
use verigence_security.Runtime.{security_repository}
use verigence_security.Access.User.{AccessGrant, create_or_reuse, decide, grant, open_session}
use verigence_security.Db.Transaction.{
  Session, ◌>>=◌, lift, or_rollback, reads, commit, draw, modify, pure, rollback, wait_for_lock,
  writes,
}
use verigence_security.Network.{mock_network_risk_adapter}
use verigence_security.Access.Checks.{
  admit, require_tenant, clear, check_context, locate, check_schedule, require_network,
}
use verigence_security.Repository.Directory.{
  tenant_status, resolve_identity_user, get_user_context, get_tenant_policy,
}
use verigence_security.Repository.Context.{
  lock_active_device, active_override_until, assigned_locations, ensure_active_schedule,
  schedule_windows,
}
use verigence_security.Geo.Distance.{validate_geo, haversine_meters}
use verigence_security.Core.Errors.{security_error, errors, code_text}
use verigence_security.Geo.Matching.{match_location}
use verigence_security.Permissions.Canonical.{is_canonical_permission}
use verigence_security.Permissions.Ordered.{sorted_set}
use verigence_security.Permissions.Validate.{validate_permissions}
use verigence_security.Platform.Uuids.{uuid_text}
use verigence_security.Repository.Sessions.{
  active_user_session, expire_stale_user_sessions, record_evaluation, create_user_session,
  insert_session, user_session, update_active_session_context, update_sessions,
}
use verigence_security.Schedule.{evaluate_schedule}
use verigence_security.Tokens.{issue, token_payload, validate_actor_claim_shape}
use verigence_security.Repository.Roles.{effective_user_permissions}
use verigence_security.Access.Refresh.{
  RefreshedUserSession, refresh, attempt, hold, recheck, extend, on, note, collected,
  persist_denial_evidence_best_effort,
}
use verigence_security.Access.Refresh.Request.{RefreshRequest, open_refresh}
use verigence_security.Access.Revoke.{require_refresh_geo}
use verigence_security.Access.Devices.{approve_pending_device, approve, decide_pending}
use verigence_security.Repository.Devices.{
  Approval, lock_membership_for_device_limit, count_active_devices, pending_device_for_update,
  activate_pending_device,
}
use verigence_security.Access.Checks.{AccessRequest}
use verigence_security.Access.Checks.Sound.{HasDevice}
use verigence_security.Access.User.Allowed.{IsAllowed, create_or_reuse-IsAllowed}
use verigence_security.Access.User.Outcomes.{Untouched, create_or_reuse_atomic}
use verigence_security.Access.Refresh.Extended.{IsRefreshed, refresh_extends}
use verigence_security.Access.Refresh.Denied.{refresh_denied}
use verigence_security.Access.Devices.Limit.{approve_pending_device_limit}
use verigence_security.Access.Devices.Refused.{approve_pending_device_refused}
use verigence_security.Access.Revoke.{Statements, revoke}
use verigence_security.Access.Revoke.Ended.{IsEnded, IsUndone, revoke_ends}
use verigence_security.Db.Schema.{PolicyRow}
use verigence_security.Tests.Platform.{runtime, numbers-IsOrdered}
use verigence_security.Tests.Data.{noon, request, sample, session, open_row, read_key}

abbrev run : AccessRequest → List SessionRow → Result AccessGrant × Session
run req rows = create_or_reuse runtime security_repository req noon (session rows)

abbrev answer : AccessGrant
answer = record {
  access_session_id = 9000;
  access_token = codes "token";
  expires_at = 648600000000;
  location_id = 41;
  roles = codes "CLERK" ∷ [];
  permissions = read_key ∷ [];
}

granted : run request [] ≡ (ok answer, (run request []).1)
unfolding errors code_text create_or_reuse ◌>>=◌ lift mock_network_risk_adapter or_rollback reads
    admit require_tenant tenant_status resolve_identity_user get_user_context get_tenant_policy
    clear lock_active_device check_context locate validate_geo check_schedule require_network decide
    grant open_session security_error commit draw modify pure rollback wait_for_lock writes
    haversine_meters match_location is_canonical_permission sorted_set validate_permissions
    uuid_text active_override_until assigned_locations ensure_active_schedule schedule_windows
    active_user_session expire_stale_user_sessions record_evaluation evaluate_schedule issue
    token_payload validate_actor_claim_shape effective_user_permissions create_user_session
    insert_session refresh attempt hold recheck extend on note collected
    persist_denial_evidence_best_effort open_refresh require_refresh_geo approve_pending_device
    approve decide_pending user_session update_active_session_context update_sessions
    lock_membership_for_device_limit count_active_devices pending_device_for_update
    activate_pending_device
granted = refl

create_or_reuse-IsAllowed_example :
    IsAllowed runtime security_repository request noon
      (session [])
      (run request []).1.committed
      answer
create_or_reuse-IsAllowed_example =
    create_or_reuse-IsAllowed runtime security_repository request noon numbers-IsOrdered (inl refl)
      (session []) (run request []).1 answer granted

abbrev elsewhere : AccessRequest
elsewhere = record request { device_id = 99 }

abbrev unknown_device : Exc
unknown_device = security (record {
  code = device_not_registered;
  status_code = 403;
  title = codes "Device is not registered";
  detail = none;
})

refused : run elsewhere [] ≡ (err unknown_device, (run elsewhere []).1)
unfolding errors code_text create_or_reuse ◌>>=◌ lift mock_network_risk_adapter or_rollback reads
    admit require_tenant tenant_status resolve_identity_user get_user_context get_tenant_policy
    clear lock_active_device check_context locate validate_geo check_schedule require_network decide
    grant open_session security_error commit draw modify pure rollback wait_for_lock writes
    haversine_meters match_location is_canonical_permission sorted_set validate_permissions
    uuid_text active_override_until assigned_locations ensure_active_schedule schedule_windows
    active_user_session expire_stale_user_sessions record_evaluation evaluate_schedule issue
    token_payload validate_actor_claim_shape effective_user_permissions create_user_session
    insert_session refresh attempt hold recheck extend on note collected
    persist_denial_evidence_best_effort open_refresh require_refresh_geo approve_pending_device
    approve decide_pending user_session update_active_session_context update_sessions
    lock_membership_for_device_limit count_active_devices pending_device_for_update
    activate_pending_device
refused = refl

create_or_reuse_atomic_example :
    ((run elsewhere []).1.working ≡ (run elsewhere []).1.committed)
    × Untouched runtime security_repository elsewhere noon (session []) (run elsewhere []).1
create_or_reuse_atomic_example =
    create_or_reuse_atomic runtime security_repository elsewhere noon (session []) refl refused

abbrev refresh_request : Uuid → RefreshRequest
refresh_request id = record {
  user_id = 2;
  tenant_id = 1;
  access_session_id = id;
  geo = some sample;
  source_ip = codes "10.0.0.1";
  correlation_id = codes "c";
  signed_at = noon;
}

abbrev run_refresh : Uuid → Result RefreshedUserSession × Session
run_refresh id =
    refresh runtime security_repository (λ db. db) (refresh_request id) noon
      (session (open_row ∷ []))

abbrev refreshed : RefreshedUserSession
refreshed = record {
  access_session_id = 81;
  access_token = codes "token";
  expires_at = 648600000000;
  tenant_id = 1;
  user_id = 2;
  device_id = 31;
  location_id = 41;
  roles = codes "CLERK" ∷ [];
  permissions = read_key ∷ [];
}

extended : run_refresh 81 ≡ (ok refreshed, (run_refresh 81).1)
unfolding errors code_text create_or_reuse ◌>>=◌ lift mock_network_risk_adapter or_rollback reads
    admit require_tenant tenant_status resolve_identity_user get_user_context get_tenant_policy
    clear lock_active_device check_context locate validate_geo check_schedule require_network decide
    grant open_session security_error commit draw modify pure rollback wait_for_lock writes
    haversine_meters match_location is_canonical_permission sorted_set validate_permissions
    uuid_text active_override_until assigned_locations ensure_active_schedule schedule_windows
    active_user_session expire_stale_user_sessions record_evaluation evaluate_schedule issue
    token_payload validate_actor_claim_shape effective_user_permissions create_user_session
    insert_session refresh attempt hold recheck extend on note collected
    persist_denial_evidence_best_effort open_refresh require_refresh_geo approve_pending_device
    approve decide_pending user_session update_active_session_context update_sessions
    lock_membership_for_device_limit count_active_devices pending_device_for_update
    activate_pending_device
extended = refl

refresh_extends_example :
    IsRefreshed runtime security_repository
      (λ db. db)
      (refresh_request 81)
      noon
      (session (open_row ∷ []))
      (run_refresh 81).1.committed
      refreshed
refresh_extends_example =
    refresh_extends runtime security_repository (λ db. db) (refresh_request 81) noon (inl refl)
      (session (open_row ∷ [])) (run_refresh 81).1 refreshed extended

abbrev ended_session : Exc
ended_session = security (record {
  code = session_revoked;
  status_code = 401;
  title = codes "Access session is revoked";
  detail = none;
})

denied : run_refresh 82 ≡ (err ended_session, (run_refresh 82).1)
unfolding errors code_text create_or_reuse ◌>>=◌ lift mock_network_risk_adapter or_rollback reads
    admit require_tenant tenant_status resolve_identity_user get_user_context get_tenant_policy
    clear lock_active_device check_context locate validate_geo check_schedule require_network decide
    grant open_session security_error commit draw modify pure rollback wait_for_lock writes
    haversine_meters match_location is_canonical_permission sorted_set validate_permissions
    uuid_text active_override_until assigned_locations ensure_active_schedule schedule_windows
    active_user_session expire_stale_user_sessions record_evaluation evaluate_schedule issue
    token_payload validate_actor_claim_shape effective_user_permissions create_user_session
    insert_session refresh attempt hold recheck extend on note collected
    persist_denial_evidence_best_effort open_refresh require_refresh_geo approve_pending_device
    approve decide_pending user_session update_active_session_context update_sessions
    lock_membership_for_device_limit count_active_devices pending_device_for_update
    activate_pending_device
denied = refl

abbrev SameSessions : Db → Type 0
SameSessions db = db.sessions ≡ open_row ∷ []

refresh_denied_example : (run_refresh 82).1.committed.sessions ≡ open_row ∷ []
refresh_denied_example =
    refresh_denied SameSessions runtime security_repository (λ db. db) (refresh_request 82) noon
      (λ d p. p) (λ d p. p) (λ d e p. p) (session (open_row ∷ [])) (run_refresh 82).1 ended_session
      refl denied

abbrev approval : Approval
approval = record {
  enrollment_request_id = 71;
  tenant_id = 1;
  user_id = 2;
  device_id = 32;
  decided_by_user_id = 5;
  decided_at = noon;
}

abbrev run_approval : Result Bool × Session
run_approval = approve_pending_device (λ db. db) approval (session [])

approved : run_approval ≡ (ok true, run_approval.1)
unfolding errors code_text create_or_reuse ◌>>=◌ lift mock_network_risk_adapter or_rollback reads
    admit require_tenant tenant_status resolve_identity_user get_user_context get_tenant_policy
    clear lock_active_device check_context locate validate_geo check_schedule require_network decide
    grant open_session security_error commit draw modify pure rollback wait_for_lock writes
    haversine_meters match_location is_canonical_permission sorted_set validate_permissions
    uuid_text active_override_until assigned_locations ensure_active_schedule schedule_windows
    active_user_session expire_stale_user_sessions record_evaluation evaluate_schedule issue
    token_payload validate_actor_claim_shape effective_user_permissions create_user_session
    insert_session refresh attempt hold recheck extend on note collected
    persist_denial_evidence_best_effort open_refresh require_refresh_geo approve_pending_device
    approve decide_pending user_session update_active_session_context update_sessions
    lock_membership_for_device_limit count_active_devices pending_device_for_update
    activate_pending_device
approved = refl

approve_pending_device_limit_example :
    (policy : PolicyRow) × (get_tenant_policy 1 (session []).working ≡ ok policy)
    × (count_active_devices 1 2 run_approval.1.committed ≤ policy.max_active_devices_per_user)
    × HasDevice 2 1 32 run_approval.1.committed
approve_pending_device_limit_example =
    approve_pending_device_limit (λ db. db) approval (session []) run_approval.1 (omega arith)
      approved

approve_pending_device_refused_example :
    (run_approval.0 ≡ ok true)
    ⊎ ((run_approval.1.committed ≡ (session []).committed)
        × (run_approval.1.working ≡ (session []).committed))
approve_pending_device_refused_example =
    approve_pending_device_refused (λ db. db) approval (session [])

abbrev carried_out : Statements
carried_out = record { lock = λ d. ok tt; update = λ d. ok tt; finish = λ d. ok tt }

revoke_ends_example :
    IsEnded carried_out
      (λ d. d)
      81
      1
      2
      (session (open_row ∷ [])).working
      (revoke carried_out (λ d. d) 81 1 2 (session (open_row ∷ [])))
    ⊎ IsUndone carried_out
        (λ d. d)
        81
        1
        2
        (session (open_row ∷ [])).working
        (revoke carried_out (λ d. d) 81 1 2 (session (open_row ∷ [])))
revoke_ends_example =
    revoke_ends carried_out (λ d. d) 81 1 2 (session (open_row ∷ [])) refl (omega arith)
