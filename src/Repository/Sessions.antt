-- ===== src/Repository/Sessions.antt =====
-- The access-session and evaluation statements of SecurityRepository, SessionRefreshRepository and
-- DeviceSessionLifecycleRepository, and the constraints of migrations/0001 that refuse a session row:
-- the primary key, `expires_at_utc > started_at_utc`, and the unique index on the ACTIVE USER
-- sessions of a device. The foreign keys are not among them: the rows they ask for are read before
-- the write, in the same transaction.
use verigence_security.Common.{
  ℕ, Bool, false, ◌&&◌, ◌||◌, List, ◌∷◌, Option, none, some, Text, codes, leb, ◌==◌, find_first,
  update_where, any, option_or, if◌then◌else◌,
}
use verigence_security.Core.Types.{Uuid, Instant, ActorType, user, is_user, VpnStatus}
use verigence_security.Core.Errors.{integrity_error}
use verigence_security.Core.Result.{Result, ok, err}
use verigence_security.Db.Schema.{Db, SessionRow, SessionStatus, session_active, EvaluationRow}

-- `device_id=:device_id`, which NULL never satisfies.
abbrev pub is_some_id : Uuid → Option Uuid → Bool
is_some_id id o = option_or false (λ x. x == id) o

-- A USER session of the principal, the tenant and the device.
abbrev pub is_user_session_on : Uuid → Uuid → Uuid → SessionRow → Bool
is_user_session_on tenant_id user_id device_id r =
    r.tenant_id == tenant_id
    && (r.principal_id == user_id && (is_some_id device_id r.device_id && is_user r.actor_type))

-- A row of the partial unique index `uq_active_user_device_session`.
abbrev pub is_active_on : Uuid → Uuid → Uuid → SessionRow → Bool
is_active_on tenant_id user_id device_id r =
    is_user_session_on tenant_id user_id device_id r && session_active r.status

-- The index key of a new row; a NULL device never conflicts.
abbrev pub conflicts_with : SessionRow → SessionRow → Bool
conflicts_with new r =
    option_or false (λ d. is_active_on new.tenant_id new.principal_id d r) new.device_id
    && (is_user new.actor_type && session_active new.status)

abbrev pub is_session_id : Uuid → SessionRow → Bool
is_session_id id r = r.access_session_id == id

abbrev pub refuses_row : SessionRow → List SessionRow → Bool
refuses_row new rows =
    any (is_session_id new.access_session_id) rows
    || (leb new.expires_at new.started_at || any (conflicts_with new) rows)

-- `INSERT INTO security.access_sessions`
unfoldable pub insert_session : SessionRow → Db → Result (Unit {0}) × Db
insert_session new db =
    if refuses_row new db.sessions
    then (err integrity_error, db)
    else (ok tt, record db { sessions = new ∷ db.sessions })

-- `UPDATE security.access_sessions`, for a change that leaves the keys alone: only
-- `expires_at_utc > started_at_utc` can refuse it.
unfoldable pub update_sessions :
    (SessionRow → Bool) → (SessionRow → SessionRow) → Db → Result (Unit {0}) × Db
update_sessions p f db =
    if any (λ r. p r && leb (f r).expires_at (f r).started_at) db.sessions
    then (err integrity_error, db)
    else (ok tt, record db { sessions = update_where p f db.sessions })

abbrev pub is_stale_on : Uuid → Uuid → Uuid → Instant → SessionRow → Bool
is_stale_on tenant_id user_id device_id now r =
    is_active_on tenant_id user_id device_id r && leb r.expires_at now

abbrev pub expired : SessionRow → SessionRow
expired r = record r { status = SessionStatus.expired }

unfoldable pub expire_stale_user_sessions : Uuid → Uuid → Uuid → Instant → Db → Db
expire_stale_user_sessions tenant_id user_id device_id now db = record db {
  sessions = update_where (is_stale_on tenant_id user_id device_id now) expired db.sessions;
}

unfoldable pub active_user_session : Uuid → Uuid → Uuid → Db → Option SessionRow
active_user_session tenant_id user_id device_id db =
    find_first (is_active_on tenant_id user_id device_id) db.sessions

-- The arguments of `create_user_session`.
pub record NewSession : Type 0 where
  pub tenant_id : Uuid
  pub user_id : Uuid
  pub membership_id : Option Uuid
  pub device_id : Uuid
  pub location_id : Uuid
  pub authentication_source : Text
  pub authz_version : ℕ
  pub source_ip : Text
  pub vpn_status : VpnStatus
  pub expires_at : Instant
  pub now : Instant

abbrev pub user_session_row : Uuid → Option Uuid → NewSession → SessionRow
user_session_row session_id membership_id n = record {
  access_session_id = session_id;
  tenant_id = n.tenant_id;
  principal_id = n.user_id;
  actor_type = user;
  membership_id = membership_id;
  device_id = some n.device_id;
  location_id = some n.location_id;
  credential_id = none;
  authentication_source = n.authentication_source;
  authorization_version = some n.authz_version;
  source_ip = n.source_ip;
  vpn_status = some n.vpn_status;
  started_at = n.now;
  expires_at = n.expires_at;
  last_activity_at = n.now;
  last_geo_validated_at = some n.now;
  status = SessionStatus.active;
}

-- The session id is `str(uuid4())`, drawn by the caller.
unfoldable pub create_user_session : Uuid → NewSession → Db → Result (Unit {0}) × Db
create_user_session session_id n = insert_session (user_session_row session_id n.membership_id n)

abbrev pub machine_session_row :
    Uuid → Uuid → ActorType → Uuid → Uuid → Text → Instant → Instant → SessionRow
machine_session_row session_id principal_id actor_type tenant_id credential_id source_ip expires_at
      now =
    record {
      access_session_id = session_id;
      tenant_id = tenant_id;
      principal_id = principal_id;
      actor_type = actor_type;
      membership_id = none;
      device_id = none;
      location_id = none;
      credential_id = some credential_id;
      authentication_source = codes "CLIENT_CREDENTIAL";
      authorization_version = none;
      source_ip = source_ip;
      vpn_status = none;
      started_at = now;
      expires_at = expires_at;
      last_activity_at = now;
      last_geo_validated_at = none;
      status = SessionStatus.active;
    }

unfoldable pub create_machine_session :
    Uuid → Uuid → ActorType → Uuid → Uuid → Text → Instant → Instant → Db → Result (Unit {0}) × Db
create_machine_session session_id principal_id actor_type tenant_id credential_id source_ip
      expires_at now =
    insert_session (
      machine_session_row session_id principal_id actor_type tenant_id credential_id source_ip
        expires_at now)

abbrev pub is_active_id : Uuid → SessionRow → Bool
is_active_id id r = is_session_id id r && session_active r.status

abbrev pub touched : Text → VpnStatus → ℕ → Instant → Instant → SessionRow → SessionRow
touched source_ip vpn version expires_at now r = record r {
  authorization_version = some version;
  source_ip = source_ip;
  vpn_status = some vpn;
  expires_at = expires_at;
  last_activity_at = now;
  last_geo_validated_at = some now;
}

unfoldable pub update_reused_user_session :
    Uuid → Text → VpnStatus → ℕ → Instant → Instant → Db → Result (Unit {0}) × Db
update_reused_user_session session_id source_ip vpn version expires_at now =
    update_sessions (is_active_id session_id) (touched source_ip vpn version expires_at now)

-- The USER session of that id, tenant and user; `FOR UPDATE` reads the same row under its lock.
abbrev pub is_user_session : Uuid → Uuid → Uuid → SessionRow → Bool
is_user_session session_id tenant_id user_id r =
    is_session_id session_id r
    && (r.tenant_id == tenant_id && (r.principal_id == user_id && is_user r.actor_type))

unfoldable pub user_session : Uuid → Uuid → Uuid → Db → Option SessionRow
user_session session_id tenant_id user_id db =
    find_first (is_user_session session_id tenant_id user_id) db.sessions

abbrev pub is_active_user_session : Uuid → Uuid → Uuid → SessionRow → Bool
is_active_user_session session_id tenant_id user_id r =
    is_user_session session_id tenant_id user_id r && session_active r.status

abbrev pub moved : Uuid → SessionRow → SessionRow
moved location_id r = record r { location_id = some location_id }

-- The rows that `RETURNING` gives are those that the update changed.
abbrev pub changed_any :
    (SessionRow → Bool) → Result (Unit {0}) × Db → List SessionRow → Result Bool × Db
changed_any p (ok u, db) before = (ok (any p before), db)
changed_any p (err e, db) before = (err e, db)

unfoldable pub update_active_session_context :
    Uuid → Uuid → Uuid → Uuid → Text → VpnStatus → ℕ → Instant → Instant → Db → Result Bool × Db
update_active_session_context session_id tenant_id user_id location_id source_ip vpn version
      expires_at now db =
    let p = is_active_user_session session_id tenant_id user_id in
    changed_any p
      (update_sessions p (λ r. moved location_id (touched source_ip vpn version expires_at now r))
        db)
      db.sessions

abbrev pub revoked : SessionRow → SessionRow
revoked r = record r { status = SessionStatus.revoked }

unfoldable pub revoke_active_user_session : Uuid → Uuid → Uuid → Db → Bool × Db
revoke_active_user_session session_id tenant_id user_id db =
    let p = is_active_user_session session_id tenant_id user_id in
    (any p db.sessions, record db { sessions = update_where p revoked db.sessions })

-- `INSERT INTO security.access_context_evaluations`, whose primary key can refuse it.
unfoldable pub record_evaluation : EvaluationRow → Db → Result (Unit {0}) × Db
record_evaluation e db =
    if any (λ r. r.evaluation_id == e.evaluation_id) db.evaluations
    then (err integrity_error, db)
    else (ok tt, record db { evaluations = e ∷ db.evaluations })
