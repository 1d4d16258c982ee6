-- ===== src/Runtime.antt =====
-- What a service is constructed with or reads from its surroundings: the platform, the network-risk
-- adapter, the token settings, and the repository of the USER runtime, whose class the route chooses.
use verigence_security.Common.{ℕ, List, Option, Text, none, some}
use verigence_security.Core.Types.{Uuid, Instant}
use verigence_security.Core.Result.{Result, ok, or_deny, deny_if, ◌>>=◌, ◌>>◌}
use verigence_security.Core.Errors.{user_not_onboarded, principal_not_active, user_not_active}
use verigence_security.Common.{not, ◌&&◌, ◌==◌, find_first, head?}
use verigence_security.Db.Schema.{Db, principal_active, user_active}
use verigence_security.Platform.Doubles.{Doubles}
use verigence_security.Platform.Zones.{Zones}
use verigence_security.Platform.Jwt.{Jwt}
use verigence_security.Network.{NetworkRiskAdapter}
use verigence_security.Tokens.{Settings}
use verigence_security.Repository.Directory.{
  UserContext, get_user_context, find_user, principals_of,
}
use verigence_security.Repository.Roles.{effective_user_permissions, group_aware_permissions}
use verigence_security.Repository.Sessions.{
  NewSession, create_user_session, user_session_row, insert_session,
}

-- `others` is what other transactions commit while this one waits for the row lock of the device.
pub record Runtime : Type 0 where
  pub doubles : Doubles
  pub zones : Zones
  pub jwt : Jwt
  pub uuid4 : ℕ → Uuid
  pub parse_uuid : Text → Option Uuid
  pub sha256_hex : Text → Text
  pub network : NetworkRiskAdapter
  pub settings : Settings
  pub others : Db → Db

-- The methods that the two classes of repository implement differently.
pub record UserRepository : Type 0 where
  pub get_user_context : Uuid → Uuid → Instant → Db → Result UserContext
  pub effective_user_permissions : Uuid → Uuid → Instant → Db → Result (List Text × List Text)
  pub create_user_session : Uuid → NewSession → Db → Result (Unit {0}) × Db

-- SecurityRepository
abbrev pub security_repository : UserRepository
security_repository = record {
  get_user_context = get_user_context;
  effective_user_permissions = effective_user_permissions;
  create_user_session = create_user_session;
}

-- The authorization version of the user in the tenant: `COALESCE(a.authorization_version,1)`.
abbrev pub authorization_version_of : Uuid → Uuid → Db → ℕ
authorization_version_of user_id tenant_id db =
    elim (find_first (λ a. a.user_id == user_id && a.tenant_id == tenant_id)
      db.authorization_states) [ none ↦ 1 | some a ↦ a.authorization_version ]

-- GroupAwareSecurityRepository of api/routes/access.py: no membership is asked for.
unfoldable pub global_user_context : Uuid → Uuid → Instant → Db → Result UserContext
global_user_context user_id tenant_id now db = do
  u ← or_deny (find_user db user_id) user_not_onboarded
  p ← or_deny (head? (principals_of db user_id)) user_not_onboarded
  deny_if (not (principal_active p.status)) principal_not_active
  deny_if (not (user_active u.status)) user_not_active
  ok (record {
    user_id = u.user_id;
    user_status = u.status;
    membership = none;
    authorization_version = authorization_version_of user_id tenant_id db;
  })

unfoldable pub create_global_user_session : Uuid → NewSession → Db → Result (Unit {0}) × Db
create_global_user_session session_id n = insert_session (user_session_row session_id none n)

abbrev pub group_aware_repository : UserRepository
group_aware_repository = record {
  get_user_context = global_user_context;
  effective_user_permissions = group_aware_permissions;
  create_user_session = create_global_user_session;
}
