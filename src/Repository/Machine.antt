-- ===== src/Repository/Machine.antt =====
-- SecurityRepository: machine credentials, permissions and sessions.
use verigence_security.Common.{
  false, Bool, ◌&&◌, ◌||◌, not, List, map, some, Text, text_eq, ltb, leb, ◌==◌, select, find_first,
  flat_map, head?, option_or, update_where,
}
use verigence_security.Core.Types.{Uuid, Instant, ActorType, is_user}
use verigence_security.Core.Errors.{
  machine_credential_invalid, machine_credential_expired, principal_not_active,
  actor_type_not_allowed, principal_tenant_scope_required,
}
use verigence_security.Core.Result.{Result, ok, deny_if, or_deny, ◌>>=◌, ◌>>◌}
use verigence_security.Db.Schema.{
  Db, CredentialRow, PrincipalRow, ScopeRow, PermissionRow, principal_active, credential_active,
  credential_expired, in_force, valid_at,
}
use verigence_security.Permissions.Ordered.{sorted_set}
use verigence_security.Repository.Directory.{principals_of}

pub record MachineCredential : Type 0 where
  pub principal_id : Uuid
  pub actor_type : ActorType
  pub credential_id : Uuid
  pub client_id : Text
  pub secret_hash : Text

abbrev pub credential_rows : Db → Text → List (CredentialRow × PrincipalRow)
credential_rows db client_id =
    flat_map (λ c. map (λ p. (c, p)) (principals_of db c.principal_id))
      (select (λ c. text_eq c.client_id client_id) db.credentials)

unfoldable pub machine_credential : Text → Instant → Db → Result MachineCredential
machine_credential client_id now db = do
  row ← or_deny (head? (credential_rows db client_id)) machine_credential_invalid
  let c = row.0
  let p = row.1
  deny_if (not (principal_active p.status)) principal_not_active
  deny_if (is_user p.actor_type) actor_type_not_allowed
  deny_if (credential_expired c.status || option_or false (λ t. leb t now) c.valid_to)
      machine_credential_expired
  deny_if (not (credential_active c.status) || ltb now c.valid_from) machine_credential_invalid
  ok (record {
    principal_id = p.principal_id;
    actor_type = p.actor_type;
    credential_id = c.credential_id;
    client_id = c.client_id;
    secret_hash = c.secret_hash;
  })

abbrev pub scope_in_force : Uuid → Uuid → Instant → ScopeRow → Bool
scope_in_force principal_id tenant_id now r =
    r.principal_id == principal_id
    && (r.tenant_id == tenant_id && (in_force r.status && valid_at now r.valid_from r.valid_to))

abbrev pub permission_in_force : Text → PermissionRow → Bool
permission_in_force key p = text_eq p.permission_key key && in_force p.status

abbrev pub grant_rows : Db → Uuid → Uuid → List Text
grant_rows db principal_id tenant_id =
    flat_map
      (λ g.
        map (λ p. p.permission_key) (select (permission_in_force g.permission_key) db.permissions))
      (select
        (λ g. g.principal_id == principal_id && (g.tenant_id == tenant_id && in_force g.status))
        db.grants)

-- `DISTINCT ... ORDER BY p.permission_key`: the keys are ASCII, which every collation of the ASCII
-- letters, digits and dots orders as `sorted` does up to the validation that follows.
unfoldable pub machine_permissions : Uuid → Uuid → Instant → Db → Result (List Text)
machine_permissions principal_id tenant_id now db = do
  scope ←
      or_deny (find_first (scope_in_force principal_id tenant_id now) db.scopes)
        principal_tenant_scope_required
  ok (sorted_set (grant_rows db principal_id tenant_id))

unfoldable pub mark_machine_credential_used : Uuid → Instant → Db → Db
mark_machine_credential_used credential_id now db = record db {
  credentials =
      update_where (λ c. c.credential_id == credential_id)
        (λ c. record c { last_used_at = some now }) db.credentials;
}
