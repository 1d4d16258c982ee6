-- ===== src/Db/Schema/Admin.antt =====
-- The rows of the administration of a tenant's access: the requests for privileged roles and the record
-- of the changes that administrators made.
use mathlib.Core.Option.{Option}
use verigence_security.Common.{Text}
use verigence_security.Core.Types.{Uuid, Instant}
use verigence_security.Db.Schema.Status.{PrivilegedStatus}

pub record PrivilegedRequestRow : Type 0 where
  pub request_id : Uuid
  pub tenant_id : Uuid
  pub subject_user_id : Uuid
  pub role_id : Uuid
  pub source_invitation_id : Option Uuid
  pub status : PrivilegedStatus
  pub requested_by_user_id : Uuid
  pub requested_at : Instant
  pub approved_by_user_id : Option Uuid
  pub decided_at : Option Instant
  pub decision_reason : Option Text
  pub correlation_id : Text

-- A row of `admin_change_records` for a tenant; its outcome is always `SUCCESS`.
pub record AdminChangeRow : Type 0 where
  pub admin_change_id : Uuid
  pub correlation_id : Text
  pub tenant_id : Uuid
  pub actor_user_id : Uuid
  pub operation_key : Text
  pub resource_type : Text
  pub resource_id : Text
  pub occurred_at : Instant
