-- ===== src/Access/Refresh/Request.antt =====
-- What `refresh` reads before its locks.
use verigence_security.Common.{Option, Text}
use verigence_security.Core.Types.{Uuid, Instant}
use verigence_security.Core.Result.{Result, ok, ◌>>=◌, ◌>>◌}
use verigence_security.Db.Schema.{Db, PolicyRow}
use verigence_security.Geo.Distance.{GeoSample}
use verigence_security.Network.{NetworkRiskResult}
use verigence_security.Runtime.{UserRepository}
use verigence_security.Repository.Directory.{UserContext, get_tenant_policy}
use verigence_security.Access.Checks.{require_tenant}

-- The arguments of the call, and what the clock shows when the token is signed.
pub record RefreshRequest : Type 0 where
  pub user_id : Uuid
  pub tenant_id : Uuid
  pub access_session_id : Uuid
  pub geo : Option GeoSample
  pub source_ip : Text
  pub correlation_id : Text
  pub signed_at : Instant

pub record Opening : Type 0 where
  pub geo : GeoSample
  pub risk : NetworkRiskResult
  pub context : UserContext
  pub policy : PolicyRow

unfoldable pub open_refresh :
    UserRepository → RefreshRequest → GeoSample → NetworkRiskResult → Instant → Db → Result Opening
open_refresh repo req geo risk now db = do
  require_tenant req.tenant_id db
  context ← repo.get_user_context req.user_id req.tenant_id now db
  policy ← get_tenant_policy req.tenant_id db
  ok (record { geo = geo; risk = risk; context = context; policy = policy })
