-- ===== src/Access/Revoke.antt =====
-- services/session_lifecycle.py: `require_refresh_geo` and `revoke`.
pub mod Ended
use verigence_security.Common.{Bool, true, false, Option, none, some}
use verigence_security.Core.Types.{Uuid}
use verigence_security.Core.Errors.{geo_required}
use verigence_security.Core.Result.{Result, ok, or_deny}
use verigence_security.Db.Schema.{Db, SessionRow, session_active}
use verigence_security.Db.Transaction.{
  Action, ◌>>=◌, ◌>>◌, pure, reads, writes, commit, rollback, or_rollback, wait_for_lock,
}
use verigence_security.Geo.Distance.{GeoSample}
use verigence_security.Repository.Sessions.{user_session, revoke_active_user_session}

unfoldable pub require_refresh_geo : Option GeoSample → Result GeoSample
require_refresh_geo geo = or_deny geo geo_required

-- Whether the database carries out the locking read, the update and the commit, over the tables that
-- they find: each may fail, as a wait does that `statement_timeout` cancels.
pub record Statements : Type 0 where
  pub lock : Db → Result (Unit {0})
  pub update : Db → Result (Unit {0})
  pub finish : Db → Result (Unit {0})

module _ (db : Statements) (others : Db → Db) (session_id tenant_id user_id : Uuid) where
  abbrev pub settle : Bool → Action Bool
  settle true = do reads db.finish; commit; pure true
  settle false = rollback >> pure false

  abbrev pub revoke_row : Db → Result Bool × Db
  revoke_row tables =
      let (done, after) = revoke_active_user_session session_id tenant_id user_id tables in
      (ok done, after)

  abbrev pub is_live : Option SessionRow → Bool
  is_live none = false
  is_live (some r) = session_active r.status

  unfoldable pub revoke_live : Bool → Action Bool
  revoke_live false = rollback >> pure false
  revoke_live true = do reads db.update; done ← writes revoke_row; settle done

  unfoldable pub revoke : Action Bool
  unfolding revoke_live
  revoke = or_rollback (do
    wait_for_lock others
    reads db.lock
    found ← reads (λ tables. ok (user_session session_id tenant_id user_id tables))
    revoke_live (is_live found))
