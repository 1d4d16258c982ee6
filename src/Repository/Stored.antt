-- ===== src/Repository/Stored.antt =====
-- What the statements on the sessions have done to the table where they did not raise.
use mathlib.Core.Path.{◌≡◌, sym}
use mathlib.Core.Logic.{inl, inr}
use verigence_security.Common.{ℕ, Bool, ◌&&◌, ◌∷◌, Text, ◌==◌, update_where, any, leb, Bool-cases}
use verigence_security.Core.Types.{Uuid, Instant, VpnStatus}
use verigence_security.Core.Result.{ok, ok-ne-err}
use verigence_security.Db.Schema.{Db, SessionRow, EvaluationRow}
use verigence_security.Repository.Sessions.{
  refuses_row, insert_session, update_sessions, is_active_id, is_active_user_session, touched,
  moved, update_active_session_context, update_reused_user_session, record_evaluation,
}

pub insert_session-eq-ok :
    (new : SessionRow) (db : Db) {u : Unit {0}}
    → (insert_session new db).0 ≡ ok u
    → (insert_session new db).1.sessions ≡ new ∷ db.sessions
unfolding insert_session
insert_session-eq-ok new db h = elim (Bool-cases (refuses_row new db.sessions)) [
  | inl t ↦ absurd (ok-ne-err (sym (rw t at h)))
  | inr f ↦ rw f
]

pub update_sessions-eq-ok :
    (p : SessionRow → Bool) (f : SessionRow → SessionRow) (db : Db) {u : Unit {0}}
    → (update_sessions p f db).0 ≡ ok u
    → (update_sessions p f db).1.sessions ≡ update_where p f db.sessions
unfolding update_sessions
update_sessions-eq-ok p f db h =
    elim (Bool-cases (any (λ r. p r && leb (f r).expires_at (f r).started_at) db.sessions)) [
      | inl t ↦ absurd (ok-ne-err (sym (rw t at h)))
      | inr n ↦ rw n
    ]

pub update_reused_user_session-eq-ok :
    (id : Uuid) (source_ip : Text) (vpn : VpnStatus) (version : ℕ) (expires_at now : Instant)
    (db : Db) {u : Unit {0}}
    → (update_reused_user_session id source_ip vpn version expires_at now db).0 ≡ ok u
    → (update_reused_user_session id source_ip vpn version expires_at now db).1.sessions
      ≡ update_where (is_active_id id) (touched source_ip vpn version expires_at now) db.sessions
unfolding update_reused_user_session
update_reused_user_session-eq-ok id source_ip vpn version expires_at now db h =
    update_sessions-eq-ok (is_active_id id) (touched source_ip vpn version expires_at now) db h

pub update_active_session_context-eq-ok :
    (id tenant_id user_id location_id : Uuid) (source_ip : Text) (vpn : VpnStatus) (version : ℕ)
    (expires_at now : Instant) (db : Db) {b : Bool}
    → (update_active_session_context id tenant_id user_id location_id source_ip vpn version
        expires_at now db).0
      ≡ ok b
    → (update_active_session_context id tenant_id user_id location_id source_ip vpn version
        expires_at now db).1.sessions
      ≡ update_where
          (is_active_user_session id tenant_id user_id)
          (λ r. moved location_id (touched source_ip vpn version expires_at now r))
          db.sessions
unfolding update_active_session_context update_sessions
update_active_session_context-eq-ok id tenant_id user_id location_id source_ip vpn version
      expires_at now db h =
    let p = is_active_user_session id tenant_id user_id in
    let f =
      λ (r : SessionRow). moved location_id (touched source_ip vpn version expires_at now r) in
    elim (Bool-cases (any (λ r. p r && leb (f r).expires_at (f r).started_at) db.sessions)) [
      | inl t ↦ absurd (ok-ne-err (sym (rw t at h)))
      | inr n ↦ rw n
    ]

-- The evaluations are a table of their own.
pub record_evaluation-sessions :
    (e : EvaluationRow) (db : Db) → (record_evaluation e db).1.sessions ≡ db.sessions
unfolding record_evaluation
record_evaluation-sessions e db =
    elim (Bool-cases (any (λ r. r.evaluation_id == e.evaluation_id) db.evaluations)) [
      | inl t ↦ rw t
      | inr f ↦ rw f
    ]
