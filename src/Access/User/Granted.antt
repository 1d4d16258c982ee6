-- ===== src/Access/User/Granted.antt =====
-- What `grant` signs and writes for an access that has been cleared.
use mathlib.Core.Path.{◌≡◌, refl, ◌∙◌, sym, ap, subst}
use mathlib.Core.Logic.{inl, inr}
use mathlib.Core.Option.{Option, none, some}
use verigence_security.Common.{not, List, ◌∷◌, update_where}
use verigence_security.Core.Types.{Uuid, Instant}
use verigence_security.Core.Errors.{access_session_context_conflict}
use verigence_security.Core.Result.{ok, deny_if, ok-injective}
use verigence_security.Db.Schema.{Db, SessionRow}
use verigence_security.Db.Transaction.{Session, pure, lift, reads, writes, modify, draw}
use verigence_security.Db.Steps.{
  Outcome, run_ok, reads-eq-ok, lift-eq-ok, writes-eq-ok, draw-eq-ok, modify-eq-ok,
}
use verigence_security.Network.{NetworkRiskResult}
use verigence_security.Platform.Uuids.{uuid_text}
use verigence_security.Tokens.{issue}
use verigence_security.Runtime.{Runtime, UserRepository, create_global_user_session}
use verigence_security.Repository.Sessions.{
  NewSession, user_session_row, is_some_id, is_active_id, touched, create_user_session,
  expire_stale_user_sessions, active_user_session, update_reused_user_session, record_evaluation,
}
use verigence_security.Repository.Stored.{
  insert_session-eq-ok, update_reused_user_session-eq-ok, record_evaluation-sessions,
}
use verigence_security.Access.Checks.{AccessRequest, Admission, Clearance, expiry_of}
use verigence_security.Access.Checks.Standing.{IsRuntimeRepository}
use verigence_security.Access.User.{
  AccessGrant, new_session, open_session, allow_evidence, user_claims, grant,
}

module _ (rt : Runtime) (repo : UserRepository) (req : AccessRequest) (now : Instant) where
  -- The session that is stored: a new row, or the one of an earlier call with its new end.
  abbrev pub IsStored :
      Admission
      → Clearance
      → NetworkRiskResult
      → Uuid
      → Instant
      → List SessionRow
      → List SessionRow
      → Option SessionRow
      → Type 0
  IsStored who c risk id expiry before after none =
      (membership_id : Option Uuid) × (after
        ≡ user_session_row id membership_id (new_session rt repo req now who c risk expiry)
          ∷ before)
  IsStored who c risk id expiry before after (some row) =
      (id ≡ row.access_session_id)
      × (after
          ≡ update_where (is_active_id row.access_session_id)
              (touched req.source_ip risk.vpn_status who.context.authorization_version expiry now)
              before)

  create_user_session-sessions :
      IsRuntimeRepository repo
      → (id : Uuid) (n : NewSession) (db : Db) {u : Unit {0}}
      → (repo.create_user_session id n db).0 ≡ ok u
      → (membership_id : Option Uuid) × ((repo.create_user_session id n db).1.sessions
          ≡ user_session_row id membership_id n ∷ db.sessions)
  unfolding create_user_session create_global_user_session
  create_user_session-sessions k id n db {u} h =
      let Creates = λ (r : UserRepository).
        (r.create_user_session id n db).0 ≡ ok u
        → (membership_id : Option Uuid) × ((r.create_user_session id n db).1.sessions
            ≡ user_session_row id membership_id n ∷ db.sessions) in
      elim k [
        | inl e ↦
            subst Creates (sym e)
              (λ l. (
                n.membership_id,
                insert_session-eq-ok (user_session_row id n.membership_id n) db l,
              ))
              h
        | inr e ↦
            subst Creates (sym e)
              (λ l. (none, insert_session-eq-ok (user_session_row id none n) db l)) h
      ]

  open_session-IsStored :
      IsRuntimeRepository repo
      → (who : Admission) (c : Clearance) (risk : NetworkRiskResult) (active : Option SessionRow)
        (s t : Session) (id : Uuid)
      → open_session rt repo req now who c risk active s ≡ (ok id, t)
      → IsStored who c risk id
          (expiry_of who.policy now active c.schedule)
          s.working.sessions
          t.working.sessions
          active
  unfolding open_session pure
  open_session-IsStored k who c risk none s t id h =
      let n = new_session rt repo req now who c risk (expiry_of who.policy now none c.schedule) in
      let (x, s1, q1, h1) = run_ok (draw rt.uuid4) _ s h in
      let (_, s2, q2, h2) = run_ok (writes (repo.create_user_session x n)) _ s1 h1 in
      let (e2, w2, _) = writes-eq-ok (repo.create_user_session x n) s1 q2 in
      let (mid, e) = create_user_session-sessions k x n s1.working e2 in
      let same : x ≡ id = ok-injective (ap (λ (o : Outcome Uuid). o.0) h2) in
      (
        mid,
        ap (λ (o : Outcome Uuid). o.1.working.sessions) (sym h2)
            ∙ ap (λ (d : Db). d.sessions) w2
            ∙ e
            ∙ ap (λ (d : Db). user_session_row x mid n ∷ d.sessions) (draw-eq-ok rt.uuid4 s q1).0
            ∙ ap (λ y. user_session_row y mid n ∷ s.working.sessions) same,
      )
  open_session-IsStored k who c risk (some row) s t id h =
      let check =
        deny_if (not (is_some_id c.location.location_id row.location_id))
          access_session_context_conflict in
      let (_, s1, q1, h1) = run_ok (lift check) _ s h in
      let (_, w1) = lift-eq-ok check s q1 in
      let statement =
        update_reused_user_session row.access_session_id req.source_ip risk.vpn_status
          who.context.authorization_version (expiry_of who.policy now (some row) c.schedule) now in
      let (_, s2, q2, h2) = run_ok (writes statement) _ s1 h1 in
      let (e2, w2, _) = writes-eq-ok statement s1 q2 in
      (
        ok-injective (ap (λ (o : Outcome Uuid). o.0) (sym h2)),
        ap (λ (o : Outcome Uuid). o.1.working.sessions) (sym h2)
            ∙ ap (λ (d : Db). d.sessions) w2
            ∙ update_reused_user_session-eq-ok row.access_session_id req.source_ip risk.vpn_status
                who.context.authorization_version (expiry_of who.policy now (some row) c.schedule)
                now s1.working e2
            ∙ ap
                (λ (u : Session).
                  update_where (is_active_id row.access_session_id)
                    (touched req.source_ip risk.vpn_status who.context.authorization_version
                      (expiry_of who.policy now (some row) c.schedule) now)
                    u.working.sessions)
                w1,
      )

  -- The tables without the user's sessions on the device that are at their end.
  abbrev pub fresh_tables : Admission → Db → Db
  fresh_tables who db = expire_stale_user_sessions req.tenant_id who.user_id req.device_id now db

  -- What the call signs, stores and answers: one end for all three.
  pub record IsGranted (who : Admission) (c : Clearance) (risk : NetworkRiskResult)
      (seen after : Db) (g : AccessGrant) : Type 0 where
    pub active : Option SessionRow
    pub found :
        active_user_session req.tenant_id who.user_id req.device_id (fresh_tables who seen) ≡ active
    pub ends : g.expires_at ≡ expiry_of who.policy now active c.schedule
    pub location : g.location_id ≡ c.location.location_id
    pub permissions : g.permissions ≡ c.permissions
    pub roles : g.roles ≡ c.roles
    pub jti : Uuid
    pub signed :
        issue rt.jwt rt.settings
          (user_claims rt repo req now who c g.access_session_id g.expires_at)
          req.signed_at
          (uuid_text jti)
        ≡ ok g.access_token
    pub stored :
        IsStored who c risk g.access_session_id g.expires_at
          (fresh_tables who seen).sessions
          after.sessions
          active

  pub grant-IsGranted :
      IsRuntimeRepository repo
      → (who : Admission) (c : Clearance) (risk : NetworkRiskResult) (s t : Session)
        (g : AccessGrant)
      → grant rt repo req now who c risk s ≡ (ok g, t)
      → IsGranted who c risk s.working t.working g
  unfolding grant pure
  grant-IsGranted k who c risk s t g h =
      let (_, s1, q1, h1) = run_ok (modify (fresh_tables who)) _ s h in
      let (w1, _) = modify-eq-ok (fresh_tables who) s q1 in
      let find = λ (db : Db). active_user_session req.tenant_id who.user_id req.device_id db in
      let (active, s2, q2, h2) = run_ok (reads (λ db. ok (find db))) _ s1 h1 in
      let (e2, w2) = reads-eq-ok (λ db. ok (find db)) s1 q2 in
      let (id, s3, q3, h3) = run_ok (open_session rt repo req now who c risk active) _ s2 h2 in
      let expiry = expiry_of who.policy now active c.schedule in
      let (eid, s4, q4, h4) = run_ok (draw rt.uuid4) _ s3 h3 in
      let evaluation = allow_evidence rt repo req now who c risk id eid in
      let (_, s5, q5, h5) = run_ok (writes (record_evaluation evaluation)) _ s4 h4 in
      let (_, w5, _) = writes-eq-ok (record_evaluation evaluation) s4 q5 in
      let (jti, s6, q6, h6) = run_ok (draw rt.uuid4) _ s5 h5 in
      let signing =
        issue rt.jwt rt.settings (user_claims rt repo req now who c id expiry) req.signed_at
          (uuid_text jti) in
      let (token, s7, q7, h7) = run_ok (lift signing) _ s6 h6 in
      let (e7, w7) = lift-eq-ok signing s6 q7 in
      let written : t.working.sessions ≡ s3.working.sessions =
        ap (λ (o : Outcome AccessGrant). o.1.working.sessions) (sym h7)
        ∙ ap (λ (u : Session). u.working.sessions) w7
        ∙ ap (λ (d : Db). d.sessions) (draw-eq-ok rt.uuid4 s5 q6).0
        ∙ ap (λ (d : Db). d.sessions) w5
        ∙ record_evaluation-sessions evaluation s4.working
        ∙ ap (λ (d : Db). d.sessions) (draw-eq-ok rt.uuid4 s3 q4).0 in
      let start : s2.working ≡ fresh_tables who s.working =
        ap (λ (u : Session). u.working) w2 ∙ w1 in
      subst (IsGranted who c risk s.working t.working)
        (ok-injective (ap (λ (o : Outcome AccessGrant). o.0) h7))
        (record {
          active = active;
          found = ap find (sym w1) ∙ ok-injective e2;
          ends = refl;
          location = refl;
          permissions = refl;
          roles = refl;
          jti = jti;
          signed = e7;
          stored =
              subst
                (λ (rows : List SessionRow).
                  IsStored who c risk id expiry (fresh_tables who s.working).sessions rows active)
                (sym written)
                (subst
                  (λ (db : Db).
                    IsStored who c risk id expiry db.sessions s3.working.sessions active)
                  start (open_session-IsStored k who c risk active s2 s3 id q3));
        })
