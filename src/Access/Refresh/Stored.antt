-- ===== src/Access/Refresh/Stored.antt =====
-- What `extend` signs and writes for a session that has been held and checked again.
use mathlib.Core.Path.{◌≡◌, ◌∙◌, sym, ap, subst}
use verigence_security.Common.{ℕ, false, not, List, Text, codes, leb, some, update_where}
use verigence_security.Core.Types.{Uuid, Instant}
use verigence_security.Core.Errors.{auth_token_expired, session_revoked}
use verigence_security.Core.Result.{Result, ok, deny_if, deny_if-eq-ok, ok-injective}
use verigence_security.Db.Schema.{Db, SessionRow, Decision}
use verigence_security.Db.Transaction.{Step, ◌>>=◌, ◌>>◌, pure, lift, writes, commit, draw}
use verigence_security.Db.Steps.{run_ok_then, pure_run, lift-eq-ok}
use verigence_security.Geo.Distance.{LocationCandidate}
use verigence_security.Schedule.{ScheduleDecision}
use verigence_security.Platform.Uuids.{uuid_text}
use verigence_security.Tokens.{issue}
use verigence_security.Runtime.{Runtime, UserRepository}
use verigence_security.Repository.Sessions.{
  is_active_user_session, touched, moved, update_active_session_context, record_evaluation,
}
use verigence_security.Repository.Stored.{
  update_active_session_context-eq-ok, record_evaluation-sessions,
}
use verigence_security.Access.Checks.{expiry_of}
use verigence_security.Access.Refresh.Request.{RefreshRequest, Opening}
use verigence_security.Access.Refresh.{
  Trace, Evidence, on, collected, RefreshedUserSession, evaluation_payload, refreshed_claims,
  extend,
}

module _ {A : Type 0} where
  on-writes-eq-ok :
      (f : Db → Result A × Db) (t : Trace) {a : A} {t' : Trace}
      → on (writes f) t ≡ (ok a, t')
      → ((f t.session.working).0 ≡ ok a) × (t'.session.working ≡ (f t.session.working).1)
  unfolding on writes
  on-writes-eq-ok f t h = (
    ap (λ (o : Result A × Trace). o.0) h,
    ap (λ (o : Result A × Trace). o.1.session.working) (sym h),
  )

on-draw_working :
    (g : ℕ → Uuid) (t : Trace) {a : Uuid} {t' : Trace}
    → on (draw g) t ≡ (ok a, t')
    → t'.session.working ≡ t.session.working
unfolding on draw
on-draw_working g t h = ap (λ (o : Result Uuid × Trace). o.1.session.working) (sym h)

on-commit_committed :
    (t : Trace) {u : Unit {0}} {t' : Trace}
    → on commit t ≡ (ok u, t')
    → t'.session.committed ≡ t.session.working
unfolding on commit
on-commit_committed t h = ap (λ (o : Result (Unit {0}) × Trace). o.1.session.committed) (sym h)

collected_trace : (t : Trace) {e : Evidence} {t' : Trace} → collected t ≡ (ok e, t') → t' ≡ t
unfolding collected
collected_trace t h = ap (λ (o : Result Evidence × Trace). o.1) (sym h)

module _ (rt : Runtime) (repo : UserRepository) (session_others : Db → Db) (req : RefreshRequest)
    (now : Instant) where
  -- One end for the answer, the token and the session's row.
  pub record IsStored (o : Opening) (seen after : Db) (g : RefreshedUserSession) : Type 0 where
    pub jti : Uuid
    pub signed :
        issue rt.jwt rt.settings
          (refreshed_claims rt repo session_others req now g.device_id g.location_id g.roles
            g.permissions g.expires_at)
          req.signed_at
          (uuid_text jti)
        ≡ ok g.access_token
    pub stored :
        after.sessions
        ≡ update_where
            (is_active_user_session req.access_session_id req.tenant_id req.user_id)
            (λ r. moved g.location_id (
              touched req.source_ip o.risk.vpn_status o.context.authorization_version g.expires_at
                now r))
            seen.sessions

  -- The sessions as the call leaves them.
  abbrev new_sessions : Opening → Uuid → Instant → Db → List SessionRow
  new_sessions o location_id expiry seen =
      update_where (is_active_user_session req.access_session_id req.tenant_id req.user_id)
        (λ r.
          moved location_id
            (touched req.source_ip o.risk.vpn_status o.context.authorization_version expiry now r))
        seen.sessions

  abbrev grant_of : Uuid → Uuid → Instant → List Text → List Text → Text → RefreshedUserSession
  grant_of d location_id expiry roles ps token = record {
    access_session_id = req.access_session_id;
    access_token = token;
    expires_at = expiry;
    tenant_id = req.tenant_id;
    user_id = req.user_id;
    device_id = d;
    location_id = location_id;
    roles = roles;
    permissions = ps;
  }

  -- The steps behind the update.
  abbrev sign_and_commit :
      Uuid → Uuid → Instant → List Text → List Text → Evidence → Step Trace RefreshedUserSession
  sign_and_commit d location_id expiry roles ps evidence = do
    evaluation_id ← on (draw rt.uuid4)
    on (
        writes (
          record_evaluation (
            evaluation_payload rt repo session_others req now Decision.allow
              (codes "ACCESS_GRANTED") evidence evaluation_id)))
    jti ← on (draw rt.uuid4)
    token ← lift (
        issue rt.jwt rt.settings
          (refreshed_claims rt repo session_others req now d location_id roles ps expiry)
          req.signed_at (uuid_text jti))
    on commit
    pure (grant_of d location_id expiry roles ps token)

  signing_stores :
      (o : Opening) (d location_id : Uuid) (expiry : Instant) (roles ps : List Text)
      (evidence : Evidence) (seen : Db) (t t' : Trace) (g : RefreshedUserSession)
      → t.session.working.sessions ≡ new_sessions o location_id expiry seen
      → sign_and_commit d location_id expiry roles ps evidence t ≡ (ok g, t')
      → (g.expires_at ≡ expiry) × (g.device_id ≡ d) × IsStored o seen t'.session.committed g
  signing_stores o d location_id expiry roles ps evidence seen t t' g before h =
      run_ok_then (on (draw rt.uuid4)) _ t h λ eid t1 q1 h1.
        let evaluation =
          evaluation_payload rt repo session_others req now Decision.allow (codes "ACCESS_GRANTED")
            evidence eid in
        run_ok_then (on (writes (record_evaluation evaluation))) _ t1 h1 λ _ t2 q2 h2.
          run_ok_then (on (draw rt.uuid4)) _ t2 h2 λ jti t3 q3 h3.
            let signing =
              issue rt.jwt rt.settings
                (refreshed_claims rt repo session_others req now d location_id roles ps expiry)
                req.signed_at (uuid_text jti) in
            run_ok_then (lift signing) _ t3 h3 λ token t4 q4 h4.
              run_ok_then (on commit) _ t4 h4 λ _ t5 q5 h5.
                let (e4, w4) = lift-eq-ok signing t3 q4 in
                let (_, w2) = on-writes-eq-ok (record_evaluation evaluation) t1 q2 in
                let made = grant_of d location_id expiry roles ps token in
                let done = sym (pure_run made t5) ∙ h5 in
                let q = ok-injective (ap (λ (x : Result RefreshedUserSession × Trace). x.0) done) in
                let kept : t3.session.working.sessions ≡ t.session.working.sessions =
                  ap (λ (db : Db). db.sessions) (on-draw_working rt.uuid4 t2 q3 ∙ w2)
                  ∙ record_evaluation-sessions evaluation t1.session.working
                  ∙ ap (λ (db : Db). db.sessions) (on-draw_working rt.uuid4 t q1) in
                let written : t'.session.committed.sessions ≡ t3.session.working.sessions =
                  ap (λ (x : Result RefreshedUserSession × Trace). x.1.session.committed.sessions)
                    (sym done)
                  ∙ ap (λ (db : Db). db.sessions) (on-commit_committed t4 q5)
                  ∙ ap (λ (x : Trace). x.session.working.sessions) w4 in
                (
                  ap (λ (a : RefreshedUserSession). a.expires_at) (sym q),
                  ap (λ (a : RefreshedUserSession). a.device_id) (sym q),
                  subst (IsStored o seen t'.session.committed) q
                      (record { jti = jti; signed = e4; stored = written ∙ kept ∙ before }),
                )

  pub extend-IsStored :
      (o : Opening) (d : Uuid) (row : SessionRow)
      (c : LocationCandidate × ScheduleDecision × List Text × List Text) (t t' : Trace)
      (g : RefreshedUserSession)
      → extend rt repo session_others req now o d row c t ≡ (ok g, t')
      → (leb (expiry_of o.policy now (some row) c.1) now ≡ false)
        × (g.expires_at ≡ expiry_of o.policy now (some row) c.1)
        × (g.device_id ≡ d)
        × IsStored o t.session.working t'.session.committed g
  unfolding extend
  extend-IsStored o d row (l, sch, roles, ps) t t' g h =
      let expiry = expiry_of o.policy now (some row) sch in
      let check = deny_if (leb expiry now) auth_token_expired in
      let statement =
        update_active_session_context req.access_session_id req.tenant_id req.user_id l.location_id
          req.source_ip o.risk.vpn_status o.context.authorization_version expiry now in
      run_ok_then (lift check) _ t h λ _ t1 q1 h1.
        run_ok_then (on (writes statement)) _ t1 h1 λ updated t2 q2 h2.
          run_ok_then (lift (deny_if (not updated) session_revoked)) _ t2 h2 λ _ t3 q3 h3.
            run_ok_then collected _ t3 h3 λ evidence t4 q4 h4.
              let (e1, w1) = lift-eq-ok check t q1 in
              let (e2, w2) = on-writes-eq-ok statement t1 q2 in
              let (_, w3) = lift-eq-ok (deny_if (not updated) session_revoked) t2 q3 in
              let w4 = collected_trace t3 q4 in
              let updated_to =
                update_active_session_context-eq-ok req.access_session_id req.tenant_id req.user_id
                  l.location_id req.source_ip o.risk.vpn_status o.context.authorization_version
                  expiry now t1.session.working e2 in
              let seen : t4.session.working.sessions
                  ≡ new_sessions o l.location_id expiry t.session.working =
                ap (λ (x : Trace). x.session.working.sessions) (w4 ∙ w3)
                ∙ ap (λ (db : Db). db.sessions) w2
                ∙ updated_to
                ∙ ap (λ (x : Trace). new_sessions o l.location_id expiry x.session.working) w1 in
              let (ends, same_id, done) =
                signing_stores o d l.location_id expiry roles ps evidence t.session.working t4 t' g
                  seen h4 in
              (deny_if-eq-ok (leb expiry now) auth_token_expired e1, ends, same_id, done)
