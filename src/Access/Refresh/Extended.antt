-- ===== src/Access/Refresh/Extended.antt =====
-- What a refresh that answers has found, and how long it lets the session live.
use mathlib.Core.Path.{◌≡◌, refl, ◌∙◌, sym, ap, subst}
use native.Mathlib.Omega.{arith}
use verigence_security.Common.{◌+◌, ◌≤◌, ◌<◌, false, leb, some, List, Text}
use verigence_security.Core.Types.{Instant}
use verigence_security.Core.Errors.{
  security, value_error, domain_error, type_error, overflow_error, zone_not_found, integrity_error,
  lookup_error, data_error, runtime_error, Exc,
}
use verigence_security.Core.Result.{>>=-eq-ok, Result, ok, err, ok-ne-err}
use verigence_security.Db.Schema.{Db, PolicyRow, SessionRow}
use verigence_security.Db.Transaction.{Session, lift, reads}
use verigence_security.Db.Steps.{run_ok, pure_run, lift-eq-ok}
use verigence_security.Geo.Distance.{GeoSample, LocationCandidate}
use verigence_security.Schedule.{ScheduleDecision}
use verigence_security.Network.{NetworkRiskResult}
use verigence_security.Runtime.{Runtime, UserRepository}
use verigence_security.Repository.Directory.{get_tenant_policy}
use verigence_security.Access.Checks.{
  require_tenant, locate, check_schedule, require_network, expiry_of, minutes, seconds,
}
use verigence_security.Permissions.Validate.{validate_permissions}
use verigence_security.Access.Checks.Standing.{
  IsRuntimeRepository, IsActiveUser, get_user_context-IsActiveUser,
}
use verigence_security.Access.Refresh.Stored.{IsStored, extend-IsStored}
use verigence_security.Access.Checks.Sound.{HasPolicy, get_tenant_policy_sound}
use verigence_security.Access.Refresh.Request.{RefreshRequest, Opening, open_refresh}
use verigence_security.Access.Revoke.{require_refresh_geo}
use verigence_security.Access.Refresh.{
  Trace, no_evidence, on, note, RefreshedUserSession, hold, recheck, attempt, handled, refresh,
}
use verigence_security.Access.Refresh.Held.{
  on-reads-eq-ok, note_session, at_session, IsHeld, hold_finds, hold_session,
}

module _ (rt : Runtime) (repo : UserRepository) (session_others : Db → Db) (req : RefreshRequest)
    (now : Instant) where
  -- How long the session and its token live on.
  pub record IsExtended (policy : PolicyRow) (row : SessionRow) (g : RefreshedUserSession)
      : Type 0 where
    pub in_future : now < g.expires_at
    pub within_ttl : g.expires_at ≤ now + minutes policy.access_token_ttl_minutes
    pub within_geo : g.expires_at ≤ now + seconds policy.geo_revalidation_interval_seconds
    pub within_session : g.expires_at ≤ row.started_at + minutes policy.session_max_duration_minutes

  expiry_extends :
      (policy : PolicyRow) (row : SessionRow) (schedule : ScheduleDecision)
      (g : RefreshedUserSession)
      → leb (expiry_of policy now (some row) schedule) now ≡ false
      → g.expires_at ≡ expiry_of policy now (some row) schedule
      → IsExtended policy row g
  expiry_extends policy row schedule g f e = record {
    in_future = ground arith;
    within_ttl = ground arith;
    within_geo = ground arith;
    within_session = ground arith;
  }

  recheck_session :
      (o : Opening) (t t' : Trace)
      {c : LocationCandidate × ScheduleDecision × List Text × List Text}
      → recheck rt repo session_others req now o t ≡ (ok c, t')
      → t'.session ≡ t.session
  unfolding recheck
  recheck_session o t t' h =
      let find = locate rt req.user_id req.tenant_id o.policy o.geo now in
      let (found, t1, q1, h1) = run_ok (on (reads find)) _ t h in
      let (_, e1) = on-reads-eq-ok find t q1 in
      let (_, t2, q2, h2) = run_ok (note (λ e. record e { location = some found })) _ t1 h1 in
      let e2 = note_session (λ e. record e { location = some found }) t1 q2 in
      let plan = check_schedule rt req.user_id req.tenant_id found.0 now in
      let (sch, t3, q3, h3) = run_ok (on (reads plan)) _ t2 h2 in
      let (_, e3) = on-reads-eq-ok plan t2 q3 in
      let (_, t4, q4, h4) = run_ok (note (λ e. record e { schedule = some sch })) _ t3 h3 in
      let e4 = note_session (λ e. record e { schedule = some sch }) t3 q4 in
      let (_, t5, q5, h5) = run_ok (lift (require_network o.risk o.policy)) _ t4 h4 in
      let (_, e5) = lift-eq-ok (require_network o.risk o.policy) t4 q5 in
      let grants = repo.effective_user_permissions req.tenant_id req.user_id now in
      let (granted, t6, q6, h6) = run_ok (on (reads grants)) _ t5 h5 in
      let (_, e6) = on-reads-eq-ok grants t5 q6 in
      let (ps, t7, q7, h7) = run_ok (lift (validate_permissions granted.1)) _ t6 h6 in
      let (_, e7) = lift-eq-ok (validate_permissions granted.1) t6 q7 in
      ap
        (λ (x : Result (LocationCandidate × ScheduleDecision × List Text × List Text) × Trace).
          x.1.session)
        (sym (sym (pure_run _ t7) ∙ h7))
      ∙ ap (λ (x : Trace). x.session) e7
      ∙ e6
      ∙ ap (λ (x : Trace). x.session) e5
      ∙ e4
      ∙ e3
      ∙ e2
      ∙ e1

  -- What a refresh rests on, and what it signs and stores.
  pub record IsRefreshed (s : Session) (after : Db) (g : RefreshedUserSession) : Type 0 where
    pub opening : Opening
    pub row : SessionRow
    pub is_active : IsActiveUser repo req.user_id req.tenant_id now s.working
    pub policy_known : HasPolicy req.tenant_id s.working opening.policy
    pub held : IsHeld rt repo session_others req now s g.device_id row
    pub extended : IsExtended opening.policy row g
    pub stored :
        IsStored rt repo session_others req now opening
          (at_session rt repo session_others req now s)
          after
          g

  open_refresh_sound :
      IsRuntimeRepository repo
      → (geo : GeoSample) (risk : NetworkRiskResult) (o : Opening) (db : Db)
      → open_refresh repo req geo risk now db ≡ ok o
      → IsActiveUser repo req.user_id req.tenant_id now db × HasPolicy req.tenant_id db o.policy
  unfolding open_refresh
  open_refresh_sound k geo risk o db h =
      let (_, _, h1) = >>=-eq-ok (require_tenant req.tenant_id db) _ h in
      let (c, ec, h2) = >>=-eq-ok (repo.get_user_context req.user_id req.tenant_id now db) _ h1 in
      let (p, ep, h3) = >>=-eq-ok (get_tenant_policy req.tenant_id db) _ h2 in
      (
        get_user_context-IsActiveUser req.user_id req.tenant_id now db c repo k ec,
        get_tenant_policy_sound req.tenant_id db o.policy
            (ep ∙ ap (λ (x : Result Opening). policy_of p x) h3),
      )
    where
      policy_of : PolicyRow → Result Opening → Result PolicyRow
      policy_of p (ok x) = ok x.policy
      policy_of p (err e) = ok p

  attempt_rests :
      IsRuntimeRepository repo
      → (s : Session) (g : RefreshedUserSession) (t' : Trace)
      → attempt rt repo session_others req now (record { evidence = no_evidence; session = s })
        ≡ (ok g, t')
      → IsRefreshed s t'.session.committed g
  unfolding attempt
  attempt_rests k s g t' h =
      let t : Trace = record { evidence = no_evidence; session = s } in
      let (geo, t1, q1, h1) = run_ok (lift (require_refresh_geo req.geo)) _ t h in
      let (_, e1) = lift-eq-ok (require_refresh_geo req.geo) t q1 in
      let (risk, t2, q2, h2) =
        run_ok (lift (rt.network req.source_ip req.correlation_id)) _ t1 h1 in
      let (_, e2) = lift-eq-ok (rt.network req.source_ip req.correlation_id) t1 q2 in
      let (_, t3, q3, h3) = run_ok (note (λ e. record e { risk = some risk })) _ t2 h2 in
      let e3 = note_session (λ e. record e { risk = some risk }) t2 q3 in
      let (o, t4, q4, h4) = run_ok (on (reads (open_refresh repo req geo risk now))) _ t3 h3 in
      let (eo, e4) = on-reads-eq-ok (open_refresh repo req geo risk now) t3 q4 in
      let (held, t5, q5, h5) = run_ok (hold rt repo session_others req now) _ t4 h4 in
      let (found, t6, q6, h6) = run_ok (recheck rt repo session_others req now o) _ t5 h5 in
      let same3 : t3.session ≡ s = e3 ∙ ap (λ (u : Trace). u.session) (e2 ∙ e1) in
      let same4 : t4.session ≡ s = e4 ∙ same3 in
      let seen : t6.session.working ≡ at_session rt repo session_others req now s =
        ap (λ (u : Session). u.working) (recheck_session o t5 t6 q6)
        ∙ hold_session rt repo session_others req now t4 t5 q5
        ∙ ap (λ (u : Session). at_session rt repo session_others req now u) same4 in
      let (late, ends, same_id, stored) =
        extend-IsStored rt repo session_others req now o held.0 held.1 found t6 t' g h6 in
      let (is_active, policy) =
        subst
          (λ (u : Session).
            IsActiveUser repo req.user_id req.tenant_id now u.working
            × HasPolicy req.tenant_id u.working o.policy)
          same3 (open_refresh_sound k geo risk o t3.session.working eo) in
      record {
        opening = o;
        row = held.1;
        is_active = is_active;
        policy_known = policy;
        held =
            subst (λ d. IsHeld rt repo session_others req now s d held.1) (sym same_id)
              (subst (λ (u : Session). IsHeld rt repo session_others req now u held.0 held.1) same4
                (hold_finds rt repo session_others req now t4 t5 held.0 held.1 q5));
        extended = expiry_extends o.policy held.1 found.1 g late ends;
        stored =
            subst (λ (db : Db). IsStored rt repo session_others req now o db t'.session.committed g)
              seen stored;
      }

  answered :
      (o : Result RefreshedUserSession × Trace) (g : RefreshedUserSession) (s' : Session)
      → handled rt repo session_others req now o ≡ (ok g, s')
      → o ≡ (ok g, record { evidence = o.1.evidence; session = s' })
  answered (ok x, t) g s' h = λ i. ((h i).0, record { evidence = t.evidence; session = (h i).1 })
  answered (err e, t) g s' h = absurd (
      ok-ne-err
        (sym (sym (raised e t) ∙ ap (λ (q : Result RefreshedUserSession × Session). q.0) h)))
    where
      raised : (e : Exc) (t : Trace) → (handled rt repo session_others req now (err e, t)).0 ≡ err e
      raised (security x) t = refl
      raised value_error t = refl
      raised domain_error t = refl
      raised type_error t = refl
      raised overflow_error t = refl
      raised zone_not_found t = refl
      raised integrity_error t = refl
      raised lookup_error t = refl
      raised data_error t = refl
      raised runtime_error t = refl

  -- By either class of repository, a refresh answers only for an ACTIVE user, whose membership is ACTIVE
  -- and in its time where the repository asks for one, and for a session that is ACTIVE and not at its
  -- end once its row is locked, for the ACTIVE device whose lock is held, and under the tenant's ACTIVE
  -- policy. The new expiry lies in the future, within the token's lifetime, the interval of the next geo
  -- check, and the maximum duration counted from the session's start. The token is signed with it, and
  -- it stands in the session's row in the tables as committed.
  pub refresh_extends :
      IsRuntimeRepository repo
      → (s s' : Session) (g : RefreshedUserSession)
      → refresh rt repo session_others req now s ≡ (ok g, s')
      → IsRefreshed s s'.committed g
  unfolding refresh
  refresh_extends k s s' g h =
      let start : Trace = record { evidence = no_evidence; session = s } in
      let o = attempt rt repo session_others req now start in
      attempt_rests k s g (record { evidence = o.1.evidence; session = s' }) (answered o g s' h)
