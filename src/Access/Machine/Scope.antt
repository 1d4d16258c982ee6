-- ===== src/Access/Machine/Scope.antt =====
-- What a machine's token rests on, and what a refused call leaves behind.
use mathlib.Core.Path.{◌≡◌, ◌∙◌, sym, ap, subst}
use verigence_security.Common.{◌+◌, ◌∷◌, List, Text}
use verigence_security.Core.Types.{Uuid, Instant}
use verigence_security.Core.Errors.{Exc}
use verigence_security.Core.Result.{ok, err, ok-injective}
use verigence_security.Db.Schema.{Db, PolicyRow, TenantStatus}
use verigence_security.Db.Transaction.{Session, reads, writes, lift, draw, modify, pure}
use verigence_security.Db.Steps.{
  Outcome, run_ok, reads-eq-ok, lift-eq-ok, writes-eq-ok, draw-eq-ok, modify-eq-ok, CommitsNothing,
  commits_nothing,
}
use verigence_security.Db.Atomic.{commit_last_err, commit_last_ok}
use verigence_security.Runtime.{Runtime}
use verigence_security.Repository.Directory.{tenant_status, get_tenant_policy}
use verigence_security.Repository.Machine.{MachineCredential, mark_machine_credential_used}
use verigence_security.Repository.Sessions.{
  machine_session_row, create_machine_session, record_evaluation,
}
use verigence_security.Repository.Stored.{insert_session-eq-ok, record_evaluation-sessions}
use verigence_security.Platform.Uuids.{uuid_text}
use verigence_security.Tokens.{issue}
use verigence_security.Access.Checks.{require_tenant, minutes}
use verigence_security.Access.Checks.Sound.{
  require_tenant_sound, HasPolicy, get_tenant_policy_sound,
}
use verigence_security.Access.Machine.Credential.{authenticate_credential, authorized_permissions}
use verigence_security.Access.Machine.{
  MachineGrant, MachineRequest, machine_evaluation, machine_claims, grant_machine, machine_grant,
  issue_machine_token,
}
use verigence_security.Access.Machine.Authentic.{
  IsAuthentic, authenticate_credential-IsAuthentic, IsAuthorized,
  authorized_permissions-IsAuthorized,
}

module _ (rt : Runtime) (now : Instant) (req : MachineRequest) where
  machine_grant-CommitsNothing : CommitsNothing (machine_grant rt now req)
  unfolding machine_grant grant_machine
  machine_grant-CommitsNothing = search commits_nothing depth 20

  -- A machine token that is refused leaves nothing behind: the tables and the transaction are as they
  -- were committed before the call.
  pub issue_machine_token_atomic :
      (s s' : Session) (e : Exc)
      → issue_machine_token rt now req s ≡ (err e, s')
      → (s'.committed ≡ s.committed) × (s'.working ≡ s.committed)
  unfolding issue_machine_token
  issue_machine_token_atomic s s' e h =
      commit_last_err (machine_grant rt now req) s machine_grant-CommitsNothing h

  -- What is signed and stored: the token is signed from the permissions and the end of the answer, and
  -- the one new session ends there too.
  pub record IsIssued (c : MachineCredential) (db after : Db) (g : MachineGrant) : Type 0 where
    pub session_id : Uuid
    pub jti : Uuid
    pub signed :
        issue rt.jwt rt.settings
          (machine_claims rt now req c session_id g.permissions g.expires_at)
          req.signed_at
          (uuid_text jti)
        ≡ ok g.access_token
    pub stored :
        after.sessions
        ≡ machine_session_row session_id c.principal_id c.actor_type req.tenant_id c.credential_id
            req.source_ip g.expires_at now
          ∷ db.sessions

  -- What a machine's token rests on.
  pub record IsMachineGrant (db after : Db) (g : MachineGrant) : Type 0 where
    pub credential : MachineCredential
    pub policy : PolicyRow
    pub authentic : IsAuthentic rt.sha256_hex req.client_id req.client_secret now db credential
    pub tenant_is_active : tenant_status req.tenant_id db ≡ ok TenantStatus.active
    pub policy_known : HasPolicy req.tenant_id db policy
    pub authorized :
        IsAuthorized credential.principal_id req.tenant_id req.asked now db g.permissions
    pub ends : g.expires_at ≡ now + minutes policy.machine_token_ttl_minutes
    pub issued : IsIssued credential db after g

  grant_machine_answers :
      (c : MachineCredential) (p : PolicyRow) (ps : List Text) (s t : Session) (g : MachineGrant)
      → grant_machine rt now req c p ps s ≡ (ok g, t)
      → (g.permissions ≡ ps)
        × (g.expires_at ≡ now + minutes p.machine_token_ttl_minutes)
        × IsIssued c s.working t.working g
  unfolding grant_machine create_machine_session pure mark_machine_credential_used
  grant_machine_answers c p ps s t g h =
      let expiry = now + minutes p.machine_token_ttl_minutes in
      let (id, s1, q1, h1) = run_ok (draw rt.uuid4) _ s h in
      let insert =
        create_machine_session id c.principal_id c.actor_type req.tenant_id c.credential_id
          req.source_ip expiry now in
      let (_, s2, q2, h2) = run_ok (writes insert) _ s1 h1 in
      let (e2, w2, _) = writes-eq-ok insert s1 q2 in
      let (eid, s3, q3, h3) = run_ok (draw rt.uuid4) _ s2 h2 in
      let evaluation = machine_evaluation rt now req c id eid in
      let (_, s4, q4, h4) = run_ok (writes (record_evaluation evaluation)) _ s3 h3 in
      let (_, w4, _) = writes-eq-ok (record_evaluation evaluation) s3 q4 in
      let (jti, s5, q5, h5) = run_ok (draw rt.uuid4) _ s4 h4 in
      let signing =
        issue rt.jwt rt.settings (machine_claims rt now req c id ps expiry) req.signed_at
          (uuid_text jti) in
      let (token, s6, q6, h6) = run_ok (lift signing) _ s5 h5 in
      let (e6, w6) = lift-eq-ok signing s5 q6 in
      let (_, s7, q7, h7) =
        run_ok (modify (mark_machine_credential_used c.credential_id now)) _ s6 h6 in
      let q = ok-injective (ap (λ (o : Outcome MachineGrant). o.0) h7) in
      let stored : t.working.sessions ≡ (insert s1.working).1.sessions =
        ap (λ (o : Outcome MachineGrant). o.1.working.sessions) (sym h7)
        ∙ ap (λ (d : Db). d.sessions)
            (modify-eq-ok (mark_machine_credential_used c.credential_id now) s6 q7).0
        ∙ ap (λ (u : Session). u.working.sessions) w6
        ∙ ap (λ (d : Db). d.sessions) (draw-eq-ok rt.uuid4 s4 q5).0
        ∙ ap (λ (d : Db). d.sessions) w4
        ∙ record_evaluation-sessions evaluation s3.working
        ∙ ap (λ (d : Db). d.sessions) (draw-eq-ok rt.uuid4 s2 q3).0
        ∙ ap (λ (d : Db). d.sessions) w2 in
      let row =
        machine_session_row id c.principal_id c.actor_type req.tenant_id c.credential_id
          req.source_ip expiry now in
      (
        ap (λ (a : MachineGrant). a.permissions) (sym q),
        ap (λ (a : MachineGrant). a.expires_at) (sym q),
        subst (IsIssued c s.working t.working) q (record {
          session_id = id;
          jti = jti;
          signed = e6;
          stored =
              stored
              ∙ insert_session-eq-ok row s1.working e2
              ∙ ap (λ (d : Db). row ∷ d.sessions) (draw-eq-ok rt.uuid4 s q1).0;
        }),
      )

  machine_grant_rests :
      (s t : Session) (g : MachineGrant)
      → machine_grant rt now req s ≡ (ok g, t)
      → IsMachineGrant s.working t.working g
  unfolding machine_grant
  machine_grant_rests s t g h =
      let f = authenticate_credential rt.sha256_hex req.client_id req.client_secret now in
      let (c, s1, q1, h1) = run_ok (reads f) _ s h in
      let (e1, w1) = reads-eq-ok f s q1 in
      let (_, s2, q2, h2) = run_ok (reads (require_tenant req.tenant_id)) _ s1 h1 in
      let (e2, w2) = reads-eq-ok (require_tenant req.tenant_id) s1 q2 in
      let (p, s3, q3, h3) = run_ok (reads (get_tenant_policy req.tenant_id)) _ s2 h2 in
      let (e3, w3) = reads-eq-ok (get_tenant_policy req.tenant_id) s2 q3 in
      let (ps, s4, q4, h4) =
        run_ok (reads (authorized_permissions c.principal_id req.tenant_id req.asked now)) _ s3
          h3 in
      let (e4, w4) =
        reads-eq-ok (authorized_permissions c.principal_id req.tenant_id req.asked now) s3 q4 in
      let (same, ends, issued) = grant_machine_answers c p ps s4 t g h4 in
      let db1 : s1.working ≡ s.working = ap (λ (u : Session). u.working) w1 in
      let db2 : s2.working ≡ s.working = ap (λ (u : Session). u.working) w2 ∙ db1 in
      let db3 : s3.working ≡ s.working = ap (λ (u : Session). u.working) w3 ∙ db2 in
      let db4 : s4.working ≡ s.working = ap (λ (u : Session). u.working) w4 ∙ db3 in
      record {
        credential = c;
        policy = p;
        authentic =
            authenticate_credential-IsAuthentic rt.sha256_hex req.client_id req.client_secret now
              s.working c e1;
        tenant_is_active =
            subst (λ db. tenant_status req.tenant_id db ≡ ok TenantStatus.active) db1
              (require_tenant_sound req.tenant_id s1.working e2);
        policy_known =
            get_tenant_policy_sound req.tenant_id s.working p
              (ap (get_tenant_policy req.tenant_id) (sym db2) ∙ e3);
        authorized =
            subst (IsAuthorized c.principal_id req.tenant_id req.asked now s.working) (sym same) (
              subst (λ db. IsAuthorized c.principal_id req.tenant_id req.asked now db ps) db3
                (authorized_permissions-IsAuthorized c.principal_id req.tenant_id req.asked now
                  s3.working ps e4));
        ends = ends;
        issued = subst (λ db. IsIssued c db t.working g) db4 issued;
      }

  -- A machine token is issued only to a client whose secret has the stored hash, in an ACTIVE tenant
  -- with an ACTIVE policy, and carries the permissions that were asked for, at least one, all of them
  -- canonical, in order, and granted to the client's principal in the tenant. It ends with the lifetime
  -- that the policy sets, counted from the call. The token is signed from those permissions and that end,
  -- and the tables as committed have one session more, which ends then.
  pub issue_machine_token-IsMachineGrant :
      (s s' : Session) (g : MachineGrant)
      → issue_machine_token rt now req s ≡ (ok g, s')
      → IsMachineGrant s.working s'.committed g
  unfolding issue_machine_token
  issue_machine_token-IsMachineGrant s s' g h =
      let (t, q, ec, _) = commit_last_ok (machine_grant rt now req) s h in
      subst (λ db. IsMachineGrant s.working db g) (sym ec) (machine_grant_rests s t g q)
