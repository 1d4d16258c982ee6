-- ===== src/Access/Machine/Delegation.antt =====
-- What a token that a machine holds for a user rests on, and what a refused exchange leaves behind.
use mathlib.Core.Path.{◌≡◌, ◌∙◌, sym, ap, subst}
use mathlib.Core.Logic.{inl, inr}
use native.Mathlib.Omega.{arith}
use verigence_security.Common.{
  Bool, true, false, not, List, [], ◌∷◌, Text, text_eq, text_eq_sound, select, Bool-cases,
}
use verigence_security.Core.Types.{Uuid, Instant}
use verigence_security.Core.Errors.{Exc, permission_denied}
use verigence_security.Core.Result.{ok, err, deny_if, deny_if-eq-ok, ok-injective}
use verigence_security.Db.Schema.{Db, TenantStatus}
use verigence_security.Db.Transaction.{Session, reads, lift, draw}
use verigence_security.Db.Steps.{
  Outcome, run_ok, reads-eq-ok, lift-eq-ok, pure_run, CommitsNothing, commits_nothing,
}
use verigence_security.Db.Atomic.{commit_last_err, commit_last_ok}
use verigence_security.Permissions.Ordered.{has, is_subset, every-has}
use verigence_security.Permissions.Validate.{validate_permissions, validate_permissions-IsValidated}
use verigence_security.Platform.Jwt.{Claims}
use verigence_security.Platform.Uuids.{uuid_text}
use verigence_security.Tokens.{issue, verify}
use verigence_security.Runtime.{Runtime}
use verigence_security.Repository.Directory.{tenant_status}
use verigence_security.Repository.Machine.{MachineCredential, machine_permissions}
use verigence_security.Access.Checks.{require_tenant}
use verigence_security.Access.Checks.Sound.{require_tenant_sound}
use verigence_security.Access.Machine.Credential.{authenticate_credential, requested_permissions}
use verigence_security.Access.Machine.TokenSubject.{Subject, subject_of_claims}
use verigence_security.Access.Machine.Authentic.{
  IsAuthentic, authenticate_credential-IsAuthentic, IsRequested, requested_permissions-IsRequested,
}
use verigence_security.Access.Machine.{
  MachineGrant, ExchangeRequest, as_uuid, delegated_claims, intersection, grant_exchange,
  exchange_grant, exchange_user_token,
}

has-select :
    (p : Text) (q : Text → Bool) (xs : List Text)
    → has p (select q xs) ≡ true
    → (has p xs ≡ true) × (q p ≡ true)
has-select p q [] h = cc
has-select p q (x ∷ xs) h = elim (Bool-cases (q x)) [
  | inl t ↦ elim (Bool-cases (text_eq p x)) [
    | inl e ↦ let same = text_eq_sound p x e in (ground arith, ap q same ∙ t)
    | inr n ↦ let ih = has-select p q xs (ground arith) in (ground arith, ih.1)
  ]
  | inr f ↦ let ih = has-select p q xs (ground arith) in (ground arith, ih.1)
]

module _ (rt : Runtime) (now : Instant) (req : ExchangeRequest) where
  exchange_grant-CommitsNothing : CommitsNothing (exchange_grant rt now req)
  unfolding exchange_grant grant_exchange
  exchange_grant-CommitsNothing = search commits_nothing depth 30

  -- An exchange that is refused leaves nothing behind: the tables and the transaction are as they were
  -- committed before the call.
  pub exchange_user_token_atomic :
      (s s' : Session) (e : Exc)
      → exchange_user_token rt now req s ≡ (err e, s')
      → (s'.committed ≡ s.committed) × (s'.working ≡ s.committed)
  unfolding exchange_user_token
  exchange_user_token_atomic s s' e h =
      commit_last_err (exchange_grant rt now req) s exchange_grant-CommitsNothing h

  -- The permissions of the new token are held by the machine and by the user.
  pub record IsShared (principal_id tenant_id : Uuid) (subject : Subject) (db : Db) (ps : List Text)
      : Type 0 where
    pub stored : List Text
    pub holds : machine_permissions principal_id tenant_id now db ≡ ok stored
    pub requested : IsRequested req.asked ps
    pub of_machine : (p : Text) → has p ps ≡ true → has p stored ≡ true
    pub of_user : (p : Text) → has p ps ≡ true → has p subject.user_permissions ≡ true

  -- The token is signed from the user's claims, with the permissions and the end of the answer.
  abbrev pub IsSigned : Subject → Text → MachineGrant → Type 0
  IsSigned subject client_id g =
      (jti : Uuid) × (issue rt.jwt rt.settings
          (delegated_claims rt now subject client_id g.permissions g.expires_at) req.signed_at
          (uuid_text jti)
        ≡ ok g.access_token)

  pub record IsDelegated (db : Db) (g : MachineGrant) : Type 0 where
    pub credential : MachineCredential
    pub claims : Claims
    pub subject : Subject
    pub tenant_id : Uuid
    pub authentic : IsAuthentic rt.sha256_hex req.client_id req.client_secret now db credential
    pub verified : verify rt.jwt rt.settings req.subject_token req.verified_at ≡ ok claims
    pub of_claims : subject_of_claims rt.doubles claims ≡ ok subject
    pub tenant : as_uuid rt now subject.tenant_id ≡ ok tenant_id
    pub tenant_is_active : tenant_status tenant_id db ≡ ok TenantStatus.active
    pub shared : IsShared credential.principal_id tenant_id subject db g.permissions
    pub ends : g.expires_at ≡ rt.jwt.from_timestamp subject.expires_at
    pub signed : IsSigned subject credential.client_id g

  IsShared-permissions :
      (principal_id tenant_id : Uuid) (s : Subject) (db : Db) (stored validated ps : List Text)
      {u : Unit {0}}
      → machine_permissions principal_id tenant_id now db ≡ ok stored
      → validate_permissions s.user_permissions ≡ ok validated
      → requested_permissions req.asked ≡ ok ps
      → deny_if (not (is_subset ps (intersection rt now stored validated))) permission_denied ≡ ok u
      → IsShared principal_id tenant_id s db ps
  IsShared-permissions principal_id tenant_id s db stored validated ps es ev er ed =
      let sub = not_false (is_subset ps (intersection rt now stored validated)) (
        deny_if-eq-ok (not (is_subset ps (intersection rt now stored validated))) permission_denied
          ed) in
      let v = validate_permissions-IsValidated s.user_permissions validated ev in
      record {
        stored = stored;
        holds = es;
        requested = requested_permissions-IsRequested req.asked ps er;
        of_machine = λ p m.
            (has-select p (λ x. has x validated) stored
              (every-has (λ x. has x (intersection rt now stored validated)) ps p sub m)).0;
        of_user = λ p m.
            sym (v.same_members p)
            ∙ (has-select p (λ x. has x validated) stored
                (every-has (λ x. has x (intersection rt now stored validated)) ps p sub m)).1;
      }
    where
      not_false : (b : Bool) → not b ≡ false → b ≡ true
      not_false b h = ground arith

  grant_exchange_answers :
      (c : MachineCredential) (sub : Subject) (ps : List Text) (s t : Session) (g : MachineGrant)
      → grant_exchange rt now req c sub ps s ≡ (ok g, t)
      → (g.permissions ≡ ps)
        × (g.expires_at ≡ rt.jwt.from_timestamp sub.expires_at)
        × IsSigned sub c.client_id g
  unfolding grant_exchange
  grant_exchange_answers c sub ps s t g h =
      let (jti, s1, _, h1) = run_ok (draw rt.uuid4) _ s h in
      let signing =
        issue rt.jwt rt.settings
          (delegated_claims rt now sub c.client_id ps (rt.jwt.from_timestamp sub.expires_at))
          req.signed_at (uuid_text jti) in
      let (token, s2, q2, h2) = run_ok (lift signing) _ s1 h1 in
      let (e2, _) = lift-eq-ok signing s1 q2 in
      let (_, s3, _, h3) = run_ok _ _ s2 h2 in
      let q = ok-injective (ap (λ (o : Outcome MachineGrant). o.0) (sym (pure_run _ s3) ∙ h3)) in
      (
        ap (λ (a : MachineGrant). a.permissions) (sym q),
        ap (λ (a : MachineGrant). a.expires_at) (sym q),
        subst (IsSigned sub c.client_id) q (jti, e2),
      )

  exchange_rests :
      (s t : Session) (g : MachineGrant)
      → exchange_grant rt now req s ≡ (ok g, t)
      → IsDelegated s.working g
  unfolding exchange_grant
  exchange_rests s t g h =
      let f = authenticate_credential rt.sha256_hex req.client_id req.client_secret now in
      let (c, s1, q1, h1) = run_ok (reads f) _ s h in
      let (e1, w1) = reads-eq-ok f s q1 in
      let (claims, s2, q2, h2) =
        run_ok (lift (verify rt.jwt rt.settings req.subject_token req.verified_at)) _ s1 h1 in
      let (e2, w2) =
        lift-eq-ok (verify rt.jwt rt.settings req.subject_token req.verified_at) s1 q2 in
      let (sub, s3, q3, h3) = run_ok (lift (subject_of_claims rt.doubles claims)) _ s2 h2 in
      let (e3, w3) = lift-eq-ok (subject_of_claims rt.doubles claims) s2 q3 in
      let (tid, s4, q4, h4) = run_ok (lift (as_uuid rt now sub.tenant_id)) _ s3 h3 in
      let (e4, w4) = lift-eq-ok (as_uuid rt now sub.tenant_id) s3 q4 in
      let (_, s5, q5, h5) = run_ok (reads (require_tenant tid)) _ s4 h4 in
      let (e5, w5) = reads-eq-ok (require_tenant tid) s4 q5 in
      let (stored, s6, q6, h6) =
        run_ok (reads (machine_permissions c.principal_id tid now)) _ s5 h5 in
      let (e6, w6) = reads-eq-ok (machine_permissions c.principal_id tid now) s5 q6 in
      let (validated, s7, q7, h7) =
        run_ok (lift (validate_permissions sub.user_permissions)) _ s6 h6 in
      let (e7, _) = lift-eq-ok (validate_permissions sub.user_permissions) s6 q7 in
      let (ps, s8, q8, h8) = run_ok (lift (requested_permissions req.asked)) _ s7 h7 in
      let (e8, _) = lift-eq-ok (requested_permissions req.asked) s7 q8 in
      let (_, s9, q9, h9) =
        run_ok
          (lift
            (deny_if (not (is_subset ps (intersection rt now stored validated))) permission_denied))
          _ s8 h8 in
      let (e9, _) =
        lift-eq-ok
          (deny_if (not (is_subset ps (intersection rt now stored validated))) permission_denied) s8
          q9 in
      let (same, ends, signed) = grant_exchange_answers c sub ps s9 t g h9 in
      let db4 : s4.working ≡ s.working = ap (λ (u : Session). u.working) (w4 ∙ (w3 ∙ (w2 ∙ w1))) in
      let db5 : s5.working ≡ s.working = ap (λ (u : Session). u.working) w5 ∙ db4 in
      record {
        credential = c;
        claims = claims;
        subject = sub;
        tenant_id = tid;
        authentic =
            authenticate_credential-IsAuthentic rt.sha256_hex req.client_id req.client_secret now
              s.working c e1;
        verified = e2;
        of_claims = e3;
        tenant = e4;
        tenant_is_active =
            subst (λ db. tenant_status tid db ≡ ok TenantStatus.active) db4
              (require_tenant_sound tid s4.working e5);
        shared = subst (IsShared c.principal_id tid sub s.working) (sym same) (
            IsShared-permissions c.principal_id tid sub s.working stored validated ps
              (ap (machine_permissions c.principal_id tid now) (sym db5) ∙ e6) e7 e8 e9);
        ends = ends;
        signed = signed;
      }

  -- A token is exchanged only for an authentic client and a token that verifies as a USER's in an ACTIVE
  -- tenant. The new token carries the permissions that were asked for, at least one, each of which both
  -- the machine's principal and the user's token hold, and it ends when the user's token does: it is
  -- signed from the claims of the user's token with these permissions and this end, for that client.
  pub exchange_user_token-IsDelegated :
      (s s' : Session) (g : MachineGrant)
      → exchange_user_token rt now req s ≡ (ok g, s')
      → IsDelegated s.working g
  unfolding exchange_user_token
  exchange_user_token-IsDelegated s s' g h =
      let (t, q, _, _) = commit_last_ok (exchange_grant rt now req) s h in exchange_rests s t g q
