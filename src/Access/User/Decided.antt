-- ===== src/Access/User/Decided.antt =====
-- What a successful `create_or_reuse` has checked, and what its answer says.
use mathlib.Core.Path.{◌≡◌, ◌∙◌, sym, ap, subst}
use verigence_security.Core.Types.{Instant}
use verigence_security.Core.Result.{ok, ok-injective}
use verigence_security.Db.Schema.{Db}
use verigence_security.Db.Transaction.{Session, ◌>>=◌, pure, lift, reads, commit, wait_for_lock}
use verigence_security.Db.Steps.{Outcome, run_ok, or_rollback-eq-ok}
use verigence_security.Network.{NetworkRiskResult}
use verigence_security.Runtime.{Runtime, UserRepository}
use verigence_security.Access.Checks.{AccessRequest, Admission, Clearance, admit, clear}
use verigence_security.Access.Checks.Standing.{IsRuntimeRepository}
use verigence_security.Access.User.Granted.{IsGranted, grant-IsGranted}
use verigence_security.Access.User.{AccessGrant, grant, decide, create_or_reuse}

module _ (rt : Runtime) (repo : UserRepository) (req : AccessRequest) (now : Instant) where
  -- The tables that the checks behind the lock read.
  abbrev pub seen_after : Session → Db
  seen_after s = rt.others s.working

  -- The values that the steps of a successful call hand on, and what it signs and commits.
  pub record Decided (s : Session) (after : Db) (g : AccessGrant) : Type 0 where
    pub risk : NetworkRiskResult
    pub who : Admission
    pub cleared : Clearance
    pub risk_known : rt.network req.source_ip req.correlation_id ≡ ok risk
    pub admitted : admit repo req now s.working ≡ ok who
    pub cleared_by : clear rt repo req who risk now (seen_after s) ≡ ok cleared
    pub granted : IsGranted rt repo req now who cleared risk (seen_after s) after g

  decide_answers :
      IsRuntimeRepository repo
      → (risk : NetworkRiskResult) (s t : Session) (g : AccessGrant)
      → decide rt repo req now risk s ≡ (ok g, t)
      → (who : Admission) × (c : Clearance) × (admit repo req now s.working ≡ ok who)
        × (clear rt repo req who risk now (seen_after s) ≡ ok c)
        × IsGranted rt repo req now who c risk (seen_after s) t.committed g
  unfolding decide reads wait_for_lock commit pure ◌>>=◌
  decide_answers k risk s t g h =
      let (who, s1, q1, h1) = run_ok (reads (admit repo req now)) _ s h in
      let (c, s3, q3, h3) =
        run_ok (reads (clear rt repo req who risk now)) _ (wait_for_lock rt.others s1).1 h1 in
      let (a, s4, q4, h4) = run_ok (grant rt repo req now who c risk) _ s3 h3 in
      let same : a ≡ g = ok-injective (ap (λ (o : Outcome AccessGrant). o.0) h4) in
      let seen : s3.working ≡ seen_after s =
        ap (λ (o : Outcome Clearance). o.1.working) (sym q3)
        ∙ ap (λ (o : Outcome Admission). rt.others o.1.working) (sym q1) in
      let written : s4.working ≡ t.committed = ap (λ (o : Outcome AccessGrant). o.1.committed) h4 in
      (
        who,
        c,
        ap (λ (o : Outcome Admission). o.0) q1,
        ap (λ (o : Outcome Admission). clear rt repo req who risk now (rt.others o.1.working)) q1
            ∙ ap (λ (o : Outcome Clearance). o.0) q3,
        subst (λ (db : Db). IsGranted rt repo req now who c risk (seen_after s) db g) written
            (subst (λ (db : Db). IsGranted rt repo req now who c risk db s4.working g) seen
              (grant-IsGranted rt repo req now k who c risk s3 s4 g
                (subst (λ x. grant rt repo req now who c risk s3 ≡ (ok x, s4)) same q4))),
      )

  pub create_or_reuse-Decided :
      IsRuntimeRepository repo
      → (s s' : Session) (g : AccessGrant) → create_or_reuse rt repo req now s ≡ (ok g, s')
      → Decided s s'.committed g
  unfolding create_or_reuse lift
  create_or_reuse-Decided k s s' g h =
      let (risk, s1, q1, h1) = run_ok (lift (rt.network req.source_ip req.correlation_id)) _ s h in
      let (who, c, ea, ec, w) =
        decide_answers k risk s1 s' g (or_rollback-eq-ok (decide rt repo req now risk) s1 h1) in
      let at_start = ap (λ (o : Outcome NetworkRiskResult). o.1.working) q1 in
      record {
        risk = risk;
        who = who;
        cleared = c;
        risk_known = ap (λ (o : Outcome NetworkRiskResult). o.0) q1;
        admitted = ap (admit repo req now) at_start ∙ ea;
        cleared_by = ap (λ d. clear rt repo req who risk now (rt.others d)) at_start ∙ ec;
        granted =
            subst (λ (d : Db). IsGranted rt repo req now who c risk (rt.others d) s'.committed g)
              (sym at_start) w;
      }
