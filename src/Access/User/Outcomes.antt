-- ===== src/Access/User/Outcomes.antt =====
-- How `create_or_reuse` ends: what a call that raises leaves behind, and what one that answers has
-- gone through.
use mathlib.Core.Path.{◌≡◌, ◌∙◌, sym, ap}
use mathlib.Core.Logic.{◌⊎◌, inl, inr}
use mathlib.Core.Option.{Option, none, some}
use verigence_security.Core.Types.{Instant}
use verigence_security.Core.Errors.{Exc}
use verigence_security.Core.Result.{err, ok-ne-err}
use verigence_security.Db.Schema.{SessionRow}
use verigence_security.Db.Transaction.{Session, ◌>>=◌, ◌>>◌, pure, lift, reads, commit}
use verigence_security.Db.Steps.{
  Outcome, run_err, CommitsNothing, commits_nothing, or_rollback-eq-err,
}
use verigence_security.Network.{NetworkRiskResult}
use verigence_security.Runtime.{Runtime, UserRepository}
use verigence_security.Access.Checks.{AccessRequest, Admission, Clearance, admit, clear}
use verigence_security.Access.User.{AccessGrant, open_session, grant, decide, create_or_reuse}

module _ (rt : Runtime) (repo : UserRepository) (req : AccessRequest) (now : Instant) where
  open_session-CommitsNothing :
      (who : Admission) (c : Clearance) (risk : NetworkRiskResult) (o : Option SessionRow)
      → CommitsNothing (open_session rt repo req now who c risk o)
  unfolding open_session
  open_session-CommitsNothing who c risk none = search commits_nothing depth 9
  open_session-CommitsNothing who c risk (some row) = search commits_nothing depth 9

  grant-CommitsNothing :
      (who : Admission) (c : Clearance) (risk : NetworkRiskResult)
      → CommitsNothing (grant rt repo req now who c risk)
  unfolding grant
  grant-CommitsNothing who c risk = search (commits_nothing, open_session-CommitsNothing) depth 20

  -- The tables as committed by others before the lock was granted, or before it was asked for.
  abbrev pub Untouched : Session → Session → Type 0
  Untouched s s' = (s'.committed ≡ s.committed) ⊎ (s'.committed ≡ rt.others s.committed)

  grant_fails :
      (who : Admission) (c : Clearance) (risk : NetworkRiskResult) (s t : Session) (e : Exc)
      → (grant rt repo req now who c risk >>= λ answer. commit >> pure answer) s ≡ (err e, t)
      → t.committed ≡ s.committed
  unfolding commit pure ◌>>=◌
  grant_fails who c risk s t e h = elim (run_err (grant rt repo req now who c risk) _ s h) [
    | inl q ↦
        ap (λ (o : Outcome AccessGrant). o.1.committed) (sym q)
        ∙ (grant-CommitsNothing who c risk).keeps s
    | inr (a, s1, q, h1) ↦ absurd (ok-ne-err (ap (λ (o : Outcome AccessGrant). o.0) h1))
  ]

  after_wait_fails :
      (risk : NetworkRiskResult) (who : Admission) (s t : Session) (e : Exc)
      → (reads (clear rt repo req who risk now) >>= λ c.
            grant rt repo req now who c risk >>= λ answer. commit >> pure answer)
          s
        ≡ (err e, t)
      → t.committed ≡ s.committed
  unfolding reads
  after_wait_fails risk who s t e h =
      elim (run_err (reads (clear rt repo req who risk now)) _ s h) [
        | inl q ↦ ap (λ (o : Outcome Clearance). o.1.committed) (sym q)
        | inr (c, s1, q, h1) ↦
            grant_fails who c risk s1 t e h1 ∙ ap (λ (o : Outcome Clearance). o.1.committed) (sym q)
      ]

  decide_fails :
      (risk : NetworkRiskResult) (s t : Session) (e : Exc)
      → decide rt repo req now risk s ≡ (err e, t)
      → Untouched s t
  unfolding decide reads ◌>>=◌
  decide_fails risk s t e h = elim (run_err (reads (admit repo req now)) _ s h) [
    | inl q ↦ inl (ap (λ (o : Outcome Admission). o.1.committed) (sym q))
    | inr (who, s1, q, h1) ↦ inr (
        after_wait_fails risk who
          (record {
            committed = rt.others s1.committed;
            working = rt.others s1.working;
            draws = s1.draws;
          })
          t e h1
        ∙ ap (λ (o : Outcome Admission). rt.others o.1.committed) (sym q))
  ]

  -- A call that raises leaves no write behind: the tables are as committed before it, or as others
  -- have committed them while it waited for the lock of the device, and the transaction is at them.
  pub create_or_reuse_atomic :
      (s : Session) {e : Exc} {s' : Session}
      → s.working ≡ s.committed
      → create_or_reuse rt repo req now s ≡ (err e, s')
      → (s'.working ≡ s'.committed) × Untouched s s'
  unfolding create_or_reuse lift
  create_or_reuse_atomic s {e} {s'} clean h =
      elim (run_err (lift (rt.network req.source_ip req.correlation_id)) _ s h) [
        | inl q ↦ (
          ap (λ (o : Outcome NetworkRiskResult). o.1.working) (sym q)
              ∙ (clean ∙ ap (λ (o : Outcome NetworkRiskResult). o.1.committed) q),
          inl (ap (λ (o : Outcome NetworkRiskResult). o.1.committed) (sym q)),
        )
        | inr (risk, s1, q, h1) ↦
            let same : s1.committed ≡ s.committed =
              ap (λ (o : Outcome NetworkRiskResult). o.1.committed) (sym q) in
            let (t, d, ec, ew) = or_rollback-eq-err (decide rt repo req now risk) s1 h1 in
            (
              ew ∙ sym ec,
              elim (decide_fails risk s1 t e d) [
                | inl a ↦ inl (ec ∙ (a ∙ same))
                | inr b ↦ inr (ec ∙ (b ∙ ap rt.others same))
              ],
            )
      ]
