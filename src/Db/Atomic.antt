-- ===== src/Db/Atomic.antt =====
-- Calls that commit once, at their end: what a raise leaves behind, and what an answer has run.
use mathlib.Core.Path.{◌≡◌, ◌∙◌, sym, ap}
use mathlib.Core.Logic.{inl, inr}
use verigence_security.Core.Errors.{Exc}
use verigence_security.Core.Result.{ok, err, ok-ne-err, ok-injective}
use verigence_security.Db.Transaction.{Session, Action, ◌>>=◌, ◌>>◌, pure, commit, or_rollback}
use verigence_security.Db.Steps.{
  Outcome, run_ok, run_err, CommitsNothing, or_rollback-eq-ok, or_rollback-eq-err,
}

module _ {A : Type 0} (m : Action A) (s : Session) where
  -- A raise leaves the tables as they were committed, and the transaction at them.
  pub commit_last_err :
      {e : Exc} {s' : Session}
      → CommitsNothing m
      → or_rollback (m >>= λ a. commit >> pure a) s ≡ (err e, s')
      → (s'.committed ≡ s.committed) × (s'.working ≡ s.committed)
  unfolding commit pure ◌>>=◌
  commit_last_err k h =
      let (t, q, ec, ew) = or_rollback-eq-err (m >>= λ a. commit >> pure a) s h in
      let same : t.committed ≡ s.committed = elim (run_err m (λ a. commit >> pure a) s q) [
        | inl r ↦ ap (λ (o : Outcome A). o.1.committed) (sym r) ∙ k.keeps s
        | inr (a, u, r, l) ↦ absurd (ok-ne-err (ap (λ (o : Outcome A). o.0) l))
      ] in
      (ec ∙ same, ew ∙ same)

  -- An answer is that of the call before the commit, whose tables are the committed ones.
  pub commit_last_ok :
      {a : A} {s' : Session}
      → or_rollback (m >>= λ a. commit >> pure a) s ≡ (ok a, s')
      → (t : Session) × (m s ≡ (ok a, t)) × (s'.committed ≡ t.working) × (s'.working ≡ t.working)
  unfolding commit pure ◌>>=◌
  commit_last_ok {a} {s'} h =
      let (b, t, q, r) =
        run_ok m (λ a. commit >> pure a) s (or_rollback-eq-ok (m >>= λ a. commit >> pure a) s h) in
      let e : b ≡ a = ok-injective (ap (λ (o : Outcome A). o.0) r) in
      (
        t,
        q ∙ ap (λ x. (ok x, t)) e,
        ap (λ (o : Outcome A). o.1.committed) (sym r),
        ap (λ (o : Outcome A). o.1.working) (sym r),
      )
