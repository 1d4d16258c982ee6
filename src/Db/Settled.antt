-- ===== src/Db/Settled.antt =====
-- Calls that answer whether they did something: they commit when they answer true, and roll back else.
use mathlib.Core.Path.{◌≡◌, refl, ◌∙◌, sym}
use mathlib.Core.Logic.{◌⊎◌, inl, inr}
use verigence_security.Common.{Bool, true, false}
use verigence_security.Core.Result.{ok, err, ok-ne-err}
use verigence_security.Db.Schema.{Db}
use verigence_security.Db.Transaction.{
  Session, Action, then_run, ◌>>=◌, ◌>>◌, pure, commit, rollback, undo, or_rollback,
}
use verigence_security.Db.Steps.{Outcome, CommitsNothing}

-- It answered true, or the tables are still `d`, where an answer also ends the transaction there.
abbrev pub Unsettled : Outcome Bool → Db → Type 0
Unsettled o d =
    (o.0 ≡ ok true) ⊎ ((o.1.committed ≡ d) × ((b : Bool) → o.0 ≡ ok b → o.1.working ≡ d))

pub record CommitsIfTrue (m : Action Bool) : Type 0 where
  pub settles : (s : Session) → Unsettled (m s) s.committed

pub commit-CommitsIfTrue : CommitsIfTrue (commit >> pure true)
unfolding commit pure ◌>>=◌
commit-CommitsIfTrue = record { settles = λ s. inl refl }

pub rollback-CommitsIfTrue : CommitsIfTrue (rollback >> pure false)
unfolding rollback pure ◌>>=◌
rollback-CommitsIfTrue = record { settles = λ s. inr (refl, λ b q. refl) }

module _ {A : Type 0} where
  after_step :
      (p : Outcome A) (f : A → Action Bool) (d : Db)
      → p.1.committed ≡ d
      → ((a : A) → CommitsIfTrue (f a))
      → Unsettled (then_run p f) d
  after_step (ok a, t) f d h k = elim ((k a).settles t) [
    | inl q ↦ inl q
    | inr (c, w) ↦ inr (c ∙ h, λ b q. w b q ∙ h)
  ]
  after_step (err e, t) f d h k = inr (h, λ b q. absurd (ok-ne-err (sym q)))

  pub >>=-CommitsIfTrue :
      {m : Action A} {f : A → Action Bool}
      → CommitsNothing m
      → ((a : A) → CommitsIfTrue (f a))
      → CommitsIfTrue (m >>= f)
  unfolding ◌>>=◌
  >>=-CommitsIfTrue {m} {f} h k = record {
    settles = λ s. after_step (m s) f s.committed (h.keeps s) k;
  }

pub ruleset commits_if_true = (commit-CommitsIfTrue, rollback-CommitsIfTrue, >>=-CommitsIfTrue)

-- With the handler around it, a call that does not answer true ends at the tables it started from.
pub or_rollback-CommitsIfTrue :
    (m : Action Bool)
    → CommitsIfTrue m
    → (s : Session)
    → ((or_rollback m s).0 ≡ ok true)
      ⊎ (((or_rollback m s).1.committed ≡ s.committed)
          × ((or_rollback m s).1.working ≡ s.committed))
unfolding or_rollback rollback
or_rollback-CommitsIfTrue m h s = handled (m s) s.committed (h.settles s)
  where
    handled :
        (o : Outcome Bool) (d : Db)
        → Unsettled o d
        → ((undo o).0 ≡ ok true) ⊎ (((undo o).1.committed ≡ d) × ((undo o).1.working ≡ d))
    handled (ok b, t) d (inl q) = inl q
    handled (ok b, t) d (inr (c, w)) = inr (c, w b refl)
    handled (err e, t) d (inl q) = absurd (ok-ne-err (sym q))
    handled (err e, t) d (inr (c, w)) = inr (c, c)
