-- ===== src/Db/Kept.antt =====
-- What the calls over a session keep true of its tables: `C` of the committed ones, `W` of those of the
-- transaction.
use mathlib.Core.Path.{◌≡◌, refl}
use Prim.Native.Nat.{ℕ}
use verigence_security.Core.Types.{Uuid}
use verigence_security.Core.Errors.{Exc}
use verigence_security.Core.Result.{Result, ok, err}
use verigence_security.Db.Schema.{Db}
use verigence_security.Db.Transaction.{
  Session, Action, then_run, ◌>>=◌, pure, raise, lift, reads, writes, modify, commit, rollback,
  draw, wait_for_lock,
}
use verigence_security.Db.Steps.{Outcome}

module _ (C W : Db → Type 0) where
  abbrev pub Holds : Session → Type 0
  Holds s = C s.committed × W s.working

  -- The call leaves both true, however it ends.
  pub record Keeps {A : Type 0} (m : Action A) : Type 0 where
    pub keeps : (s : Session) → Holds s → Holds (m s).1

module _ {C W : Db → Type 0} where
  module _ {A B : Type 0} where
    then_run-Holds :
        (p : Outcome A) (f : A → Action B)
        → Holds C W p.1
        → ((a : A) → Keeps C W (f a))
        → Holds C W (then_run p f).1
    then_run-Holds (ok a, t) f h k = (k a).keeps t h
    then_run-Holds (err e, t) f h k = h

    pub >>=-Keeps :
        {m : Action A} {f : A → Action B}
        → Keeps C W m
        → ((a : A) → Keeps C W (f a))
        → Keeps C W (m >>= f)
    unfolding ◌>>=◌
    >>=-Keeps {m} {f} h k = record { keeps = λ s p. then_run-Holds (m s) f (h.keeps s p) k }

  module _ {A : Type 0} where
    pub pure-Keeps : (a : A) → Keeps C W (pure a)
    unfolding pure
    pure-Keeps a = record { keeps = λ s p. p }

    pub raise-Keeps : (e : Exc) → Keeps C W {A = A} (raise e)
    unfolding raise
    raise-Keeps e = record { keeps = λ s p. p }

    pub lift-Keeps : (r : Result A) → Keeps C W (lift r)
    unfolding lift
    lift-Keeps r = record { keeps = λ s p. p }

    pub reads-Keeps : (f : Db → Result A) → Keeps C W (reads f)
    unfolding reads
    reads-Keeps f = record { keeps = λ s p. p }

    -- A statement keeps what its effect on the tables keeps.
    pub writes-Keeps :
        (f : Db → Result A × Db) → ((db : Db) → W db → W (f db).1) → Keeps C W (writes f)
    unfolding writes
    writes-Keeps f k = record { keeps = λ s p. (p.0, k s.working p.1) }

  pub modify-Keeps : (f : Db → Db) → ((db : Db) → W db → W (f db)) → Keeps C W (modify f)
  unfolding modify
  modify-Keeps f k = record { keeps = λ s p. (p.0, k s.working p.1) }

  pub draw-Keeps : (g : ℕ → Uuid) → Keeps C W (draw g)
  unfolding draw
  draw-Keeps g = record { keeps = λ s p. p }

  pub commit-Keeps : ((db : Db) → W db → C db) → Keeps C W commit
  unfolding commit
  commit-Keeps k = record { keeps = λ s p. (k s.working p.1, p.1) }

  pub rollback-Keeps : ((db : Db) → C db → W db) → Keeps C W rollback
  unfolding rollback
  rollback-Keeps k = record { keeps = λ s p. (p.0, k s.committed p.0) }

  pub wait_for_lock-Keeps :
      (others : Db → Db)
      → ((db : Db) → C db → C (others db))
      → ((db : Db) → W db → W (others db))
      → Keeps C W (wait_for_lock others)
  unfolding wait_for_lock
  wait_for_lock-Keeps others k l = record { keeps = λ s p. (k s.committed p.0, l s.working p.1) }

-- A call after which `Mid` holds, and what follows it.
pub >>=-holds :
    {A B : Type 0} (Mid Q : Session → Type 0) (m : Action A) (f : A → Action B) (s : Session)
    → Mid (m s).1
    → ((a : A) (t : Session) → Mid t → Q (f a t).1)
    → ((t : Session) → Mid t → Q t)
    → Q ((m >>= f) s).1
unfolding ◌>>=◌
>>=-holds {A} {B} Mid Q m f s h k l = run (m s) h
  where
    run : (p : Outcome A) → Mid p.1 → Q (then_run p f).1
    run (ok a, t) q = k a t q
    run (err e, t) q = l t q

-- What holds behind a sequence: where its first step raises, and where the rest runs.
pub after_ok :
    {A B : Type 0} (Q : Session → Type 0) (m : Action A) (f : A → Action B) (s : Session)
    → ((a : A) (t : Session) → m s ≡ (ok a, t) → Q (f a t).1)
    → Q (m s).1
    → Q ((m >>= f) s).1
unfolding ◌>>=◌
after_ok {A} {B} Q m f s k h = run (m s) refl h
  where
    run : (p : Outcome A) → m s ≡ p → Q p.1 → Q (then_run p f).1
    run (ok a, t) e q = k a t e
    run (err x, t) e q = q
