-- ===== src/Db/Transaction.antt =====
-- A SQLAlchemy session: the tables as committed, as the open transaction sees them, and the number
-- of identifiers that `uuid4` has given so far.
use Prim.Native.Nat.{ℕ, suc}
use verigence_security.Core.Types.{Uuid}
use verigence_security.Core.Errors.{Exc}
use verigence_security.Core.Result.{Result, ok, err}
use verigence_security.Db.Schema.{Db}

pub record Session : Type 0 where
  pub committed : Db
  pub working : Db
  pub draws : ℕ

-- A call over a state. What it has changed stays changed after a raise.
abbrev pub Step : Type 0 → Type 0 → Type 0
Step S A = S → Result A × S

-- A call over a session: what was written stays written after a raise, until the rollback.
abbrev pub Action : Type 0 → Type 0
Action A = Step Session A

-- What follows a step, by how the step ended.
abbrev pub then_run : {S A B : Type 0} → Result A × S → (A → Step S B) → Result B × S
then_run (ok a, s) f = f a s
then_run (err e, s) f = (err e, s)

infixl 5 ◌>>=◌ ◌>>◌
unfoldable pub ◌>>=◌ : {S A B : Type 0} → Step S A → (A → Step S B) → Step S B
◌>>=◌ m f s = then_run (m s) f

abbrev pub ◌>>◌ : {S A B : Type 0} → Step S A → Step S B → Step S B
m >> k = m >>= λ _. k

module _ {S A : Type 0} where
  unfoldable pub pure : A → Step S A
  pure a s = (ok a, s)

  unfoldable pub raise : Exc → Step S A
  raise e s = (err e, s)

  -- A computation that touches no state.
  unfoldable pub lift : Result A → Step S A
  lift r s = (r, s)

module _ {A : Type 0} where
  -- A query.
  unfoldable pub reads : (Db → Result A) → Action A
  reads f s = (f s.working, s)

  -- A statement that also writes.
  unfoldable pub writes : (Db → Result A × Db) → Action A
  writes f s = let (r, d) = f s.working in (r, record s { working = d })

-- `UPDATE`, `INSERT`
unfoldable pub modify : (Db → Db) → Action (Unit {0})
modify f s = (ok tt, record s { working = f s.working })

unfoldable pub commit : Action (Unit {0})
commit s = (ok tt, record s { committed = s.working })

unfoldable pub rollback : Action (Unit {0})
rollback s = (ok tt, record s { working = s.committed })

-- The wait for a row lock, during which others commit. Nothing has been written yet, and each later
-- query sees what has been committed by then.
unfoldable pub wait_for_lock : (Db → Db) → Action (Unit {0})
wait_for_lock others s =
    (ok tt, record s { committed = others s.committed; working = others s.working })

-- `str(uuid4())`, over the numbers that the generator will give.
unfoldable pub draw : (ℕ → Uuid) → Action Uuid
draw uuid4 s = (ok (uuid4 s.draws), record s { draws = suc s.draws })

-- `except Exception: rollback(); raise`
abbrev pub undo : {A : Type 0} → Result A × Session → Result A × Session
undo (ok a, s) = (ok a, s)
undo (err e, s) = (err e, (rollback s).1)

-- `try: body`, with that handler.
unfoldable pub or_rollback : {A : Type 0} → Action A → Action A
unfolding rollback
or_rollback body s = undo (body s)
