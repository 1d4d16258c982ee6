-- ===== src/Db/Steps.antt =====
-- How a call over a session ends, taken apart step by step, and the calls that commit nothing.
use mathlib.Core.Path.{◌≡◌, refl, ◌∙◌, sym, ap}
use mathlib.Core.Logic.{◌⊎◌, inl, inr}
use Prim.Native.Nat.{ℕ}
use verigence_security.Core.Types.{Uuid}
use verigence_security.Core.Errors.{Exc}
use verigence_security.Core.Result.{Result, ok, err, ok-ne-err}
use verigence_security.Db.Schema.{Db}
use verigence_security.Db.Transaction.{
  Session, Step, Action, then_run, ◌>>=◌, pure, lift, reads, writes, modify, draw, undo,
  or_rollback,
}

abbrev pub Outcome : Type 0 → Type 0
Outcome A = Result A × Session

module _ {S A B : Type 0} (m : Step S A) (f : A → Step S B) (s : S) where
  ok_split :
      (p : Result A × S) {b : B} {s' : S}
      → then_run p f ≡ (ok b, s')
      → (a : A) × (t : S) × (p ≡ (ok a, t)) × (f a t ≡ (ok b, s'))
  ok_split (ok a, t) h = (a, t, refl, h)
  ok_split (err e, t) h = absurd (ok-ne-err (sym (ap (λ (q : Result B × S). q.0) h)))

  err_split :
      (p : Result A × S) {e : Exc} {s' : S}
      → then_run p f ≡ (err e, s')
      → (p ≡ (err e, s')) ⊎ ((a : A) × (t : S) × (p ≡ (ok a, t)) × (f a t ≡ (err e, s')))
  err_split (ok a, t) h = inr (a, t, refl, h)
  err_split (err x, t) {e} {s'} h = inl (λ i. (same (ap (λ (q : Result B × S). q.0) h) i, (h i).1))
    where
      same : ◌≡◌ {A = Result B} (err x) (err e) → ◌≡◌ {A = Result A} (err x) (err e)
      same q = cc

  -- A sequence that ends well has a first step that ends well.
  pub run_ok :
      {b : B} {s' : S}
      → (m >>= f) s ≡ (ok b, s')
      → (a : A) × (t : S) × (m s ≡ (ok a, t)) × (f a t ≡ (ok b, s'))
  unfolding ◌>>=◌
  run_ok h = ok_split (m s) h

  -- The same, for a proof that goes on with the step's value and session as variables.
  pub run_ok_then :
      {b : B} {s' : S} {G : Type 0}
      → (m >>= f) s ≡ (ok b, s')
      → ((a : A) (t : S) → m s ≡ (ok a, t) → f a t ≡ (ok b, s') → G)
      → G
  run_ok_then h k = let (a, t, q, l) = run_ok h in k a t q l

  -- One that raises does so in its first step or behind it.
  pub run_err :
      {e : Exc} {s' : S}
      → (m >>= f) s ≡ (err e, s')
      → (m s ≡ (err e, s')) ⊎ ((a : A) × (t : S) × (m s ≡ (ok a, t)) × (f a t ≡ (err e, s')))
  unfolding ◌>>=◌
  run_err h = err_split (m s) h

  -- The step is done, and what follows it runs in its session.
  pub run_step : {a : A} {t : S} {r : Result B × S} → m s ≡ (ok a, t) → f a t ≡ r → (m >>= f) s ≡ r
  unfolding ◌>>=◌
  run_step e h = ap (λ (q : Result A × S). then_run q f) e ∙ h

-- What the single steps do.
module _ {S A : Type 0} where
  pub pure_run : (a : A) (s : S) → pure a s ≡ (ok a, s)
  unfolding pure
  pure_run a s = refl

  pub lift_run : (r : Result A) (s : S) → lift r s ≡ (r, s)
  unfolding lift
  lift_run r s = refl

module _ {A : Type 0} where
  pub reads_run : (f : Db → Result A) (s : Session) → reads f s ≡ (f s.working, s)
  unfolding reads
  reads_run f s = refl

  pub writes_run :
      (f : Db → Result A × Db) (s : Session)
      → writes f s ≡ ((f s.working).0, record s { working = (f s.working).1 })
  unfolding writes
  writes_run f s = refl

-- The call commits nothing, however it ends.
pub record CommitsNothing {A : Type 0} (m : Action A) : Type 0 where
  pub keeps : (s : Session) → (m s).1.committed ≡ s.committed

module _ {A B : Type 0} where
  then_run_committed :
      (p : Outcome A) (f : A → Action B) (d : Db)
      → p.1.committed ≡ d
      → ((a : A) → CommitsNothing (f a))
      → (then_run p f).1.committed ≡ d
  then_run_committed (ok a, t) f d h k = (k a).keeps t ∙ h
  then_run_committed (err e, t) f d h k = h

  pub >>=-CommitsNothing :
      {m : Action A} {f : A → Action B}
      → CommitsNothing m
      → ((a : A) → CommitsNothing (f a))
      → CommitsNothing (m >>= f)
  unfolding ◌>>=◌
  >>=-CommitsNothing {m} {f} h k = record {
    keeps = λ s. then_run_committed (m s) f s.committed (h.keeps s) k;
  }

module _ {A : Type 0} where
  pub pure-CommitsNothing : (a : A) → CommitsNothing (pure a)
  unfolding pure
  pure-CommitsNothing a = record { keeps = λ s. refl }

  pub lift-CommitsNothing : (r : Result A) → CommitsNothing (lift r)
  unfolding lift
  lift-CommitsNothing r = record { keeps = λ s. refl }

  pub reads-CommitsNothing : (f : Db → Result A) → CommitsNothing (reads f)
  unfolding reads
  reads-CommitsNothing f = record { keeps = λ s. refl }

  pub writes-CommitsNothing : (f : Db → Result A × Db) → CommitsNothing (writes f)
  unfolding writes
  writes-CommitsNothing f = record { keeps = λ s. refl }

pub modify-CommitsNothing : (f : Db → Db) → CommitsNothing (modify f)
unfolding modify
modify-CommitsNothing f = record { keeps = λ s. refl }

pub draw-CommitsNothing : (g : ℕ → Uuid) → CommitsNothing (draw g)
unfolding draw
draw-CommitsNothing g = record { keeps = λ s. refl }

pub ruleset commits_nothing = (
  >>=-CommitsNothing, pure-CommitsNothing, lift-CommitsNothing, reads-CommitsNothing,
  writes-CommitsNothing, modify-CommitsNothing, draw-CommitsNothing,
)

-- A handled call that raises leaves the transaction as it was last committed.
pub or_rollback-eq-err :
    {A : Type 0} (m : Action A) (s : Session) {e : Exc} {s' : Session}
    → or_rollback m s ≡ (err e, s')
    → (t : Session) × (m s ≡ (err e, t)) × (s'.committed ≡ t.committed) × (s'.working ≡ t.committed)
unfolding or_rollback
or_rollback-eq-err {A} m s {e} {s'} h = taken (m s) h
  where
    taken :
        (p : Outcome A)
        → undo p ≡ (err e, s')
        → (t : Session) × (p ≡ (err e, t))
          × (s'.committed ≡ t.committed)
          × (s'.working ≡ t.committed)
    taken (ok a, t) q = absurd (ok-ne-err (ap (λ (o : Outcome A). o.0) q))
    taken (err x, t) q = (
      t,
      (λ i. ((q i).0, t)),
      ap (λ (o : Outcome A). o.1.committed) (sym q),
      ap (λ (o : Outcome A). o.1.working) (sym q),
    )

pub or_rollback-eq-ok :
    {A : Type 0} (m : Action A) (s : Session) {a : A} {s' : Session}
    → or_rollback m s ≡ (ok a, s')
    → m s ≡ (ok a, s')
unfolding or_rollback
or_rollback-eq-ok {A} m s {a} {s'} h = taken (m s) h
  where
    taken : (p : Outcome A) → undo p ≡ (ok a, s') → p ≡ (ok a, s')
    taken (ok b, t) q = q
    taken (err x, t) q = absurd (ok-ne-err (sym (ap (λ (o : Outcome A). o.0) q)))

-- A query that answers leaves the session as it is.
pub reads-eq-ok :
    {A : Type 0} (f : Db → Result A) (s : Session) {a : A} {t : Session}
    → reads f s ≡ (ok a, t)
    → (f s.working ≡ ok a) × (t ≡ s)
unfolding reads
reads-eq-ok {A} f s h = (ap (λ (o : Outcome A). o.0) h, ap (λ (o : Outcome A). o.1) (sym h))

pub lift-eq-ok :
    {S A : Type 0} (r : Result A) (s : S) {a : A} {t : S}
    → lift r s ≡ (ok a, t)
    → (r ≡ ok a) × (t ≡ s)
unfolding lift
lift-eq-ok {S} {A} r s h =
    (ap (λ (o : Result A × S). o.0) h, ap (λ (o : Result A × S). o.1) (sym h))

pub writes-eq-ok :
    {A : Type 0} (f : Db → Result A × Db) (s : Session) {a : A} {t : Session}
    → writes f s ≡ (ok a, t)
    → ((f s.working).0 ≡ ok a) × (t.working ≡ (f s.working).1) × (t.committed ≡ s.committed)
unfolding writes
writes-eq-ok {A} f s h = (
  ap (λ (o : Outcome A). o.0) h,
  ap (λ (o : Outcome A). o.1.working) (sym h),
  ap (λ (o : Outcome A). o.1.committed) (sym h),
)

-- An identifier that is drawn, and a statement that does not raise.
pub draw-eq-ok :
    (g : ℕ → Uuid) (s : Session) {a : Uuid} {t : Session}
    → draw g s ≡ (ok a, t)
    → (t.working ≡ s.working) × (t.committed ≡ s.committed)
unfolding draw
draw-eq-ok g s h = (
  ap (λ (o : Outcome Uuid). o.1.working) (sym h),
  ap (λ (o : Outcome Uuid). o.1.committed) (sym h),
)

pub modify-eq-ok :
    (f : Db → Db) (s : Session) {u : Unit {0}} {t : Session}
    → modify f s ≡ (ok u, t)
    → (t.working ≡ f s.working) × (t.committed ≡ s.committed)
unfolding modify
modify-eq-ok f s h = (
  ap (λ (o : Outcome (Unit {0})). o.1.working) (sym h),
  ap (λ (o : Outcome (Unit {0})). o.1.committed) (sym h),
)
