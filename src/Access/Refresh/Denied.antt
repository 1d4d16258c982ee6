-- ===== src/Access/Refresh/Denied.antt =====
-- What a refresh that raises leaves behind.
use mathlib.Core.Path.{◌≡◌, refl, sym, ap, subst}
use verigence_security.Common.{suc, List, ◌∷◌, Text, Bool-cases, any, ◌==◌}
use mathlib.Core.Logic.{inl, inr}
use verigence_security.Core.Types.{Uuid, Instant}
use verigence_security.Core.Errors.{
  Exc, SecurityError, security, value_error, domain_error, type_error, overflow_error,
  zone_not_found, integrity_error, lookup_error, data_error, runtime_error, is_server_error,
  code_text,
}
use verigence_security.Core.Result.{Result, ok, err, ok-ne-err}
use verigence_security.Db.Schema.{Db, SessionRow, EvaluationRow, Decision}
use verigence_security.Db.Transaction.{
  Session, Step, Action, then_run, ◌>>=◌, pure, lift, writes, draw, commit, rollback, undo,
  or_rollback, wait_for_lock,
}
use verigence_security.Db.Steps.{CommitsNothing, commits_nothing}
use verigence_security.Runtime.{Runtime, UserRepository}
use verigence_security.Repository.Sessions.{record_evaluation}
use verigence_security.Geo.Distance.{LocationCandidate}
use verigence_security.Schedule.{ScheduleDecision}
use verigence_security.Access.Refresh.Request.{RefreshRequest, Opening}
use verigence_security.Access.Refresh.{
  Trace, Evidence, no_evidence, on, note, collected, RefreshedUserSession, hold, recheck, extend,
  attempt, evaluation_payload, denial_evaluation, persist_denial_evidence_best_effort, handled,
  refresh,
}

module _ (P : Db → Type 0) where
  -- The step keeps the property of the committed tables, however it ends.
  record Keeps {A : Type 0} (m : Step Trace A) : Type 0 where
    keeps : (t : Trace) → P t.session.committed → P (m t).1.session.committed

  -- It keeps it when it raises.
  abbrev Held : {A : Type 0} → Result A × Trace → Type 0
  Held {A} o = (e : Exc) → o.0 ≡ err e → P o.1.session.committed

  record KeepsOnRaise {A : Type 0} (m : Step Trace A) : Type 0 where
    holds : (t : Trace) → P t.session.committed → Held (m t)

  module _ {A B : Type 0} where
    after_keeps :
        (o : Result A × Trace) (f : A → Step Trace B)
        → P o.1.session.committed
        → ((a : A) → Keeps (f a))
        → P (then_run o f).1.session.committed
    after_keeps (ok a, t) f h k = (k a).keeps t h
    after_keeps (err e, t) f h k = h

    >>=-Keeps :
        {m : Step Trace A} {f : A → Step Trace B}
        → Keeps m
        → ((a : A) → Keeps (f a))
        → Keeps (m >>= f)
    unfolding ◌>>=◌
    >>=-Keeps {m} {f} h k = record { keeps = λ t p. after_keeps (m t) f (h.keeps t p) k }

    after_holds :
        (o : Result A × Trace) (f : A → Step Trace B)
        → P o.1.session.committed
        → ((a : A) → KeepsOnRaise (f a))
        → Held (then_run o f)
    after_holds (ok a, t) f h k = (k a).holds t h
    after_holds (err e, t) f h k = λ x q. h

    >>=-KeepsOnRaise :
        {m : Step Trace A} {f : A → Step Trace B}
        → Keeps m
        → ((a : A) → KeepsOnRaise (f a))
        → KeepsOnRaise (m >>= f)
    unfolding ◌>>=◌
    >>=-KeepsOnRaise {m} {f} h k = record { holds = λ t p. after_holds (m t) f (h.keeps t p) k }

  module _ {A : Type 0} where
    pure-Keeps : (a : A) → Keeps (pure a)
    unfolding pure
    pure-Keeps a = record { keeps = λ t p. p }

    lift-Keeps : (r : Result A) → Keeps (lift r)
    unfolding lift
    lift-Keeps r = record { keeps = λ t p. p }

    on-Keeps : {m : Action A} → CommitsNothing m → Keeps (on m)
    unfolding on
    on-Keeps {m} h = record { keeps = λ t p. subst P (sym (h.keeps t.session)) p }

    commit-KeepsOnRaise : (a : A) → KeepsOnRaise (on commit >>= λ _. pure a)
    unfolding on commit pure ◌>>=◌
    commit-KeepsOnRaise a = record { holds = λ t p e q. absurd (ok-ne-err q) }

  note-Keeps : (f : Evidence → Evidence) → Keeps (note f)
  unfolding note
  note-Keeps f = record { keeps = λ t p. p }

  collected-Keeps : Keeps collected
  unfolding collected
  collected-Keeps = record { keeps = λ t p. p }

  wait-Keeps :
      (others : Db → Db) → ((d : Db) → P d → P (others d)) → Keeps (on (wait_for_lock others))
  unfolding on wait_for_lock
  wait-Keeps others h = record { keeps = λ t p. h t.session.committed p }

  module _ (rt : Runtime) (repo : UserRepository) (session_others : Db → Db) (req : RefreshRequest)
      (now : Instant) (h1 : (d : Db) → P d → P (rt.others d))
      (h2 : (d : Db) → P d → P (session_others d)) where
    hold-Keeps : Keeps (hold rt repo session_others req now)
    unfolding hold
    hold-Keeps = >>=-Keeps (on-Keeps (search commits_nothing)) (λ _. >>=-Keeps (note-Keeps _) (λ _.
        >>=-Keeps (lift-Keeps _) (λ _. >>=-Keeps (wait-Keeps rt.others h1) (λ _.
          >>=-Keeps (on-Keeps (search commits_nothing)) (λ _.
            >>=-Keeps (wait-Keeps session_others h2) (λ _.
              >>=-Keeps (on-Keeps (search commits_nothing)) (λ _.
                >>=-Keeps (lift-Keeps _) (λ _. >>=-Keeps (lift-Keeps _) (λ _. pure-Keeps _)))))))))

    recheck-Keeps : (o : Opening) → Keeps (recheck rt repo session_others req now o)
    unfolding recheck
    recheck-Keeps o = >>=-Keeps (on-Keeps (search commits_nothing)) (λ _.
        >>=-Keeps (note-Keeps _) (λ _. >>=-Keeps (on-Keeps (search commits_nothing)) (λ _.
          >>=-Keeps (note-Keeps _) (λ _. >>=-Keeps (lift-Keeps _) (λ _.
            >>=-Keeps (on-Keeps (search commits_nothing))
              (λ _. >>=-Keeps (lift-Keeps _) (λ _. pure-Keeps _)))))))

    extend-KeepsOnRaise :
        (o : Opening) (d : Uuid) (r : SessionRow)
        (c : LocationCandidate × ScheduleDecision × List Text × List Text)
        → KeepsOnRaise (extend rt repo session_others req now o d r c)
    unfolding extend
    extend-KeepsOnRaise o d r c = >>=-KeepsOnRaise (lift-Keeps _) (λ _.
        >>=-KeepsOnRaise (on-Keeps (search commits_nothing)) (λ _.
          >>=-KeepsOnRaise (lift-Keeps _) (λ _. >>=-KeepsOnRaise collected-Keeps (λ _.
            >>=-KeepsOnRaise (on-Keeps (search commits_nothing)) (λ _.
              >>=-KeepsOnRaise (on-Keeps (search commits_nothing)) (λ _.
                >>=-KeepsOnRaise (on-Keeps (search commits_nothing))
                  (λ _. >>=-KeepsOnRaise (lift-Keeps _) (λ _. commit-KeepsOnRaise _))))))))

    attempt-KeepsOnRaise : KeepsOnRaise (attempt rt repo session_others req now)
    unfolding attempt
    attempt-KeepsOnRaise = >>=-KeepsOnRaise (lift-Keeps _) (λ geo.
        >>=-KeepsOnRaise (lift-Keeps _) (λ risk. >>=-KeepsOnRaise (note-Keeps _) (λ _.
          >>=-KeepsOnRaise (on-Keeps (search commits_nothing)) (λ o.
            >>=-KeepsOnRaise hold-Keeps (λ held.
              >>=-KeepsOnRaise (recheck-Keeps o)
                (λ found. extend-KeepsOnRaise o held.0 held.1 found))))))

    module _
        (h3 : (d : Db) (e : EvaluationRow)
          → P d
          → P (record d { evaluations = e ∷ d.evaluations })) where
      evaluation_keeps : (e : EvaluationRow) (d : Db) → P d → P (record_evaluation e d).1
      unfolding record_evaluation
      evaluation_keeps e d p =
          elim (Bool-cases (any (λ r. r.evaluation_id == e.evaluation_id) d.evaluations)) [
            | inl t ↦ rw t p
            | inr f ↦ rw f (h3 d e p)
          ]

      recorded :
          (o : Result (Unit {0}) × Db) (t : Session)
          → P t.committed
          → P o.1
          → P (undo (then_run (o.0, record t { working = o.1 }) (λ _. commit))).1.committed
      unfolding commit rollback
      recorded (ok u, d) t p q = q
      recorded (err e, d) t p q = p

      denial_keeps :
          (e : SecurityError) (v : Evidence) (s : Session)
          → P s.committed
          → P
              (or_rollback
                (denial_evaluation rt repo session_others req now e v)
                (rollback s).1).1.committed
      unfolding or_rollback rollback draw writes commit ◌>>=◌
      denial_keeps e v s p =
          let row =
            evaluation_payload rt repo session_others req now Decision.deny (code_text e.code) v
              (rt.uuid4 s.draws) in
          recorded (record_evaluation row s.committed)
            (record s { working = s.committed; draws = suc s.draws }) p
            (evaluation_keeps row s.committed p)

      persist_keeps :
          (e : SecurityError) (v : Evidence) (s : Session)
          → P s.committed
          → P
              (persist_denial_evidence_best_effort rt repo session_others req now e v
                (rollback s).1).committed
      unfolding persist_denial_evidence_best_effort rollback
      persist_keeps e v s p = elim (Bool-cases (is_server_error e)) [
        | inl t ↦ rw t p
        | inr f ↦ rw f (denial_keeps e v s p)
      ]

      handler_keeps :
          (o : Result RefreshedUserSession × Trace) (x : Exc)
          → (handled rt repo session_others req now o).0 ≡ err x
          → Held o
          → P (handled rt repo session_others req now o).1.committed
      unfolding rollback
      handler_keeps (ok g, t) x q h = absurd (ok-ne-err q)
      handler_keeps (err (security e), t) x q h =
          persist_keeps e t.evidence t.session (h (security e) refl)
      handler_keeps (err value_error, t) x q h = h value_error refl
      handler_keeps (err domain_error, t) x q h = h domain_error refl
      handler_keeps (err type_error, t) x q h = h type_error refl
      handler_keeps (err overflow_error, t) x q h = h overflow_error refl
      handler_keeps (err zone_not_found, t) x q h = h zone_not_found refl
      handler_keeps (err integrity_error, t) x q h = h integrity_error refl
      handler_keeps (err lookup_error, t) x q h = h lookup_error refl
      handler_keeps (err data_error, t) x q h = h data_error refl
      handler_keeps (err runtime_error, t) x q h = h runtime_error refl

      -- A refresh that raises leaves nothing but evidence: every property of the committed tables that
      -- the other transactions keep, and that a further evaluation keeps, still holds of them.
      pub refresh_denied :
          (s s' : Session) (x : Exc)
          → P s.committed
          → refresh rt repo session_others req now s ≡ (err x, s')
          → P s'.committed
      unfolding refresh
      refresh_denied s s' x p h =
          let start : Trace = record { evidence = no_evidence; session = s } in
          subst (λ (o : Result RefreshedUserSession × Session). P o.1.committed) h
            (handler_keeps (attempt rt repo session_others req now start) x
              (ap (λ (o : Result RefreshedUserSession × Session). o.0) h)
              (attempt-KeepsOnRaise.holds start p))
