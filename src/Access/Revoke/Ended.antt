-- ===== src/Access/Revoke/Ended.antt =====
-- What a revocation ends.
use mathlib.Core.Path.{◌≡◌, refl, ◌∙◌, sym, ap}
use mathlib.Core.Logic.{◌⊎◌, inl, inr}
use native.Mathlib.Omega.{arith}
use verigence_security.Common.{
  ◌≤◌, Bool, true, false, any, count_where, find_first, update_where, Bool-cases, List, [], ◌∷◌,
}
use verigence_security.Core.Types.{Uuid}
use verigence_security.Core.Errors.{Exc}
use verigence_security.Core.Result.{Result, ok, err}
use verigence_security.Db.Steps.{Outcome}
use verigence_security.Db.Schema.{Db, SessionRow}
use verigence_security.Db.Transaction.{
  Session, ◌>>=◌, pure, reads, writes, commit, rollback, undo, or_rollback, wait_for_lock,
}
use verigence_security.Repository.Sessions.{
  is_session_id, is_user_session, is_active_user_session, revoked, user_session,
  revoke_active_user_session,
}
use verigence_security.Repository.Rows.{count_where_mono, any-count_where}
use verigence_security.Access.Revoke.{Statements, is_live, revoke_live, revoke}

module _ (db : Statements) (others : Db → Db) (id tenant_id user_id : Uuid) where
  abbrev is_target : SessionRow → Bool
  is_target = is_active_user_session id tenant_id user_id

  -- `access_session_id` is the primary key of the sessions.
  abbrev pub IsKeyed : Db → Type 0
  IsKeyed tables = count_where (is_session_id id) tables.sessions ≤ 1

  -- The row that the lock finds tells whether there is an ACTIVE one.
  live_is_any :
      (rows : List SessionRow)
      → count_where (is_session_id id) rows ≤ 1
      → is_live db others id tenant_id user_id
          (find_first (is_user_session id tenant_id user_id) rows)
        ≡ any is_target rows
  live_is_any [] k = refl
  live_is_any (r ∷ rs) k = elim (Bool-cases (is_user_session id tenant_id user_id r)) [
    | inl t ↦
        let left = count_where_mono is_target (is_session_id id) rs (λ x h. ground arith) in
        let none_left = any-count_where is_target rs (ground arith) in ground arith
    | inr f ↦ let ih = live_is_any rs (ground arith) in ground arith
  ]

  none_after :
      (rows : List SessionRow) → any is_target (update_where is_target revoked rows) ≡ false
  none_after [] = refl
  none_after (r ∷ rs) =
      let ih = none_after rs in
      elim (Bool-cases (is_target r)) [ inl t ↦ ground arith | inr f ↦ ground arith ]

  -- The call answers whether there was an ACTIVE session, and the committed tables hold none.
  pub record IsEnded (seen : Db) (out : Outcome Bool) : Type 0 where
    pub answers : out.0 ≡ ok (any is_target seen.sessions)
    pub none_left : any is_target out.1.committed.sessions ≡ false

  -- The call raises what one of its statements raised, and nothing of it is left.
  pub record IsUndone (seen : Db) (out : Outcome Bool) : Type 0 where
    pub raised : Exc
    pub raises : out.0 ≡ err raised
    pub same_committed : out.1.committed ≡ seen
    pub same_working : out.1.working ≡ seen
    pub refused :
        (db.lock seen ≡ err raised)
        ⊎ (db.update seen ≡ err raised)
        ⊎ (db.finish (revoke_active_user_session id tenant_id user_id seen).1 ≡ err raised)

  commit_ends :
      (t : Session) (r : Result (Unit {0}))
      → t.working ≡ t.committed
      → true ≡ any is_target t.working.sessions
      → db.update t.working ≡ ok tt
      → db.finish (revoke_active_user_session id tenant_id user_id t.working).1 ≡ r
      → IsEnded t.working (undo (revoke_live db others id tenant_id user_id true t))
        ⊎ IsUndone t.working (undo (revoke_live db others id tenant_id user_id true t))
  unfolding revoke_live revoke_active_user_session reads writes commit rollback pure ◌>>=◌
  commit_ends t (ok tt) clean e u f = inl (record {
    answers = rw (u, sym e, f) refl;
    none_left = rw (u, sym e, f) (none_after t.working.sessions);
  })
  commit_ends t (err x) clean e u f = inr (record {
    raised = x;
    raises = rw (u, sym e, f) refl;
    same_committed = rw (u, sym e, f) (sym clean);
    same_working = rw (u, sym e, f) (sym clean);
    refused = inr (inr f);
  })

  update_ends :
      (t : Session) (r : Result (Unit {0}))
      → t.working ≡ t.committed
      → true ≡ any is_target t.working.sessions
      → db.update t.working ≡ r
      → IsEnded t.working (undo (revoke_live db others id tenant_id user_id true t))
        ⊎ IsUndone t.working (undo (revoke_live db others id tenant_id user_id true t))
  unfolding revoke_live reads rollback ◌>>=◌
  update_ends t (ok tt) clean e u = commit_ends t _ clean e u refl
  update_ends t (err x) clean e u = inr (record {
    raised = x;
    raises = rw u refl;
    same_committed = rw u (sym clean);
    same_working = rw u (sym clean);
    refused = inr (inl u);
  })

  live_ends :
      (t : Session) (b : Bool)
      → t.working ≡ t.committed
      → b ≡ any is_target t.working.sessions
      → IsEnded t.working (undo (revoke_live db others id tenant_id user_id b t))
        ⊎ IsUndone t.working (undo (revoke_live db others id tenant_id user_id b t))
  unfolding revoke_live rollback pure ◌>>=◌
  live_ends t false clean e = inl (record {
    answers = ap ok e;
    none_left = ap (λ (d : Db). any is_target d.sessions) (sym clean) ∙ sym e;
  })
  live_ends t true clean e = update_ends t _ clean e refl

  lock_ends :
      (s : Session) (r : Result (Unit {0}))
      → s.working ≡ s.committed
      → IsKeyed (others s.working)
      → db.lock (others s.working) ≡ r
      → IsEnded (others s.working) (revoke db others id tenant_id user_id s)
        ⊎ IsUndone (others s.working) (revoke db others id tenant_id user_id s)
  unfolding revoke or_rollback wait_for_lock reads rollback user_session ◌>>=◌
  lock_ends s (ok tt) clean k l = rw l (
      live_ends (record s { committed = others s.committed; working = others s.working })
        (is_live db others id tenant_id user_id
          (find_first (is_user_session id tenant_id user_id) (others s.working).sessions))
        (ap others clean) (live_is_any (others s.working).sessions k))
  lock_ends s (err x) clean k l = inr (record {
    raised = x;
    raises = rw l refl;
    same_committed = rw l (ap others (sym clean));
    same_working = rw l (ap others (sym clean));
    refused = inl l;
  })

  -- A revocation either answers or raises. It answers whether the user had an ACTIVE session of that id
  -- in the tenant when its row lock was granted, and after it the tables as committed hold none. It
  -- raises only what the wait for the lock, the update or the commit raised, and then the tables and the
  -- transaction are as the others had committed them. Session ids are unique, and the transaction has
  -- written nothing before.
  pub revoke_ends :
      (s : Session)
      → s.working ≡ s.committed
      → IsKeyed (others s.working)
      → IsEnded (others s.working) (revoke db others id tenant_id user_id s)
        ⊎ IsUndone (others s.working) (revoke db others id tenant_id user_id s)
  revoke_ends s clean k = lock_ends s _ clean k refl
