-- ===== src/Rbac/Privileged/Decision.antt =====
-- What a decision on a request rests on, and the step of the ledger that it is.
use mathlib.Core.Path.{◌≡◌, refl, ◌∙◌, sym, ap, subst}
use verigence_security.Common.{
  ℕ, Bool, true, false, ◌&&◌, not, List, [], ◌∷◌, Option, none, some, Text, ◌==◌, find_first, arith,
  any, Bool-cases, ◌⊎◌, inl, inr,
}
use verigence_security.Core.Types.{Uuid}
use verigence_security.Core.Result.{ok, ok-injective, ok-ne-err}
use verigence_security.Db.Schema.{
  Db, PrivilegedRequestRow, PrivilegedStatus, privileged_pending, UserRoleRow,
  AuthorizationStateRow,
}
use verigence_security.Db.Transaction.{Session, Action, ◌>>=◌, lift, reads, writes, wait_for_lock}
use verigence_security.Db.Steps.{Outcome, run_ok, reads-eq-ok, lift-eq-ok, pure_run}
use verigence_security.Db.Kept.{
  Holds, Keeps, >>=-Keeps, pure-Keeps, lift-Keeps, reads-Keeps, writes-Keeps, modify-Keeps,
  draw-Keeps, commit-Keeps, wait_for_lock-Keeps, after_ok, >>=-holds,
}
use verigence_security.Rbac.Kept.{insert_unless-keeps, audit-Keeps, require-eq-ok}
use verigence_security.Rbac.Rows.{Change}
use verigence_security.Rbac.Rules.Bumped.{global_bump-keeps}
use verigence_security.Rbac.Privileged.{
  Answer, KeyedRequest, is_request, request_of, require_request, is_independent, joined, keyed,
  role_of, decide, decided, require_pending_and_independent, settle_request, conclude_decision,
  open_for_decision, grant, grant_unless, approve, reject,
}
use verigence_security.Rbac.Privileged.Ledger.{Ledger, is_verdict, LedgerStep, LedgerReach}
use verigence_security.Rbac.Privileged.Follows.{Follows}

-- The request may be decided by the user of the change.
pub record IsOpenRequest (c : Change) (request_id : Uuid) (db : Db) (r : PrivilegedRequestRow)
    : Type 0 where
  pub found : find_first (is_request c.tenant_id request_id) db.privileged_requests ≡ some r
  pub pending : privileged_pending r.status ≡ true
  pub not_requester : (r.requested_by_user_id == c.actor_user_id) ≡ false
  pub not_subject : (r.subject_user_id == c.actor_user_id) ≡ false

request_of_row :
    (t id : Uuid) (db : Db) (k : KeyedRequest)
    → request_of t id db ≡ ok k
    → find_first (is_request t id) db.privileged_requests ≡ some k.row
unfolding request_of
request_of_row t id db k h = found (find_first (is_request t id) db.privileged_requests) h
  where
    from_role :
        (r : PrivilegedRequestRow) (o : Option _)
        → require_request (keyed r o) ≡ ok k
        → some r ≡ some k.row
    from_role r none q = absurd (ok-ne-err (sym q))
    from_role r (some role) q = ap (λ (x : KeyedRequest). some x.row) (ok-injective q)

    found :
        (o : Option PrivilegedRequestRow) → require_request (joined o db) ≡ ok k → o ≡ some k.row
    found none q = absurd (ok-ne-err (sym q))
    found (some r) q = from_role r (role_of r db) q

module _ (uuid4 : ℕ → Uuid) (others : Db → Db) (c : Change) (request_id : Uuid) where
  pub open_for_decision_ok :
      (s t : Session) (k : KeyedRequest)
      → open_for_decision uuid4 others c request_id s ≡ (ok k, t)
      → (t.committed ≡ others s.committed)
        × (t.working ≡ others s.working)
        × IsOpenRequest c request_id t.working k.row
  unfolding open_for_decision wait_for_lock
  open_for_decision_ok s t k h =
      let (_, s1, q1, h1) = run_ok (wait_for_lock others) _ s h in
      let (j, s2, q2, h2) = run_ok (reads (request_of c.tenant_id request_id)) _ s1 h1 in
      let (e2, w2) = reads-eq-ok (request_of c.tenant_id request_id) s1 q2 in
      let (_, s3, q3, h3) =
        run_ok (lift (require_pending_and_independent j.row c.actor_user_id)) _ s2 h2 in
      let (e3, w3) = lift-eq-ok (require_pending_and_independent j.row c.actor_user_id) s2 q3 in
      let last = sym (pure_run j s3) ∙ h3 in
      let same : j ≡ k = ok-injective (ap (λ (o : Outcome KeyedRequest). o.0) last) in
      let there : t ≡ s1 = sym (ap (λ (o : Outcome KeyedRequest). o.1) last) ∙ w3 ∙ w2 in
      let here = there ∙ sym (ap (λ (o : Outcome (Unit {0})). o.1) q1) in
      (
        ap (λ (u : Session). u.committed) here,
        ap (λ (u : Session). u.working) here,
        subst (λ (u : Session). IsOpenRequest c request_id u.working k.row) (sym there)
            (subst (λ (x : KeyedRequest). IsOpenRequest c request_id s1.working x.row) same
              (opened j s1.working (request_of_row c.tenant_id request_id s1.working j e2)
                (require-eq-ok _ e3))),
      )
    where
      first : (p a b : Bool) → (p && (not a && not b)) ≡ true → p ≡ true
      first p a b q = ground arith

      second : (p a b : Bool) → (p && (not a && not b)) ≡ true → a ≡ false
      second p a b q = ground arith

      third : (p a b : Bool) → (p && (not a && not b)) ≡ true → b ≡ false
      third p a b q = ground arith

      opened :
          (j : KeyedRequest) (db : Db)
          → find_first (is_request c.tenant_id request_id) db.privileged_requests ≡ some j.row
          → (privileged_pending j.row.status
              && (not (j.row.requested_by_user_id == c.actor_user_id)
                  && not (j.row.subject_user_id == c.actor_user_id)))
            ≡ true
          → IsOpenRequest c request_id db j.row
      opened j db f q =
          let p = privileged_pending j.row.status in
          let a = j.row.requested_by_user_id == c.actor_user_id in
          let b = j.row.subject_user_id == c.actor_user_id in
          record {
            found = f;
            pending = first p a b q;
            not_requester = second p a b q;
            not_subject = third p a b q;
          }

-- The assignment that an approval makes leaves the requests alone.
pub grant-Keeps :
    {C W : Db → Type 0} (uuid4 : ℕ → Uuid) (others : Db → Db) (c : Change)
    → ((db : Db) (rows : List UserRoleRow) → W db → W (record db { user_roles = rows }))
    → ((db : Db) (rows : List AuthorizationStateRow)
        → W db
        → W (record db { authorization_states = rows }))
    → (r : PrivilegedRequestRow) → Keeps C W (grant uuid4 others c r)
unfolding grant grant_unless
grant-Keeps {C} {W} uuid4 others c roles states r =
    >>=-Keeps (reads-Keeps _)
      (λ _. >>=-Keeps (reads-Keeps _) (λ _. >>=-Keeps (reads-Keeps _) (λ b. unless b)))
  where
    unless : (b : Bool) → Keeps C W (grant_unless uuid4 others c b r)
    unless true = pure-Keeps tt
    unless false = >>=-Keeps (draw-Keeps uuid4) (λ id.
        >>=-Keeps (writes-Keeps _ (λ db h. insert_unless-keeps W _ db _ h (roles db _ h))) (λ _.
          modify-Keeps _ (global_bump-keeps W states c.tenant_id c.now (r.subject_user_id ∷ []))))

module _ (uuid4 : ℕ → Uuid) (others : Db → Db) (start : Ledger)
    (rely : (db : Db) → Follows start db → Follows start (others db)) (c : Change)
    (request_id : Uuid) where
  abbrev G : Db → Type 0
  G db = Follows start db

  -- The request is open, too.
  abbrev O : PrivilegedRequestRow → Db → Type 0
  O r db = Follows start db × IsOpenRequest c request_id db r

  decide-follows :
      (status : PrivilegedStatus) (reason : Option Text) (r : PrivilegedRequestRow) (db : Db)
      → is_verdict status ≡ true
      → O r db
      → G (decide c status reason request_id db).1
  decide-follows status reason r db v h = chosen (Bool-cases refused)
    where
      refused : Bool
      refused =
          any
            (λ x.
              is_request c.tenant_id request_id x
              && not (is_independent (decided c status reason x)))
            db.privileged_requests

      chosen : (refused ≡ true) ⊎ (refused ≡ false) → G (decide c status reason request_id db).1
      chosen (inl q) = rw (decide, q) h.0
      chosen (inr q) =
          rw (decide, q)
            (LedgerReach.moves h.0 (
              LedgerStep.decides c status reason request_id r db.privileged_requests v h.1.found
                h.1.pending h.1.not_requester h.1.not_subject))

  conclude_decision-Keeps :
      (k key : Text) → Keeps G G (conclude_decision uuid4 others c k request_id key)
  unfolding conclude_decision
  conclude_decision-Keeps k key = >>=-Keeps (audit-Keeps (λ d rows q. q) uuid4 c k _ _) (λ _.
      >>=-Keeps (commit-Keeps (λ d q. q)) (λ _. >>=-Keeps (reads-Keeps _) (λ j. pure-Keeps _)))

  settle_request-follows :
      (status : PrivilegedStatus) (reason : Option Text) (k key : Text) (r : PrivilegedRequestRow)
      (s : Session)
      → is_verdict status ≡ true
      → Holds G (O r) s
      → Holds G G (settle_request uuid4 others c status reason k request_id key s).1
  unfolding settle_request writes
  settle_request-follows status reason k key r s v h =
      >>=-holds (Holds G G) (Holds G G) (writes (decide c status reason request_id)) _ s
        (h.0, decide-follows status reason r s.working v h.1)
        (λ _ t m. (conclude_decision-Keeps k key).keeps t m) (λ t m. m)

  open_for_decision-Keeps : Keeps G G (open_for_decision uuid4 others c request_id)
  unfolding open_for_decision
  open_for_decision-Keeps =
      >>=-Keeps (wait_for_lock-Keeps others rely rely)
        (λ _. >>=-Keeps (reads-Keeps _) (λ k. >>=-Keeps (lift-Keeps _) (λ _. pure-Keeps k)))

  -- What a decision does once its request is open.
  after_open :
      (f : KeyedRequest → Action Answer) (s : Session)
      → Holds G G s
      → ((k : KeyedRequest) (t : Session) → Holds G (O k.row) t → Holds G G (f k t).1)
      → Holds G G ((open_for_decision uuid4 others c request_id >>= f) s).1
  after_open f s h rest =
      after_ok (Holds G G) (open_for_decision uuid4 others c request_id) f s
        (λ k t q.
          let (ec, ew, asked) = open_for_decision_ok uuid4 others c request_id s t k q in
          rest k t (
            subst G (sym ec) (rely s.committed h.0),
            (subst G (sym ew) (rely s.working h.1), asked),
          ))
        (open_for_decision-Keeps.keeps s h)

  pub approve-follows :
      (reason : Option Text) (s : Session)
      → Holds G G s
      → Holds G G (approve uuid4 others c request_id reason s).1
  unfolding approve
  approve-follows reason s h = after_open _ s h (λ k t q.
      >>=-holds (Holds G (O k.row)) (Holds G G) (grant uuid4 others c k.row) _ t
        ((grant-Keeps {C = G} {W = O k.row} uuid4 others c (λ d rows m. (m.0, kept refl m.1))
            (λ d rows m. (m.0, kept refl m.1)) k.row).keeps
          t q)
        (λ _ u m.
          settle_request-follows PrivilegedStatus.approved reason _ k.role_key k.row u refl m)
        (λ u m. (m.0, m.1.0)))
    where
      kept :
          {d e : Db} {r : PrivilegedRequestRow}
          → e.privileged_requests ≡ d.privileged_requests
          → IsOpenRequest c request_id d r
          → IsOpenRequest c request_id e r
      kept same m = record {
        found = ap (find_first (is_request c.tenant_id request_id)) same ∙ m.found;
        pending = m.pending;
        not_requester = m.not_requester;
        not_subject = m.not_subject;
      }

  pub reject-follows :
      (reason : Option Text) (s : Session)
      → Holds G G s
      → Holds G G (reject uuid4 others c request_id reason s).1
  unfolding reject
  reject-follows reason s h =
      after_open _ s h (λ k t q.
        settle_request-follows PrivilegedStatus.rejected reason _ k.role_key k.row t refl q)
