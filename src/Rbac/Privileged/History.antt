-- ===== src/Rbac/Privileged/History.antt =====
-- The calls that administrators make one after another, each in a session of its own, while others
-- commit in between.
use mathlib.Core.Path.{◌≡◌, sym, subst}
use verigence_security.Common.{ℕ, true, false, List, [], ◌∷◌, Option, Text, Among, every}
use verigence_security.Core.Types.{Uuid}
use verigence_security.Db.Schema.{Db, PrivilegedRequestRow, privileged_pending}
use verigence_security.Db.Transaction.{Session}
use verigence_security.Db.Kept.{Holds}
use verigence_security.Rbac.Rows.{Change}
use verigence_security.Rbac.Gate.Assign
use verigence_security.Rbac.Privileged.{approve, reject, request_or_assign_user_role}
use verigence_security.Rbac.Privileged.Ledger.{Ledger, LedgerReach}
use verigence_security.Rbac.Privileged.Once.{
  FitsIndexes, reach-FitsIndexes, decided_for_good, is_maker_checked, reach-maker_checked,
}
use verigence_security.Rbac.Privileged.Follows.{
  Follows, assign_user_role-Keeps, request_or_assign_user_role-Keeps,
}
use verigence_security.Rbac.Privileged.Decision.{approve-follows, reject-follows}

pub data Call : Type 0 where
  assign request : (c : Change) (user_id role_id : Uuid) → Call
  approval rejection : (c : Change) (request_id : Uuid) (reason : Option Text) → Call

module _ (uuid4 : ℕ → Uuid) (others : Db → Db) where
  -- However the call ends, its session is closed: what it has not committed is gone.
  abbrev pub closed : Session → Session
  closed s = record s { working = s.committed }

  abbrev pub perform : Call → Session → Session
  perform (Call.assign c u r) s = closed (Assign.assign_user_role uuid4 others c u r s).1
  perform (Call.request c u r) s = closed (request_or_assign_user_role uuid4 others c u r s).1
  perform (Call.approval c i reason) s = closed (approve uuid4 others c i reason s).1
  perform (Call.rejection c i reason) s = closed (reject uuid4 others c i reason s).1

  unfoldable pub perform_all : List Call → Session → Session
  perform_all [] s = s
  perform_all (x ∷ xs) s = perform_all xs (perform x s)

  module _ (start : Ledger) (rely : (db : Db) → Follows start db → Follows start (others db)) where
    abbrev G : Db → Type 0
    G db = Follows start db

    perform-follows : (x : Call) (s : Session) → Holds G G s → Holds G G (perform x s)
    perform-follows (Call.assign c u r) s h =
        let k = (assign_user_role-Keeps uuid4 others start rely c u r).keeps s h in (k.0, k.0)
    perform-follows (Call.request c u r) s h =
        let k = (request_or_assign_user_role-Keeps uuid4 others start rely c u r).keeps s h in
        (k.0, k.0)
    perform-follows (Call.approval c i reason) s h =
        let k = approve-follows uuid4 others start rely c i reason s h in (k.0, k.0)
    perform-follows (Call.rejection c i reason) s h =
        let k = reject-follows uuid4 others start rely c i reason s h in (k.0, k.0)

    all-follow : (xs : List Call) (s : Session) → Holds G G s → Holds G G (perform_all xs s)
    unfolding perform_all
    all-follow [] s h = h
    all-follow (x ∷ xs) s h = all-follow xs (perform x s) (perform-follows x s h)

-- Whatever calls are made one after another to assign, request, approve or reject, the committed table
-- of requests moves by steps of the ledger only: a request is opened where the indexes allow it, or one
-- that is pending is approved or rejected by neither its requester nor its subject. The other writers
-- are taken to move the table by such steps, too.
pub perform_all-LedgerReach :
    (uuid4 : ℕ → Uuid) (others : Db → Db) (calls : List Call) (s : Session)
    → ((db : Db)
        → LedgerReach s.committed.privileged_requests db.privileged_requests
        → LedgerReach s.committed.privileged_requests (others db).privileged_requests)
    → s.working ≡ s.committed
    → LedgerReach s.committed.privileged_requests
        (perform_all uuid4 others calls s).committed.privileged_requests
perform_all-LedgerReach uuid4 others calls s rely e =
    let start = s.committed.privileged_requests in
    (all-follow uuid4 others start rely calls s (
      LedgerReach.rests start,
      subst (λ (d : Db). LedgerReach start d.privileged_requests) (sym e) (LedgerReach.rests start),
    )).0

-- A request that is no longer pending is found unchanged after any calls: no decision is taken back or
-- taken twice. The table starts within its indexes, and the other writers move it by steps of the ledger.
pub perform_all-keeps_decided :
    (uuid4 : ℕ → Uuid) (others : Db → Db) (calls : List Call) (s : Session)
    (x : PrivilegedRequestRow)
    → ((db : Db)
        → LedgerReach s.committed.privileged_requests db.privileged_requests
        → LedgerReach s.committed.privileged_requests (others db).privileged_requests)
    → s.working ≡ s.committed
    → FitsIndexes s.committed.privileged_requests
    → Among x s.committed.privileged_requests
    → privileged_pending x.status ≡ false
    → Among x (perform_all uuid4 others calls s).committed.privileged_requests
perform_all-keeps_decided uuid4 others calls s x rely e fits m h =
    decided_for_good x (perform_all-LedgerReach uuid4 others calls s rely e) fits m h

-- Maker and checker: after any calls, every request that is approved or rejected names who decided it,
-- and that is neither its requester nor its subject; and no two requests have one identifier, nor are
-- two pending for one user and role. Both are true of the table at the start, and the other writers move
-- it by steps of the ledger.
pub perform_all-maker_checked :
    (uuid4 : ℕ → Uuid) (others : Db → Db) (calls : List Call) (s : Session)
    → ((db : Db)
        → LedgerReach s.committed.privileged_requests db.privileged_requests
        → LedgerReach s.committed.privileged_requests (others db).privileged_requests)
    → s.working ≡ s.committed
    → FitsIndexes s.committed.privileged_requests
    → every is_maker_checked s.committed.privileged_requests ≡ true
    → (every is_maker_checked (perform_all uuid4 others calls s).committed.privileged_requests
        ≡ true)
      × FitsIndexes (perform_all uuid4 others calls s).committed.privileged_requests
perform_all-maker_checked uuid4 others calls s rely e fits h =
    let r = perform_all-LedgerReach uuid4 others calls s rely e in
    (reach-maker_checked r fits h, reach-FitsIndexes r fits)
