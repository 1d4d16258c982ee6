-- ===== src/Rbac/Privileged/Follows.antt =====
-- The calls move the requests by steps of the ledger.
use mathlib.Core.Path.{◌≡◌}
use verigence_security.Common.{
  ℕ, Bool, true, false, List, [], ◌∷◌, none, Text, ◌⊎◌, inl, inr, Bool-cases,
}
use verigence_security.Core.Types.{Uuid}
use verigence_security.Db.Schema.{Db, PrivilegedRequestRow, PrivilegedStatus}
use verigence_security.Db.Kept.{
  Keeps, >>=-Keeps, pure-Keeps, reads-Keeps, writes-Keeps, modify-Keeps, draw-Keeps, commit-Keeps,
}
use verigence_security.Rbac.Kept.{insert_unless-keeps, audit-Keeps}
use verigence_security.Rbac.Rows.{Change}
use verigence_security.Rbac.Rules.{global_rules}
use verigence_security.Rbac.Rules.Bumped.{global_bump-keeps}
use verigence_security.Rbac.Roles
use verigence_security.Rbac.Groups.{conclude}
use verigence_security.Rbac.Gate.{insert_request, refuses_request, is_privileged}
use verigence_security.Rbac.Gate.Assign.{
  new_request, open_request, on_integrity_error, caught, unless_found, when_found, ask_for_role,
  or_reraise, assign_privileged, assign_by_key, is_pending,
}
use verigence_security.Rbac.Gate.Assign
use verigence_security.Rbac.Privileged.{request_or_assign_by_key, request_or_assign_user_role}
use verigence_security.Rbac.Privileged.Ledger.{Ledger, LedgerStep, LedgerReach}
use verigence_security.Rbac.Privileged.Opens.{assign_privileged-Keeps, request_privileged-Keeps}

-- The requests have been reached from those of `start`.
abbrev pub Follows : Ledger → Db → Type 0
Follows start db = LedgerReach start db.privileged_requests

module _ (uuid4 : ℕ → Uuid) (others : Db → Db) (start : Ledger)
    (rely : (db : Db) → Follows start db → Follows start (others db)) (c : Change) where
  abbrev F : Db → Type 0
  F db = Follows start db

  insert_request-keeps :
      (r : PrivilegedRequestRow)
      → r.status ≡ PrivilegedStatus.pending
      → r.approved_by_user_id ≡ none
      → (db : Db) → F db
      → F (insert_request r db).1
  insert_request-keeps r p n db h = chosen (Bool-cases (refuses_request r db.privileged_requests))
    where
      chosen :
          (refuses_request r db.privileged_requests ≡ true)
            ⊎ (refuses_request r db.privileged_requests ≡ false)
          → F (insert_request r db).1
      chosen (inl q) = rw q h
      chosen (inr q) = rw q (LedgerReach.moves h (LedgerStep.opens r db.privileged_requests p n q))

  conclude-Keeps :
      (users : List Uuid) (k t i : Text) → Keeps F F (conclude uuid4 global_rules c users k t i)
  conclude-Keeps users k t i =
      >>=-Keeps
        (modify-Keeps _ (λ db h. global_bump-keeps F (λ d rows q. q) c.tenant_id c.now users db h))
        (λ _.
          >>=-Keeps (audit-Keeps (λ d rows q. q) uuid4 c k t i)
            (λ _. >>=-Keeps (commit-Keeps (λ db h. h)) (λ _. pure-Keeps true)))

  assign_unless-Keeps :
      (b : Bool) (user_id role_id : Uuid)
      → Keeps F F (Roles.assign_unless uuid4 global_rules c b user_id role_id)
  unfolding Roles.assign_unless
  assign_unless-Keeps true user_id role_id = pure-Keeps false
  assign_unless-Keeps false user_id role_id = >>=-Keeps (draw-Keeps uuid4) (λ id.
      >>=-Keeps (writes-Keeps _ (λ db h. insert_unless-keeps F _ db _ h h))
        (λ _. conclude-Keeps (user_id ∷ []) _ _ _))

  base_assign-Keeps :
      (user_id role_id : Uuid)
      → Keeps F F (Roles.assign_user_role uuid4 global_rules c user_id role_id)
  unfolding Roles.assign_user_role
  base_assign-Keeps user_id role_id = >>=-Keeps (reads-Keeps _) (λ _.
      >>=-Keeps (reads-Keeps _)
        (λ _. >>=-Keeps (reads-Keeps _) (λ b. assign_unless-Keeps b user_id role_id)))

  assign_by_key-Keeps :
      (b : Bool) (user_id role_id : Uuid)
      → Keeps F F (assign_by_key uuid4 others c b user_id role_id)
  unfolding assign_by_key
  assign_by_key-Keeps true user_id role_id =
      assign_privileged-Keeps uuid4 others F rely (λ d rows q. q) insert_request-keeps c user_id
        role_id
  assign_by_key-Keeps false user_id role_id = base_assign-Keeps user_id role_id

  pub assign_user_role-Keeps :
      (user_id role_id : Uuid) → Keeps F F (Assign.assign_user_role uuid4 others c user_id role_id)
  unfolding Assign.assign_user_role
  assign_user_role-Keeps user_id role_id =
      >>=-Keeps (reads-Keeps _)
        (λ r. assign_by_key-Keeps (is_privileged r.role_key) user_id role_id)

  by_key-Keeps :
      (b : Bool) (user_id role_id : Uuid) (key : Text)
      → Keeps F F (request_or_assign_by_key uuid4 others c b user_id role_id key)
  unfolding request_or_assign_by_key
  by_key-Keeps true user_id role_id key =
      request_privileged-Keeps uuid4 others F rely (λ d rows q. q) insert_request-keeps c user_id
        role_id key
  by_key-Keeps false user_id role_id key =
      >>=-Keeps (assign_user_role-Keeps user_id role_id) (λ b. pure-Keeps _)

  pub request_or_assign_user_role-Keeps :
      (user_id role_id : Uuid)
      → Keeps F F (request_or_assign_user_role uuid4 others c user_id role_id)
  unfolding request_or_assign_user_role
  request_or_assign_user_role-Keeps user_id role_id = >>=-Keeps (reads-Keeps _) (λ _.
      >>=-Keeps (reads-Keeps _)
        (λ r. by_key-Keeps (is_privileged r.role_key) user_id role_id r.role_key))
