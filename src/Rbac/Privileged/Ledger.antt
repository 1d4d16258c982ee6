-- ===== src/Rbac/Privileged/Ledger.antt =====
-- What the table of the requests promises, whatever the calls are: a request is opened once, and is
-- decided once, by neither of the users it is about.
use mathlib.Core.Path.{◌≡◌}
use verigence_security.Common.{
  Bool, true, false, List, ◌∷◌, Option, none, some, Text, ◌==◌, find_first, update_where,
}
use verigence_security.Core.Types.{Uuid}
use verigence_security.Db.Schema.{PrivilegedRequestRow, PrivilegedStatus, privileged_pending}
use verigence_security.Rbac.Rows.{Change}
use verigence_security.Rbac.Gate.{refuses_request}
use verigence_security.Rbac.Privileged.{is_request, decided}

abbrev pub Ledger : Type 0
Ledger = List PrivilegedRequestRow

-- A decision that grants, or one that refuses.
abbrev pub is_verdict : PrivilegedStatus → Bool
is_verdict PrivilegedStatus.approved = true
is_verdict PrivilegedStatus.rejected = true
is_verdict _ = false

pub data LedgerStep : Ledger → Ledger → Type 0 where
  opens :
      (r : PrivilegedRequestRow) (rows : Ledger)
      → r.status ≡ PrivilegedStatus.pending
      → r.approved_by_user_id ≡ none
      → refuses_request r rows ≡ false
      → LedgerStep rows (r ∷ rows)
  decides :
      (c : Change) (status : PrivilegedStatus) (reason : Option Text) (request_id : Uuid)
      (r : PrivilegedRequestRow) (rows : Ledger)
      → is_verdict status ≡ true
      → find_first (is_request c.tenant_id request_id) rows ≡ some r
      → privileged_pending r.status ≡ true
      → (r.requested_by_user_id == c.actor_user_id) ≡ false
      → (r.subject_user_id == c.actor_user_id) ≡ false
      → LedgerStep rows
          (update_where (is_request c.tenant_id request_id) (decided c status reason) rows)

-- Any number of steps.
pub data LedgerReach : Ledger → Ledger → Type 0 where
  rests : (rows : Ledger) → LedgerReach rows rows
  moves : {a b c : Ledger} → LedgerReach a b → LedgerStep b c → LedgerReach a c
