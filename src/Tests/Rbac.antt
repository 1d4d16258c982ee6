-- ===== src/Tests/Rbac.antt =====
-- Roles that are assigned, removed, made, asked for and approved.
use mathlib.Core.Path.{◌≡◌, refl}
use mathlib.Core.Logic.{◌⊎◌}
use verigence_security.Common.{
  ℕ, suc, ◌+◌, true, false, List, [], ◌∷◌, Option, none, some, codes, any, every, Among,
  if◌then◌else◌, ◌==◌,
}
use verigence_security.Core.Types.{Uuid}
use verigence_security.Core.Result.{ok}
use verigence_security.Db.Schema.{Db, RoleRow, UserRoleRow, PrivilegedRequestRow, PrivilegedStatus}
use verigence_security.Db.Kept.{Holds}
use verigence_security.Db.Transaction.{
  Session, ◌>>=◌, pure, lift, reads, writes, modify, commit, draw, wait_for_lock,
}
use verigence_security.Runtime.{authorization_version_of}
use verigence_security.Rbac.Rows.{Change, audit, get_role, active_role, is_assigned, is_assignment}
use verigence_security.Rbac.Rules.{
  global_rules, bump_versions, sorted_ids, upsert_version, is_active_user,
}
use verigence_security.Rbac.Rules.Versions.{bump_versions-advances}
use verigence_security.Rbac.Roles.{assign_unless, assign_user_role, remove_user_role, create_role}
use verigence_security.Rbac.Roles.Assigned.{IsAssignedNow, assign_user_role-IsAssignedNow}
use verigence_security.Rbac.Roles.Removed.{IsRemovedNow, remove_user_role-IsRemovedNow}
use verigence_security.Rbac.Roles.Reserved.{IsNewRole, create_role-not_privileged}
use verigence_security.Rbac.Gate.Assign
use verigence_security.Rbac.Gate.{authorize_user}
use verigence_security.Rbac.Privileged.{reject}
use verigence_security.Rbac.Privileged.Rejected.{IsRejection, reject-IsRejection}
use verigence_security.Rbac.Gate.Authorized.{IsAuthorizedUser, authorize_user-IsAuthorizedUser}
use verigence_security.Rbac.Rows.{active_group}
use verigence_security.Rbac.Groups.{add_member_unless, add_group_member}
use verigence_security.Rbac.Groups.Members.{has_member, IsMemberNow, add_group_member-IsMemberNow}
use verigence_security.Db.Schema.{RowStatus}
use verigence_security.Common.{Text}
use verigence_security.Tests.Data.{read_key}
use verigence_security.Repository.Roles.{group_aware_permissions}
use verigence_security.Permissions.Canonical.{is_canonical_permission}
use verigence_security.Permissions.Ordered.{sorted_set}
use verigence_security.Permissions.Validate.{validate_permissions}
use verigence_security.Rbac.Privileged.{
  Answer, request_of, conclude_decision, settle_request, open_for_decision, grant, grant_unless,
  approve, request_or_assign_user_role,
}
use verigence_security.Rbac.Privileged.Ledger.{LedgerReach}
use verigence_security.Rbac.Privileged.Once.{FitsIndexes, is_maker_checked}
use verigence_security.Rbac.Privileged.History.{
  Call, perform_all, perform_all-LedgerReach, perform_all-keeps_decided, perform_all-maker_checked,
}
use verigence_security.Rbac.Privileged.Granted.{IsApproval, approve-IsApproval}
use verigence_security.Rbac.Privileged.Asked.{request_or_assign-adds_none}
use verigence_security.Platform.Uuids.{uuid_text, hex_run}
use verigence_security.Tests.Data.{noon, tables, role}

abbrev ids : ℕ → Uuid
ids n = 9000 + n

abbrev by : Uuid → Change
by actor = record { tenant_id = 1; actor_user_id = actor; correlation_id = codes "c"; now = noon }

abbrev asked_for : Uuid → PrivilegedStatus → Option Uuid → PrivilegedRequestRow
asked_for id status decider = record {
  request_id = id;
  tenant_id = 1;
  subject_user_id = 2;
  role_id = 62;
  source_invitation_id = none;
  status = status;
  requested_by_user_id = 5;
  requested_at = 0;
  approved_by_user_id = decider;
  decided_at = none;
  decision_reason = none;
  correlation_id = codes "c";
}

abbrev rejected_row : PrivilegedRequestRow
rejected_row = asked_for 71 PrivilegedStatus.rejected (some 6)

abbrev at : Db → Session
at db = record { committed = db; working = db; draws = 0 }

-- A role that nobody has yet.
abbrev start : Session
start = at (record (tables []) { roles = role 64 (codes "AUDITOR") ∷ role 61 (codes "CLERK") ∷ [] })

-- A request that waits, and one that was rejected.
abbrev waiting : Session
waiting = at (record (tables []) {
  privileged_requests = asked_for 70 PrivilegedStatus.pending none ∷ rejected_row ∷ [];
})

bump_versions-advances_example :
    authorization_version_of 2 1 (bump_versions global_rules 1 (2 ∷ 2 ∷ []) noon (tables [])) ≡ (
      if any (λ b. 2 == b) (2 ∷ 2 ∷ [])
      then suc (authorization_version_of 2 1 (tables []))
      else authorization_version_of 2 1 (tables []))
bump_versions-advances_example = bump_versions-advances 1 noon (2 ∷ 2 ∷ []) 2 (tables [])

assigned :
    assign_user_role ids global_rules (by 5) 2 64 start
    ≡ (ok true, (assign_user_role ids global_rules (by 5) 2 64 start).1)
unfolding assign_user_role assign_unless ◌>>=◌ reads writes draw modify commit pure audit
    bump_versions sorted_ids upsert_version uuid_text hex_run
assigned = refl

assign_user_role-IsAssignedNow_example :
    ((is_active_user 2 start.working ≡ true) × (active_role 1 64 start.working ≡ true))
    × (((true ≡ true)
          × (is_assigned 1 2 64 start.working ≡ false)
          × IsAssignedNow ids
              (by 5)
              2
              64
              start.working
              (assign_user_role ids global_rules (by 5) 2 64 start).1.committed)
        ⊎ ((true ≡ false)
            × (is_assigned 1 2 64 start.working ≡ true)
            × ((assign_user_role ids global_rules (by 5) 2 64 start).1 ≡ start)))
assign_user_role-IsAssignedNow_example =
    assign_user_role-IsAssignedNow ids (by 5) 2 64 start
      (assign_user_role ids global_rules (by 5) 2 64 start).1 true assigned

removed :
    remove_user_role ids global_rules (by 5) 2 61 start
    ≡ (ok true, (remove_user_role ids global_rules (by 5) 2 61 start).1)
unfolding remove_user_role ◌>>=◌ reads writes draw modify commit pure audit bump_versions sorted_ids
    upsert_version uuid_text hex_run
removed = refl

remove_user_role-IsRemovedNow_example :
    ((true ≡ true)
      × (is_assigned 1 2 61 start.working ≡ true)
      × IsRemovedNow ids
          (by 5)
          2
          61
          start.working
          (remove_user_role ids global_rules (by 5) 2 61 start).1.committed)
    ⊎ ((true ≡ false)
        × (is_assigned 1 2 61 start.working ≡ false)
        × ((remove_user_role ids global_rules (by 5) 2 61 start).1.committed ≡ start.committed)
        × ((remove_user_role ids global_rules (by 5) 2 61 start).1.working ≡ start.committed))
remove_user_role-IsRemovedNow_example =
    remove_user_role-IsRemovedNow ids (by 5) 2 61 start
      (remove_user_role ids global_rules (by 5) 2 61 start).1 true removed

abbrev made : RoleRow
made = record (role 9000 (codes "AUDIT")) {
  role_name = codes "Audit";
  created_at = noon;
  updated_at = noon;
}

created : create_role ids global_rules (by 5) (codes "AUDIT") (codes "Audit") none [] start ≡ (
  ok made,
  (create_role ids global_rules (by 5) (codes "AUDIT") (codes "Audit") none [] start).1,
)
unfolding create_role get_role ◌>>=◌ lift reads writes draw commit pure audit uuid_text hex_run
created = refl

create_role-not_privileged_example :
    IsNewRole ids global_rules
      (by 5)
      (codes "AUDIT")
      start.working
      (create_role ids global_rules
        (by 5)
        (codes "AUDIT")
        (codes "Audit")
        none
        []
        start).1.committed
      made
create_role-not_privileged_example =
    create_role-not_privileged ids global_rules (by 5) (codes "AUDIT") (codes "Audit") none [] start
      (create_role ids global_rules (by 5) (codes "AUDIT") (codes "Audit") none [] start).1 made
      created

abbrev approval : Answer
approval = Answer.known (record {
  row = record (asked_for 70 PrivilegedStatus.approved (some 6)) {
    decided_at = some noon;
    decision_reason = some (codes "ok");
  };
  role_key = codes "tenant.admin";
})

approved :
    approve ids (λ db. db) (by 6) 70 (some (codes "ok")) waiting
    ≡ (ok approval, (approve ids (λ db. db) (by 6) 70 (some (codes "ok")) waiting).1)
unfolding approve open_for_decision grant grant_unless settle_request conclude_decision request_of
    get_role ◌>>=◌ lift reads writes draw modify commit pure wait_for_lock audit bump_versions
    sorted_ids upsert_version uuid_text hex_run
approved = refl

approve-IsApproval_example :
    IsApproval
      (by 6)
      (some (codes "ok"))
      70
      waiting.working
      (approve ids (λ db. db) (by 6) 70 (some (codes "ok")) waiting).1.committed
approve-IsApproval_example =
    approve-IsApproval ids (λ db. db) (by 6) 70 (some (codes "ok")) waiting
      (approve ids (λ db. db) (by 6) 70 (some (codes "ok")) waiting).1 approval approved

abbrev Unassigned : List UserRoleRow → Type 0
Unassigned rows = any (is_assignment 1 2 62) rows ≡ false

admin_role : get_role 1 62 waiting.working ≡ some (role 62 (codes "tenant.admin"))
unfolding get_role
admin_role = refl

request_or_assign-adds_none_example :
    Holds
      (λ db. Unassigned db.user_roles)
      (λ db. Unassigned db.user_roles)
      (Assign.assign_user_role ids (λ db. db) (by 5) 2 62 waiting).1
    × Holds
        (λ db. Unassigned db.user_roles)
        (λ db. Unassigned db.user_roles)
        (request_or_assign_user_role ids (λ db. db) (by 5) 2 62 waiting).1
request_or_assign-adds_none_example =
    request_or_assign-adds_none ids (λ db. db) (by 5) 2 62 (role 62 (codes "tenant.admin")) refl
      Unassigned (λ db h. h) waiting admin_role (refl, refl)

-- The request is asked for again, approved by another user, and its rejection then comes too late.
abbrev calls : List Call
calls = Call.request (by 5) 2 62 ∷ Call.approval (by 6) 70 none ∷ Call.rejection (by 6) 70 none ∷ []

perform_all-LedgerReach_example :
    LedgerReach waiting.committed.privileged_requests
      (perform_all ids (λ db. db) calls waiting).committed.privileged_requests
perform_all-LedgerReach_example =
    perform_all-LedgerReach ids (λ db. db) calls waiting (λ db h. h) refl

waiting-FitsIndexes : FitsIndexes waiting.committed.privileged_requests
unfolding FitsIndexes
waiting-FitsIndexes = (refl, (refl, tt))

perform_all-keeps_decided_example :
    Among rejected_row (perform_all ids (λ db. db) calls waiting).committed.privileged_requests
perform_all-keeps_decided_example =
    perform_all-keeps_decided ids (λ db. db) calls waiting rejected_row (λ db h. h) refl
      waiting-FitsIndexes (Among.there (Among.here refl)) refl

perform_all-maker_checked_example :
    (every is_maker_checked (perform_all ids (λ db. db) calls waiting).committed.privileged_requests
      ≡ true)
    × FitsIndexes (perform_all ids (λ db. db) calls waiting).committed.privileged_requests
perform_all-maker_checked_example =
    perform_all-maker_checked ids (λ db. db) calls waiting (λ db h. h) refl waiting-FitsIndexes refl

-- A group that exists, which the clerk is put into.
abbrev grouped : Session
grouped = at (record (tables []) {
  groups =
      record {
        tenant_id = 1;
        group_id = 80;
        status = RowStatus.active;
        group_key = codes "G";
        group_name = codes "G";
        description = none;
        created_by_user_id = 5;
        created_at = 0;
        updated_at = 0;
      }
      ∷ [];
})

joined_group :
    add_group_member ids global_rules (by 5) 80 2 grouped
    ≡ (ok true, (add_group_member ids global_rules (by 5) 80 2 grouped).1)
unfolding add_group_member add_member_unless ◌>>=◌ reads writes draw modify commit pure audit
    bump_versions sorted_ids upsert_version uuid_text hex_run
joined_group = refl

add_group_member-IsMemberNow_example :
    ((active_group 1 80 grouped.working ≡ true) × (is_active_user 2 grouped.working ≡ true))
    × (((true ≡ true)
          × (has_member 1 80 2 grouped.working ≡ false)
          × IsMemberNow ids
              (by 5)
              80
              2
              grouped.working
              (add_group_member ids global_rules (by 5) 80 2 grouped).1.committed)
        ⊎ ((true ≡ false)
            × (has_member 1 80 2 grouped.working ≡ true)
            × ((add_group_member ids global_rules (by 5) 80 2 grouped).1 ≡ grouped)))
add_group_member-IsMemberNow_example =
    add_group_member-IsMemberNow ids (by 5) 80 2 grouped
      (add_group_member ids global_rules (by 5) 80 2 grouped).1 true joined_group

abbrev clerk_rights : List Text × List Text
clerk_rights = (codes "CLERK" ∷ [], read_key ∷ [])

let_through : authorize_user 1 2 read_key noon (tables []) ≡ ok clerk_rights
unfolding authorize_user group_aware_permissions is_canonical_permission sorted_set
    validate_permissions
let_through = refl

authorize_user-IsAuthorizedUser_example :
    IsAuthorizedUser 1 2 read_key noon (tables []) clerk_rights
authorize_user-IsAuthorizedUser_example =
    authorize_user-IsAuthorizedUser 1 2 read_key noon (tables []) clerk_rights let_through

abbrev rejection : Answer
rejection = Answer.known (record {
  row = record (asked_for 70 PrivilegedStatus.rejected (some 6)) {
    decided_at = some noon;
    decision_reason = none;
  };
  role_key = codes "tenant.admin";
})

turned_down :
    reject ids (λ db. db) (by 6) 70 none waiting
    ≡ (ok rejection, (reject ids (λ db. db) (by 6) 70 none waiting).1)
unfolding reject open_for_decision settle_request conclude_decision request_of get_role ◌>>=◌ lift
    reads writes draw commit pure wait_for_lock audit uuid_text hex_run
turned_down = refl

reject-IsRejection_example :
    IsRejection
      (by 6)
      none
      70
      waiting.working
      (reject ids (λ db. db) (by 6) 70 none waiting).1.committed
reject-IsRejection_example =
    reject-IsRejection ids (λ db. db) (by 6) 70 none waiting
      (reject ids (λ db. db) (by 6) 70 none waiting).1 rejection turned_down
