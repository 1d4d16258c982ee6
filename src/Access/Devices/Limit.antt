-- ===== src/Access/Devices/Limit.antt =====
-- What an approval keeps: the tenant's limit of active devices, and the tables when it does not succeed.
use mathlib.Core.Path.{◌≡◌, refl, ◌∙◌, sym, ap, subst}
use mathlib.Core.Logic.{inl, inr}
use mathlib.Core.Option.{Option, none, some}
use native.Mathlib.Omega.{arith}
use verigence_security.Common.{
  ℕ, ◌+◌, ◌≤◌, Bool, true, false, leb, ◌==◌, any, find_first, count_where, update_where, Bool-cases,
}
use verigence_security.Core.Errors.{device_limit_reached}
use verigence_security.Core.Result.{ok, deny_if, deny_if-eq-ok, ok-injective}
use verigence_security.Db.Schema.{Db, DeviceRow, PolicyRow}
use verigence_security.Db.Transaction.{
  Session, ◌>>=◌, reads, writes, lift, pure, commit, rollback, wait_for_lock,
}
use verigence_security.Db.Steps.{
  Outcome, run_ok, reads-eq-ok, lift-eq-ok, writes-eq-ok, or_rollback-eq-ok,
}
use verigence_security.Repository.Directory.{get_tenant_policy}
use verigence_security.Repository.Context.{is_device}
use verigence_security.Repository.Devices.{
  Approval, lock_membership_for_device_limit, pending_device_for_update, is_active_device_of,
  is_pending_device, is_pending_request, activated, count_active_devices, activate_pending_device,
}
use verigence_security.Repository.Rows.{
  count_where_mono, count_where-update_where, find_first-update_where,
}
use verigence_security.Access.Checks.Sound.{HasDevice}
use verigence_security.Access.Devices.{
  require_row, activate, settle, decide_pending, approve, approve_pending_device,
}

module _ (others : Db → Db) (a : Approval) where
  -- `device_id` is the primary key of the devices.
  abbrev pub IsKeyed : Db → Type 0
  IsKeyed db = count_where (λ r. r.device_id == a.device_id) db.devices ≤ 1

  pending_row_keyed :
      (x : DeviceRow)
      → is_pending_device a.tenant_id a.user_id a.device_id x ≡ true
      → (x.device_id == a.device_id) ≡ true
  pending_row_keyed x h = ground arith

  activation_counts :
      (db : Db)
      → IsKeyed db
      → count_active_devices a.tenant_id a.user_id (activate_pending_device a db).1
        ≤ count_active_devices a.tenant_id a.user_id db + 1
  unfolding activate_pending_device count_active_devices
  activation_counts db k =
      let p = is_pending_device a.tenant_id a.user_id a.device_id in
      let c = count_where_mono p (λ r. r.device_id == a.device_id) db.devices pending_row_keyed in
      let u =
        count_where-update_where (is_active_device_of a.tenant_id a.user_id) p (activated a)
          db.devices in
      elim (Bool-cases (any (is_pending_request a) db.enrollments)) [
        | inr f ↦ (ground arith)
        | inl t ↦ elim (Bool-cases (any p db.devices)) [
          | inr g ↦ (ground arith)
          | inl d ↦ (ground arith)
        ]
      ]

  settle_done :
      (done : Bool) (s s' : Session)
      → settle others a done s ≡ (ok true, s')
      → (done ≡ true) × (s'.committed ≡ s.working)
  unfolding commit rollback pure ◌>>=◌
  settle_done true s s' h = (refl, ap (λ (o : Outcome Bool). o.1.committed) (sym h))
  settle_done false s s' h = absurd (false_is_not (ok-injective (ap (λ (o : Outcome Bool). o.0) h)))
    where
      false_is_not : false ≡ true → ⊥
      false_is_not q = cc

  -- What a decision that approves has found and done.
  record Approved (policy : PolicyRow) (before after : Db) : Type 0 where
    below :
        count_active_devices a.tenant_id a.user_id before + 1 ≤ policy.max_active_devices_per_user
    done : (activate_pending_device a before).0 ≡ true
    becomes : after ≡ (activate_pending_device a before).1

  decide_approves :
      (policy : PolicyRow) (o : Option DeviceRow) (s s' : Session)
      → decide_pending others a policy o s ≡ (ok true, s')
      → Approved policy s.working s'.committed
  unfolding decide_pending
  decide_approves policy none s s' h = absurd (false_is_not (settle_done false s s' h).0)
    where
      false_is_not : false ≡ true → ⊥
      false_is_not q = cc
  decide_approves policy (some d) s s' h =
      let (n, s1, q1, h1) =
        run_ok (reads (λ db. ok (count_active_devices a.tenant_id a.user_id db))) _ s h in
      let (_, s2, q2, h2) =
        run_ok (lift (deny_if (leb policy.max_active_devices_per_user n) device_limit_reached)) _ s1
          h1 in
      let (done, s3, q3, h3) = run_ok (writes (activate others a)) (settle others a) s2 h2 in
      let (en, e1) = reads-eq-ok (λ db. ok (count_active_devices a.tenant_id a.user_id db)) s q1 in
      let (ed, e2) =
        lift-eq-ok (deny_if (leb policy.max_active_devices_per_user n) device_limit_reached) s1
          q2 in
      let (ew, e3, _) = writes-eq-ok (activate others a) s2 q3 in
      let (is_done, ec) = settle_done done s3 s' h3 in
      let same : s2.working ≡ s.working = ap (λ (t : Session). t.working) (e2 ∙ e1) in
      record {
        below =
            limit_left policy n
              (deny_if-eq-ok (leb policy.max_active_devices_per_user n) device_limit_reached ed)
              (ok-injective en);
        done = ap (λ db. (activate_pending_device a db).0) (sym same) ∙ (ok-injective ew ∙ is_done);
        becomes = ec ∙ (e3 ∙ ap (λ db. (activate_pending_device a db).1) same);
      }
    where
      limit_left :
          (policy : PolicyRow) (n : ℕ)
          → leb policy.max_active_devices_per_user n ≡ false
          → count_active_devices a.tenant_id a.user_id s.working ≡ n
          → count_active_devices a.tenant_id a.user_id s.working + 1
            ≤ policy.max_active_devices_per_user
      limit_left policy n h e = ground arith

  activated_devices :
      (db : Db)
      → any (is_pending_request a) db.enrollments ≡ true
      → any (is_pending_device a.tenant_id a.user_id a.device_id) db.devices ≡ true
      → (activate_pending_device a db).1.devices
        ≡ update_where
            (is_pending_device a.tenant_id a.user_id a.device_id)
            (activated a)
            db.devices
  unfolding activate_pending_device
  activated_devices db t d = ground arith

  usable_after :
      (db : Db)
      → IsKeyed db
      → (activate_pending_device a db).0 ≡ true
      → HasDevice a.user_id a.tenant_id a.device_id (activate_pending_device a db).1
  unfolding activate_pending_device
  usable_after db k e =
      let p = is_pending_device a.tenant_id a.user_id a.device_id in
      let is_it = is_device a.user_id a.tenant_id a.device_id in
      elim (Bool-cases (any (is_pending_request a) db.enrollments)) [
        | inr f ↦ absurd (ground arith)
        | inl t ↦ elim (Bool-cases (any p db.devices)) [
          | inr g ↦ absurd (ground arith)
          | inl d ↦
              let one =
                count_where_mono is_it (λ r. r.device_id == a.device_id) db.devices device_keyed in
              let (x, _, q) =
                find_first-update_where is_it p (activated a) db.devices pending_is_it (λ x. refl)
                  (bounded one k) d in
              record {
                device = activated a x;
                found = ap (find_first is_it) (activated_devices db t d) ∙ q;
                is_active = refl;
              }
        ]
      ]
    where
      device_keyed :
          (x : DeviceRow)
          → is_device a.user_id a.tenant_id a.device_id x ≡ true
          → (x.device_id == a.device_id) ≡ true
      device_keyed x h = ground arith

      pending_is_it :
          (x : DeviceRow)
          → is_pending_device a.tenant_id a.user_id a.device_id x ≡ true
          → is_device a.user_id a.tenant_id a.device_id x ≡ true
      pending_is_it x h = ground arith

      bounded : {m n : ℕ} → m ≤ n → n ≤ 1 → m ≤ 1
      bounded h1 h2 = omega arith

  -- An approval that answers true was within the limit of the tenant's ACTIVE policy and leaves it kept:
  -- the user's ACTIVE devices in the tenant, with the new one, are as committed no more than the limit,
  -- and the device is one that the checks of an access accept. Device ids are unique, and `others` is
  -- what other transactions commit while the call waits for the membership's row lock.
  pub approve_pending_device_limit :
      (s s' : Session)
      → IsKeyed (others s.working)
      → approve_pending_device others a s ≡ (ok true, s')
      → (policy : PolicyRow) × (get_tenant_policy a.tenant_id (others s.working) ≡ ok policy)
        × (count_active_devices a.tenant_id a.user_id s'.committed
            ≤ policy.max_active_devices_per_user)
        × HasDevice a.user_id a.tenant_id a.device_id s'.committed
  unfolding approve_pending_device approve wait_for_lock
  approve_pending_device_limit s s' k h =
      let waited : Session = record s {
        committed = others s.committed;
        working = others s.working;
      } in
      let (_, s0, q0, h0) =
        run_ok (wait_for_lock others) _ s (or_rollback-eq-ok (approve others a) s h) in
      let e0 : s0 ≡ waited = ap (λ (o : Outcome (Unit {0})). o.1) (sym q0) in
      let (_, s1, q1, h1) =
        run_ok
          (reads (λ db. require_row (lock_membership_for_device_limit a.tenant_id a.user_id db))) _
          s0 h0 in
      let (_, e1) =
        reads-eq-ok (λ db. require_row (lock_membership_for_device_limit a.tenant_id a.user_id db))
          s0 q1 in
      let (policy, s2, q2, h2) = run_ok (reads (get_tenant_policy a.tenant_id)) _ s1 h1 in
      let (ep, e2) = reads-eq-ok (get_tenant_policy a.tenant_id) s1 q2 in
      let (o, s3, q3, h3) =
        run_ok (reads (λ db. ok (pending_device_for_update a.tenant_id a.user_id a.device_id db)))
          (decide_pending others a policy) s2 h2 in
      let (_, e3) =
        reads-eq-ok (λ db. ok (pending_device_for_update a.tenant_id a.user_id a.device_id db)) s2
          q3 in
      let same : s3.working ≡ others s.working =
        ap (λ (t : Session). t.working) (e3 ∙ (e2 ∙ (e1 ∙ e0))) in
      let seen : s1.working ≡ others s.working = ap (λ (t : Session). t.working) (e1 ∙ e0) in
      let d =
        subst (λ db. Approved policy db s'.committed) same (decide_approves policy o s3 s' h3) in
      (
        policy,
        ap (get_tenant_policy a.tenant_id) (sym seen) ∙ ep,
        subst
            (λ db.
              count_active_devices a.tenant_id a.user_id db ≤ policy.max_active_devices_per_user)
            (sym d.becomes) (bounded (activation_counts (others s.working) k) d.below),
        subst (HasDevice a.user_id a.tenant_id a.device_id) (sym d.becomes)
            (usable_after (others s.working) k d.done),
      )
    where
      bounded : {m n l : ℕ} → m ≤ n → n ≤ l → m ≤ l
      bounded h1 h2 = omega arith
