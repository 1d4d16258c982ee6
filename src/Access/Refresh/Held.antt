-- ===== src/Access/Refresh/Held.antt =====
-- What `hold` has found when it hands on the session's row and its device.
use mathlib.Core.Path.{◌≡◌, ◌∙◌, sym, ap, subst}
use native.Mathlib.Omega.{arith}
use verigence_security.Common.{◌<◌, true, false, leb, inl, inr, Bool-cases, Option, none, some}
use verigence_security.Core.Types.{Uuid, Instant}
use verigence_security.Core.Errors.{auth_token_expired}
use verigence_security.Core.Result.{Result, ok, deny_if, ok-injective, ok-ne-err, deny_if-eq-ok}
use verigence_security.Db.Schema.{Db, SessionRow, session_active}
use verigence_security.Db.Transaction.{Session, ◌>>=◌, ◌>>◌, pure, lift, reads, wait_for_lock}
use verigence_security.Db.Steps.{run_ok, run_ok_then, pure_run, lift-eq-ok}
use verigence_security.Runtime.{Runtime, UserRepository}
use verigence_security.Repository.Context.{lock_active_device}
use verigence_security.Repository.Sessions.{is_some_id, user_session}
use verigence_security.Access.Checks.Sound.{HasDevice, lock_active_device_sound}
use verigence_security.Access.Refresh.Request.{RefreshRequest}
use verigence_security.Access.Refresh.{
  Trace, Evidence, on, note, require_live, device_of, same_device, current, hold,
}

module _ {A : Type 0} where
  -- A query of the traced call.
  pub on-reads-eq-ok :
      (f : Db → Result A) (t : Trace) {a : A} {t' : Trace}
      → on (reads f) t ≡ (ok a, t')
      → (f t.session.working ≡ ok a) × (t'.session ≡ t.session)
  unfolding on reads
  on-reads-eq-ok f t h =
      (ap (λ (o : Result A × Trace). o.0) h, ap (λ (o : Result A × Trace). o.1.session) (sym h))

pub note_session :
    (f : Evidence → Evidence) (t : Trace) {u : Unit {0}} {t' : Trace}
    → note f t ≡ (ok u, t')
    → t'.session ≡ t.session
unfolding note
note_session f t h = ap (λ (o : Result (Unit {0}) × Trace). o.1.session) (sym h)

pub wait_session :
    (others : Db → Db) (t : Trace) {u : Unit {0}} {t' : Trace}
    → on (wait_for_lock others) t ≡ (ok u, t')
    → t'.session.working ≡ others t.session.working
unfolding on wait_for_lock
wait_session others t h = ap (λ (o : Result (Unit {0}) × Trace). o.1.session.working) (sym h)

module _ (rt : Runtime) (repo : UserRepository) (session_others : Db → Db) (req : RefreshRequest)
    (now : Instant) where
  -- The tables when the device's lock is held, and when the session's is.
  abbrev pub at_device : Session → Db
  at_device s = rt.others s.working

  abbrev pub at_session : Session → Db
  at_session s = session_others (rt.others s.working)

  -- The session's row behind the locks: ACTIVE, for the locked device, and not at its end.
  pub record IsHeld (s : Session) (device_id : Uuid) (row : SessionRow) : Type 0 where
    pub device : HasDevice req.user_id req.tenant_id device_id (at_device s)
    pub found :
        user_session req.access_session_id req.tenant_id req.user_id (at_session s) ≡ some row
    pub is_active : session_active row.status ≡ true
    pub for_device : row.device_id ≡ some device_id
    pub unexpired : now < row.expires_at

  require_live_sound :
      (o : Option SessionRow) (r : SessionRow)
      → require_live o ≡ ok r
      → (o ≡ some r) × (session_active r.status ≡ true)
  require_live_sound none r h = absurd (ok-ne-err (sym h))
  require_live_sound (some x) r h = ground arith

  is_some_id_sound : (d : Uuid) (o : Option Uuid) → is_some_id d o ≡ true → o ≡ some d
  is_some_id_sound d none h = cc
  is_some_id_sound d (some x) h = let e : x ≡ d = ground arith in ap some e

  same_device_sound :
      (d : Uuid) (x r : SessionRow) → same_device d x ≡ ok r → (x ≡ r) × (r.device_id ≡ some d)
  same_device_sound d x r h = elim (Bool-cases (is_some_id d x.device_id)) [
    | inr f ↦ absurd (ok-ne-err (sym (rw f at h)))
    | inl t ↦
        let e : x ≡ r = ok-injective (rw t at h) in
        (e, subst (λ (y : SessionRow). y.device_id ≡ some d) e (is_some_id_sound d x.device_id t))
  ]

  pub hold_finds :
      (t t' : Trace) (d : Uuid) (row : SessionRow)
      → hold rt repo session_others req now t ≡ (ok (d, row), t')
      → IsHeld t.session d row
  unfolding hold
  hold_finds t t' d row h =
      let (x, t1, q1, h1) = run_ok (on (reads (current rt repo session_others req now))) _ t h in
      let (_, e1) = on-reads-eq-ok (current rt repo session_others req now) t q1 in
      let (_, t2, q2, h2) =
        run_ok (note (λ e. record e { access_session_id = some req.access_session_id })) _ t1 h1 in
      let e2 =
        note_session (λ e. record e { access_session_id = some req.access_session_id }) t1 q2 in
      let (d0, t3, q3, h3) = run_ok (lift (device_of x.device_id)) _ t2 h2 in
      let (_, e3) = lift-eq-ok (device_of x.device_id) t2 q3 in
      let (_, t4, q4, h4) = run_ok (on (wait_for_lock rt.others)) _ t3 h3 in
      let e4 = wait_session rt.others t3 q4 in
      let (dev, t5, q5, h5) =
        run_ok (on (reads (lock_active_device req.user_id req.tenant_id d0))) _ t4 h4 in
      let (ed, e5) = on-reads-eq-ok (lock_active_device req.user_id req.tenant_id d0) t4 q5 in
      let (_, t6, q6, h6) = run_ok (on (wait_for_lock session_others)) _ t5 h5 in
      let e6 = wait_session session_others t5 q6 in
      let (live, t7, q7, h7) =
        run_ok (on (reads (current rt repo session_others req now))) _ t6 h6 in
      let (el, e7) = on-reads-eq-ok (current rt repo session_others req now) t6 q7 in
      let (r, t8, q8, h8) = run_ok (lift (same_device d0 live)) _ t7 h7 in
      let (er, e8) = lift-eq-ok (same_device d0 live) t7 q8 in
      let (_, t9, q9, h9) =
        run_ok (lift (deny_if (leb r.expires_at now) auth_token_expired)) _ t8 h8 in
      let (ex, e9) = lift-eq-ok (deny_if (leb r.expires_at now) auth_token_expired) t8 q9 in
      let w3 : t3.session.working ≡ t.session.working =
        ap (λ (u : Session). u.working) (ap (λ (u : Trace). u.session) e3 ∙ (e2 ∙ e1)) in
      let w4 : t4.session.working ≡ at_device t.session = e4 ∙ ap rt.others w3 in
      let w6 : t6.session.working ≡ at_session t.session =
        e6 ∙ ap session_others (ap (λ (u : Session). u.working) e5 ∙ w4) in
      let (same, for_d) = same_device_sound d0 live r er in
      let (found, active) =
        require_live_sound
          (user_session req.access_session_id req.tenant_id req.user_id t6.session.working) live
          el in
      answers d0 r d row
        (ap (λ (o : Result (Uuid × SessionRow) × Trace). o.0) (sym (pure_run (d0, r) t9) ∙ h9))
        (record {
          device =
              subst (HasDevice req.user_id req.tenant_id d0) w4
                (lock_active_device_sound req.user_id req.tenant_id d0 t4.session.working dev ed);
          found =
              ap (user_session req.access_session_id req.tenant_id req.user_id) (sym w6)
              ∙ (found ∙ ap some same);
          is_active = subst (λ (y : SessionRow). session_active y.status ≡ true) same active;
          for_device = for_d;
          unexpired =
              later r.expires_at (deny_if-eq-ok (leb r.expires_at now) auth_token_expired ex);
        })
    where
      answers :
          (d0 : Uuid) (r : SessionRow) (d : Uuid) (row : SessionRow)
          → ◌≡◌ {A = Result (Uuid × SessionRow)} (ok (d0, r)) (ok (d, row))
          → IsHeld t.session d0 r
          → IsHeld t.session d row
      answers d0 r d row q k =
          subst (λ (p : Uuid × SessionRow). IsHeld t.session p.0 p.1) (ok-injective q) k

      later : (x : Instant) → leb x now ≡ false → now < x
      later x h = ground arith

  -- The tables that the call goes on with.
  pub hold_session :
      (t t' : Trace) {p : Uuid × SessionRow}
      → hold rt repo session_others req now t ≡ (ok p, t')
      → t'.session.working ≡ at_session t.session
  unfolding hold
  hold_session t t' h =
      let find = current rt repo session_others req now in
      let named = λ (e : Evidence). record e { access_session_id = some req.access_session_id } in
      run_ok_then (on (reads find)) _ t h λ x t1 q1 h1.
        run_ok_then (note named) _ t1 h1 λ _ t2 q2 h2.
          run_ok_then (lift (device_of x.device_id)) _ t2 h2 λ d t3 q3 h3.
            run_ok_then (on (wait_for_lock rt.others)) _ t3 h3 λ _ t4 q4 h4.
              run_ok_then (on (reads (lock_active_device req.user_id req.tenant_id d))) _ t4 h4
                λ dev t5 q5 h5.
                  let start : t3.session ≡ t.session =
                    ap (λ (y : Trace). y.session) (lift-eq-ok (device_of x.device_id) t2 q3).1
                    ∙ note_session named t1 q2
                    ∙ (on-reads-eq-ok find t q1).1 in
                  let held : t5.session.working ≡ at_device t.session =
                    ap (λ (u : Session). u.working)
                      (on-reads-eq-ok (lock_active_device req.user_id req.tenant_id d) t4 q5).1
                    ∙ wait_session rt.others t3 q4
                    ∙ ap (λ (u : Session). rt.others u.working) start in
                  recheck_row d t5 t' h5 ∙ ap session_others held
    where
      recheck_row :
          (d : Uuid) (t t' : Trace) {p : Uuid × SessionRow}
          → (do
            on (wait_for_lock session_others)
            live ← on (reads (current rt repo session_others req now))
            row ← lift (same_device d live)
            lift (deny_if (leb row.expires_at now) auth_token_expired)
            pure (d, row))
              t
            ≡ (ok p, t')
          → t'.session.working ≡ session_others t.session.working
      recheck_row d t t' h =
          let find = current rt repo session_others req now in
          run_ok_then (on (wait_for_lock session_others)) _ t h λ _ t1 q1 h1.
            run_ok_then (on (reads find)) _ t1 h1 λ live t2 q2 h2.
              run_ok_then (lift (same_device d live)) _ t2 h2 λ row t3 q3 h3.
                let check = deny_if (leb row.expires_at now) auth_token_expired in
                run_ok_then (lift check) _ t3 h3 λ _ t4 q4 h4.
                  ap (λ (o : Result (Uuid × SessionRow) × Trace). o.1.session.working)
                    (sym h4 ∙ pure_run (d, row) t4)
                  ∙ ap (λ (y : Trace). y.session.working) (lift-eq-ok check t3 q4).1
                  ∙ ap (λ (y : Trace). y.session.working) (lift-eq-ok (same_device d live) t2 q3).1
                  ∙ ap (λ (u : Session). u.working) (on-reads-eq-ok find t1 q2).1
                  ∙ wait_session session_others t q1
