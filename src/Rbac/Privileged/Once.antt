-- ===== src/Rbac/Privileged/Once.antt =====
-- What any number of steps of the ledger leaves true of its rows.
use mathlib.Core.Path.{◌≡◌, refl, ◌∙◌, sym, ap}
use verigence_security.Common.{
  ℕ, Bool, true, false, ◌&&◌, ◌||◌, not, List, [], ◌∷◌, Option, some, Text, ◌==◌, ◌⊎◌, inl, inr,
  find_first, update_where, any, Among, Bool-cases, option_or, arith, if◌then◌else◌, every,
  and_true, or_false, or_false_both, and_true_both, true-false,
}
use verigence_security.Core.Types.{Uuid}
use verigence_security.Db.Schema.{PrivilegedRequestRow, PrivilegedStatus, privileged_pending}
use verigence_security.Rbac.Rows.{Change}
use verigence_security.Rbac.Gate.{is_pending_for, refuses_request}
use verigence_security.Rbac.Privileged.{is_request, decided}
use verigence_security.Rbac.Privileged.Ledger.{Ledger, is_verdict, LedgerStep, LedgerReach}

-- The primary key and the index on pending requests hold of the rows.
unfoldable pub FitsIndexes : Ledger → Type 0
FitsIndexes [] = Unit
FitsIndexes (r ∷ rows) = (refuses_request r rows ≡ false) × FitsIndexes rows

has_id : Uuid → PrivilegedRequestRow → Bool
has_id id x = x.request_id == id

update_where-Among :
    {A : Type 0} (p : A → Bool) (f : A → A) (xs : List A) (a : A)
    → Among a xs
    → p a ≡ false
    → Among a (update_where p f xs)
update_where-Among p f [] a m h = elim m [ ]
update_where-Among p f (x ∷ xs) a (Among.here e) h =
    Among.here (e ∙ sym (ap (λ b. if b then f x else x) (sym (ap p e) ∙ h)))
update_where-Among p f (x ∷ xs) a (Among.there m) h = Among.there (update_where-Among p f xs a m h)

any-Among :
    {A : Type 0} (p : A → Bool) (xs : List A) (a : A) → any p xs ≡ false → Among a xs → p a ≡ false
any-Among p [] a h m = elim m [ ]
any-Among p (x ∷ xs) a h (Among.here e) = ap p e ∙ (or_false (p x) (any p xs) h).0
any-Among p (x ∷ xs) a h (Among.there m) = any-Among p xs a (or_false (p x) (any p xs) h).1 m

-- The request that a decision finds is the only one with its identifier.
only_request :
    (t id : Uuid) (rows : Ledger) (r x : PrivilegedRequestRow)
    → FitsIndexes rows
    → find_first (is_request t id) rows ≡ some r
    → Among x rows
    → is_request t id x ≡ true
    → x ≡ r
unfolding FitsIndexes
only_request t id [] r x fits h m e = elim m [ ]
only_request t id (y ∷ rows) r x fits h (Among.here same) e =
    same ∙ found (is_request t id y) (ap (is_request t id) (sym same) ∙ e) h
  where
    found :
        (b : Bool)
        → b ≡ true
        → (if b then some y else find_first (is_request t id) rows) ≡ some r
        → y ≡ r
    found b q k = ground arith
only_request t id (y ∷ rows) r x fits h (Among.there m) e = elim (Bool-cases (is_request t id y)) [
  | inl q ↦
      let apart =
        any-Among (λ z. z.request_id == y.request_id) rows x
          (or_false (any (λ z. z.request_id == y.request_id) rows)
            (privileged_pending y.status
              && any (is_pending_for y.tenant_id y.subject_user_id y.role_id) rows)
            fits.0).0
          m in
      absurd (clash t id x.request_id y.request_id x.tenant_id y.tenant_id e q apart)
  | inr q ↦ only_request t id rows r x fits.1 (rest (is_request t id y) q h) m e
]
  where
    clash :
        (t id i j t1 t2 : ℕ)
        → (t1 == t && i == id) ≡ true
        → (t2 == t && j == id) ≡ true
        → (i == j) ≡ false
        → ⊥
    clash t id i j t1 t2 h1 h2 h3 = ground arith

    rest :
        (b : Bool)
        → b ≡ false
        → (if b then some y else find_first (is_request t id) rows) ≡ some r
        → find_first (is_request t id) rows ≡ some r
    rest b q k = ground arith

-- What is not pending stays among the rows.
decided_stays :
    {a b : Ledger} (x : PrivilegedRequestRow)
    → LedgerStep a b
    → FitsIndexes a
    → Among x a
    → privileged_pending x.status ≡ false
    → Among x b
decided_stays x (LedgerStep.opens r rows _ _ _) fits m h = Among.there m
decided_stays x (LedgerStep.decides c status reason id r rows _ found p _ _) fits m h =
    update_where-Among (is_request c.tenant_id id) (decided c status reason) rows x m
      (elim (Bool-cases (is_request c.tenant_id id x)) [
        | inl q ↦
            let same = only_request c.tenant_id id rows r x fits found m q in
            absurd (
              true-false (privileged_pending r.status) p
                (ap (λ (y : PrivilegedRequestRow). privileged_pending y.status) (sym same) ∙ h))
        | inr q ↦ q
      ])

module _ (p : PrivilegedRequestRow → Bool) (f : PrivilegedRequestRow → PrivilegedRequestRow) where
  -- An update that makes no row pass a test.
  any-update_where :
      (q : PrivilegedRequestRow → Bool)
      → ((x : PrivilegedRequestRow) → q x ≡ false → q (f x) ≡ false)
      → (xs : Ledger) → any q xs ≡ false
      → any q (update_where p f xs) ≡ false
  any-update_where q k [] h = refl
  any-update_where q k (x ∷ xs) h =
      let (h0, h1) = or_false (q x) (any q xs) h in
      or_false_both (q (if p x then f x else x)) (any q (update_where p f xs)) (chosen h0 (p x))
        (any-update_where q k xs h1)
    where
      chosen : q x ≡ false → (b : Bool) → q (if b then f x else x) ≡ false
      chosen h0 true = k x h0
      chosen h0 false = h0

verdict-not_pending :
    (status : PrivilegedStatus) → is_verdict status ≡ true → privileged_pending status ≡ false
verdict-not_pending PrivilegedStatus.pending h = cc
verdict-not_pending PrivilegedStatus.approved h = refl
verdict-not_pending PrivilegedStatus.rejected h = refl
verdict-not_pending PrivilegedStatus.cancelled h = refl
verdict-not_pending PrivilegedStatus.expired h = refl

module _ (c : Change) (status : PrivilegedStatus) (reason : Option Text)
    (verdict : is_verdict status ≡ true) (p : PrivilegedRequestRow → Bool) where
  refuses_request-decided :
      (x : PrivilegedRequestRow) (xs : Ledger)
      → refuses_request x xs ≡ false
      → refuses_request x (update_where p (decided c status reason) xs) ≡ false
  refuses_request-decided x xs h =
      let f = decided c status reason in
      let waiting = is_pending_for x.tenant_id x.subject_user_id x.role_id in
      let (free, single) =
        or_false (any (λ z. z.request_id == x.request_id) xs)
          (privileged_pending x.status && any waiting xs) h in
      or_false_both (any (λ z. z.request_id == x.request_id) (update_where p f xs))
        (privileged_pending x.status && any waiting (update_where p f xs))
        (any-update_where p f (λ z. z.request_id == x.request_id) (λ z e. e) xs free)
        (after (privileged_pending x.status) (any waiting xs) (any waiting (update_where p f xs))
          single
          (any-update_where p f waiting
            (λ z e.
              closed (z.tenant_id == x.tenant_id) (z.subject_user_id == x.subject_user_id)
                (z.role_id == x.role_id) (privileged_pending status)
                (verdict-not_pending status verdict))
            xs))
    where
      after : (d e e' : Bool) → (d && e) ≡ false → (e ≡ false → e' ≡ false) → (d && e') ≡ false
      after false e e' k f = refl
      after true e e' k f = f k

      closed : (a b e d : Bool) → d ≡ false → (a && (b && (e && d))) ≡ false
      closed a b e d k = ground arith

  refuses_request-head :
      (x : PrivilegedRequestRow) (xs : Ledger)
      → refuses_request x xs ≡ false
      → refuses_request (decided c status reason x) xs ≡ false
  refuses_request-head x xs h =
      closed (any (λ z. z.request_id == x.request_id) xs) (privileged_pending status)
        (privileged_pending x.status)
        (any (is_pending_for x.tenant_id x.subject_user_id x.role_id) xs)
        (verdict-not_pending status verdict) h
    where
      closed : (a b d e : Bool) → b ≡ false → (a || (d && e)) ≡ false → (a || (b && e)) ≡ false
      closed a b d e k q = ground arith

  update_where-FitsIndexes :
      (xs : Ledger) → FitsIndexes xs → FitsIndexes (update_where p (decided c status reason) xs)
  unfolding FitsIndexes
  update_where-FitsIndexes [] h = tt
  update_where-FitsIndexes (x ∷ xs) h = (chosen (p x), update_where-FitsIndexes xs h.1)
    where
      chosen :
          (b : Bool)
          → refuses_request
              (if b then decided c status reason x else x)
              (update_where p (decided c status reason) xs)
            ≡ false
      chosen true = refuses_request-head x _ (refuses_request-decided x xs h.0)
      chosen false = refuses_request-decided x xs h.0

step-FitsIndexes : {a b : Ledger} → LedgerStep a b → FitsIndexes a → FitsIndexes b
unfolding FitsIndexes
step-FitsIndexes (LedgerStep.opens r rows _ _ free) h = (free, h)
step-FitsIndexes (LedgerStep.decides c status reason id r rows v _ _ _ _) h =
    update_where-FitsIndexes c status reason v (is_request c.tenant_id id) rows h

pub reach-FitsIndexes : {a b : Ledger} → LedgerReach a b → FitsIndexes a → FitsIndexes b
reach-FitsIndexes (LedgerReach.rests rows) h = h
reach-FitsIndexes (LedgerReach.moves r s) h = step-FitsIndexes s (reach-FitsIndexes r h)

-- A request that is decided stays as it was decided, whatever steps follow.
pub decided_for_good :
    {a b : Ledger} (x : PrivilegedRequestRow)
    → LedgerReach a b
    → FitsIndexes a
    → Among x a
    → privileged_pending x.status ≡ false
    → Among x b
decided_for_good x (LedgerReach.rests rows) fits m h = m
decided_for_good x (LedgerReach.moves r s) fits m h =
    decided_stays x s (reach-FitsIndexes r fits) (decided_for_good x r fits m h) h

-- A verdict names who gave it: neither of the users it is about.
abbrev pub names_other : PrivilegedRequestRow → Bool
names_other r =
    option_or false (λ a. not (r.requested_by_user_id == a) && not (r.subject_user_id == a))
      r.approved_by_user_id

abbrev pub is_maker_checked : PrivilegedRequestRow → Bool
is_maker_checked r = not (is_verdict r.status) || names_other r

update_where-maker_checked :
    (c : Change) (status : PrivilegedStatus) (reason : Option Text)
    (p : PrivilegedRequestRow → Bool) (xs : Ledger)
    → ((x : PrivilegedRequestRow)
        → Among x xs
        → p x ≡ true
        → ((x.requested_by_user_id == c.actor_user_id) ≡ false)
          × ((x.subject_user_id == c.actor_user_id) ≡ false))
    → every is_maker_checked xs ≡ true
    → every is_maker_checked (update_where p (decided c status reason) xs) ≡ true
update_where-maker_checked c status reason p [] k h = refl
update_where-maker_checked c status reason p (x ∷ xs) k h =
    let (h0, h1) = and_true (is_maker_checked x) (every is_maker_checked xs) h in
    and_true_both (is_maker_checked (if p x then decided c status reason x else x))
      (every is_maker_checked (update_where p (decided c status reason) xs))
      (chosen (Bool-cases (p x)) h0)
      (update_where-maker_checked c status reason p xs (λ y m. k y (Among.there m)) h1)
  where
    marked : (v b d : Bool) → b ≡ false → d ≡ false → (v || (not b && not d)) ≡ true
    marked v b d e1 e2 = ground arith

    chosen :
        (p x ≡ true) ⊎ (p x ≡ false)
        → is_maker_checked x ≡ true
        → is_maker_checked (if p x then decided c status reason x else x) ≡ true
    chosen (inl q) h0 = rw q (marked _ _ _ (k x (Among.here refl) q).0 (k x (Among.here refl) q).1)
    chosen (inr q) h0 = rw q h0

step-maker_checked :
    {a b : Ledger}
    → LedgerStep a b
    → FitsIndexes a
    → every is_maker_checked a ≡ true
    → every is_maker_checked b ≡ true
step-maker_checked (LedgerStep.opens r rows pend _ _) fits h =
    both (not (is_verdict r.status)) (every is_maker_checked rows) (names_other r)
      (ap (λ (t : PrivilegedStatus). not (is_verdict t)) pend) h
  where
    both : (b d e : Bool) → b ≡ true → d ≡ true → ((b || e) && d) ≡ true
    both b d e e1 e2 = ground arith
step-maker_checked (LedgerStep.decides c status reason id r rows _ found _ n1 n2) fits h =
    update_where-maker_checked c status reason (is_request c.tenant_id id) rows
      (λ x m q.
        let same = only_request c.tenant_id id rows r x fits found m q in
        (
          ap (λ (y : PrivilegedRequestRow). y.requested_by_user_id == c.actor_user_id) same ∙ n1,
          ap (λ (y : PrivilegedRequestRow). y.subject_user_id == c.actor_user_id) same ∙ n2,
        ))
      h

pub reach-maker_checked :
    {a b : Ledger}
    → LedgerReach a b
    → FitsIndexes a
    → every is_maker_checked a ≡ true
    → every is_maker_checked b ≡ true
reach-maker_checked (LedgerReach.rests rows) fits h = h
reach-maker_checked (LedgerReach.moves r s) fits h =
    step-maker_checked s (reach-FitsIndexes r fits) (reach-maker_checked r fits h)
