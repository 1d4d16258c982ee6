-- ===== src/Rbac/Rules/Versions.antt =====
-- What the gate's bump does to the version of each user.
use mathlib.Core.Path.{◌≡◌, refl, ◌∙◌, sym, ap}
use verigence_security.Common.{
  ℕ, suc, ◌<◌, Bool, true, false, ◌&&◌, ◌||◌, List, [], ◌∷◌, Option, none, some, ltb, ◌==◌, any,
  find_first, update_where, if◌then◌else◌, All, Bool-cases, ◌⊎◌, inl, inr, arith, ltb→lt, ==_refl,
  ==_iff, or_false, or_false_both, and_true_both,
}
use verigence_security.Core.Types.{Uuid, Instant}
use verigence_security.Db.Schema.{Db, AuthorizationStateRow}
use verigence_security.Runtime.{authorization_version_of}
use verigence_security.Rbac.Rules.{
  insert_id, sorted_ids, bump_each, bump_versions, upsert_version, global_rules, is_state_of,
  bumped_state,
}

-- Every number of the list is above those before it.
IsAscending : List Uuid → Type 0
IsAscending [] = Unit
IsAscending (a ∷ bs) = All (λ b. a < b) bs × IsAscending bs

insert_id-All :
    (x a : Uuid) (bs : List Uuid) → x < a → All (λ b. x < b) bs → All (λ b. x < b) (insert_id a bs)
unfolding insert_id
insert_id-All x a [] h k = (h, tt)
insert_id-All x a (b ∷ bs) h k = elim (Bool-cases (a == b)) [
  | inl q ↦ rw q k
  | inr q ↦ elim (Bool-cases (ltb a b)) [
    | inl l ↦ rw (q, l) (h, k)
    | inr l ↦ rw (q, l) (k.0, insert_id-All x a bs h k.1)
  ]
]

below-All : (a b : Uuid) (bs : List Uuid) → a < b → All (λ x. b < x) bs → All (λ x. a < x) bs
below-All a b [] h k = tt
below-All a b (x ∷ bs) h k = (lt_trans a b x h k.0, below-All a b bs h k.1)
  where
    lt_trans : (a b x : ℕ) → a < b → b < x → a < x
    lt_trans a b x h k = omega arith

insert_id-IsAscending : (a : Uuid) (bs : List Uuid) → IsAscending bs → IsAscending (insert_id a bs)
unfolding insert_id IsAscending
insert_id-IsAscending a [] h = (tt, tt)
insert_id-IsAscending a (b ∷ bs) h = elim (Bool-cases (a == b)) [
  | inl q ↦ rw q h
  | inr q ↦ elim (Bool-cases (ltb a b)) [
    | inl l ↦ rw (q, l) ((ltb→lt a b l, below-All a b bs (ltb→lt a b l) h.0), h)
    | inr l ↦ rw (q, l) (insert_id-All b a bs (above a b q l) h.0, insert_id-IsAscending a bs h.1)
  ]
]
  where
    above : (a b : ℕ) → (a == b) ≡ false → ltb a b ≡ false → b < a
    above a b q l = ground arith

sorted_ids-IsAscending : (us : List Uuid) → IsAscending (sorted_ids us)
unfolding sorted_ids IsAscending
sorted_ids-IsAscending [] = tt
sorted_ids-IsAscending (u ∷ us) =
    insert_id-IsAscending u (sorted_ids us) (sorted_ids-IsAscending us)

any-insert_id :
    (x a : Uuid) (bs : List Uuid)
    → any (λ b. x == b) (insert_id a bs) ≡ ((x == a) || any (λ b. x == b) bs)
unfolding insert_id
any-insert_id x a [] = refl
any-insert_id x a (b ∷ bs) = elim (Bool-cases (a == b)) [
  | inl q ↦ rw q (same x a b _ q)
  | inr q ↦ elim (Bool-cases (ltb a b)) [
    | inl l ↦ rw (q, l) refl
    | inr l ↦ rw (q, l) (ap (λ t. (x == b) || t) (any-insert_id x a bs) ∙ swap (x == b) (x == a) _)
  ]
]
  where
    same :
        (x a b : ℕ) (t : Bool) → (a == b) ≡ true → ((x == b) || t) ≡ ((x == a) || ((x == b) || t))
    same x a b t q = ground arith

    swap : (p q t : Bool) → (p || (q || t)) ≡ (q || (p || t))
    swap p q t = ground arith

any-sorted_ids :
    (x : Uuid) (us : List Uuid) → any (λ b. x == b) (sorted_ids us) ≡ any (λ b. x == b) us
unfolding sorted_ids
any-sorted_ids x [] = refl
any-sorted_ids x (u ∷ us) =
    any-insert_id x u (sorted_ids us) ∙ ap (λ t. (x == u) || t) (any-sorted_ids x us)

-- The version in the row that was found; a user without one is at 1.
abbrev version_or_first : Option AuthorizationStateRow → ℕ
version_or_first o = elim o [ none ↦ 1 | some a ↦ a.authorization_version ]

module _ (t : Uuid) (now : Instant) where
  bump_found :
      (u : Uuid) (rows : List AuthorizationStateRow)
      → any (is_state_of t u) rows ≡ true
      → version_or_first
          (find_first (is_state_of t u) (update_where (is_state_of t u) (bumped_state now) rows))
        ≡ suc (version_or_first (find_first (is_state_of t u) rows))
  bump_found u [] h = cc
  bump_found u (x ∷ rows) h = elim (Bool-cases (is_state_of t u x)) [
    | inl q ↦ rw (q, q) refl
    | inr q ↦ rw (q, q) (bump_found u rows (rest _ _ q h))
  ]
    where
      rest : (b d : Bool) → b ≡ false → (b || d) ≡ true → d ≡ true
      rest b d q k = ground arith

  bump_other :
      (u v : Uuid) (rows : List AuthorizationStateRow)
      → (u == v) ≡ false
      → find_first (is_state_of t u) (update_where (is_state_of t v) (bumped_state now) rows)
        ≡ find_first (is_state_of t u) rows
  bump_other u v [] h = refl
  bump_other u v (x ∷ rows) h = elim (Bool-cases (is_state_of t v x)) [
    | inl q ↦ let other = apart x.user_id x.tenant_id q in rw (q, other) (bump_other u v rows h)
    | inr q ↦ rw q (ap (λ r. if is_state_of t u x then some x else r) (bump_other u v rows h))
  ]
    where
      apart : (a b : ℕ) → (a == v && b == t) ≡ true → (a == u && b == t) ≡ false
      apart a b q = ground arith

  none_found :
      (u : Uuid) (rows : List AuthorizationStateRow)
      → any (is_state_of t u) rows ≡ false
      → find_first (is_state_of t u) rows ≡ none
  none_found u [] h = refl
  none_found u (x ∷ rows) h =
      let (h0, h1) = or_false (is_state_of t u x) (any (is_state_of t u) rows) h in
      rw h0 (none_found u rows h1)

  version_bumped :
      (u v : Uuid) (db : Db)
      → authorization_version_of u t (upsert_version t now v db) ≡ (
          if u == v then suc (authorization_version_of u t db) else authorization_version_of u t db)
  unfolding upsert_version
  version_bumped u v db = elim (Bool-cases (u == v)) [
    | inl q ↦ rw q (
        rw (sym ((==_iff u v).0 q))
          (same (Bool-cases (any (is_state_of t u) db.authorization_states))))
    | inr q ↦ rw q (other q (Bool-cases (any (is_state_of t v) db.authorization_states)))
  ]
    where
      fresh :
          (b : Bool) (o : Option AuthorizationStateRow)
          → b ≡ true
          → o ≡ none
          → version_or_first (
              if b
              then some (record {
                user_id = u;
                tenant_id = t;
                authorization_version = 2;
                updated_at = now;
              })
              else o)
            ≡ suc (version_or_first o)
      fresh true none h k = refl
      fresh true (some a) h k = cc
      fresh false o h k = cc

      skipped :
          (b d : Bool) (o : Option AuthorizationStateRow)
          → b ≡ false
          → version_or_first (
              if b && d
              then some (record {
                user_id = v;
                tenant_id = t;
                authorization_version = 2;
                updated_at = now;
              })
              else o)
            ≡ version_or_first o
      skipped false d o h = refl
      skipped true d o h = cc

      same :
          (any (is_state_of t u) db.authorization_states ≡ true)
            ⊎ (any (is_state_of t u) db.authorization_states ≡ false)
          → authorization_version_of u t (upsert_version t now u db)
            ≡ suc (authorization_version_of u t db)
      same (inl k) = rw k (bump_found u db.authorization_states k)
      same (inr k) = rw k (
          fresh (u == u && t == t) (find_first (is_state_of t u) db.authorization_states)
            (and_true_both (u == u) (t == t) (==_refl u) (==_refl t))
            (none_found u db.authorization_states k))

      flipped : (a b : ℕ) → (a == b) ≡ false → (b == a) ≡ false
      flipped a b q = ground arith

      other :
          (u == v) ≡ false
          → (any (is_state_of t v) db.authorization_states ≡ true)
            ⊎ (any (is_state_of t v) db.authorization_states ≡ false)
          → authorization_version_of u t (upsert_version t now v db)
            ≡ authorization_version_of u t db
      other q (inl k) = rw k (ap version_or_first (bump_other u v db.authorization_states q))
      other q (inr k) = rw k (
          skipped (v == u) (t == t) (find_first (is_state_of t u) db.authorization_states)
            (flipped u v q))

  not_above : (u : Uuid) (us : List Uuid) → All (λ b. u < b) us → any (λ b. u == b) us ≡ false
  not_above u [] h = refl
  not_above u (v ∷ us) h =
      or_false_both (u == v) (any (λ b. u == b) us) (below u v h.0) (not_above u us h.1)
    where
      below : (a b : ℕ) → a < b → (a == b) ≡ false
      below a b h = ground arith

  version_bumped_each :
      (u : Uuid) (us : List Uuid) (db : Db)
      → IsAscending us
      → authorization_version_of u t (bump_each (upsert_version t now) us db) ≡ (
          if any (λ b. u == b) us
          then suc (authorization_version_of u t db)
          else authorization_version_of u t db)
  unfolding bump_each IsAscending
  version_bumped_each u [] db h = refl
  version_bumped_each u (v ∷ us) db h =
      version_bumped_each u us (upsert_version t now v db) h.1 ∙ once (Bool-cases (u == v))
    where
      once :
          ((u == v) ≡ true) ⊎ ((u == v) ≡ false)
          → (if any (λ b. u == b) us
              then suc (authorization_version_of u t (upsert_version t now v db))
              else authorization_version_of u t (upsert_version t now v db))
            ≡ (if (u == v) || any (λ b. u == b) us
                then suc (authorization_version_of u t db)
                else authorization_version_of u t db)
      once (inl q) =
          let absent = not_above u us (rw (sym ((==_iff u v).0 q)) at h.0) in
          rw (absent, q) (version_bumped u v db ∙ rw q refl)
      once (inr q) = rw (version_bumped u v db, q) refl

  -- A bump moves the version of each listed user on by one, however often the user is listed, a user
  -- without a row from 1, and leaves the version of everyone else in the tenant.
  pub bump_versions-advances :
      (us : List Uuid) (u : Uuid) (db : Db)
      → authorization_version_of u t (bump_versions global_rules t us now db) ≡ (
          if any (λ b. u == b) us
          then suc (authorization_version_of u t db)
          else authorization_version_of u t db)
  unfolding bump_versions
  bump_versions-advances us u db =
      version_bumped_each u (sorted_ids us) db (sorted_ids-IsAscending us)
      ∙ ap
          (λ b.
            if b then suc (authorization_version_of u t db) else authorization_version_of u t db)
          (any-sorted_ids u us)

  pub bump_one :
      (u : Uuid) (db : Db)
      → authorization_version_of u t (bump_versions global_rules t (u ∷ []) now db)
        ≡ suc (authorization_version_of u t db)
  bump_one u db =
      bump_versions-advances (u ∷ []) u db
      ∙ listed (u == u) (authorization_version_of u t db) (==_refl u)
    where
      listed : (x : Bool) (n : ℕ) → x ≡ true → (if x || false then suc n else n) ≡ suc n
      listed x n k = ground arith
