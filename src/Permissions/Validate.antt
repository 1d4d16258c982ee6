-- ===== src/Permissions/Validate.antt =====
-- `validate_permissions`: every key canonical, then the distinct keys in order.
use verigence_security.Common.{
  ◌≡◌, refl, ◌∙◌, Bool, true, false, not, List, [], ◌∷◌, arith, Text, select, every, Bool-cases,
  inl, inr, ◌⊎◌,
}
use verigence_security.Core.Errors.{value_error}
use verigence_security.Core.Result.{Result, ok, err}
use verigence_security.Permissions.Canonical.{is_canonical_permission}
use verigence_security.Permissions.Ordered.{
  sorted_set, has, IsAscending, sorted_set-IsAscending, has-sorted_set, every-sorted_set,
  sorted_set_of_IsAscending,
}

-- `if invalid: raise ValueError`
abbrev pub refuse_any : List Text → Result (List Text) → Result (List Text)
refuse_any [] r = r
refuse_any (p ∷ ps) r = err value_error

unfoldable pub validate_permissions : List Text → Result (List Text)
validate_permissions values =
    let invalid = select (λ p. not (is_canonical_permission p)) values in
    refuse_any invalid (ok (sorted_set values))

no_invalid :
    (p : Text → Bool) (vs : List Text) → every p vs ≡ true → select (λ v. not (p v)) vs ≡ []
no_invalid p [] h = refl
no_invalid p (v ∷ vs) h = ground (arith, no_invalid p vs)

some_invalid :
    (p : Text → Bool) (vs : List Text) (r : Result (List Text))
    → every p vs ≡ false
    → refuse_any (select (λ v. not (p v)) vs) r ≡ err value_error
some_invalid p [] r h = cc
some_invalid p (v ∷ vs) r h = elim (Bool-cases (p v)) [
  | inl good ↦ rw good (some_invalid p vs r (rw good at h))
  | inr bad ↦ rw bad
]

pub validate_permissions_ok :
    (vs : List Text)
    → every is_canonical_permission vs ≡ true
    → validate_permissions vs ≡ ok (sorted_set vs)
unfolding validate_permissions
validate_permissions_ok vs h = rw (no_invalid is_canonical_permission vs h)

pub validate_permissions_refuses :
    (vs : List Text)
    → every is_canonical_permission vs ≡ false
    → validate_permissions vs ≡ err value_error
unfolding validate_permissions
validate_permissions_refuses vs h = some_invalid is_canonical_permission vs _ h

-- What a successful validation returns: the distinct keys of the list in ascending order, all of
-- them canonical.
pub record IsValidated (vs rs : List Text) : Type 0 where
  pub is_ascending : IsAscending rs
  pub same_members : (x : Text) → has x rs ≡ has x vs
  pub is_canonical : every is_canonical_permission rs ≡ true

pub validate_permissions-IsValidated :
    (vs rs : List Text) → validate_permissions vs ≡ ok rs → IsValidated vs rs
validate_permissions-IsValidated vs rs h = elim (Bool-cases (every is_canonical_permission vs)) [
  | inl good ↦
      let e : sorted_set vs ≡ rs = cc (validate_permissions_ok vs good) in
      rw (← e) (record {
        is_ascending = sorted_set-IsAscending vs;
        same_members = λ x. has-sorted_set x vs;
        is_canonical = every-sorted_set is_canonical_permission vs good;
      })
  | inr bad ↦ cc (validate_permissions_refuses vs bad)
]

-- If every key is canonical, `validate_permissions` returns the distinct keys in ascending order, with
-- the members of its input; if one is not, it raises `ValueError`.
pub validate_permissions_lem :
    (vs : List Text)
    → ((rs : List Text) × (every is_canonical_permission vs ≡ true)
        × (validate_permissions vs ≡ ok rs)
        × IsValidated vs rs)
      ⊎ ((every is_canonical_permission vs ≡ false) × (validate_permissions vs ≡ err value_error))
validate_permissions_lem vs = elim (Bool-cases (every is_canonical_permission vs)) [
  | inl h ↦ inl (
    sorted_set vs,
    h,
    validate_permissions_ok vs h,
    validate_permissions-IsValidated vs (sorted_set vs) (validate_permissions_ok vs h),
  )
  | inr bad ↦ inr (bad, validate_permissions_refuses vs bad)
]

-- A validated list is its own validation.
pub validate_permissions_idem :
    (vs rs : List Text) → validate_permissions vs ≡ ok rs → validate_permissions rs ≡ ok rs
validate_permissions_idem vs rs h =
    let v = validate_permissions-IsValidated vs rs h in
    validate_permissions_ok rs v.is_canonical ∙ rw (sorted_set_of_IsAscending rs v.is_ascending)
