-- ===== src/Repository/Rows.antt =====
-- Tables whose rows have a key: counts, first hits and updates by tests that the key settles.
use mathlib.Core.Path.{◌≡◌, refl}
use mathlib.Core.Logic.{inl, inr}
use mathlib.Core.Option.{some}
use native.Mathlib.Omega.{arith}
use verigence_security.Common.{
  ℕ, ◌+◌, ◌≤◌, Bool, true, false, List, [], ◌∷◌, any, find_first, count_where, update_where,
  Bool-cases,
}

module _ {ℓ} {A : Type ℓ} where
  pub count_where_mono :
      (p k : A → Bool) (xs : List A)
      → ((x : A) → p x ≡ true → k x ≡ true)
      → count_where p xs ≤ count_where k xs
  count_where_mono p k [] h = omega arith
  count_where_mono p k (x ∷ xs) h =
      let ih = count_where_mono p k xs h in
      elim (Bool-cases (p x)) [ inl t ↦ let tk = h x t in (ground arith) | inr f ↦ ground arith ]

  -- An update can bring a row under a test only where it changes the row.
  pub count_where-update_where :
      (q p : A → Bool) (f : A → A) (xs : List A)
      → count_where q (update_where p f xs) ≤ count_where q xs + count_where p xs
  count_where-update_where q p f [] = omega arith
  count_where-update_where q p f (x ∷ xs) =
      let ih = count_where-update_where q p f xs in
      elim (Bool-cases (p x)) [ inl t ↦ (ground arith) | inr g ↦ (ground arith) ]

  pub any-count_where : (p : A → Bool) (xs : List A) → count_where p xs ≤ 0 → any p xs ≡ false
  any-count_where p [] h = refl
  any-count_where p (x ∷ xs) h = elim (Bool-cases (p x)) [
    | inl t ↦ (ground arith)
    | inr g ↦ let ih = any-count_where p xs (ground arith) in (ground arith)
  ]

  -- The row of a key, once an update of a row with that key has been made.
  pub find_first-update_where :
      (k p : A → Bool) (f : A → A) (xs : List A)
      → ((x : A) → p x ≡ true → k x ≡ true)
      → ((x : A) → k (f x) ≡ k x)
      → count_where k xs ≤ 1
      → any p xs ≡ true
      → (x : A) × (p x ≡ true) × (find_first k (update_where p f xs) ≡ some (f x))
  find_first-update_where k p f [] pk fk h e = cc
  find_first-update_where k p f (x ∷ xs) pk fk h e = elim (Bool-cases (p x)) [
    | inl t ↦ let kx = pk x t in let kf = fk x in (x, t, ground arith)
    | inr g ↦ elim (Bool-cases (k x)) [
      | inl t ↦
          let none_left =
            any-count_where p xs (le_trans (count_where_mono p k xs pk) (ground arith)) in
          absurd (ground arith)
      | inr n ↦
          let (y, py, q) = find_first-update_where k p f xs pk fk (ground arith) (ground arith) in
          (y, py, ground arith)
    ]
  ]
    where
      le_trans : {a b : ℕ} → a ≤ b → b ≤ 0 → a ≤ 0
      le_trans h1 h2 = omega arith
