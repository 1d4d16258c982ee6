-- ===== src/Common/Lists.antt =====
-- Lists as tables: filters by Boolean tests, first hits, updates in place, and their laws.
use Prim.Native.Nat.{ℕ, suc}
use mathlib.Core.Path.{◌≡◌}
use mathlib.Core.Logic.{◌⊎◌, inl, inr}
use mathlib.Core.Bool.{Bool, true, false, ◌&&◌, ◌||◌}
use mathlib.Core.Option.{Option, none, some}
use mathlib.Core.List.{List, [], ◌∷◌, ◌++◌}
use native.Mathlib.Omega.{arith}
use verigence_security.Common.Tests.{if◌then◌else◌, Bool-cases}

module _ {ℓ} {A : Type ℓ} where
  abbrev pub length : List A → ℕ
  length [] = 0
  length (x ∷ xs) = suc (length xs)

  -- `SELECT ... WHERE p`
  abbrev pub select : (A → Bool) → List A → List A
  select p [] = []
  select p (x ∷ xs) = let rest = select p xs in if p x then x ∷ rest else rest

  -- `SELECT ... WHERE p`, then `.first()`
  abbrev pub find_first : (A → Bool) → List A → Option A
  find_first p [] = none
  find_first p (x ∷ xs) = let rest = find_first p xs in if p x then some x else rest

  -- `UPDATE ... SET f WHERE p`
  abbrev pub update_where : (A → Bool) → (A → A) → List A → List A
  update_where p f [] = []
  update_where p f (x ∷ xs) = (if p x then f x else x) ∷ update_where p f xs

  abbrev pub any : (A → Bool) → List A → Bool
  any p [] = false
  any p (x ∷ xs) = p x || any p xs

  abbrev pub every : (A → Bool) → List A → Bool
  every p [] = true
  every p (x ∷ xs) = p x && every p xs

  -- `SELECT count(*) ... WHERE p`
  abbrev pub count_where : (A → Bool) → List A → ℕ
  count_where p [] = 0
  count_where p (x ∷ xs) = let rest = count_where p xs in if p x then suc rest else rest

  -- `.first()`
  abbrev pub head? : List A → Option A
  head? [] = none
  head? (x ∷ xs) = some x

  -- `JOIN`: the rows that `f` gives for each row.
  abbrev pub flat_map {κ} : {B : Type κ} → (A → List B) → List A → List B
  flat_map f [] = []
  flat_map f (x ∷ xs) = f x ++ flat_map f xs

  -- An element of the list, with its place.
  pub data Among (a : A) : List A → Type ℓ where
    here : {x : A} {xs : List A} → a ≡ x → Among a (x ∷ xs)
    there : {x : A} {xs : List A} → Among a xs → Among a (x ∷ xs)

  abbrev pub All {κ} : (A → Type κ) → List A → Type κ
  All P [] = Unit
  All P (x ∷ xs) = P x × All P xs

module _ {ℓ} {A : Type ℓ} where
  pub find_first_sound :
      (p : A → Bool) (xs : List A) (a : A) → find_first p xs ≡ some a → (p a ≡ true) × Among a xs
  find_first_sound p [] a h = cc
  find_first_sound p (x ∷ xs) a h = elim (Bool-cases (p x)) [
    | inl t ↦ let e : x ≡ a = ground arith in (ground arith, Among.here (cc))
    | inr f ↦ let (t, m) = find_first_sound p xs a (rw f at h) in (t, Among.there m)
  ]

  Among-cons_map :
      {x a : A} {xs ys : List A} → (Among a xs → Among a ys) → Among a (x ∷ xs) → Among a (x ∷ ys)
  Among-cons_map f (Among.here e) = Among.here e
  Among-cons_map f (Among.there m) = Among.there (f m)

  pub select_sound : (p : A → Bool) (xs : List A) (a : A) → Among a (select p xs) → Among a xs
  select_sound p [] a m = elim m [ ]
  select_sound p (x ∷ xs) a m = elim (Bool-cases (p x)) [
    | inl t ↦ Among-cons_map (select_sound p xs a) (rw t at m)
    | inr f ↦ Among.there (select_sound p xs a (rw f at m))
  ]

  head_holds :
      (p : A → Bool) {x a : A} {xs : List A}
      → p x ≡ true
      → (Among a xs → p a ≡ true)
      → Among a (x ∷ xs)
      → p a ≡ true
  head_holds p t f (Among.here e) = rw e t
  head_holds p t f (Among.there m) = f m

  pub select_holds : (p : A → Bool) (xs : List A) (a : A) → Among a (select p xs) → p a ≡ true
  select_holds p [] a m = elim m [ ]
  select_holds p (x ∷ xs) a m = elim (Bool-cases (p x)) [
    | inl t ↦ head_holds p t (select_holds p xs a) (rw t at m)
    | inr f ↦ select_holds p xs a (rw f at m)
  ]

  pub Among-cons : {x a : A} {xs : List A} → Among a (x ∷ xs) → (a ≡ x) ⊎ Among a xs
  Among-cons (Among.here e) = inl e
  Among-cons (Among.there m) = inr m

  pub not-Among-nil : {a : A} → ¬ Among a []
  not-Among-nil m = elim m [ ]

  pub All-Among {κ} : (P : A → Type κ) (xs : List A) (a : A) → All P xs → Among a xs → P a
  All-Among P [] a h m = elim m [ ]
  All-Among P (x ∷ xs) a h (Among.here e) = rw e h.0
  All-Among P (x ∷ xs) a h (Among.there m) = All-Among P xs a h.1 m

  pub every-All : (p : A → Bool) (xs : List A) → every p xs ≡ true → All (λ x. p x ≡ true) xs
  every-All p [] h = tt
  every-All p (x ∷ xs) h = (ground arith, every-All p xs (ground arith))
