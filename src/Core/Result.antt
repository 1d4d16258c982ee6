-- ===== src/Core/Result.antt =====
-- A Python call as a value: its result or what it raised, and such a call over a mutable state.
use mathlib.Core.Path.{◌≡◌, refl}
use mathlib.Core.Bool.{Bool, true, false}
use mathlib.Core.Option.{Option, none, some}
use native.Mathlib.Omega.{arith}
use verigence_security.Core.Errors.{Code, Exc, security_error, security}

-- What was raised, or what was returned.
pub data Result {ℓ} (X : Type ℓ) : Type ℓ where
  err : Exc → Result X
  ok : X → Result X

-- `raise security_error(code)`
abbrev pub deny {ℓ} : {A : Type ℓ} → Code → Result A
deny c = err (security (security_error c none))

-- The statements behind a call run on its value, and a raise passes them by.
module _ {ℓ κ} {X : Type ℓ} {Y : Type κ} where
  infixl 5 ◌>>=◌
  abbrev pub ◌>>=◌ : Result X → (X → Result Y) → Result Y
  err raised >>= next = err raised
  ok value >>= next = next value

module _ {κ} {Y : Type κ} where
  infixl 5 ◌>>◌
  abbrev pub ◌>>◌ : Result (Unit {0}) → Result Y → Result Y
  call >> next = call >>= λ _. next

-- `if bad: raise security_error(code)`
abbrev pub deny_if : Bool → Code → Result (Unit {0})
deny_if true c = deny c
deny_if false c = ok tt

-- `if row is None: raise security_error(code)`
abbrev pub or_deny {ℓ} : {A : Type ℓ} → Option A → Code → Result A
or_deny none c = deny c
or_deny (some a) c = ok a

module _ {ℓ κ} {X : Type ℓ} {Y : Type κ} where
  -- What ended well has a first call that did, and hands its value on.
  pub >>=-eq-ok :
      (call : Result X) (next : X → Result Y) {y : Y}
      → (call >>= next) ≡ ok y
      → (value : X) × (call ≡ ok value) × (next value ≡ ok y)
  >>=-eq-ok (err raised) next ended = cc
  >>=-eq-ok (ok value) next ended = (value, refl, ended)

  pub >>=_ok :
      (call : Result X) (next : X → Result Y) {a : X} {r : Result Y}
      → call ≡ ok a
      → next a ≡ r
      → (call >>= next) ≡ r
  >>=_ok call next first ended = rw first ended

pub deny_if-eq-ok : (b : Bool) (c : Code) {u : Unit {0}} → deny_if b c ≡ ok u → b ≡ false
deny_if-eq-ok true c h = cc
deny_if-eq-ok false c h = refl

pub or_deny-eq-ok {ℓ} :
    {A : Type ℓ} (o : Option A) (c : Code) {a : A} → or_deny o c ≡ ok a → o ≡ some a
or_deny-eq-ok none c h = cc
or_deny-eq-ok (some a) c h = ground arith

pub ok-injective {ℓ} : {A : Type ℓ} {a b : A} → ok a ≡ ok b → a ≡ b
ok-injective h = cc

pub ok-ne-err {ℓ} : {A : Type ℓ} {a : A} {e : Exc} → ok a ≡ err e → ⊥
ok-ne-err h = cc
