-- ===== src/Platform/Doubles.antt =====
-- IEEE doubles by their bits, with the operations of Python's `float` and `math` that the geo checks
-- use. A function of `math` that raises `ValueError` outside its domain gives `none` there.
use mathlib.Core.Path.{◌≡◌}
use mathlib.Core.Bool.{Bool, true, false}
use mathlib.Core.Option.{Option}
use Prim.Native.Nat.{ℕ}
use verigence_security.Core.Types.{Double}

pub record Doubles : Type 0 where
  pub of_int : ℕ → Double
  pub add : Double → Double → Double
  pub sub : Double → Double → Double
  pub mul : Double → Double → Double
  pub div : Double → Double → Double
  pub pow : Double → Double → Double
  pub radians : Double → Double
  pub sin : Double → Option Double
  pub cos : Double → Option Double
  pub asin : Double → Option Double
  pub sqrt : Double → Option Double
  pub lt : Double → Double → Bool
  pub le : Double → Double → Bool

-- A double that compares with some double is not NaN.
abbrev pub IsNumber : Doubles → Double → Type 0
IsNumber d x = (u : Double) × (d.le x u ≡ true)

-- The comparisons of IEEE 754 on numbers, and that `<` holds of no double and itself.
pub record IsOrdered (d : Doubles) : Type 0 where
  pub lt_irrefl : (x : Double) → d.lt x x ≡ false
  pub lt_trans : (x y z : Double) → d.lt x y ≡ true → d.lt y z ≡ true → d.lt x z ≡ true
  pub le_of_not_lt :
      (x y : Double) → IsNumber d x → IsNumber d y → d.lt x y ≡ false → d.le y x ≡ true
  pub le_lt_trans : (x y z : Double) → d.le x y ≡ true → d.lt y z ≡ true → d.lt x z ≡ true
