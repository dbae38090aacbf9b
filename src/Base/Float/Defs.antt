-- ===== src/Base/Float/Defs.antt =====
-- The interface of numbers, Python's `min` and `max`, and the ordering laws.
use Prim.Native.Nat.{ℕ}
use mathlib.Core.Path.{◌≡◌}
use mathlib.Core.Bool.{Bool, true, false}
use mathlib.Core.Option.{Option, none, some}
use atlas_markets.Base.Tests.{if◌then◌else◌}

-- `num m e` is the literal m * 10^-e. The program divides only by what it has tested.
pub record Float (F : Type 0) : Type 0 where
  pub num : ℕ → ℕ → F
  pub neg : F → F
  pub abs : F → F
  pub add : F → F → F
  pub sub : F → F → F
  pub mul : F → F → F
  pub div : F → F → F
  pub lt : F → F → Bool
  pub le : F → F → Bool
  pub eq : F → F → Bool
  pub is_finite : F → Bool

module _ {F : Type 0} ⦃fl : Float F⦄ where
  open fl use {num, lt}

  -- `min(a, b)` and `max(a, b)`
  abbrev pub fmin : F → F → F
  fmin a b = if lt b a then b else a

  abbrev pub fmax : F → F → F
  fmax a b = if lt a b then b else a

-- A value read from JSON or a database column before `float(...)` is applied to it.
pub data Raw (F : Type 0) : Type 0 where
  absent : Raw F  -- missing, None, or empty
  malformed : Raw F  -- `float` raises
  number : F → Raw F

module _ {F : Type 0} ⦃fl : Float F⦄ where
  open fl use {num}

  -- `float(x or 0)`; `none` is ValueError or TypeError
  abbrev pub float_or_zero : Raw F → Option F
  float_or_zero absent = some (num 0 0)
  float_or_zero malformed = none
  float_or_zero (number x) = some x

-- IEEE 754: comparisons with NaN are false, and finite values are totally ordered.
pub record IsOrdered (F : Type 0) ⦃fl : Float F⦄ : Type 0 where
  pub le_trans : (x y z : F) → fl.le x y ≡ true → fl.le y z ≡ true → fl.le x z ≡ true
  pub le_of_lt : (x y : F) → fl.lt x y ≡ true → fl.le x y ≡ true
  pub not_both : (x y : F) → fl.lt x y ≡ true → fl.le y x ≡ false
  pub le_of_not_lt :
      (x y : F)
      → fl.is_finite x ≡ true
      → fl.is_finite y ≡ true
      → fl.lt x y ≡ false
      → fl.le y x ≡ true

-- The sign of zero, of a sum, and of a quantity that is tested by `<= 0`.
pub record HasSigns (F : Type 0) ⦃fl : Float F⦄ : Type 0 where
  pub zero_refl : fl.le (fl.num 0 0) (fl.num 0 0) ≡ true
  pub add_nonneg :
      (x y : F)
      → fl.le (fl.num 0 0) x ≡ true
      → fl.le (fl.num 0 0) y ≡ true
      → fl.le (fl.num 0 0) (fl.add x y) ≡ true
  pub pos_of_not_le :
      (x : F) → fl.is_finite x ≡ true → fl.le x (fl.num 0 0) ≡ false → fl.lt (fl.num 0 0) x ≡ true
  pub le_add :
      (x y : F) → fl.is_finite x ≡ true → fl.le (fl.num 0 0) y ≡ true → fl.le x (fl.add x y) ≡ true
  pub num_nonneg : (m e : ℕ) → fl.le (fl.num 0 0) (fl.num m e) ≡ true
