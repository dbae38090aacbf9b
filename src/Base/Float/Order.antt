-- ===== src/Base/Float/Order.antt =====
-- Consequences of the ordering laws for `min` and `max`.
use atlas_markets.Base.Float.Defs.{Float, fmin, fmax, IsOrdered}
use mathlib.Core.Path.{◌≡◌}
use mathlib.Core.Bool.{true}
use mathlib.Core.Logic.{inl, inr}
use native.Mathlib.Omega.{arith}
use atlas_markets.Base.Tests.{Bool-cases}

module _ {F : Type 0} ⦃fl : Float F⦄ (order : IsOrdered F) where
  open fl use {lt, le, is_finite}
  open order use {le_trans, le_of_lt, not_both, le_of_not_lt}

  pub le_refl : (x : F) → is_finite x ≡ true → le x x ≡ true
  le_refl x f = elim (Bool-cases (lt x x)) [
    | inl below ↦ le_of_lt x x below
    | inr apart ↦ le_of_not_lt x x f f apart
  ]

  pub fmin_bounds :
      (x y : F)
      → is_finite x ≡ true
      → is_finite y ≡ true
      → (le (fmin x y) x ≡ true) × (le (fmin x y) y ≡ true) × (is_finite (fmin x y) ≡ true)
  fmin_bounds x y f g = ground (arith, le_of_lt y x, le_refl x f, le_refl y g, le_of_not_lt y x g f)

  pub fmax_bounds :
      (x y : F)
      → is_finite x ≡ true
      → is_finite y ≡ true
      → (le x (fmax x y) ≡ true) × (le y (fmax x y) ≡ true) × (is_finite (fmax x y) ≡ true)
  fmax_bounds x y f g = ground (arith, le_of_lt x y, le_refl x f, le_refl y g, le_of_not_lt x y f g)
