-- ===== src/Base/Float/Fixed.antt =====
-- The interface at exact decimals of 12 places, which the tests and examples compute with.
use Prim.Native.Nat.{ℕ, ◌+◌, ◌*◌, ◌-◌, ◌^◌, ◌/◌}
use mathlib.Core.Bool.{true}
use native.Mathlib.Omega.{arith}
use atlas_markets.Base.Int.{
  ℤ, pos, negsuc, pos_part, neg_part, sub_ℕ, ◌+ℤ◌, ◌-ℤ◌, ◌*ℤ◌, ltb_ℤ, leb_ℤ, eqb_ℤ,
}
use atlas_markets.Base.Float.Defs.{Float, IsOrdered, HasSigns}

abbrev pub Fixed : Type 0
Fixed = ℤ

-- Rounds towards zero, at 12 places.
abbrev scale_down : ℤ → ℤ
scale_down a = sub_ℕ (pos_part a / 10 ^ 12) (neg_part a / 10 ^ 12)

abbrev quotient : ℤ → ℤ → ℤ
quotient a (pos n) = sub_ℕ (pos_part a * 10 ^ 12 / n) (neg_part a * 10 ^ 12 / n)
quotient a (negsuc n) = sub_ℕ (neg_part a * 10 ^ 12 / suc_of n) (pos_part a * 10 ^ 12 / suc_of n)
  where
    suc_of : ℕ → ℕ
    suc_of n = neg_part (negsuc n)

instance abbrev pub fixed_float : Float Fixed
fixed_float = record {
  num = λ m e. pos (m * 10 ^ (12 - e));
  neg = λ a. sub_ℕ (neg_part a) (pos_part a);
  abs = λ a. pos (pos_part a + neg_part a);
  add = ◌+ℤ◌;
  sub = ◌-ℤ◌;
  mul = λ a b. scale_down (a *ℤ b);
  div = quotient;
  lt = ltb_ℤ;
  le = leb_ℤ;
  eq = eqb_ℤ;
  is_finite = λ a. true;
}

pub Fixed-IsOrdered : IsOrdered Fixed
Fixed-IsOrdered = record {
  le_trans = λ x y z h k. ground arith;
  le_of_lt = λ x y h. ground arith;
  not_both = λ x y h. ground arith;
  le_of_not_lt = λ x y fx fy h. ground arith;
}

pub Fixed-HasSigns : HasSigns Fixed
unfolding ◌+ℤ◌
Fixed-HasSigns = record {
  zero_refl = ground arith;
  add_nonneg = λ x y h k. ground arith;
  pos_of_not_le = λ x f h. ground arith;
  le_add = λ x y f h. ground arith;
  num_nonneg = λ m e. ground arith;
}

-- Towards zero, to a whole number.
abbrev pub whole_part : Fixed → Fixed
whole_part a = sub_ℕ (pos_part a / 10 ^ 12 * 10 ^ 12) (neg_part a / 10 ^ 12 * 10 ^ 12)
