-- ===== src/Float/Sample.antt =====
-- Numbers that meet what is asked of `f64`: the naturals, which add without rounding.
use Prim.Native.Nat.{max}
use sim_core.Base.{ℕ, ◌+◌, ◌-◌, refl, true, ltb, leb, arith}
use sim_core.Base.Order.{nat_ord}
use sim_core.Float.{Float, IsIeee}

abbrev pub naturals : Float
naturals = record {
  F = ℕ;
  zero = 0;
  lt = ltb;
  le = leb;
  add = ◌+◌;
  sub = ◌-◌;
  max = max;
  is_finite = λ a. true;
  order = nat_ord;
}

pub naturals-IsIeee : IsIeee naturals
naturals-IsIeee = record {
  zero_finite = refl;
  le_refl = λ a h. ground arith;
  le_trans = λ a b c h k. ground arith;
  le_of_not_lt = λ a b h k l. ground arith;
  not_le_of_lt = λ a b h. ground arith;
  le_of_lt = λ a b h. ground arith;
  finite_below = λ a b h k n. refl;
  sub_nonneg = λ a b h k l. ground arith;
  sub_le = λ a b h k l. ground arith;
  le_add = λ a b h k. ground arith;
  le_of_order = λ a b h k l. ground arith;
  le_max_right = λ a b h. ground arith;
  le_max_left = λ a b h. ground arith;
  max_finite = λ a b h k. refl;
  max_le = λ a b c h k. ground arith;
  order_of_not_le = λ a b h k l. ground arith;
}
