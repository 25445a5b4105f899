-- ===== src/Tests/Signed.antt =====
-- Numbers with a sign that meet what is asked of `f64`, and a draw of each kind: src/rng.rs.
use Prim.Native.Nat.{compare}
use sim_core.Base.{
  ℕ, zero, suc, ◌+◌, ◌-◌, ◌*◌, ◌≡◌, ◌^◌, refl, Ordering, Bool, true, false, ltb, leb, arith,
  if◌then◌else◌,
}
use sim_core.Base.Order.{swap}
use sim_core.Float.{Float, IsIeee}
use sim_core.Rng.{new}
use sim_core.Rng.Laws.{draws}
use sim_core.Rng.Sample.{Math, IsExact, splitmix64, uniform01, exponential, bernoulli, normal}
use sim_core.Rng.Sample.Range.{IsUnit, uniform01-Range}

-- `minus n` is -(n + 1).
data Signed : Type 0 where
  plus : ℕ → Signed
  minus : ℕ → Signed

abbrev less : Signed → Signed → Bool
less (plus a) (plus b) = ltb a b
less (plus a) (minus b) = false
less (minus a) (plus b) = true
less (minus a) (minus b) = ltb b a

abbrev at_most : Signed → Signed → Bool
at_most (plus a) (plus b) = leb a b
at_most (plus a) (minus b) = false
at_most (minus a) (plus b) = true
at_most (minus a) (minus b) = leb b a

abbrev cmp : Signed → Signed → Ordering
cmp (plus a) (plus b) = compare a b
cmp (plus a) (minus b) = Ordering.gt
cmp (minus a) (plus b) = Ordering.lt
cmp (minus a) (minus b) = compare b a

abbrev negate : Signed → Signed
negate (plus zero) = plus 0
negate (plus (suc a)) = minus a
negate (minus a) = plus (suc a)

-- a - b
abbrev difference : ℕ → ℕ → Signed
difference a b = if leb b a then plus (a - b) else minus (b - a - 1)

abbrev sum : Signed → Signed → Signed
sum (plus a) (plus b) = plus (a + b)
sum (plus a) (minus b) = difference a (suc b)
sum (minus a) (plus b) = difference b (suc a)
sum (minus a) (minus b) = minus (suc (a + b))

abbrev product : Signed → Signed → Signed
product (plus a) (plus b) = plus (a * b)
product (plus a) (minus b) = negate (plus (a * suc b))
product (minus a) (plus b) = negate (plus (suc a * b))
product (minus a) (minus b) = plus (suc a * suc b)

abbrev greater : Signed → Signed → Signed
greater a b = if at_most a b then b else a

cmp_flip : (a b : Signed) → cmp b a ≡ swap (cmp a b)
cmp_flip (plus a) (plus b) = ground arith
cmp_flip (plus a) (minus b) = refl
cmp_flip (minus a) (plus b) = refl
cmp_flip (minus a) (minus b) = ground arith

cmp_refl : (a : Signed) → cmp a a ≡ Ordering.eq
cmp_refl (plus a) = ground arith
cmp_refl (minus a) = ground arith

cmp_eq_sound : (a b : Signed) → cmp a b ≡ Ordering.eq → a ≡ b
cmp_eq_sound (plus a) (plus b) h = ground arith
cmp_eq_sound (plus a) (minus b) h = cc
cmp_eq_sound (minus a) (plus b) h = cc
cmp_eq_sound (minus a) (minus b) h = ground arith

cmp_lt_trans :
    (a b c : Signed) → cmp a b ≡ Ordering.lt → cmp b c ≡ Ordering.lt → cmp a c ≡ Ordering.lt
cmp_lt_trans a b c h k = ground arith

abbrev signed : Float
signed = record {
  F = Signed;
  zero = plus 0;
  lt = less;
  le = at_most;
  add = sum;
  sub = λ a b. sum a (negate b);
  max = greater;
  is_finite = λ a. true;
  order = record {
    cmp = cmp;
    flip = cmp_flip;
    cmp_refl = cmp_refl;
    eq_sound = cmp_eq_sound;
    lt_trans = cmp_lt_trans;
  };
}

signed-IsIeee : IsIeee signed
signed-IsIeee = record {
  zero_finite = refl;
  le_refl = λ a h. ground arith;
  le_trans = λ a b c h k. ground arith;
  le_of_not_lt = λ a b h k l. ground arith;
  not_le_of_lt = λ a b h. ground arith;
  le_of_lt = λ a b h. ground arith;
  finite_below = λ a b h k n. refl;
  sub_nonneg = λ a b h k l. ground arith;
  sub_le = λ a b h k l. ground arith;
  le_add = λ a b h k. ground arith;
  le_of_order = λ a b h k l. ground arith;
  le_max_right = λ a b h. ground arith;
  le_max_left = λ a b h. ground arith;
  max_finite = λ a b h k. refl;
  max_le = λ a b c h k. ground arith;
  order_of_not_le = λ a b h k l. ground arith;
}

-- Multiples of 2^-53, of which 2^53 are one; logarithms to the first order.
abbrev fixed_point : Math signed
fixed_point = record {
  one = plus (2 ^ 53);
  two_pow_neg_53 = plus 1;
  minus_two = minus 1;
  tau = plus (6 * 2 ^ 53);
  of_u64 = plus;
  neg = negate;
  mul = product;
  div = λ a b. a;
  ln_1p = λ a. a;
  sqrt = λ a. a;
  cos = λ a. a;
}

product_nonneg :
    (a x : Signed)
    → at_most (plus 0) a ≡ true
    → at_most x (plus 0) ≡ true
    → at_most (plus 0) (product (negate a) x) ≡ true
product_nonneg (plus zero) (plus b) h k = ground arith
product_nonneg (plus zero) (minus b) h k = ground arith
product_nonneg (plus (suc a)) (plus zero) h k = ground arith
product_nonneg (plus (suc a)) (plus (suc b)) h k = ground arith
product_nonneg (plus (suc a)) (minus b) h k = ground arith
product_nonneg (minus a) x h k = cc

fixed_point-IsExact : IsExact signed fixed_point
fixed_point-IsExact = record {
  scaled_zero = refl;
  scaled_one = refl;
  scaled_le = λ n k h g. ground arith;
  scaled_lt = λ n k h g. ground arith;
  lt_le_trans = λ a b c h g. ground arith;
  ln_1p_nonpos = λ u h g. ground arith;
  ln_1p_finite = λ u h g. refl;
  mul_nonneg = λ a x n k h g. product_nonneg a x h g;
}

uniform01-Range_example :
    let (u, after_u) = uniform01 signed fixed_point splitmix64 (new 42) in
    let (x, after_x) = exponential signed fixed_point splitmix64 (plus 5) (new 42) in
    (IsUnit signed signed-IsIeee fixed_point fixed_point-IsExact u
      × (after_u ≡ (draws 1 (new 42)).1))
    × (bernoulli signed fixed_point splitmix64 (plus (2 ^ 53)) (new 42) ≡ (true, after_u))
    × (bernoulli signed fixed_point splitmix64 (minus 3) (new 42) ≡ (false, after_u))
    × ((at_most (plus 0) x ≡ true) × (after_x ≡ after_u))
    × ((normal signed fixed_point splitmix64 (plus 7) (plus 2) (new 42)).1 ≡ (draws 2 (new 42)).1)
uniform01-Range_example =
    uniform01-Range signed signed-IsIeee fixed_point fixed_point-IsExact (new 42) (plus (2 ^ 53))
      (minus 3) (plus 5) (plus 7) (plus 2) refl refl refl refl
