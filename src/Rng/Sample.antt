-- ===== src/Rng/Sample.antt =====
-- src/rng.rs: the transforms of `sample`, over any generator; the numbers that they compute with are
-- a parameter, as are the logarithm, the square root and the cosine of the platform.
pub mod Range
use sim_core.Base.{ℕ, ◌^◌, ◌≤◌, ◌<◌, ◌≡◌, Bool, true}
use sim_core.Float.{Float}
use sim_core.Rng.{SplitMix64, shr}
use sim_core.Rng

-- `RngCore`, as far as it is drawn from.
pub record RngCore : Type 1 where
  pub R : Type 0
  pub next_u64 : R → ℕ × R

abbrev pub splitmix64 : RngCore
splitmix64 = record { R = SplitMix64; next_u64 = Rng.next_u64 }

-- More of `f64`: `of_u64` is `as f64` from an integer, and `two_pow_neg_53` is 2^-53.
pub record Math (f : Float) : Type 0 where
  pub one : f.F
  pub two_pow_neg_53 : f.F
  pub minus_two : f.F
  pub tau : f.F
  pub of_u64 : ℕ → f.F
  pub neg : f.F → f.F
  pub mul : f.F → f.F → f.F
  pub div : f.F → f.F → f.F
  pub ln_1p : f.F → f.F
  pub sqrt : f.F → f.F
  pub cos : f.F → f.F

-- What IEEE 754 says of the integers up to 2^53 and their multiples by 2^-53, all of which are
-- exact, and what the sign of a product of finite numbers is; and what a logarithm of a number above
-- 0 and at most 1 is: finite and at most 0.
pub record IsExact (f : Float) (m : Math f) : Type 0 where
  pub scaled_zero : m.mul (m.of_u64 0) m.two_pow_neg_53 ≡ f.zero
  pub scaled_one : m.mul (m.of_u64 (2 ^ 53)) m.two_pow_neg_53 ≡ m.one
  pub scaled_le :
      (n k : ℕ)
      → n ≤ k
      → k ≤ 2 ^ 53
      → f.le (m.mul (m.of_u64 n) m.two_pow_neg_53) (m.mul (m.of_u64 k) m.two_pow_neg_53) ≡ true
  pub scaled_lt :
      (n k : ℕ)
      → n < k
      → k ≤ 2 ^ 53
      → f.lt (m.mul (m.of_u64 n) m.two_pow_neg_53) (m.mul (m.of_u64 k) m.two_pow_neg_53) ≡ true
  pub lt_le_trans : (a b c : f.F) → f.lt a b ≡ true → f.le b c ≡ true → f.lt a c ≡ true
  pub ln_1p_nonpos :
      (u : f.F)
      → f.le f.zero u ≡ true
      → f.lt u m.one ≡ true
      → f.le (m.ln_1p (m.neg u)) f.zero ≡ true
  pub ln_1p_finite :
      (u : f.F)
      → f.le f.zero u ≡ true
      → f.lt u m.one ≡ true
      → f.is_finite (m.ln_1p (m.neg u)) ≡ true
  pub mul_nonneg :
      (a x : f.F)
      → f.is_finite a ≡ true
      → f.is_finite x ≡ true
      → f.le f.zero a ≡ true
      → f.le x f.zero ≡ true
      → f.le f.zero (m.mul (m.neg a) x) ≡ true

module _ (f : Float) (m : Math f) (g : RngCore) where
  unfoldable pub uniform01 : g.R → f.F × g.R
  uniform01 r = let (x, r') = g.next_u64 r in (m.mul (m.of_u64 (shr x 11)) m.two_pow_neg_53, r')

  unfoldable pub exponential : f.F → g.R → f.F × g.R
  exponential mean r = let (u, r') = uniform01 r in (m.mul (m.neg mean) (m.ln_1p (m.neg u)), r')

  unfoldable pub bernoulli : f.F → g.R → Bool × g.R
  bernoulli p r = let (u, r') = uniform01 r in (f.lt u p, r')

  unfoldable pub normal : f.F → f.F → g.R → f.F × g.R
  normal mean std r =
      let (u1, r') = uniform01 r in
      let (u2, r'') = uniform01 r' in
      let radius = m.sqrt (m.mul m.minus_two (m.ln_1p (m.neg u1))) in
      let z = m.mul radius (m.cos (m.mul m.tau u2)) in (f.add mean (m.mul std z), r'')
