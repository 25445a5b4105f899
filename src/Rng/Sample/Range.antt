-- ===== src/Rng/Sample/Range.antt =====
-- src/rng.rs: the range of the samples, and how many outputs of the generator each takes.
use Prim.Native.Nat.{bit_xor, bit_xor-bitwise, digits, differ}
use sim_core.Base.{
  ℕ, zero, suc, ◌+◌, ◌/◌, ◌%◌, ◌^◌, ◌≤◌, ◌<◌, ◌≡◌, refl, ap, sym, subst, true, false, arith,
  u64_mod,
}
use sim_core.Float.{Float, IsIeee}
use sim_core.Rng.{SplitMix64, mix, next, next_u64}
use sim_core.Rng.Sample.{splitmix64, Math, IsExact, uniform01, exponential, bernoulli, normal}
use sim_core.Rng.Laws.{draws}

double : ℕ → ℕ
double zero = 1
double (suc k) = double k + double k

digits-lt : (n k a b : ℕ) → a < double k → b < double k → digits (λ x. x) differ n a b < double k
unfolding double
digits-lt zero k a b h g = g
digits-lt (suc n) k zero b h g = g
digits-lt (suc n) zero (suc a) b h g = absurd (omega arith)
digits-lt (suc n) (suc k) (suc a) b h g = omega (
  arith,
  digits-lt n k (suc a / 2) (b / 2) (omega arith) (omega arith),
  differ-le (suc a % 2) (b % 2) (omega arith) (omega arith),
)
  where
    differ-le : (x y : ℕ) → x ≤ 1 → y ≤ 1 → differ x y ≤ 1
    differ-le zero y p q = q
    differ-le (suc x) zero p q = p
    differ-le (suc x) (suc y) p q = differ-le x y (omega arith) (omega arith)

bit_xor-lt : (a b : ℕ) → a < u64_mod → b < u64_mod → bit_xor a b < u64_mod
unfolding double
bit_xor-lt a b h g =
    subst (λ x. x < u64_mod) (sym (λ i. bit_xor-bitwise a b i)) (digits-lt a 64 a b h g)

mix-lt : (s : ℕ) → mix s < u64_mod
unfolding mix
mix-lt s = bit_xor-lt _ _ (omega arith) (omega arith)

module _ (f : Float) (ieee : IsIeee f) (m : Math f) (exact : IsExact f m) where
  open f use {F, lt, le, add, is_finite}
  open m use {one, two_pow_neg_53, of_u64, mul}

  -- In the half-open unit interval.
  abbrev pub IsUnit : F → Type 0
  IsUnit u = (le f.zero u ≡ true) × (lt u one ≡ true)

  scaled-IsUnit : (n : ℕ) → n < 2 ^ 53 → IsUnit (mul (of_u64 n) two_pow_neg_53)
  scaled-IsUnit n h = (
    subst (λ z. le z (mul (of_u64 n) two_pow_neg_53) ≡ true) exact.scaled_zero
        (exact.scaled_le 0 n (omega arith) (omega arith)),
    subst (λ z. lt (mul (of_u64 n) two_pow_neg_53) z ≡ true) exact.scaled_one
        (exact.scaled_lt n (2 ^ 53) h (omega arith)),
  )

  uniform01-IsUnit : (r : SplitMix64) → IsUnit (uniform01 f m splitmix64 r).0
  unfolding uniform01 next_u64 next
  uniform01-IsUnit r =
      scaled-IsUnit _ (omega (arith, mix-lt ((r.state + 0x9E37_79B9_7F4A_7C15) % u64_mod)))

  -- Whatever the state of a SplitMix64 generator: `uniform01` takes one output and gives a number
  -- that is at least 0 and less than 1; a trial takes one output, succeeds if its probability is 1
  -- or more and fails if it is 0 or less; an exponential variate of a finite mean of at least 0
  -- takes one output and is at least 0; and a normal variate takes two outputs.
  pub uniform01-Range :
      (r : SplitMix64) (certain impossible mean center std : F)
      → le one certain ≡ true
      → le impossible f.zero ≡ true
      → is_finite mean ≡ true
      → le f.zero mean ≡ true
      → let (u, after_u) = uniform01 f m splitmix64 r in
        let (x, after_x) = exponential f m splitmix64 mean r in
        (IsUnit u × (after_u ≡ (draws 1 r).1))
        × (bernoulli f m splitmix64 certain r ≡ (true, after_u))
        × (bernoulli f m splitmix64 impossible r ≡ (false, after_u))
        × ((le f.zero x ≡ true) × (after_x ≡ after_u))
        × ((normal f m splitmix64 center std r).1 ≡ (draws 2 r).1)
  unfolding bernoulli exponential normal uniform01 draws
  uniform01-Range r certain impossible mean center std high low number nonneg =
      let u = uniform01-IsUnit r in
      let (v, after) = uniform01 f m splitmix64 r in
      (
        (u, refl),
        ap (λ b. (b, after)) (exact.lt_le_trans v one certain u.1 high),
        ap (λ b. (b, after))
            (ground
              (arith, ieee.not_le_of_lt v impossible, ieee.le_trans impossible f.zero v low u.0)),
        (
          exact.mul_nonneg mean (m.ln_1p (m.neg v)) number (exact.ln_1p_finite v u.0 u.1) nonneg
              (exact.ln_1p_nonpos v u.0 u.1),
          refl,
        ),
        refl,
      )
