-- ===== src/Tests/Sampling.antt =====
-- Numbers to compute with: src/rng.rs.
use sim_core.Base.{◌*◌, ◌^◌}
use sim_core.Float.Sample.{naturals}
use sim_core.Rng.Sample.{Math}

-- Multiples of 2^-53, of which 2^53 are one. Every logarithm is 0.
abbrev pub fractions : Math naturals
fractions = record {
  one = 2 ^ 53;
  two_pow_neg_53 = 1;
  minus_two = 0;
  tau = 6 * 2 ^ 53;
  of_u64 = λ n. n;
  neg = λ a. 0;
  mul = ◌*◌;
  div = λ a b. a;
  ln_1p = λ a. 0;
  sqrt = λ a. a;
  cos = λ a. a;
}
