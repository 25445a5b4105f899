-- ===== src/Python/Draws.antt =====
-- simcore-python/src/lib.rs: the draws of a `Simulation` from its random source.
use sim_core.Base.{not, ◌&&◌, if◌then◌else◌}
use sim_core.Float.{Float}
use sim_core.Rng.Sample.{RngCore, Math, uniform01, exponential}
use sim_core.Python.Objects.{PyResult, ok, err, value_error}

module _ (f : Float) (m : Math f) (g : RngCore) (E : Type 0) where
  open f use {F, le, lt, add, sub, is_finite}

  unfoldable pub rng_random : g.R → F × g.R
  rng_random r = uniform01 f m g r

  -- A refused draw takes no output.
  unfoldable pub rng_uniform : F → F → g.R → PyResult E F × g.R
  rng_uniform a b r =
      let (u, r') = rng_random r in
      if not (is_finite a && is_finite b && le a b)
      then (err value_error, r)
      else (ok (add a (m.mul (sub b a) u)), r')

  unfoldable pub rng_exponential : F → g.R → PyResult E F × g.R
  rng_exponential mean r =
      let (x, r') = exponential f m g mean r in
      if not (lt f.zero mean && is_finite mean) then (err value_error, r) else (ok x, r')
