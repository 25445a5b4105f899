-- ===== src/Python/Simulation.antt =====
-- simcore-python/src/lib.rs: `Simulation`, which lends its environment to a run and raises what a
-- process left in the error cell.
pub mod Laws
use sim_core.Base.{ℕ, Bool, true, false, not, ◌&&◌, Option, none, some, if◌then◌else◌, ◌≡◌, refl}
use sim_core.Float.{Float, IsIeee}
use sim_core.Env.{Result, ok, panicked, unfinished, ◌>>=◌, Program, Sim}
use sim_core.Env
use sim_core.Env.Clock.{Timed}
use sim_core.Env.Until.{NoneBefore, run_until_boundary}
use sim_core.Python.Objects
use sim_core.Python.Objects.{PyErr, PyResult, value_error, runtime_error}

-- What processes share: the error cell, and all else.
pub record Shared (E U : Type 0) : Type 0 where
  pub error : Option (PyErr E)
  pub rest : U

-- A process that fails writes the cell.
unfoldable pub fail : {E U : Type 0} → PyErr E → Shared E U → Shared E U
fail e s = record s { error = some e }

module _ (f : Float) (P E U : Type 0) where
  open f use {F, le, is_finite}

  -- `none`: the environment is out on a run.
  abbrev pub Simulation : Type 0
  Simulation = Option (Sim f P (Shared E U))

  abbrev pub Outcome : Type 0
  Outcome = PyResult E (Unit {0}) × Simulation

  abbrev pub without_error : Sim f P (Shared E U) → Sim f P (Shared E U)
  without_error m = record m { shared = record (m.shared) { error = none } }

  abbrev pub raise_error : Option (PyErr E) → PyResult E (Unit {0})
  raise_error none = PyResult.ok tt
  raise_error (some e) = PyResult.err e

  -- The environment is put back, and the error is taken out of its cell.
  unfoldable pub check_error : Sim f P (Shared E U) → Outcome
  check_error m = (raise_error m.shared.error, some (without_error m))

  module _ (debug : Bool) (program : Program f P (Shared E U)) where
    -- `take_env` fails while a run is on.
    unfoldable pub run : ℕ → ℕ → Simulation → Result Outcome
    run rounds fuel none = ok (PyResult.err runtime_error, none)
    run rounds fuel (some m) = do m' ← Env.run f P debug program rounds fuel m; ok (check_error m')

    abbrev pub run_taken : ℕ → ℕ → F → Simulation → Result Outcome
    run_taken rounds fuel until none = ok (PyResult.err runtime_error, none)
    run_taken rounds fuel until (some m) = do
      m' ← Env.run_until f P debug program rounds fuel until m
      ok (check_error m')

    unfoldable pub run_until : ℕ → ℕ → F → Simulation → Result Outcome
    run_until rounds fuel until s =
        if not (is_finite until && le f.zero until)
        then ok (PyResult.err value_error, s)
        else run_taken rounds fuel until s
