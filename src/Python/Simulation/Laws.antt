-- ===== src/Python/Simulation/Laws.antt =====
-- simcore-python/src/lib.rs: `run_until` from Python.
use sim_core.Base.{
  ℕ, Bool, true, false, not, ◌&&◌, Option, none, some, if◌then◌else◌, ◌≡◌, refl, arith, subst,
}
use sim_core.Float.{Float, IsIeee}
use sim_core.Env.{Result, ok, panicked, unfinished, ◌>>=◌, Program, Sim}
use sim_core.Env
use sim_core.Env.Clock.{Timed}
use sim_core.Env.Until.{NoneBefore, run_until_boundary}
use sim_core.Python.Objects.{PyErr, PyResult, value_error}
use sim_core.Python.Simulation.{Shared, check_error, raise_error, run_until, run_taken}

module _ (f : Float) (ieee : IsIeee f) (P E U : Type 0) (program : Program f P (Shared E U))
    (until : f.F) where
  open f use {F, le, is_finite}

  -- What Python is told, by what the error cell holds.
  pub data Raised : Option (PyErr E) → PyResult E (Unit {0}) → Type 0 where
    silent : Raised none (PyResult.ok tt)
    loud : (e : PyErr E) → Raised (some e) (PyResult.err e)

  raise_error-Raised : (e : Option (PyErr E)) → Raised e (raise_error f P E U e)
  raise_error-Raised none = silent
  raise_error-Raised (some e) = loud e

  -- The simulation after the kernel's run, which left it as `kernel`: it has stopped at the
  -- boundary, Python is told of the error that is in the cell then, and the cell is emptied.
  pub record Stopped (rounds fuel : ℕ) (m : Sim f P (Shared E U)) (r : PyResult E (Unit {0}))
      (m' : Sim f P (Shared E U)) : Type 0 where
    pub kernel : Sim f P (Shared E U)
    pub ran : Env.run_until f P true program rounds fuel until m ≡ ok kernel
    pub raised : Raised kernel.shared.error r
    pub emptied : m' ≡ record kernel { shared = record (kernel.shared) { error = none } }
    pub forward : le m.state.current_time m'.state.current_time ≡ true
    pub reached : le until m'.state.current_time ≡ true
    pub done : NoneBefore f ieee P until m'.state.event_queue
    pub timed : Timed f ieee P m'.state.current_time m'.state.event_queue

  abbrev pub UntilIf :
      ℕ
      → ℕ
      → Bool
      → Sim f P (Shared E U)
      → PyResult E (Unit {0})
      → Option (Sim f P (Shared E U))
      → Type 0
  UntilIf rounds fuel valid m r none = ⊥
  UntilIf rounds fuel true m r (some m') = Stopped rounds fuel m r m'
  UntilIf rounds fuel false m r (some m') = (r ≡ PyResult.err value_error) × (m' ≡ m)

  -- In a build with debug assertions, from a state with a finite clock, an ordered queue and no
  -- event before the clock, `run_until` from Python raises a `ValueError` and changes nothing where
  -- the boundary is not a finite number at or after zero. Otherwise, if it returns, the environment
  -- is back, as the kernel's `run_until` left it, which has stopped at the boundary, but for the
  -- error cell: the error that the kernel's run left there, if any, is what is raised, else nothing
  -- is, and the cell is empty.
  pub run_until-Until :
      (rounds fuel : ℕ) (m : Sim f P (Shared E U)) (r : PyResult E (Unit {0}))
      (s : Option (Sim f P (Shared E U)))
      → Timed f ieee P m.state.current_time m.state.event_queue
      → run_until f P E U true program rounds fuel until (some m) ≡ ok (r, s)
      → UntilIf rounds fuel (is_finite until && le f.zero until) m r s
  unfolding run_until check_error
  run_until-Until rounds fuel m r s timed returned =
      go (is_finite until && le f.zero until) refl returned
    where
      OnOk : Bool → Result (PyResult E (Unit {0}) × Option (Sim f P (Shared E U))) → Type 0
      OnOk b (ok (r', s')) = UntilIf rounds fuel b m r' s'
      OnOk b panicked = Unit
      OnOk b unfinished = Unit

      taken :
          is_finite until ≡ true
          → (x : Result (Sim f P (Shared E U)))
          → Env.run_until f P true program rounds fuel until m ≡ x
          → OnOk true (x >>= λ m'. ok (check_error f P E U m'))
      taken number (ok m') e =
          let (forward, reached, done, timed') =
            run_until_boundary f ieee P program until number rounds fuel m m' timed e in
          record {
            kernel = m';
            ran = e;
            raised = raise_error-Raised m'.shared.error;
            emptied = refl;
            forward = forward;
            reached = reached;
            done = done;
            timed = timed';
          }
      taken number panicked e = tt
      taken number unfinished e = tt

      go :
          (b : Bool)
          → (is_finite until && le f.zero until) ≡ b
          → (if not b
              then ok (PyResult.err value_error, some m)
              else run_taken f P E U true program rounds fuel until (some m))
            ≡ ok (r, s)
          → UntilIf rounds fuel b m r s
      go true valid h = subst (OnOk true) h (taken (ground arith) _ refl)
      go false valid h = subst (OnOk false) h (refl, refl)
