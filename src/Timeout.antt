-- ===== src/Timeout.antt =====
-- src/timeout.rs, and `EnvHandle::timeout` of src/env.rs.
pub mod Laws
pub mod Calls
use sim_core.Base.{Bool, true, false, ◌&&◌, Option, none, some, if◌then◌else◌}
use sim_core.Float.{Float}
use sim_core.Executor.Waker.{SimWaker}
use sim_core.Executor.State.{SimState, schedule_wakeup}

module _ (f : Float) where
  open f use {F, le, add, is_finite}

  pub record Timeout : Type 0 where
    pub deadline : F
    pub scheduled : Bool

  pub record Polled (P : Type 0) : Type 0 where
    pub ready : Bool
    pub future : Timeout
    pub state : SimState f P

  module _ {P : Type 0} where
    -- `EnvHandle::timeout`: `none` is the panic on a delay that is negative or not finite.
    unfoldable pub timeout : F → SimState f P → Option Timeout
    timeout delay s =
        if le f.zero delay && is_finite delay
        then some (record { deadline = add s.current_time delay; scheduled = false })
        else none

    abbrev pub scheduling : Timeout → Option (SimState f P) → Option (Polled P)
    scheduling t none = none
    scheduling t (some s) =
        some (record { ready = false; future = record t { scheduled = true }; state = s })

    -- `none` is the panic of the assertion in `schedule_wakeup`.
    unfoldable pub poll : Bool → Timeout → SimWaker → SimState f P → Option (Polled P)
    poll debug t waker s =
        if t.scheduled && le t.deadline s.current_time
        then some (record { ready = true; future = t; state = s })
        else (if t.scheduled
            then some (record { ready = false; future = t; state = s })
            else scheduling t (schedule_wakeup f debug t.deadline waker s))
