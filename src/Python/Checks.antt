-- ===== src/Python/Checks.antt =====
-- simcore-python/src/lib.rs: what the binding checks before it calls the kernel.
-- In a result `ok none` the check has passed and the kernel has panicked.
pub mod Laws
use sim_core.Base.{ℕ, Bool, true, false, not, ◌&&◌, Option, none, some, ◌==◌, if◌then◌else◌}
use sim_core.Float.{Float}
use sim_core.WaitQueue.{WaitQueue, World}
use sim_core.Resource
use sim_core.PriorityResource
use sim_core.Preemptive
use sim_core.Preemptive.{PreemptiveState}
use sim_core.Container
use sim_core.Container.{ContainerState}
use sim_core.Container.Requests.{ContainerRequest}
use sim_core.Executor.State.{SimState}
use sim_core.Timeout.{Timeout}
use sim_core.Timeout
use sim_core.Python.Objects.{PyErr, PyResult, ok, err, value_error, Object}
use sim_core.Python.Arms.{◌>>=◌}

module _ (E : Type 0) where
  unfoldable pub new_resource : ℕ → PyResult E (Option (WaitQueue (Unit {0})))
  new_resource capacity = if capacity == 0 then err value_error else ok (Resource.new capacity)

  unfoldable pub new_priority_resource : ℕ → PyResult E (Option (WaitQueue ℕ))
  new_priority_resource capacity =
      if capacity == 0 then err value_error else ok (PriorityResource.new capacity)

  unfoldable pub new_preemptive_resource : ℕ → PyResult E (Option PreemptiveState)
  new_preemptive_resource capacity =
      if capacity == 0 then err value_error else ok (Preemptive.new capacity)

module _ (f : Float) (E : Type 0) where
  open f use {F, le, lt, is_finite}

  unfoldable pub new_container : F → F → PyResult E (Option (ContainerState f))
  new_container capacity init =
      if not (is_finite capacity && lt f.zero capacity)
      then err value_error
      else (if not (is_finite init && le f.zero init && le init capacity)
          then err value_error
          else ok (Container.new f capacity init))

  unfoldable pub check_amount : F → F → PyResult E (Unit {0})
  check_amount amount capacity =
      if not (is_finite amount && lt f.zero amount)
      then err value_error
      else (if lt capacity amount then err value_error else ok tt)

  -- `Container.get` and `Container.put` of the container at an address.
  unfoldable pub get : ℕ → F → ContainerState f → PyResult E (Object f E)
  unfolding check_amount
  get container amount s = do
    _ ← check_amount amount s.capacity
    ok (Object.container_get container amount)

  unfoldable pub put : ℕ → F → ContainerState f → PyResult E (Object f E)
  unfolding check_amount
  put container amount s = do
    _ ← check_amount amount s.capacity
    ok (Object.container_put container amount)

  unfoldable pub timeout : F → PyResult E (Object f E)
  timeout t = if not (le f.zero t && is_finite t) then err value_error else ok (Object.timeout t)
