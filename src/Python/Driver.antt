-- ===== src/Python/Driver.antt =====
-- simcore-python/src/lib.rs: the iterator that `__await__` returns, and the one of `__aexit__`.
use sim_core.Base.{Bool, true, false, if◌then◌else◌}
use sim_core.Float.{Float}
use sim_core.Python.Objects.{Object, Value, none_value, boolean}

module _ (f : Float) (E : Type 0) where
  pub record Driver : Type 0 where
    pub request : Object f E
    pub fallback : Value f E
    pub yielded : Bool

  -- `stops` is a `StopIteration` that carries its value.
  pub data Step : Type 0 where
    yields : Object f E → Step
    stops : Value f E → Step

  unfoldable pub new : Object f E → Value f E → Driver
  new request fallback = record { request = request; fallback = fallback; yielded = false }

  unfoldable pub next : Driver → Step × Driver
  next d =
      if d.yielded then (stops d.fallback, d) else (yields d.request, record d { yielded = true })

  -- A sent `None` gives the fallback.
  abbrev pub result : Value f E → Value f E → Value f E
  result fallback none_value = fallback
  result fallback v = v

  unfoldable pub send : Value f E → Driver → Step × Driver
  send v d =
      if d.yielded
      then (stops (result d.fallback v), d)
      else (yields d.request, record d { yielded = true })

  -- `Completed.__next__`
  unfoldable pub completed : Step
  completed = stops (boolean false)

  -- An `await` of a request, as Python runs it: the driver is primed with `next`; a value that is
  -- not `None` is delivered by `send`, and `None` by `next`.
  unfoldable pub deliver : Value f E → Driver → Step × Driver
  deliver none_value d = next d
  deliver v d = send v d
