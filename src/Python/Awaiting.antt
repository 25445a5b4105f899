-- ===== src/Python/Awaiting.antt =====
-- simcore-python/src/lib.rs: what an `await` of a request object evaluates to in a coroutine.
use sim_core.Base.{◌≡◌, refl, none, some}
use sim_core.Float.{Float}
use sim_core.Python.Objects.{
  PyResult, ok, err, Object, Request, subroutine, Value, none_value, index, object, classify,
}
use sim_core.Python.Driver.{Driver, new, next, send, deliver, yields, stops}
use sim_core.Python.Trampoline.{Answer, winner, resumed, sent}

module _ (f : Float) (E : Type 0) where
  -- The fallback that the `__await__` of each request object gives its driver.
  unfoldable pub fallback : Object f E → Value f E
  fallback (Object.acquire a r) = object (Object.acquire a r)
  fallback (Object.priority_acquire a r p) = object (Object.priority_acquire a r p)
  fallback (Object.preempt_acquire a r p) = object (Object.preempt_acquire a r p)
  fallback (Object.any_of a) = object (Object.any_of a)
  fallback _ = none_value

  -- `__await__`, and `__aenter__` of the three kinds of acquire requests.
  unfoldable pub await_request : Object f E → Driver f E
  await_request o = new f E o (fallback o)

  -- The documented result: an acquire request itself, the index of a race's winner, or `None`.
  unfoldable pub documented : Object f E → Answer f E → Value f E
  documented (Object.acquire a r) answer = object (Object.acquire a r)
  documented (Object.priority_acquire a r p) answer = object (Object.priority_acquire a r p)
  documented (Object.preempt_acquire a r p) answer = object (Object.preempt_acquire a r p)
  documented (Object.any_of a) (winner (some i)) = index i
  documented (Object.any_of a) answer = object (Object.any_of a)
  documented _ answer = none_value

  -- A request object is handed to the process unchanged, and what it resumes the coroutine with,
  -- sent through the driver, comes out as the documented result.
  abbrev pub Delivers : Object f E → Answer f E → PyResult E (Request f E) → Type 0
  Delivers o answer (err e) = Unit
  Delivers o answer (ok (subroutine g)) = Unit
  Delivers o answer (ok r) =
      let (step, d) = next f E (await_request o) in
      (step ≡ yields o)
      × ((deliver f E (sent f E (resumed f E r answer)) d).0 ≡ stops (documented o answer))

  -- For every object that is classified as a request, and whatever its kernel future resolves to:
  -- the driver of its `await` first yields the object itself to the process, and when the process
  -- resumes the coroutine the `await` ends with the documented result, which is the request itself
  -- for an acquire, the winner's index for a race that has a winner, and `None` for a timeout, an
  -- event, a signal, a container's `get` or `put`, and a join.
  pub await-Delivers : (o : Object f E) (answer : Answer f E) → Delivers o answer (classify f E o)
  unfolding classify next await_request new fallback deliver send resumed documented
  await-Delivers (Object.timeout t) answer = (refl, refl)
  await-Delivers (Object.acquire a r) answer = (refl, refl)
  await-Delivers (Object.priority_acquire a r p) answer = (refl, refl)
  await-Delivers (Object.preempt_acquire a r p) answer = (refl, refl)
  await-Delivers (Object.container_get c x) answer = (refl, refl)
  await-Delivers (Object.container_put c x) answer = (refl, refl)
  await-Delivers (Object.event e) answer = (refl, refl)
  await-Delivers (Object.preemption_signal s) answer = (refl, refl)
  await-Delivers (Object.any_of a) (winner (some i)) = (refl, refl)
  await-Delivers (Object.any_of a) (winner none) = (refl, refl)
  await-Delivers (Object.any_of a) Answer.unit = (refl, refl)
  await-Delivers (Object.any_of a) (Answer.guard g) = (refl, refl)
  await-Delivers (Object.all_of a) answer = (refl, refl)
  await-Delivers (Object.generator g) answer = tt
  await-Delivers (Object.other x) answer = tt
  await-Delivers (Object.faulty e) answer = tt
