-- ===== src/Python/Trampoline.antt =====
-- simcore-python/src/lib.rs: the process that `Simulation::spawn` wraps round a coroutine: a stack of
-- generators, each the sub-routine of the one below it.
use sim_core.Base.{ℕ, zero, suc, List, [], ◌∷◌, Option, none, some, update}
use sim_core.Float.{Float}
use sim_core.Python.Arms.{build_arms}
use sim_core.Python.Objects.{
  PyErr, PyResult, ok, err, Object, Request, subroutine, Value, none_value, index, object, classify,
}

module _ (f : Float) (E : Type 0) where
  -- What a `send` into a Python object does.
  pub data Step : Type 0 where
    yielded : Object f E → Step
    stopped : Value f E → Step
    failed : PyErr E → Step

  -- What the kernel future of a request resolves to.
  pub data Answer : Type 0 where
    unit : Answer
    guard : ℕ → Answer
    winner : Option ℕ → Answer

  -- `python`: the state of the interpreter, other processes included; `guards`, `winners` and
  -- `arms`: those of the request objects.
  pub record Heap (W : Type 0) : Type 0 where
    pub python : W
    pub guards : ℕ → Option ℕ
    pub winners : ℕ → Option ℕ
    pub arms : ℕ → List (Object f E)

  -- The end of a process: `failed` is what goes to the error cell; `unfinished`: no fuel.
  pub data Ending (W : Type 0) : Type 0 where
    done : Heap W → Ending W
    died : PyErr E → Heap W → Ending W
    unfinished : Ending W

  module _ {W : Type 0} where
    abbrev pub set_guard : ℕ → Answer → Heap W → Heap W
    set_guard a (guard g) h = record h { guards = update h.guards a (some g) }
    set_guard a _ h = h

    abbrev pub set_winner : ℕ → Answer → Heap W → Heap W
    set_winner a (winner i) h = record h { winners = update h.winners a i }
    set_winner a _ h = h

    -- What is stored in the request object when its future has resolved.
    unfoldable pub store : Request f E → Answer → Heap W → Heap W
    store (Request.acquire a r) answer h = set_guard a answer h
    store (Request.priority_acquire a r p) answer h = set_guard a answer h
    store (Request.preempt_acquire a r p) answer h = set_guard a answer h
    store (Request.any_of a) answer h = set_winner a answer h
    store _ answer h = h

  abbrev pub index_of : Answer → Option (Value f E)
  index_of (winner (some i)) = some (index i)
  index_of _ = none

  -- The value of `resume` after the await.
  unfoldable pub resumed : Request f E → Answer → Option (Value f E)
  resumed (Request.acquire a r) answer = some (object (Object.acquire a r))
  resumed (Request.priority_acquire a r p) answer = some (object (Object.priority_acquire a r p))
  resumed (Request.preempt_acquire a r p) answer = some (object (Object.preempt_acquire a r p))
  resumed (Request.any_of a) answer = index_of answer
  resumed _ answer = none

  abbrev pub as_subroutine : Request f E → Option (Object f E)
  as_subroutine (subroutine g) = some g
  as_subroutine _ = none

  abbrev pub sent : Option (Value f E) → Value f E
  sent none = none_value
  sent (some v) = v

  -- `send`: Python's `send` method of an object; `wait`: the await of a request's kernel future,
  -- with all that happens meanwhile.
  module _ {W : Type 0} (send : Object f E → Value f E → W → Step × W)
      (wait : Request f E → Heap W → Answer × Heap W) where
    abbrev pub after_wait : Request f E → Answer × Heap W → Option (Value f E) × Heap W
    after_wait r (answer, h) = (resumed r answer, store r answer h)

    -- A race or a join is awaited once the futures of its arms are built.
    abbrev pub await_built :
        Request f E
        → Heap W
        → PyResult E (List (Request f E))
        → PyResult E (Option (Value f E) × Heap W)
    await_built r h (ok futures) = ok (after_wait r (wait r h))
    await_built r h (err e) = err e

    unfoldable pub await : Request f E → Heap W → PyResult E (Option (Value f E) × Heap W)
    await (Request.any_of a) h = await_built (Request.any_of a) h (build_arms f E (h.arms a))
    await (Request.all_of a) h = await_built (Request.all_of a) h (build_arms f E (h.arms a))
    await r h = ok (after_wait r (wait r h))

    -- The parts of a turn of the loop; `again` is the rest of it.
    module _ (again : List (Object f E) → Option (Value f E) → Heap W → Ending W) (top : Object f E)
        (below : List (Object f E)) (h : Heap W) where
      abbrev pub awaited : PyResult E (Option (Value f E) × Heap W) → Ending W
      awaited (ok (resume, h')) = again (top ∷ below) resume h'
      awaited (err e) = died e h

      -- A sub-routine is pushed, and primed with `None`.
      abbrev pub ask : Request f E → Option (Object f E) → Ending W
      ask r (some g) = again (g ∷ top ∷ below) none h
      ask r none = awaited (await r h)

      abbrev pub serve : PyResult E (Request f E) → Ending W
      serve (ok r) = ask r (as_subroutine r)
      serve (err e) = died e h

      -- A return value is sent into the generator below; an exception ends the whole process.
      abbrev pub turn : Step → Ending W
      turn (stopped v) = again below (some v) h
      turn (failed e) = died e h
      turn (yielded o) = serve (classify f E o)

    -- The loop `while !stack.is_empty()`; the top of the stack stands first.
    unfoldable pub drive : ℕ → List (Object f E) → Option (Value f E) → Heap W → Ending W
    drive zero stack resume h = unfinished
    drive (suc fuel) [] resume h = done h
    drive (suc fuel) (top ∷ below) resume h =
        let (step, python) = send top (sent resume) h.python in
        turn (drive fuel) top below (record h { python = python }) step
