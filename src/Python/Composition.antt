-- ===== src/Python/Composition.antt =====
-- simcore-python/src/lib.rs: the stack of generators against plain calls of sub-routines.
use sim_core.Base.{ℕ, zero, suc, ◌+◌, ◌≡◌, refl, ap, ◌∙◌, List, ◌∷◌, Option, none, some, arith}
use sim_core.Float.{Float}
use sim_core.Python.Objects.{PyErr, PyResult, ok, err, Object, Request, Value, classify}
use sim_core.Python.Trampoline.{
  Step, yielded, stopped, failed, Answer, Heap, Ending, died, sent, as_subroutine, await, awaited,
  ask, serve, turn, drive,
}

module _ (f : Float) (E : Type 0) {W : Type 0} (send : Object f E → Value f E → W → Step f E × W)
    (wait : Request f E → Heap f E W → Answer f E × Heap f E W) where
  -- A generator run to its end by a call of its own.
  pub data Called : Type 0 where
    returned : Value f E → Heap f E W → Called
    raised : PyErr E → Heap f E W → Called
    out_of_fuel : Called

  -- The parts of a turn; `again` runs a generator on from a value sent into it.
  module _ (again : Object f E → Option (Value f E) → Heap f E W → Called) (g : Object f E) where
    abbrev after_call : Called → Called
    after_call (returned v h) = again g (some v) h
    after_call (raised e h) = raised e h
    after_call out_of_fuel = out_of_fuel

    module _ (h : Heap f E W) where
      abbrev after_await : PyResult E (Option (Value f E) × Heap f E W) → Called
      after_await (ok (resume, h')) = again g resume h'
      after_await (err e) = raised e h

      abbrev request : Request f E → Option (Object f E) → Called
      request r (some g') = after_call (again g' none h)
      request r none = after_await (await f E send wait r h)

      abbrev answer : PyResult E (Request f E) → Called
      answer (ok r) = request r (as_subroutine f E r)
      answer (err e) = raised e h

      abbrev step : Step f E → Called
      step (stopped v) = returned v h
      step (failed e) = raised e h
      step (yielded o) = answer (classify f E o)

  -- The specification: a generator that yields another one waits for it as for a function that it
  -- calls; whatever that one raises, it raises too.
  unfoldable pub call : ℕ → Object f E → Option (Value f E) → Heap f E W → Called
  call zero g resume h = out_of_fuel
  call (suc fuel) g resume h =
      let (s, python) = send g (sent f E resume) h.python in
      step (call fuel) g (record h { python = python }) s

  -- `run` on a stack does what the call says: it goes on below with the value, or ends.
  abbrev pub Leads : (ℕ → List (Object f E) → Ending f E W) → Called → Type 0
  Leads run (returned v h) =
      (m : ℕ) × ((j k : ℕ) (below : List (Object f E))
        → j ≡ m + k
        → run j below ≡ drive f E send wait k below (some v) h)
  Leads run (raised e h) =
      (m : ℕ) × ((j k : ℕ) (below : List (Object f E)) → j ≡ m + k → run j below ≡ died e h)
  Leads run out_of_fuel = Unit

  Leads-shift :
      (m : ℕ) (run run' : ℕ → List (Object f E) → Ending f E W) (c : Called)
      → ((j k : ℕ) (below : List (Object f E)) → j ≡ m + k → run j below ≡ run' k below)
      → Leads run' c
      → Leads run c
  Leads-shift m run run' (returned v h) same (m', l) =
      (m + m', λ j k below e. same j (m' + k) below (omega arith) ∙ l (m' + k) k below refl)
  Leads-shift m run run' (raised e h) same (m', l) =
      (m + m', λ j k below e. same j (m' + k) below (omega arith) ∙ l (m' + k) k below refl)
  Leads-shift m run run' out_of_fuel same l = tt

  abbrev Drives : ℕ → Type 0
  Drives n =
      (g : Object f E) (resume : Option (Value f E)) (h : Heap f E W)
      → Leads (λ j below. drive f E send wait j (g ∷ below) resume h) (call n g resume h)

  -- A call of a sub-routine, and then the caller again.
  after_call-Leads :
      (n : ℕ) (g g' : Object f E) (resume : Option (Value f E)) (h : Heap f E W) (c : Called)
      → Drives n
      → Leads (λ j below. drive f E send wait j (g' ∷ below) resume h) c
      → Leads (λ j below. drive f E send wait j (g' ∷ g ∷ below) resume h) (after_call (call n) g c)
  after_call-Leads n g g' resume h (returned v h') ih (m, l) =
      Leads-shift m _ (λ j below. drive f E send wait j (g ∷ below) (some v) h') _
        (λ j k below e. l j k (g ∷ below) e) (ih g (some v) h')
  after_call-Leads n g g' resume h (raised e h') ih (m, l) = (m, λ j k below e. l j k (g ∷ below) e)
  after_call-Leads n g g' resume h out_of_fuel ih l = tt

  module _ (n : ℕ) (ih : Drives n) (g : Object f E) (h : Heap f E W) where
    abbrev going : ℕ → List (Object f E) → Option (Value f E) → Heap f E W → Ending f E W
    going = drive f E send wait

    await-Leads :
        (a : PyResult E (Option (Value f E) × Heap f E W))
        → Leads
            (λ j below. awaited f E send wait (going j) g below h a)
            (after_await (call n) g h a)
    await-Leads (ok (resume, h')) = ih g resume h'
    await-Leads (err e) = (0, λ j k below e'. refl)

    ask-Leads :
        (r : Request f E) (o : Option (Object f E))
        → Leads (λ j below. ask f E send wait (going j) g below h r o) (request (call n) g h r o)
    ask-Leads r (some g') = after_call-Leads n g g' none h _ ih (ih g' none h)
    ask-Leads r none = await-Leads (await f E send wait r h)

    serve-Leads :
        (c : PyResult E (Request f E))
        → Leads (λ j below. serve f E send wait (going j) g below h c) (answer (call n) g h c)
    serve-Leads (ok r) = ask-Leads r (as_subroutine f E r)
    serve-Leads (err e) = (0, λ j k below e'. refl)

    turn-Leads :
        (s : Step f E)
        → Leads (λ j below. turn f E send wait (going j) g below h s) (step (call n) g h s)
    turn-Leads (stopped v) = (0, λ j k below e. ap (λ i. going i below (some v) h) (omega arith))
    turn-Leads (failed e) = (0, λ j k below e'. refl)
    turn-Leads (yielded o) = serve-Leads (classify f E o)

  call-Drives : (n : ℕ) → Drives n
  unfolding call drive
  call-Drives zero g resume h = tt
  call-Drives (suc n) g resume h =
      let (s, python) = send g (sent f E resume) h.python in
      Leads-shift 1 _ _ _ (λ j k below e. one j k below e)
        (turn-Leads n (call-Drives n) g (record h { python = python }) s)
    where
      one :
          (j k : ℕ) (below : List (Object f E))
          → j ≡ 1 + k
          → drive f E send wait j (g ∷ below) resume h
            ≡ turn f E send wait
                (drive f E send wait k)
                g
                below
                (record h { python = (send g (sent f E resume) h.python).1 })
                (send g (sent f E resume) h.python).0
      one j k below e =
          let e' : j ≡ suc k = omega arith in
          ap (λ i. drive f E send wait i (g ∷ below) resume h) e'

  abbrev pub Ends : (ℕ → List (Object f E) → Ending f E W) → Called → Type 0
  Ends run (returned v h) =
      (m : ℕ) × ((k : ℕ) (below : List (Object f E))
        → run (m + k) below ≡ drive f E send wait k below (some v) h)
  Ends run (raised e h) =
      (m : ℕ) × ((k : ℕ) (below : List (Object f E)) → run (m + k) below ≡ died e h)
  Ends run out_of_fuel = Unit

  Leads-Ends : (run : ℕ → List (Object f E) → Ending f E W) (c : Called) → Leads run c → Ends run c
  Leads-Ends run (returned v h) (m, l) = (m, λ k below. l (m + k) k below refl)
  Leads-Ends run (raised e h) (m, l) = (m, λ k below. l (m + k) k below refl)
  Leads-Ends run out_of_fuel l = tt

  -- When a call of a generator returns, so does the process with it on top of any stack, after so
  -- many turns: the value goes to the generator below it, or the process is done.
  -- When it raises, in whatever sub-routine, the process ends with that exception, whatever
  -- generators stand below.
  pub drive-call :
      (n : ℕ) (g : Object f E) (resume : Option (Value f E)) (h : Heap f E W)
      → Ends (λ j below. drive f E send wait j (g ∷ below) resume h) (call n g resume h)
  drive-call n g resume h = Leads-Ends _ _ (call-Drives n g resume h)
