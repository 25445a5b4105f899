-- ===== src/Tests/Python.antt =====
-- Two generators, small pools and a small simulation: simcore-python/src/lib.rs.
use sim_core.Base.{ℕ, ◌+◌, ◌≡◌, refl, Bool, true, false, List, [], ◌∷◌, none, some, update}
use sim_core.Float.Sample.{naturals, naturals-IsIeee}
use sim_core.Executor.Waker.{make_waker}
use sim_core.Env.{
  Sim, Program, schedules, ok, settle, poll_ready, drain_pending_spawns, poll_batch, admit_all,
  poll_entry, perform_all, perform, run_until_loop,
}
use sim_core.Env
use sim_core.Executor.State.{schedule_wakeup}
use sim_core.Heap.{push}
use sim_core.Combinator.{any_poll}
use sim_core.Python.Objects.{PyErr, PyResult, raised, Object, Request, Value, classify}
use sim_core.Python.Trampoline.{Step, yielded, stopped, failed, Answer, Heap, drive}
use sim_core.Python.Composition.{Ends, call, drive-call}
use sim_core.Python.Awaiting.{Delivers, await-Delivers}
use sim_core.Python.Arms.{any_of, all_of, poll_arm, enumerate}
use sim_core.Python.Arms.Laws.{Built, Raced, any_of-Raced, first_ready, any_poll-first_ready}
use sim_core.Python.Simulation.{Shared, run_until, check_error}
use sim_core.Python.Simulation.Laws.{UntilIf, run_until-Until}

-- What is left of each generator, by its number.
abbrev Scripts : Type 0
Scripts = ℕ → List (Step naturals ℕ)

abbrev generator : ℕ → Object naturals ℕ
generator g = Object.generator g

abbrev resume_script : ℕ → Scripts → List (Step naturals ℕ) → Step naturals ℕ × Scripts
resume_script g w [] = (failed PyErr.runtime_error, w)
resume_script g w (s ∷ ss) = (s, update w g ss)

abbrev send : Object naturals ℕ → Value naturals ℕ → Scripts → Step naturals ℕ × Scripts
send (Object.generator g) v w = resume_script g w (w g)
send o v w = (failed PyErr.type_error, w)

-- A resource hands out guard 7.
abbrev wait :
    Request naturals ℕ → Heap naturals ℕ Scripts → Answer naturals ℕ × Heap naturals ℕ Scripts
wait (Request.acquire a r) h = (Answer.guard 7, h)
wait r h = (Answer.unit, h)

-- Generator 0 sleeps, waits for generator 1 and ends; generator 1 acquires a unit, and raises.
abbrev scripts : Scripts
scripts =
    update (update (λ g. []) 1 (yielded (Object.acquire 5 0) ∷ failed (raised 42) ∷ [])) 0
      (yielded (Object.timeout 3) ∷ yielded (generator 1) ∷ stopped Value.none_value ∷ [])

abbrev heap : Heap naturals ℕ Scripts
heap = record { python = scripts; guards = λ a. none; winners = λ a. none; arms = λ a. [] }

drive-call_example :
    Ends naturals ℕ send wait
      (λ j below. drive naturals ℕ send wait j (generator 0 ∷ below) none heap)
      (call naturals ℕ send wait 9 (generator 0) none heap)
drive-call_example = drive-call naturals ℕ send wait 9 (generator 0) none heap

abbrev arms : List (Object naturals ℕ)
arms = Object.timeout 3 ∷ Object.preemption_signal 2 ∷ []

any_of-Raced_example :
    Raced naturals ℕ arms (any_of naturals ℕ arms) × Built naturals ℕ arms (all_of naturals ℕ arms)
any_of-Raced_example = any_of-Raced naturals ℕ arms

-- An arm that is a Boolean is ready when it is true; the world counts the polls.
abbrev poll_flag : Bool → ℕ → Bool × (Bool × ℕ)
poll_flag b n = (b, (b, n + 1))

any_poll-first_ready_example :
    any_poll (poll_arm poll_flag) (enumerate 0 (false ∷ true ∷ true ∷ [])) (0, none)
    ≡ (true, (enumerate 0 (false ∷ true ∷ true ∷ []), (2, some 1)))
unfolding any_poll first_ready
any_poll-first_ready_example = any_poll-first_ready poll_flag (false ∷ true ∷ true ∷ []) 0

await-Delivers_example :
    Delivers naturals ℕ
      (Object.any_of 3)
      (Answer.winner (some 1))
      (classify naturals ℕ (Object.any_of 3))
await-Delivers_example = await-Delivers naturals ℕ (Object.any_of 3) (Answer.winner (some 1))

-- A process is the list of the delays it still has to wait for, and raises when it is through.
abbrev clockwork : Program naturals (List ℕ) (Shared ℕ ℕ)
clockwork now waker u [] = record {
  calls = [];
  left = none;
  shared = record u { error = some (raised 42) };
}
clockwork now waker u (d ∷ ds) = record {
  calls = schedules (now + d) waker ∷ [];
  left = some ds;
  shared = u;
}

abbrev spawned : Sim naturals (List ℕ) (Shared ℕ ℕ)
spawned = record {
  state = record {
    current_time = 0;
    event_queue = [];
    seq_counter = 0;
    ready_queue = [];
    next_process_id = 2;
    processes = [];
    pending_spawns = (0, 2 ∷ 3 ∷ []) ∷ (1, 4 ∷ []) ∷ [];
  };
  shared = record { error = none; rest = 0 };
}

-- Process 1 has failed at time 4, and process 0 is to go on at time 5.
abbrev failed_by_five : Sim naturals (List ℕ) (Shared ℕ ℕ)
failed_by_five = record {
  state = record {
    current_time = 5;
    event_queue = record { time = 5; seq = 2; waker = make_waker 0 } ∷ [];
    seq_counter = 3;
    ready_queue = [];
    next_process_id = 2;
    processes = some (record { future = []; waker = make_waker 0 }) ∷ none ∷ [];
    pending_spawns = [];
  };
  shared = record { error = none; rest = 0 };
}

run_until-Until_example :
    UntilIf naturals naturals-IsIeee
      (List ℕ)
      ℕ
      ℕ
      clockwork
      5
      3
      9
      true
      spawned
      (PyResult.err (raised 42))
      (some failed_by_five)
unfolding run_until check_error Env.run_until settle poll_ready drain_pending_spawns poll_batch
    admit_all poll_entry perform_all perform schedule_wakeup run_until_loop push
run_until-Until_example =
    run_until-Until naturals naturals-IsIeee (List ℕ) ℕ ℕ clockwork 5 3 9 spawned
      (PyResult.err (raised 42)) (some failed_by_five)
      (record { number = refl; sorted = tt; ahead = tt }) refl
