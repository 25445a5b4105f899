-- ===== src/Tests/Loops.antt =====
-- A small simulation: src/env.rs and src/timeout.rs.
use sim_core.Base.{ℕ, arith, ◌<◌, All, ◌+◌, ◌≡◌, refl, true, false, List, [], ◌∷◌, none, some}
use sim_core.Float.Sample.{naturals, naturals-IsIeee}
use sim_core.Executor.Waker.{make_waker}
use sim_core.Executor.State.{ScheduledWaker, SimState, event_ord, schedule_wakeup}
use sim_core.Executor.Order.{insert_by_time, schedule_wakeup-stable}
use sim_core.Heap.{push}
use sim_core.Timeout
use sim_core.Timeout.{Timeout, Polled, timeout}
use sim_core.Timeout.Laws.{stale_timeout}
use sim_core.Env.{
  Sim, Program, ok, schedules, run, run_until, settle, poll_ready, drain_pending_spawns, poll_batch,
  admit_all, poll_entry, perform_all, perform, run_loop, run_until_loop,
}
use sim_core.Env.Clock.{Timed}
use sim_core.Env.Trace.{Fired, run-Fired}
use sim_core.Env.Until.{NoneBefore, run_until_boundary}

-- A process is the list of the delays it still has to wait for; when polled it schedules its own
-- wake-up after the next of them.
abbrev clockwork : Program naturals (List ℕ) (Unit {0})
clockwork now waker u [] = record { calls = []; left = none; shared = u }
clockwork now waker u (d ∷ ds) = record {
  calls = schedules (now + d) waker ∷ [];
  left = some ds;
  shared = u;
}

-- Two processes that have been spawned at time 0.
abbrev spawned : Sim naturals (List ℕ) (Unit {0})
spawned = record {
  state = record {
    current_time = 0;
    event_queue = [];
    seq_counter = 0;
    ready_queue = [];
    next_process_id = 2;
    processes = [];
    pending_spawns = (0, 2 ∷ 3 ∷ []) ∷ (1, 4 ∷ []) ∷ [];
  };
  shared = tt;
}

abbrev at_zero : Timed naturals naturals-IsIeee (List ℕ) 0 []
at_zero = record { number = refl; sorted = tt; ahead = tt }

-- Both are done at time 5.
abbrev finished : Sim naturals (List ℕ) (Unit {0})
finished = record {
  state = record {
    current_time = 5;
    event_queue = [];
    seq_counter = 3;
    ready_queue = [];
    next_process_id = 2;
    processes = none ∷ none ∷ [];
    pending_spawns = [];
  };
  shared = tt;
}

-- At time 3 each waits for one more event.
abbrev paused : Sim naturals (List ℕ) (Unit {0})
paused = record {
  state = record {
    current_time = 3;
    event_queue =
        record { time = 4; seq = 1; waker = make_waker 1 }
        ∷ record { time = 5; seq = 2; waker = make_waker 0 }
        ∷ [];
    seq_counter = 3;
    ready_queue = [];
    next_process_id = 2;
    processes =
        some (record { future = []; waker = make_waker 0 })
        ∷ some (record { future = []; waker = make_waker 1 })
        ∷ [];
    pending_spawns = [];
  };
  shared = tt;
}

run-Fired_example :
    (n : Sim naturals (List ℕ) (Unit {0})) × (settle naturals (List ℕ) true clockwork 3 spawned
      ≡ ok n)
    × Fired naturals naturals-IsIeee (List ℕ) clockwork 3 0 n finished
    × (naturals.le 0 5 ≡ true)
    × Timed naturals naturals-IsIeee (List ℕ) 5 []
unfolding run settle poll_ready drain_pending_spawns poll_batch admit_all poll_entry perform_all
    perform schedule_wakeup run_loop push
run-Fired_example =
    run-Fired naturals naturals-IsIeee (List ℕ) clockwork 3 9 spawned finished at_zero refl

run_until_boundary_example :
    (naturals.le 0 3 ≡ true)
    × (naturals.le 3 3 ≡ true)
    × NoneBefore naturals naturals-IsIeee (List ℕ) 3 paused.state.event_queue
    × Timed naturals naturals-IsIeee (List ℕ) 3 paused.state.event_queue
unfolding run_until settle poll_ready drain_pending_spawns poll_batch admit_all poll_entry
    perform_all perform schedule_wakeup run_until_loop push
run_until_boundary_example =
    run_until_boundary naturals naturals-IsIeee (List ℕ) clockwork 3 refl 3 9 spawned paused at_zero
      refl

-- Time 4, and one event ahead.
abbrev at_four : SimState naturals (List ℕ)
at_four = record {
  current_time = 4;
  event_queue = record { time = 6; seq = 0; waker = make_waker 0 } ∷ [];
  seq_counter = 1;
  ready_queue = [];
  next_process_id = 2;
  processes = [];
  pending_spawns = [];
}

-- Made at time 0 for a delay of 3, and not polled before time 4.
abbrev stale : Timeout naturals
stale = record { deadline = 3; scheduled = false }

stale_timeout_example :
    (Timeout.poll naturals true stale (make_waker 1) at_four ≡ none)
    × (Timeout.poll naturals false stale (make_waker 1) at_four
        ≡ some (record {
          ready = false;
          future = record stale { scheduled = true };
          state = record at_four {
            seq_counter = 2;
            event_queue = record { time = 3; seq = 1; waker = make_waker 1 } ∷ at_four.event_queue;
          };
        }))
stale_timeout_example =
    stale_timeout naturals naturals-IsIeee (List ℕ) stale (make_waker 1) at_four
      (record { number = refl; sorted = (tt, tt); ahead = ((refl, refl), tt) }) refl refl refl

-- At time 4, a second event is scheduled for time 6.
abbrev again_at_six : SimState naturals (List ℕ)
again_at_six = record at_four {
  event_queue =
      record { time = 6; seq = 0; waker = make_waker 0 }
      ∷ record { time = 6; seq = 1; waker = make_waker 1 }
      ∷ [];
  seq_counter = 2;
}

schedule_wakeup-stable_example :
    (again_at_six.event_queue
      ≡ insert_by_time naturals
          (List ℕ)
          (record { time = 6; seq = 1; waker = make_waker 1 })
          at_four.event_queue)
    × All (λ (x : ScheduledWaker naturals). x.seq < 2) again_at_six.event_queue
unfolding schedule_wakeup push
schedule_wakeup-stable_example =
    schedule_wakeup-stable naturals (List ℕ) true 6 (make_waker 1) at_four again_at_six
      (omega arith, tt) (omega arith) refl
