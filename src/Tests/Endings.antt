-- ===== src/Tests/Endings.antt =====
-- A tree of processes: src/env.rs.
use sim_core.Base.{ℕ, zero, suc, ◌+◌, true, [], ◌∷◌, none, some, arith}
use sim_core.Float.Sample.{naturals}
use sim_core.Env.{Sim, Program, schedules, spawns, run, run_until}
use sim_core.Env.Termination.{Pays, Ends, run-Within}
use sim_core.Env.Results.{Ensures}
use sim_core.Env.Conservation.Loop.{Breeds, Conserves}
use sim_core.Env.Conservation.Law.{Has, started, run-conserves}
use sim_core.Env.Drained.{IsDone, run-IsDone}

-- A process of rank `suc n` spawns one of rank `n` and goes on as one of rank `n` a time unit later.
abbrev branching : Program naturals ℕ (Unit {0})
branching now waker u zero = record { calls = []; left = none; shared = u }
branching now waker u (suc n) = record {
  calls = spawns n ∷ schedules (now + 1) waker ∷ [];
  left = some n;
  shared = u;
}

-- For each rank: an event, a process of the rank below, and what is left.
abbrev size : ℕ → ℕ
size zero = 0
size (suc n) = (size n + 1) + 2 + size n

branching-pays : Pays naturals ℕ size true branching
branching-pays now waker u zero = omega arith
branching-pays now waker u (suc n) = omega arith

abbrev root : Sim naturals ℕ (Unit {0})
root = record {
  state = record {
    current_time = 0;
    event_queue = [];
    seq_counter = 0;
    ready_queue = [];
    next_process_id = 1;
    processes = [];
    pending_spawns = (0, 2) ∷ [];
  };
  shared = tt;
}

run-Within_example :
    Ends naturals ℕ size true branching root (run naturals ℕ true branching 20 20 root)
    × ((until : ℕ)
        → Ends naturals ℕ size true branching root
            (run_until naturals ℕ true branching 20 20 until root))
run-Within_example =
    run-Within naturals ℕ size true branching 20 20 root branching-pays (omega arith) (omega arith)

run-IsDone_example : IsDone naturals ℕ true branching (run naturals ℕ true branching 20 20 root)
run-IsDone_example =
    run-IsDone naturals ℕ true branching size 20 20 root branching-pays (omega arith) (omega arith)

-- A process that holds some units gives one to the shared count and the others to a child.
abbrev sharing : Program naturals ℕ ℕ
sharing now waker u zero = record { calls = []; left = none; shared = u }
sharing now waker u (suc n) = record { calls = spawns n ∷ []; left = none; shared = u + 1 }

sharing-Breeds : Breeds naturals ℕ (λ n. n) (λ n. n) (λ u. u) true sharing
sharing-Breeds now waker u zero = omega arith
sharing-Breeds now waker u (suc n) = omega arith

sharing-Conserves : Conserves naturals ℕ (λ n. n) (λ n. n) (λ u. u) true sharing
sharing-Conserves now waker u zero lives = omega arith
sharing-Conserves now waker u (suc n) lives = omega arith

abbrev shared_start : Sim naturals ℕ ℕ
shared_start = started naturals ℕ (λ n. n) (λ n. n) (λ u. u) true sharing (3 ∷ 2 ∷ []) 1

run-conserves_example :
    Ensures
      (Has naturals ℕ (λ n. n) (λ n. n) (λ u. u) true sharing 6)
      (run naturals ℕ true sharing 20 20 shared_start)
    × ((until : ℕ)
        → Ensures
            (Has naturals ℕ (λ n. n) (λ n. n) (λ u. u) true sharing 6)
            (run_until naturals ℕ true sharing 20 20 until shared_start))
run-conserves_example =
    run-conserves naturals ℕ (λ n. n) (λ n. n) (λ u. u) true sharing 20 20 (3 ∷ 2 ∷ []) 1
      sharing-Breeds sharing-Conserves (omega arith)
