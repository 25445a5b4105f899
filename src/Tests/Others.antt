-- ===== src/Tests/Others.antt =====
-- Small runs: src/event.rs, src/process.rs, src/rng.rs, src/monte_carlo.rs, src/combinator.rs and
-- src/resource/preemptive.rs.
use Prim.Native.Nat.{min}
use sim_core.Base.{
  ℕ, ◌+◌, ◌*◌, ◌/◌, ◌%◌, ◌-◌, ◌≡◌, ◌++◌, Bool, true, List, [], ◌∷◌, none, some, arith, u64_mod,
  get_elem?, map, take, suc, leb, ◌==◌, if◌then◌else◌,
}
use sim_core.Executor.Waker.{SimWaker, make_waker}
use sim_core.Event
use sim_core.Event.{new_event, fire}
use sim_core.Event.Laws.{polled_by, waiting, fire_wakes_once}
use sim_core.Process
use sim_core.Process.{new_slot, finish}
use sim_core.Process.Laws.{polls, woken, last_awaiter, handle_yields_once}
use sim_core.Rng.{SplitMix64, reseed, mix, gamma, fill_bytes}
use sim_core.Rng.Laws.{draws, reseed-restarts}
use sim_core.Rng.Bytes.{bytes_of, fill_bytes-stream}
use sim_core.MonteCarlo.{Joined, run, sequential, run-sequential}
use sim_core.Combinator.{all_poll, any_poll}
use sim_core.Combinator.Laws.{
  any_poll-Raced, Raced, poll_each, all_ready, pending, all_poll-poll_each,
}

-- Process 1 polls twice, and process 2 once.
abbrev pollers : List SimWaker
pollers = make_waker 1 ∷ make_waker 2 ∷ make_waker 1 ∷ []

fire_wakes_once_example :
    let s = polled_by pollers new_event in
    let r = fire s (9 ∷ []) in
    (r.1 ≡ 9 ∷ map (λ (w : SimWaker). w.process_id) s.waiters)
    × (waiting 1 s.waiters ≡ min 1 (waiting 1 pollers))
    × (Event.poll (make_waker 3) r.0 ≡ (true, r.0))
fire_wakes_once_example = fire_wakes_once pollers (9 ∷ []) 1 (make_waker 3)

handle_yields_once_example :
    let r = finish {T = ℕ} 42 (polls pollers new_slot) [] in
    (r.1 ≡ [] ++ woken (last_awaiter pollers none))
    × ((Process.poll (make_waker 1) r.0).0 ≡ some 42)
    × ((Process.poll (make_waker 1) (Process.poll (make_waker 1) r.0).1).0 ≡ none)
handle_yields_once_example = handle_yields_once {T = ℕ} pollers 42 [] (make_waker 1) (make_waker 1)

abbrev generator : SplitMix64
generator = record { state = 7 }

reseed-restarts_example :
    get_elem? (draws 3 (reseed 42 generator)).0 1 ≡ some (mix ((42 + (1 + 1) * gamma) % u64_mod))
reseed-restarts_example = reseed-restarts 42 3 1 generator (omega arith) (omega arith)

fill_bytes-stream_example :
    (fill_bytes 11 generator).0 ≡ take 11 (bytes_of (draws (suc (11 / 8)) generator).0)
fill_bytes-stream_example = fill_bytes-stream 11 generator

-- Seed 2 panics.
abbrev replication : ℕ → Joined ℕ ℕ
replication n = if n == 2 then Joined.err 99 else Joined.ok (n + 10)

run-sequential_example : run (1 ∷ 2 ∷ 3 ∷ []) replication ≡ sequential (1 ∷ 2 ∷ 3 ∷ []) replication
run-sequential_example = run-sequential (1 ∷ 2 ∷ 3 ∷ []) replication

-- A future is the number of polls after which it is ready, and the world counts the polls.
abbrev countdown : ℕ → ℕ → Bool × (ℕ × ℕ)
countdown n polled = (leb n 1, (n - 1, polled + 1))

all_poll-poll_each_example : all_poll countdown (3 ∷ 1 ∷ 2 ∷ []) 0 ≡ (
    let (ps, polled) = poll_each countdown (3 ∷ 1 ∷ 2 ∷ []) 0 in
    (all_ready countdown ps, (pending countdown ps, polled)))
all_poll-poll_each_example = all_poll-poll_each countdown (3 ∷ 1 ∷ 2 ∷ []) 0

abbrev is_done : ℕ → Bool
is_done n = leb n 0

countdown_marks : (n w : ℕ) → is_done (countdown n w).1.0 ≡ (countdown n w).0
countdown_marks n w = ground arith

any_poll-Raced_example :
    let (b, (ns, polled)) = any_poll countdown (3 ∷ 1 ∷ 2 ∷ []) 0 in
    Raced countdown is_done countdown_marks (3 ∷ 1 ∷ 2 ∷ []) b ns
any_poll-Raced_example = any_poll-Raced countdown is_done countdown_marks (3 ∷ 1 ∷ 2 ∷ []) 0
