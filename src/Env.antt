-- ===== src/Env.antt =====
-- src/env.rs: the event loop. A process is an arbitrary future: polling it takes the clock, its
-- waker and the state that processes share (`U`: their resources, events and variables), and
-- yields what is left of it and the calls of the environment that it made, in order.
pub mod Results
pub mod Clock
pub mod Trace
pub mod Until
pub mod Admission
pub mod Weight
pub mod Payment
pub mod Termination
pub mod Drained
pub mod Source
pub mod Preserved
pub mod Tended
pub mod Effects
pub mod Conservation
use sim_core.Base.{
  ℕ, zero, suc, ◌+◌, ◌-◌, ◌≡◌, Bool, true, false, not, ◌&&◌, List, [], ◌∷◌, ◌++◌, map, Option, none,
  some, length, get_elem?, set, leb, if◌then◌else◌,
}
use sim_core.Float.{Float}
use sim_core.Executor.Waker.{SimWaker, make_waker, wake_by_ref}
use sim_core.Executor.State
use sim_core.Executor.State.{
  ScheduledWaker, ProcessEntry, SimState, schedule_wakeup, alloc_process_id,
}

-- `unfinished`: the model's fuel ran out.
pub data Result {ℓ} (A : Type ℓ) : Type ℓ where
  ok : A → Result A
  panicked : Result A
  unfinished : Result A

infixl 5 ◌>>=◌
abbrev pub ◌>>=◌ {ℓ κ} : {A : Type ℓ} {B : Type κ} → Result A → (A → Result B) → Result B
ok a >>= g = g a
panicked >>= g = panicked
unfinished >>= g = unfinished

abbrev pub or_panic {ℓ} : {A : Type ℓ} → Option A → Result A
or_panic none = panicked
or_panic (some a) = ok a

module _ (f : Float) (P : Type 0) where
  -- What a process asks of the environment while it is polled: `Timeout` schedules, `spawn`
  -- queues a child, and events, resources and handles wake. The last call of a poll that panics is
  -- `panics`.
  pub data Call : Type 0 where
    schedules : f.F → SimWaker → Call
    spawns : P → Call
    wakes : SimWaker → Call
    panics : Call

  -- `left`: what is put back if the poll was pending.
  pub record Outcome (U : Type 0) : Type 0 where
    pub calls : List Call
    pub left : Option P
    pub shared : U

  abbrev pub Program : Type 0 → Type 0
  Program U = f.F → SimWaker → U → P → Outcome U

  unfoldable pub spawn : P → SimState f P → SimState f P
  unfolding alloc_process_id
  spawn p s =
      let (id, s') = alloc_process_id f s in
      record s' { pending_spawns = s'.pending_spawns ++ (id, p) ∷ [] }

  unfoldable pub perform : Bool → Call → SimState f P → Option (SimState f P)
  perform debug (schedules time waker) s = schedule_wakeup f debug time waker s
  perform debug (spawns p) s = some (spawn p s)
  perform debug (wakes w) s = some (record s { ready_queue = wake_by_ref w s.ready_queue })
  perform debug panics s = none

  unfoldable pub perform_all : Bool → List Call → SimState f P → Result (SimState f P)
  perform_all debug [] s = ok s
  perform_all debug (c ∷ cs) s = or_panic (perform debug c s) >>= perform_all debug cs

  abbrev pub nones : ℕ → List (Option (ProcessEntry f P))
  nones zero = []
  nones (suc n) = none ∷ nones n

  -- `resize_with(n, || None)` to a greater length.
  abbrev pub resize : ℕ → List (Option (ProcessEntry f P)) → List (Option (ProcessEntry f P))
  resize n ps = ps ++ nones (n - length ps)

  abbrev pub admit : ℕ → P → List (Option (ProcessEntry f P)) → List (Option (ProcessEntry f P))
  admit id p ps =
      set (if leb (length ps) id then resize (id + 1) ps else ps) id
        (some (record { future = p; waker = make_waker id }))

  unfoldable pub admit_all :
      List (ℕ × P) → List (Option (ProcessEntry f P)) → List (Option (ProcessEntry f P))
  admit_all [] ps = ps
  admit_all ((id, p) ∷ rest) ps = admit_all rest (admit id p ps)

  abbrev pub ids : List (ℕ × P) → List ℕ
  ids = map λ s. s.0

  unfoldable pub drain_pending_spawns : SimState f P → SimState f P
  drain_pending_spawns s = record s {
    pending_spawns = [];
    processes = admit_all s.pending_spawns s.processes;
    ready_queue = s.ready_queue ++ ids s.pending_spawns;
  }

  pub record Sim (U : Type 0) : Type 0 where
    pub state : SimState f P
    pub shared : U

  module _ {U : Type 0} (debug : Bool) (program : Program U) where
    -- The slot of a process that is still pending is filled again.
    abbrev pub put_back : ℕ → SimWaker → Option P → SimState f P → SimState f P
    put_back id waker none s = s
    put_back id waker (some p) s = record s {
      processes = set s.processes id (some (record { future = p; waker = waker }));
    }

    unfoldable pub poll_entry : ℕ → ProcessEntry f P → Sim U → Result (Sim U)
    poll_entry id e m =
        let taken = record (m.state) { processes = set m.state.processes id none } in
        let out = program taken.current_time e.waker m.shared e.future in
        do
          s ← perform_all debug out.calls taken
          ok (record {
            state = drain_pending_spawns (put_back id e.waker out.left s);
            shared = out.shared;
          })

    -- One turn of the loop over the batch: `processes[id]` panics out of bounds, and an empty slot
    -- is skipped.
    abbrev pub poll_slot : ℕ → Option (Option (ProcessEntry f P)) → Sim U → Result (Sim U)
    poll_slot id none m = panicked
    poll_slot id (some none) m = ok m
    poll_slot id (some (some e)) m = poll_entry id e m

    unfoldable pub poll_batch : List ℕ → Sim U → Result (Sim U)
    poll_batch [] m = ok m
    poll_batch (id ∷ batch) m = poll_slot id (get_elem? m.state.processes id) m >>= poll_batch batch

    abbrev pub take_ready : Sim U → Sim U
    take_ready m = record m { state = record (m.state) { ready_queue = [] } }

    -- A batch is taken whole; what it makes ready is the next one.
    unfoldable pub poll_ready : ℕ → Sim U → Result (Sim U)
    poll_ready zero m = unfinished
    poll_ready (suc fuel) m = elim (m.state.ready_queue) [
      | [] ↦ ok m
      | id ∷ batch ↦ poll_batch (id ∷ batch) (take_ready m) >>= poll_ready fuel
    ]

    unfoldable pub settle : ℕ → Sim U → Result (Sim U)
    settle fuel m = poll_ready fuel (record m { state = drain_pending_spawns (m.state) })

    -- The clock goes to the event's time, its process is woken, and everything ready is polled.
    abbrev pub fired : ScheduledWaker f → List (ScheduledWaker f) → Sim U → Sim U
    fired e rest m = record m {
      state = record (m.state) {
        event_queue = rest;
        current_time = e.time;
        ready_queue = wake_by_ref e.waker m.state.ready_queue;
      };
    }

    -- The loops of `run` and of `run_until`: `fuel` events at most, each with `rounds` batches.
    unfoldable pub run_loop : ℕ → ℕ → Sim U → Result (Sim U)
    run_loop rounds zero m = unfinished
    run_loop rounds (suc fuel) m = elim (m.state.event_queue) [
      | [] ↦ ok m
      | e ∷ rest ↦ settle rounds (fired e rest m) >>= run_loop rounds fuel
    ]

    unfoldable pub run : ℕ → ℕ → Sim U → Result (Sim U)
    run rounds fuel m = settle rounds m >>= run_loop rounds fuel

    -- `until.max(current_time)`
    abbrev pub stopped : f.F → Sim U → Sim U
    stopped until m = record m {
      state = record (m.state) { current_time = f.max until m.state.current_time };
    }

    unfoldable pub run_until_loop : ℕ → f.F → ℕ → Sim U → Result (Sim U)
    run_until_loop rounds until zero m = unfinished
    run_until_loop rounds until (suc fuel) m = elim (m.state.event_queue) [
      | [] ↦ ok (stopped until m)
      | e ∷ rest ↦
          let more = settle rounds (fired e rest m) >>= run_until_loop rounds until fuel in
          if f.le until e.time then ok (stopped until m) else more
    ]

    unfoldable pub run_until : ℕ → ℕ → f.F → Sim U → Result (Sim U)
    run_until rounds fuel until m = settle rounds m >>= run_until_loop rounds until fuel

  -- `Drop`: what is left of the process tables goes.
  unfoldable pub drop : SimState f P → SimState f P
  drop s = record s { processes = []; pending_spawns = [] }

  unfoldable pub live_processes : List (Option (ProcessEntry f P)) → ℕ
  live_processes [] = 0
  live_processes (none ∷ ps) = live_processes ps
  live_processes (some e ∷ ps) = suc (live_processes ps)
