-- ===== src/Tests/Preemption.antt =====
-- A small preemptive pool: src/resource/preemptive.rs.
use sim_core.Base.{List, ◌+◌, ◌≤◌, ◌<◌, length, ℕ, ◌≡◌, refl, true, false, [], ◌∷◌, some, arith}
use sim_core.Executor.Waker.{make_waker}
use sim_core.Event.{new_event, fire}
use sim_core.Heap.{push}
use sim_core.Request.{Request, fresh_flags}
use sim_core.WaitQueue
use sim_core.WaitQueue.{World, try_acquire, register, Entry, is_granted, release}
use sim_core.Preemptive.{
  PreemptiveGuard, Signal, new, grant, preempt, signal_preempted, remove, block, PreemptiveState,
  Scene, Polled, victim_index, scan, poll, drop, released,
}
use sim_core.Preemptive.Victim.{Chosen, victim_index-Chosen}
use sim_core.Preemptive.Polling.{poll_strands}
use sim_core.Preemptive.Pool.{Op, request, requests, polls, drops_guard, step, run, start}
use sim_core.Preemptive.Books.Holders.{holds}
use sim_core.Preemptive.Books.Units.{handed}
use sim_core.Preemptive.Books.Totals.{run-Covered, run-Backed}

-- The request that waits was made at priority 2, when one of the two holders had priority 1 and the
-- other unit had been handed to a request of priority 5, which has become a holder since.
abbrev waiting : Request ℕ
waiting = record { key = 2; registered = true; consumed = false; flags = 0 }

abbrev waiting_entry : Entry ℕ
waiting_entry = record { key = 2; seq = 0; waker = make_waker 0; flags = 0 }

abbrev state : PreemptiveState
state = record {
  wq = record { capacity = 2; in_use = 2; next_seq = 1; waiters = waiting_entry ∷ [] };
  holders =
      record { priority = 1; id = 0; signal = 0 }
      ∷ record { priority = 5; id = 1; signal = 1 }
      ∷ [];
  next_holder_id = 2;
}

abbrev scene : Scene
scene = record {
  state = state;
  world = record { flags = record { next = 1; cell = λ a. fresh_flags }; ready_queue = [] };
  signals = record { next = 2; cell = λ a. record { event = new_event; preempted = false } };
}

victim_index-Chosen_example : Chosen 2 state.holders (victim_index 2 state)
victim_index-Chosen_example = victim_index-Chosen 2 state

-- A first poll, at a priority at which nobody can be evicted.
abbrev newcomer : Request ℕ
newcomer = record { key = 7; registered = false; consumed = false; flags = 0 }

poll_strands_example :
    (p : Polled) × (poll waiting (make_waker 0) scene ≡ some p)
    × (let (wq, w) = release p.scene.state.wq p.scene.world in
        (wq.in_use ≡ 2)
        × (is_granted w 0 ≡ true)
        × (drop p.request (released p.scene (wq, w)) ≡ released p.scene (wq, w)))
unfolding victim_index scan
poll_strands_example =
    poll_strands waiting (make_waker 0) scene waiting_entry [] 1 (omega arith, (omega arith, tt))
      refl (omega arith) refl refl refl refl

-- Nobody has made a request yet.
abbrev fresh_world : World
fresh_world = record { flags = record { next = 0; cell = λ a. fresh_flags }; ready_queue = [] }

abbrev filler : Signal
filler = record { event = new_event; preempted = false }

abbrev empty_pool : PreemptiveState
empty_pool = record {
  wq = record { capacity = 1; in_use = 0; next_seq = 0; waiters = [] };
  holders = [];
  next_holder_id = 0;
}

-- The unit goes to a request of priority 5, is taken by one of priority 1 and is waited for by one
-- of priority 3; then the second guard is dropped, which hands it over.
abbrev traffic : List Op
traffic =
    requests 5
    ∷ polls 0 (make_waker 0)
    ∷ requests 1
    ∷ polls 1 (make_waker 1)
    ∷ requests 3
    ∷ polls 2 (make_waker 2)
    ∷ drops_guard 1
    ∷ []

run-Covered_example :
    let s = run traffic (start empty_pool fresh_world filler) in
    (s.scene.state.wq.capacity ≡ 1)
    × (s.scene.state.wq.in_use ≤ 1)
    × (length s.scene.state.holders + handed s ≤ s.scene.state.wq.in_use)
unfolding new sim_core.WaitQueue.new
run-Covered_example =
    run-Covered 1 empty_pool refl (omega arith) fresh_world filler traffic (omega arith)

-- All of that but the last.
abbrev before_drop : List Op
before_drop =
    requests 5
    ∷ polls 0 (make_waker 0)
    ∷ requests 1
    ∷ polls 1 (make_waker 1)
    ∷ requests 3
    ∷ polls 2 (make_waker 2)
    ∷ []

run-Backed_example :
    let s = run before_drop (start empty_pool fresh_world filler) in
    let g : PreemptiveGuard = record { id = 1; signal = 1 } in
    (g.id ≡ 1) × (g.signal ≡ 1) × (0 < holds g.id s.scene.state.holders)
unfolding run step request sim_core.Request.request poll try_acquire grant victim_index scan preempt
    signal_preempted fire remove block register push new sim_core.WaitQueue.new
run-Backed_example =
    run-Backed 1 empty_pool refl (omega arith) fresh_world filler before_drop (omega arith) 1
      (record { id = 1; signal = 1 }) refl refl
