-- ===== src/Tests/Pools.antt =====
-- Small pools: src/resource/mod.rs, src/resource/priority.rs, src/resource/preemptive.rs.
use sim_core.Base.{◌+◌, ℕ, ◌≤◌, ◌≡◌, refl, true, false, List, [], ◌∷◌, some, arith}
use sim_core.Base.Order.{unit_ord, nat_ord}
use sim_core.Executor.Waker.{make_waker}
use sim_core.WaitQueue
use sim_core.WaitQueue.{
  try_acquire, Flags, World, WaitQueue, is_granted, is_canceled, release, register,
}
use sim_core.WaitQueue.Order.{Release}
use sim_core.Request.{
  Request, Pool, Op, run, step, make_request, request, after_poll, attempt, poll, new_pool,
  fresh_flags, requests, polls,
}
use sim_core.Request.Invariant.{handed, entries, is_waiting}
use sim_core.Request.Safety.{
  in_use-guards, waiting_full, no_overtaking, release_serves, release_order,
}

abbrev no_cells : World
no_cells = record { flags = record { next = 0; cell = λ a. fresh_flags }; ready_queue = [] }

-- Process 0 takes the only unit; process 1 waits with priority 5 and process 2 with priority 3.
abbrev contention : List (Op ℕ)
contention =
    requests 4
    ∷ polls 0 (make_waker 0)
    ∷ requests 5
    ∷ polls 1 (make_waker 1)
    ∷ requests 3
    ∷ polls 2 (make_waker 2)
    ∷ []

abbrev contended : Pool ℕ
contended = run contention (new_pool 1 no_cells)

abbrev second : Request ℕ
second = record { key = 5; registered = true; consumed = false; flags = 1 }

-- A request that has not been polled.
abbrev late : Request ℕ
late = record { key = 0; registered = false; consumed = false; flags = 3 }

-- In a pool without priorities, process 1 waits behind process 0.
abbrev waiting_line : List (Op (Unit {0}))
waiting_line = requests tt ∷ polls 0 (make_waker 0) ∷ requests tt ∷ polls 1 (make_waker 1) ∷ []

in_use-guards_example :
    (contended.queue.in_use ≡ contended.guards + handed contended)
    × (contended.guards + handed contended ≤ 1)
in_use-guards_example = in_use-guards 1 (omega arith) no_cells contention

waiting_full_example :
    (contended.queue.in_use ≡ 1)
    × (entries contended 1 ≡ 1)
    × (is_canceled contended.world 1 ≡ false)
unfolding run step make_request request new_pool after_poll poll attempt try_acquire WaitQueue.new
    register
waiting_full_example = waiting_full 1 (omega arith) no_cells contention 1 second refl refl refl

-- A new request of the highest priority does not get in either.
no_overtaking_example : (poll late (make_waker 3) contended.queue contended.world).ready ≡ false
unfolding run step make_request request new_pool after_poll poll attempt try_acquire WaitQueue.new
    register
no_overtaking_example =
    no_overtaking 1 (omega arith) no_cells contention 1 second refl refl refl late (make_waker 3)
      refl

release_serves_example :
    (b : ℕ) × (rb : Request ℕ) × (contended.requests b ≡ some rb)
    × (is_waiting (some rb) ≡ true)
    × (is_granted contended.world b ≡ false)
    × (is_granted (release contended.queue contended.world).1 b ≡ true)
    × ((release contended.queue contended.world).0.in_use ≡ contended.queue.in_use)
unfolding run step make_request request new_pool after_poll poll attempt try_acquire WaitQueue.new
    register
release_serves_example = release_serves 1 (omega arith) no_cells contention 1 second refl refl refl

release_order_example :
    Release contended.queue contended.world (release contended.queue contended.world)
release_order_example = release_order 1 (omega arith) no_cells contention (omega arith)
