-- ===== src/Tests/Queues.antt =====
-- A small queue: src/resource/wait_queue.rs.
use sim_core.Base.{ℕ, ◌≡◌, List, [], ◌∷◌, arith, length}
use sim_core.Base.Order.{nat_ord}
use sim_core.Executor.Waker.{make_waker}
use sim_core.Request.{fresh_flags}
use sim_core.WaitQueue.{World, new, live_waiters}
use sim_core.WaitQueue.Refinement.{
  Op, acquires, joins, leaves, releases, run, step, spec_step, view,
}
use sim_core.WaitQueue.Refinement.Runs.{run-view}

-- Two waiters behind the unit in use, of which the first leaves before it is released.
abbrev calls : List (Op ℕ)
calls =
    acquires
    ∷ acquires
    ∷ joins 2 (make_waker 0) 0
    ∷ joins 3 (make_waker 1) 1
    ∷ leaves 0
    ∷ releases
    ∷ []

abbrev two_waiters : World
two_waiters = record { flags = record { next = 2; cell = λ a. fresh_flags }; ready_queue = [] }

run-view_example :
    let (answers, end) = run step calls (new 1, two_waiters) in
    (run spec_step calls (view (new 1, two_waiters)) ≡ (answers, view end))
    × (live_waiters end.1 end.0 ≡ length (view end).waiting)
run-view_example = run-view 1 two_waiters calls (omega arith) (omega arith)
