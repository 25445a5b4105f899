-- ===== src/PriorityResource.antt =====
-- src/resource/priority.rs: `PriorityResource` is `WaitQueue<u32>` with the requests of `Request`.
use sim_core.Base.{
  ℕ, ◌<◌, ◌≡◌, List, Option, none, some, ◌==◌, if◌then◌else◌, u64_mod, length, arith,
}
use sim_core.Base.Order.{nat_ord}
use sim_core.WaitQueue
use sim_core.WaitQueue.{WaitQueue, World, live_waiters, register}
use sim_core.WaitQueue.Order.{register_stable, insert_stable}
use sim_core.Executor.Waker.{SimWaker}
use sim_core.Request
use sim_core.Request.{Request, Polled, Op, run, new_pool}
use sim_core.Request.Order.{run-IsOrdered, new_pool-IsOrdered}

-- `none` is the panic on capacity 0.
unfoldable pub new : ℕ → Option (WaitQueue ℕ)
new capacity = if capacity == 0 then none else some (WaitQueue.new capacity)

-- A lower number is a higher priority.
unfoldable pub request : ℕ → World → Request ℕ × World
request priority w = Request.request priority w

unfoldable pub poll : Request ℕ → SimWaker → WaitQueue ℕ → World → Polled ℕ
poll r waker q w = Request.poll r waker q w

unfoldable pub drop : Request ℕ → WaitQueue ℕ → World → WaitQueue ℕ × World
drop r q w = Request.drop r q w

unfoldable pub drop_guard : WaitQueue ℕ → World → WaitQueue ℕ × World
drop_guard q w = Request.drop_guard q w

unfoldable pub queue_len : WaitQueue ℕ → World → ℕ
queue_len q w = live_waiters w q

-- A request that has to wait in a pool that fewer than 2^64 operations led to from a new one goes
-- behind those of the same or a higher priority and before all others.
pub register_by_priority :
    (capacity : ℕ) (w : World) (ops : List (Op ℕ))
    → length ops < u64_mod
    → (priority : ℕ) (waker : SimWaker) (flags : ℕ)
    → let q = (run ops (new_pool capacity w)).queue in
      (register priority waker flags q).waiters
      ≡ insert_stable
          (record { key = priority; seq = q.next_seq; waker = waker; flags = flags })
          q.waiters
unfolding new_pool WaitQueue.new
register_by_priority capacity w ops few priority waker flags =
    register_stable priority waker flags _
      (run-IsOrdered ops (new_pool capacity w) (new_pool-IsOrdered capacity w) (omega arith))
