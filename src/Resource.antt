-- ===== src/Resource.antt =====
-- src/resource/mod.rs: `Resource`, the FIFO pool, is `WaitQueue<()>` with the requests of `Request`.
use sim_core.Base.{
  ℕ, ◌<◌, ◌≡◌, ◌++◌, List, [], ◌∷◌, Option, none, some, ◌==◌, if◌then◌else◌, u64_mod, length, arith,
}
use sim_core.Base.Order.{unit_ord}
use sim_core.WaitQueue
use sim_core.WaitQueue.{WaitQueue, World, live_waiters, register}
use sim_core.WaitQueue.Order.{register_fifo}
use sim_core.Executor.Waker.{SimWaker}
use sim_core.Request
use sim_core.Request.{Request, Polled, Pool, Op, run, new_pool}
use sim_core.Request.Order.{run-IsOrdered, new_pool-IsOrdered}

-- `none` is the panic on capacity 0.
unfoldable pub new : ℕ → Option (WaitQueue (Unit {0}))
new capacity = if capacity == 0 then none else some (WaitQueue.new capacity)

unfoldable pub request : World → Request (Unit {0}) × World
request w = Request.request tt w

unfoldable pub poll :
    Request (Unit {0}) → SimWaker → WaitQueue (Unit {0}) → World → Polled (Unit {0})
poll r waker q w = Request.poll r waker q w

unfoldable pub queue_len : WaitQueue (Unit {0}) → World → ℕ
queue_len q w = live_waiters w q

-- A request that has to wait in a pool that fewer than 2^64 operations led to from a new one goes
-- behind all others.
pub register_last :
    (capacity : ℕ) (w : World) (ops : List (Op (Unit {0})))
    → length ops < u64_mod
    → (waker : SimWaker) (flags : ℕ)
    → let q = (run ops (new_pool capacity w)).queue in
      (register tt waker flags q).waiters
      ≡ q.waiters ++ record { key = tt; seq = q.next_seq; waker = waker; flags = flags } ∷ []
unfolding new_pool WaitQueue.new
register_last capacity w ops few waker flags =
    register_fifo waker flags _
      (run-IsOrdered ops (new_pool capacity w) (new_pool-IsOrdered capacity w) (omega arith))
