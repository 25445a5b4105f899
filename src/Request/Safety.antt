-- ===== src/Request/Safety.antt =====
-- src/resource/mod.rs and src/resource/priority.rs: the pools that operations lead to from a new one.
use sim_core.Base.{
  ℕ, ◌+◌, ◌<◌, ◌≤◌, ◌≡◌, refl, ◌∙◌, true, false, List, [], ◌∷◌, Option, none, some, arith, u64_mod,
  length,
}
use sim_core.Base.Order.{Ord}
use sim_core.WaitQueue
use sim_core.WaitQueue.Serving.{Served, nobody, served, hand_off-Served}
use sim_core.WaitQueue.{
  settle, hand_off, Entry, WaitQueue, World, is_granted, is_canceled, try_acquire, register,
  release,
}
use sim_core.WaitQueue.Order.{Release, release-Release}
use sim_core.Executor.Waker.{SimWaker}
use sim_core.Request.{
  Request, Pool, Op, poll, attempt, drop_guard, run, new_pool, requests, polls, drops, drops_guard,
  make_request, request, after_poll, drop, after_drop, after_drop_guard, step,
}
use sim_core.Request.Invariant.{Inv, handed, entries, is_waiting, new_pool-Inv, run-Inv}
use sim_core.Request.Order.{run-IsOrdered, new_pool-IsOrdered}

module _ {ℓ} {K : Type ℓ} where
  settle-capacity :
      (q : WaitQueue K) (w : World) (r : Option (List (Entry K) × World))
      → (settle q w r).0.capacity ≡ q.capacity
  settle-capacity q w none = refl
  settle-capacity q w (some (es, w')) = refl

  release-capacity : (q : WaitQueue K) (w : World) → (release q w).0.capacity ≡ q.capacity
  unfolding release
  release-capacity q w = settle-capacity q w (hand_off w q.waiters)

  is_waiting-some : (o : Option (Request K)) → is_waiting o ≡ true → (r : Request K) × (o ≡ some r)
  is_waiting-some none h = cc
  is_waiting-some (some r) h = (r, refl)

  serve :
      (s : Pool K) {r : Option (List (Entry K) × World)}
      → Inv 0 s
      → Served s.world s.queue.waiters r
      → (a : ℕ) → 0 < entries s a
      → is_canceled s.world a ≡ false
      → (b : ℕ) × (rb : Request K) × (s.requests b ≡ some rb)
        × (is_waiting (some rb) ≡ true)
        × (is_granted s.world b ≡ false)
        × (is_granted (settle s.queue s.world r).1 b ≡ true)
        × ((settle s.queue s.world r).0.in_use ≡ s.queue.in_use)
  serve s inv (nobody gone) a p c = cc (gone a p)
  serve s inv (served e rest live le eq) a p c =
      let here = inv.backed e.flags (ground (arith, eq e.flags live)) live in
      let (rb, found) = is_waiting-some (s.requests e.flags) here.1 in
      (e.flags, rb, found, rw found at here.1, here.0, ground arith, refl)

module _ {ℓ} {K : Type ℓ} ⦃o : Ord K⦄ where
  step-capacity : (op : Op K) (s : Pool K) → (step op s).queue.capacity ≡ s.queue.capacity
  unfolding step make_request request after_poll poll attempt try_acquire register after_drop drop
      after_drop_guard drop_guard
  step-capacity (requests k) s = refl
  step-capacity (polls a waker) s = ground arith
  step-capacity (drops a) s = ground (arith, release-capacity s.queue s.world)
  step-capacity drops_guard s = ground (arith, release-capacity s.queue s.world)

  run-capacity : (ops : List (Op K)) (s : Pool K) → (run ops s).queue.capacity ≡ s.queue.capacity
  unfolding run
  run-capacity [] s = refl
  run-capacity (op ∷ ops) s = run-capacity ops (step op s) ∙ step-capacity op s

module _ {ℓ} {K : Type ℓ} ⦃o : Ord K⦄ (capacity : ℕ) (fits : capacity < u64_mod) (w : World)
    (ops : List (Op K)) where
  abbrev reached : Pool K
  reached = run ops (new_pool capacity w)

  reached-Inv : Inv 0 reached
  reached-Inv = run-Inv ops (new_pool capacity w) (new_pool-Inv capacity w fits)

  -- In every pool that any operations lead to from a new one, of a capacity below 2^64, the units
  -- in use are those of live guards and those handed to requests that have not polled since, and
  -- they are never more than the capacity.
  pub in_use-guards :
      (reached.queue.in_use ≡ reached.guards + handed reached)
      × (reached.guards + handed reached ≤ capacity)
  unfolding new_pool WaitQueue.new
  in_use-guards =
      let i = reached-Inv in
      (
        omega (arith, i.counted),
        omega (arith, i.counted, i.bounded, run-capacity ops (new_pool capacity w)),
      )

  module _ (a : ℕ) (r : Request K) (e : reached.requests a ≡ some r)
      (waits : is_waiting (some r) ≡ true) (g : is_granted reached.world a ≡ false) where
    -- While a request waits in a pool that any operations led to from a new one, of a capacity
    -- below 2^64, and no unit has been handed to it, its entry is in the queue exactly once and is
    -- not canceled, and every unit of the pool is in use.
    pub waiting_full :
        (reached.queue.in_use ≡ capacity)
        × (entries reached a ≡ 1)
        × (is_canceled reached.world a ≡ false)
    unfolding new_pool WaitQueue.new
    waiting_full =
        let i = reached-Inv in
        let once = i.parked a r e (ground arith) (ground arith) g in
        let live = i.live a r e in
        (i.full a (omega arith) live ∙ run-capacity ops (new_pool capacity w), once, live)

    -- While a request waits in a pool that any operations led to from a new one, of a capacity
    -- below 2^64, and no unit has been handed to it, no request takes a unit by a poll, unless one
    -- had been handed to it.
    pub no_overtaking :
        (fresh : Request K) (waker : SimWaker)
        → is_granted reached.world fresh.flags ≡ false
        → (poll fresh waker reached.queue reached.world).ready ≡ false
    unfolding poll attempt try_acquire new_pool WaitQueue.new
    no_overtaking fresh waker h =
        ground (arith, waiting_full, run-capacity ops (new_pool capacity w))

    -- While a request waits in a pool that any operations led to from a new one, of a capacity
    -- below 2^64, and no unit has been handed to it, a released unit is handed to a request that
    -- waits and had none, and the number of units in use stays.
    pub release_serves :
        (b : ℕ) × (rb : Request K) × (reached.requests b ≡ some rb)
        × (is_waiting (some rb) ≡ true)
        × (is_granted reached.world b ≡ false)
        × (is_granted (release reached.queue reached.world).1 b ≡ true)
        × ((release reached.queue reached.world).0.in_use ≡ reached.queue.in_use)
    unfolding release
    release_serves =
        serve reached reached-Inv (hand_off-Served reached.world reached.queue.waiters) a
          (omega (arith, waiting_full)) waiting_full.2

  -- In every pool that fewer than 2^64 operations lead to from a new one, a released unit goes to
  -- the live waiter with the lowest key and, among those with that key, the lowest number of
  -- arrival, or becomes free when every waiter has been canceled.
  pub release_order :
      length ops < u64_mod
      → Release reached.queue reached.world (release reached.queue reached.world)
  unfolding new_pool WaitQueue.new
  release_order few =
      release-Release reached.queue reached.world
        (run-IsOrdered ops (new_pool capacity w) (new_pool-IsOrdered capacity w) (omega arith))
