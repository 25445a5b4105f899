-- ===== src/Request/Order.antt =====
-- src/resource/wait_queue.rs: the order of the queue of a pool in use.
use sim_core.Base.{
  ℕ, ◌+◌, ◌<◌, ◌≤◌, Bool, true, false, List, [], ◌∷◌, Option, none, some, arith, if◌then◌else◌,
  Bool-cases, inl, inr, u64_mod, ltb, length, ◌==◌,
}
use sim_core.Base.Order.{Ord}
use sim_core.WaitQueue
use sim_core.WaitQueue.{WaitQueue, World, is_granted, try_acquire, register, release, set_canceled}
use sim_core.WaitQueue.Order.{IsOrdered, register-IsOrdered, release-IsOrdered, release-next_seq}
use sim_core.Executor.Waker.{SimWaker}
use sim_core.Request.{
  Request, Pool, Op, requests, polls, drops, drops_guard, make_request, request, poll, attempt,
  after_poll, drop, drop_guard, poll_at, drop_at, after_drop, after_drop_guard, step, run, new_pool,
}

module _ {ℓ} {K : Type ℓ} ⦃o : Ord K⦄ where
  -- Ordered, with at most one more number used than `n`.
  record Next (n : ℕ) (q : WaitQueue K) : Type ℓ where
    ordered : IsOrdered q
    used : q.next_seq ≤ n + 1

  module _ (q : WaitQueue K) (h : IsOrdered q) (room : q.next_seq + 1 < u64_mod) where
    stay : Next q.next_seq q
    stay = record { ordered = h; used = omega arith }

    register-Next : (k : K) (waker : SimWaker) (a : ℕ) → Next q.next_seq (register k waker a q)
    unfolding register
    register-Next k waker a = record {
      ordered = register-IsOrdered k waker a q room h;
      used = omega arith;
    }

    release-Next : (w : World) → Next q.next_seq (release q w).0
    release-Next w = record {
      ordered = release-IsOrdered q w h;
      used = omega (arith, release-next_seq q w h);
    }

    attempt-Next :
        (r : Request K) (waker : SimWaker) (w : World)
        → Next q.next_seq (attempt r waker (try_acquire q) w).queue
    unfolding attempt try_acquire
    attempt-Next r waker w = elim (Bool-cases (ltb q.in_use q.capacity)) [
      | inl room ↦ rw room (record {
        ordered = record { sorted = h.sorted; numbered = h.numbered };
        used = omega arith;
      })
      | inr full ↦ rw full (parked r.registered)
    ]
      where
        parked : (b : Bool) → Next q.next_seq (if b then q else register r.key waker r.flags q)
        parked true = stay
        parked false = register-Next r.key waker r.flags

    poll-Next :
        (r : Request K) (waker : SimWaker) (w : World) → Next q.next_seq (poll r waker q w).queue
    unfolding poll
    poll-Next r waker w = elim (Bool-cases (is_granted w r.flags)) [
      | inl held ↦ rw held stay
      | inr not_held ↦ rw not_held (attempt-Next r waker w)
    ]

    drop-Next : (r : Request K) (w : World) → Next q.next_seq (drop r q w).0
    unfolding drop
    drop-Next r w = cases r.consumed (is_granted w r.flags) r.registered
      where
        cases :
            (c g b : Bool)
            → Next q.next_seq
                (if c
                  then (q, w)
                  else (if g
                      then release q w
                      else (if b then (q, set_canceled r.flags w) else (q, w)))).0
        cases true g b = stay
        cases false true b = release-Next w
        cases false false true = stay
        cases false false false = stay

  module _ (s : Pool K) (h : IsOrdered s.queue) (room : s.queue.next_seq + 1 < u64_mod) where
    poll_at-Next :
        (a : ℕ) (waker : SimWaker) (r : Option (Request K))
        → Next s.queue.next_seq (poll_at s a waker r).queue
    unfolding after_poll
    poll_at-Next a waker none = stay s.queue h room
    poll_at-Next a waker (some r) = go r.consumed
      where
        go :
            (c : Bool)
            → Next s.queue.next_seq
                (if c then s else after_poll s a (poll r waker s.queue s.world)).queue
        go true = stay s.queue h room
        go false = poll-Next s.queue h room r waker s.world

    step-Next : (op : Op K) → Next s.queue.next_seq (step op s).queue
    unfolding step make_request request after_drop after_drop_guard drop_guard
    step-Next (requests k) = stay s.queue h room
    step-Next (polls a waker) = poll_at-Next a waker (s.requests a)
    step-Next (drops a) = go (s.requests a)
      where
        go : (r : Option (Request K)) → Next s.queue.next_seq (drop_at s a r).queue
        go none = stay s.queue h room
        go (some r) = drop-Next s.queue h room r s.world
    step-Next drops_guard = go (s.guards == 0)
      where
        go :
            (c : Bool)
            → Next s.queue.next_seq
                (if c then s else after_drop_guard s (drop_guard s.queue s.world)).queue
        go true = stay s.queue h room
        go false = release-Next s.queue h room s.world

  pub run-IsOrdered :
      (ops : List (Op K)) (s : Pool K)
      → IsOrdered s.queue
      → s.queue.next_seq + length ops < u64_mod
      → IsOrdered (run ops s).queue
  unfolding run
  run-IsOrdered [] s h room = h
  run-IsOrdered (op ∷ ops) s h room =
      let next = step-Next s h (omega arith) op in
      run-IsOrdered ops (step op s) next.ordered (omega arith)

  pub new_pool-IsOrdered :
      (capacity : ℕ) (w : World) → IsOrdered (new_pool {K = K} capacity w).queue
  unfolding new_pool WaitQueue.new
  new_pool-IsOrdered capacity w = record { sorted = tt; numbered = tt }
