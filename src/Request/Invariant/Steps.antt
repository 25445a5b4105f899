-- ===== src/Request/Invariant/Steps.antt =====
-- src/resource/mod.rs: the invariant after each operation and after sequences of them.
use sim_core.Base.{
  ℕ, ◌≡◌, refl, sym, subst, Bool, true, false, List, [], ◌∷◌, Option, none, some, arith, ◌==◌,
  if◌then◌else◌, ltb, Bool-cases, inl, inr,
}
use sim_core.Base.Order.{Ord}
use sim_core.WaitQueue.{is_granted, try_acquire}
use sim_core.Executor.Waker.{SimWaker}
use sim_core.Request.{
  Request, Pool, Op, requests, polls, drops, after_drop_guard, drops_guard, poll, attempt,
  after_poll, drop_guard, poll_at, drop_at, after_drop_guard, step, run,
}
use sim_core.Request.Invariant.Defs.{Inv}
use sim_core.Request.Invariant.Making.{request-Inv}
use sim_core.Request.Invariant.Polling.{
  taken-Inv, acquired-Inv, blocked-Inv, taken, acquired, blocked,
}
use sim_core.Request.Invariant.Dropping.{drop-Inv, drop_guard-Inv}

module _ {ℓ} {K : Type ℓ} ⦃o : Ord K⦄ where
  module _ (s : Pool K) (inv : Inv 0 s) (a : ℕ) (r : Request K) (e : s.requests a ≡ some r) where
    attempt-Inv :
        (waker : SimWaker)
        → r.consumed ≡ false
        → is_granted s.world a ≡ false
        → Inv 0 (after_poll s a (attempt r waker (try_acquire s.queue) s.world))
    unfolding attempt try_acquire after_poll acquired blocked
    attempt-Inv waker c g = elim (Bool-cases (ltb s.queue.in_use s.queue.capacity)) [
      | inl room ↦ rw room (acquired-Inv s inv a r e c g (ground arith))
      | inr no_room ↦ rw no_room (blocked-Inv s inv a r e o waker c g (ground arith))
    ]

    granted_cases :
        (waker : SimWaker) (g : Bool)
        → r.consumed ≡ false
        → is_granted s.world a ≡ g
        → Inv 0 (
            after_poll s a (
              if g
              then record {
                ready = true;
                request = record r { consumed = true };
                queue = s.queue;
                world = s.world;
              }
              else attempt r waker (try_acquire s.queue) s.world))
    unfolding after_poll taken
    granted_cases waker true c g = taken-Inv s inv a r e c g
    granted_cases waker false c g = attempt-Inv waker c g

    pub poll-Inv :
        (waker : SimWaker)
        → r.consumed ≡ false
        → Inv 0 (after_poll s a (poll r waker s.queue s.world))
    unfolding poll
    poll-Inv waker c =
        subst
          (λ f. Inv 0 (
            after_poll s a (
              if is_granted s.world f
              then record {
                ready = true;
                request = record r { consumed = true };
                queue = s.queue;
                world = s.world;
              }
              else attempt r waker (try_acquire s.queue) s.world)))
          (sym (inv.own a r e)) (granted_cases waker (is_granted s.world a) c refl)

  module _ (s : Pool K) (inv : Inv 0 s) (a : ℕ) where
    poll_at-Inv :
        (waker : SimWaker) (o' : Option (Request K))
        → s.requests a ≡ o'
        → Inv 0 (poll_at s a waker o')
    poll_at-Inv waker none e = inv
    poll_at-Inv waker (some r) e = split r.consumed refl
      where
        split :
            (c : Bool)
            → r.consumed ≡ c
            → Inv 0 (if c then s else after_poll s a (poll r waker s.queue s.world))
        split true c = inv
        split false c = poll-Inv s inv a r e waker c

    drop_at-Inv : (o' : Option (Request K)) → s.requests a ≡ o' → Inv 0 (drop_at s a o')
    drop_at-Inv none e = inv
    drop_at-Inv (some r) e = drop-Inv s inv a r e

  drop_guard_cases :
      (s : Pool K)
      → Inv 0 s
      → (b : Bool) → (s.guards == 0) ≡ b
      → Inv 0 (if b then s else after_drop_guard s (drop_guard s.queue s.world))
  drop_guard_cases s inv true e = inv
  drop_guard_cases s inv false e = drop_guard-Inv s inv (ground arith)

  pub step-Inv : (op : Op K) (s : Pool K) → Inv 0 s → Inv 0 (step op s)
  unfolding step
  step-Inv (requests k) s inv = request-Inv s inv k
  step-Inv (polls a waker) s inv = poll_at-Inv s inv a waker (s.requests a) refl
  step-Inv (drops a) s inv = drop_at-Inv s inv a (s.requests a) refl
  step-Inv drops_guard s inv = drop_guard_cases s inv (s.guards == 0) refl

  pub run-Inv : (ops : List (Op K)) (s : Pool K) → Inv 0 s → Inv 0 (run ops s)
  unfolding run
  run-Inv [] s inv = inv
  run-Inv (op ∷ ops) s inv = run-Inv ops (step op s) (step-Inv op s inv)
