-- ===== src/Request/Invariant/Polling.antt =====
-- src/resource/mod.rs: the invariant after each outcome of a poll.
use sim_core.Base.{
  ℕ, suc, ◌+◌, ◌<◌, ◌≤◌, ◌≡◌, refl, Bool, true, false, some, arith, ◌==◌, update, if◌then◌else◌,
}
use sim_core.Base.Order.{Ord}
use sim_core.WaitQueue.{WaitQueue, is_granted, register}
use sim_core.WaitQueue.Serving.{occurs, occurs-register}
use sim_core.Executor.Waker.{SimWaker}
use sim_core.Request.{Request, Pool}
use sim_core.Request.Invariant.Defs.{entries, Inv, allocated, handed_change}

module _ {ℓ} {K : Type ℓ} (s : Pool K) (inv : Inv 0 s) where
  open inv use {
    size, bounded, counted, unused, unqueued, once, full, backed, own, live, unseen, parked,
  }

  module _ (a : ℕ) (r : Request K) (e : s.requests a ≡ some r) where
    unfoldable pub taken : Pool K
    taken = record s {
      requests = update s.requests a (some (record r { consumed = true }));
      guards = suc s.guards;
    }

    pub taken-Inv : r.consumed ≡ false → is_granted s.world a ≡ true → Inv 0 taken
    unfolding taken
    taken-Inv c g = record {
      size = size;
      bounded = bounded;
      counted =
          ground (arith, counted, handed_change s inv a r e taken refl (λ b ne. ground arith));
      unused = λ b p. ground (arith, unused b);
      unqueued = unqueued;
      once = once;
      full = full;
      backed = λ b p q. ground (arith, backed b);
      own = λ b x q. ground (arith, own b x, own a r e);
      live = λ b x q. ground (arith, live b x, live a r e);
      unseen = λ b x q u. ground (arith, unseen b x, unseen a r e);
      parked = λ b x q u v w. ground (arith, parked b x);
    }

    unfoldable pub acquired : Pool K
    acquired = record s {
      queue = record s.queue { in_use = s.queue.in_use + 1 };
      requests = update s.requests a (some (record r { consumed = true }));
      guards = suc s.guards;
    }

    -- A request that is waiting never gets here: the pool is full while it waits.
    pub acquired-Inv :
        r.consumed ≡ false
        → is_granted s.world a ≡ false
        → s.queue.in_use < s.queue.capacity
        → Inv 0 acquired
    unfolding acquired
    acquired-Inv c g room = record {
      size = size;
      bounded = omega arith;
      counted =
          ground (arith, counted, handed_change s inv a r e acquired refl (λ b ne. ground arith));
      unused = λ b p. ground (arith, unused b);
      unqueued = unqueued;
      once = once;
      full = λ b p q. ground (arith, full b p q);
      backed = λ b p q. ground (arith, full b p q);
      own = λ b x q. ground (arith, own b x, own a r e);
      live = λ b x q. ground (arith, live b x, live a r e);
      unseen = λ b x q u. ground (arith, unseen b x, unseen a r e);
      parked = λ b x q u v w. ground (arith, parked b x);
    }

    unfoldable pub blocked : Bool → WaitQueue K → Pool K
    blocked again q = record s {
      queue = if again then s.queue else q;
      requests = update s.requests a (some (record r { registered = true }));
    }

    pub blocked-Inv :
        (o : Ord K) (waker : SimWaker)
        → r.consumed ≡ false
        → is_granted s.world a ≡ false
        → s.queue.capacity ≤ s.queue.in_use
        → Inv 0 (blocked r.registered (register ⦃o = o⦄ r.key waker r.flags s.queue))
    unfolding blocked register
    blocked-Inv o waker c g no_room = split r.registered refl
      where
        more :
            (b : ℕ)
            → occurs b (register ⦃o = o⦄ r.key waker r.flags s.queue).waiters
              ≡ (if r.flags == b then 1 else 0) + entries s b
        more b = occurs-register ⦃o = o⦄ b r.key waker r.flags s.queue

        split :
            (b : Bool)
            → r.registered ≡ b
            → Inv 0 (blocked b (register ⦃o = o⦄ r.key waker r.flags s.queue))
        split true again = record {
          size = size;
          bounded = bounded;
          counted = ground (
            arith,
            counted,
            handed_change s inv a r e (blocked true s.queue) refl (λ b ne. ground arith),
          );
          unused = λ b p. ground (arith, unused b);
          unqueued = unqueued;
          once = once;
          full = full;
          backed = λ b p q. ground (arith, backed b);
          own = λ b x q. ground (arith, own b x, own a r e);
          live = λ b x q. ground (arith, live b x, live a r e);
          unseen = λ b x q u. ground (arith, unseen b x);
          parked = λ b x q u v w. ground (arith, parked b x, parked a r e);
        }
        split false first = record {
          size = size;
          bounded = bounded;
          counted = ground (
            arith,
            counted,
            handed_change s inv a r e (blocked false (register ⦃o = o⦄ r.key waker r.flags s.queue))
                refl (λ b ne. ground arith),
          );
          unused = λ b p. ground (arith, unused b);
          unqueued = λ b p. ground (arith, unqueued b p, more b, allocated s inv a r e, own a r e);
          once = λ b. ground (arith, once b, more b, unseen a r e first, own a r e);
          full = λ b p q. ground (arith, full b, more b);
          backed = λ b p q. ground (arith, backed b, more b, own a r e);
          own = λ b x q. ground (arith, own b x, own a r e);
          live = λ b x q. ground (arith, live b x, live a r e);
          unseen = λ b x q u. ground (arith, unseen b x, more b, own a r e);
          parked = λ b x q u v w. ground (arith, parked b x, more b, own a r e, unseen a r e first);
        }
