-- ===== src/Request/Invariant/Making.antt =====
-- src/resource/mod.rs: the invariant of a new pool, and after a new request.
use sim_core.Base.{ℕ, ◌<◌, ◌≡◌, refl, arith, total-suc, total-eq, total-zero, u64_mod}
use sim_core.WaitQueue.{
  WaitQueue, World, Entry, is_canceled, is_granted, try_acquire, register, set_canceled,
}
use sim_core.WaitQueue.Serving.{occurs}
use sim_core.Request.{Pool, make_request, request, new_pool}
use sim_core.Request.Invariant.Defs.{owes, handed, Inv}

module _ {ℓ} {K : Type ℓ} where
  pub new_pool-Inv :
      (capacity : ℕ) (w : World) → capacity < u64_mod → Inv 0 (new_pool {K = K} capacity w)
  unfolding new_pool sim_core.WaitQueue.new occurs
  new_pool-Inv capacity w h = record {
    size = h;
    bounded = omega arith;
    counted =
        omega (arith, total-zero w.flags.next (owes (new_pool {K = K} capacity w)) (λ a. refl));
    unused = λ a p. refl;
    unqueued = λ a p. refl;
    once = λ a. omega arith;
    full = λ a p. absurd (omega arith);
    backed = λ a p. absurd (omega arith);
    own = λ a r q. cc;
    live = λ a r q. cc;
    unseen = λ a r q. cc;
    parked = λ a r q. cc;
  }

  module _ (s : Pool K) (inv : Inv 0 s) where
    open inv use {
      size, bounded, counted, unused, unqueued, once, full, backed, own, live, unseen, parked,
    }

    handed-request : (k : K) → handed (make_request s (request k s.world)) ≡ handed s
    unfolding request make_request
    handed-request k =
        let t = make_request s (request k s.world) in
        omega (
          arith,
          total-suc s.world.flags.next (owes t),
          total-eq s.world.flags.next (owes t) (owes s) (λ a lt. ground arith),
          (let none_yet : owes t s.world.flags.next ≡ 0 = ground arith in none_yet),
        )

    pub request-Inv : (k : K) → Inv 0 (make_request s (request k s.world))
    unfolding request make_request
    request-Inv k = record {
      size = size;
      bounded = bounded;
      counted = omega (arith, counted, handed-request k);
      unused = λ a p. ground (arith, unused a);
      unqueued = λ a p. unqueued a (omega arith);
      once = once;
      full = λ a p c. ground (arith, full a, unqueued a);
      backed = λ a p c. ground (arith, backed a, unqueued a);
      own = λ a r q. ground (arith, own a r);
      live = λ a r q. ground (arith, live a r);
      unseen = λ a r q u. ground (arith, unseen a r, unqueued a);
      parked = λ a r q u v g. ground (arith, parked a r);
    }
