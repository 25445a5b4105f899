-- ===== src/Request/Invariant/Releasing.antt =====
-- src/resource/wait_queue.rs: the invariant after `release`.
use sim_core.Base.{
  ℕ, ◌+◌, ◌<◌, ◌≤◌, ◌≡◌, refl, true, false, List, [], Option, arith, ◌==◌, wrap_pred, total-change,
  if◌then◌else◌,
}
use sim_core.WaitQueue.{WaitQueue, World, Entry, is_canceled, set_granted, wake, release, settle}
use sim_core.WaitQueue.Serving.{occurs, Served, nobody, served, hand_off-Served}
use sim_core.Request.{Pool}
use sim_core.Request.Invariant.Defs.{owes, handed, entries, Inv}

abbrev with_queue {ℓ} : {K : Type ℓ} → Pool K → WaitQueue K × World → Pool K
with_queue s r = record s { queue = r.0; world = r.1 }

module _ {ℓ} {K : Type ℓ} (s : Pool K) (inv : Inv 1 s) where
  open inv use {
    size, bounded, counted, unused, unqueued, once, full, backed, own, live, unseen, parked,
  }

  freed :
      ((a : ℕ) → 0 < entries s a → is_canceled s.world a ≡ true)
      → Inv 0
          (record s { queue = record s.queue { waiters = []; in_use = wrap_pred s.queue.in_use } })
  unfolding occurs
  freed h = record {
    size = size;
    bounded = omega arith;
    counted = omega arith;
    unused = unused;
    unqueued = λ a p. refl;
    once = λ a. omega arith;
    full = λ a p. absurd (omega arith);
    backed = λ a p. absurd (omega arith);
    own = own;
    live = live;
    unseen = λ a r e u. ((unseen a r e u).0, refl);
    parked = λ a r e u v g. ground (arith, h a, live a r e, parked a r e u v g);
  }

  module _ (e : Entry K) (rest : List (Entry K)) (alive : is_canceled s.world e.flags ≡ false)
      (le : (a : ℕ) → occurs a rest ≤ entries s a)
      (eq : (a : ℕ)
        → is_canceled s.world a ≡ false
        → entries s a ≡ occurs a rest + (if e.flags == a then 1 else 0)) where
    abbrev after : Pool K
    after = record s {
      queue = record s.queue { waiters = rest };
      world = wake e.waker (set_granted e.flags s.world);
    }

    present : 0 < entries s e.flags
    present = ground (arith, eq e.flags alive)

    allocated : s.world.flags.next ≤ e.flags → ⊥
    allocated p = omega (arith, unqueued e.flags p, present)

    owed_before : (owes s e.flags ≡ 0) × (owes after e.flags ≡ 1)
    owed_before = ground (arith, backed e.flags present alive)

    handed_more : handed after ≡ handed s + 1
    handed_more = omega (
      arith,
      owed_before,
      total-change s.world.flags.next e.flags (owes after) (owes s) (omega (arith, allocated))
          (λ j ne. ground arith),
    )

    handed_over : Inv 0 after
    handed_over = record {
      size = size;
      bounded = bounded;
      counted = omega (arith, handed_more, counted);
      unused = unused;
      unqueued = λ a p. omega (arith, le a, unqueued a p);
      once = λ a. omega (arith, le a, once a);
      full = λ a p c. ground (arith, full a, le a);
      backed = λ a p c. ground (arith, backed a, le a, once a, eq a);
      own = own;
      live = λ a r q. ground (arith, live a r q);
      unseen = λ a r q u. ground (arith, unseen a r q u, present, le a);
      parked = λ a r q u v g. ground (arith, parked a r q u v, live a r q, eq a);
    }

settle-Inv {ℓ} :
    {K : Type ℓ} (s : Pool K) {r : Option (List (Entry K) × World)}
    → Inv 1 s
    → Served s.world s.queue.waiters r
    → Inv 0 (with_queue s (settle s.queue s.world r))
settle-Inv s inv (nobody h) = freed s inv h
settle-Inv s inv (served e rest alive le eq) = handed_over s inv e rest alive le eq

pub release-Inv {ℓ} :
    {K : Type ℓ} (s : Pool K) → Inv 1 s → Inv 0 (with_queue s (release s.queue s.world))
unfolding release
release-Inv s inv = settle-Inv s inv (hand_off-Served s.world s.queue.waiters)
