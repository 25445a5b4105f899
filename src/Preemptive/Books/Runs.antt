-- ===== src/Preemptive/Books/Runs.antt =====
-- src/resource/preemptive.rs: the books of a preemptive pool over whole runs.
use sim_core.Base.{
  ℕ, suc, ◌≡◌, refl, Bool, true, false, List, [], ◌∷◌, Option, none, some, arith, length, total-suc,
  total-eq, if◌then◌else◌,
}
use sim_core.Base.Order.{nat_ord}
use sim_core.Request.{Request}
use sim_core.Request
use sim_core.Request.Invariant.{owed}
use sim_core.Preemptive.{PreemptiveGuard, poll}
use sim_core.Preemptive.Pool.{
  PreemptivePool, Op, request, requests, polls, drops, drops_guard, make_request, after_poll,
  poll_at, drop_at, drop_guard_at, step, run,
}
use sim_core.Preemptive.Books.Units.{Books}
use sim_core.Preemptive.Books.Steps.{poll-Books}
use sim_core.Preemptive.Books.Drops.{drop-Books, drop_guard-Books}

module _ (c n : ℕ) (s : PreemptivePool) (books : Books c (suc n) s) where
  open books use {room, held, size, bounded, covered, own, unused}

  -- A step that changes nothing.
  idle-Books : Books c n s
  idle-Books = record {
    room = omega (arith, room);
    held = held;
    size = size;
    bounded = bounded;
    covered = covered;
    own = own;
    unused = unused;
  }

  request-Books : (priority : ℕ) → Books c n (make_request s (request priority s.scene.world))
  unfolding request Request.request
  request-Books priority =
      let t = make_request s (request priority s.scene.world) in
      let v : ℕ → ℕ = λ a. owed (t.requests a) (t.scene.world.flags.cell a) in
      record {
        room = omega (arith, room);
        held = record {
          synced = held.synced;
          numbered = held.numbered;
          own = held.own;
          backed = held.backed;
        };
        size = size;
        bounded = bounded;
        covered = omega (
          arith,
          covered,
          total-suc s.scene.world.flags.next v,
          total-eq s.scene.world.flags.next v
              (λ a. owed (s.requests a) (s.scene.world.flags.cell a)) (λ a lt. ground arith),
          (let new : v s.scene.world.flags.next ≡ 0 = ground arith in new),
        );
        own = λ a r e. ground (arith, own a r);
        unused = λ a le. ground (arith, unused a);
      }

  step-Books : (op : Op) → Books c n (step op s)
  unfolding step
  step-Books (requests priority) = request-Books priority
  step-Books (polls a waker) = go (s.requests a) refl
    where
      polled :
          (r : Request ℕ) (b : Bool)
          → s.requests a ≡ some r
          → r.consumed ≡ b
          → Books c n (if b then s else after_poll s a (poll r waker s.scene))
      polled r true e f = idle-Books
      polled r false e f = poll-Books c n s books a r e waker f

      go : (o : Option (Request ℕ)) → s.requests a ≡ o → Books c n (poll_at s a waker o)
      go none e = idle-Books
      go (some r) e = polled r r.consumed e refl
  step-Books (drops a) = go (s.requests a) refl
    where
      go : (o : Option (Request ℕ)) → s.requests a ≡ o → Books c n (drop_at s a o)
      go none e = idle-Books
      go (some r) e = drop-Books c n s books a r e
  step-Books (drops_guard a) = go (s.guards a) refl
    where
      go : (o : Option PreemptiveGuard) → s.guards a ≡ o → Books c n (drop_guard_at s a o)
      go none e = idle-Books
      go (some g) e = drop_guard-Books c n s books a g e

pub run-Books :
    (c : ℕ) (ops : List Op) (s : PreemptivePool) → Books c (length ops) s → Books c 0 (run ops s)
unfolding run
run-Books c [] s books = books
run-Books c (op ∷ ops) s books = run-Books c ops (step op s) (step-Books c (length ops) s books op)
