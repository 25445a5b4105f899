-- ===== src/WaitQueue/Refinement/Runs.antt =====
-- src/resource/wait_queue.rs: the queue against its specification, step by step.
use mathlib.Core.Path.{fun_ext}
use sim_core.Base.{
  ℕ, suc, ◌+◌, ◌<◌, ◌≤◌, ◌≡◌, refl, ap, sym, ◌∙◌, Bool, true, false, List, [], ◌∷◌, Option, none,
  some, arith, if◌then◌else◌, ◌==◌, update, ltb, u64_mod, wrap_pred_of_pos, length, not, count,
}
use sim_core.Base.Order.{Ord}
use sim_core.Executor.Waker.{SimWaker}
use sim_core.WaitQueue
use sim_core.WaitQueue.{
  Entry, WaitQueue, World, is_canceled, is_granted, set_canceled, set_granted, wake, hand_off,
  settle, release, register, try_acquire, live_waiters,
}
use sim_core.WaitQueue.Order.{
  IsOrdered, register-IsOrdered, release-IsOrdered, release-next_seq, register_stable,
}
use sim_core.WaitQueue.Refinement.{
  Op, acquires, joins, leaves, releases, Waiter, Turnstile, run, live, view, insert, step,
  spec_step, serve_first, acquired,
}
use sim_core.WaitQueue.Refinement.Views.{
  live-leave, live-granted, live-insert, Finds, hand_off-Finds,
}

module _ {ℓ} {K : Type ℓ} ⦃o : Ord K⦄ where
  -- A queue on which `n` more steps are to be taken.
  record Sound (n : ℕ) (q : WaitQueue K) : Type ℓ where
    ordered : IsOrdered q
    room : q.next_seq + n < u64_mod
    bounded : q.in_use ≤ q.capacity
    size : q.capacity < u64_mod

  -- A step of the code against one of the specification.
  record Refines (n : ℕ) (t : Bool × Turnstile K) (r : Bool × (WaitQueue K × World)) : Type ℓ where
    same : t ≡ (r.0, view r.1)
    sound : Sound n r.1.0

  module _ (n : ℕ) (q : WaitQueue K) (w : World) (s : Sound (suc n) q) where
    stays : Sound n q
    stays = record {
      ordered = s.ordered;
      room = omega (arith, s.room);
      bounded = s.bounded;
      size = s.size;
    }

    acquires-Refines : Refines n (spec_step acquires (view (q, w))) (step acquires (q, w))
    unfolding spec_step step try_acquire
    acquires-Refines = go (ltb q.in_use q.capacity) refl
      where
        more : WaitQueue K
        more = record q { in_use = q.in_use + 1 }

        go :
            (b : Bool)
            → ltb q.in_use q.capacity ≡ b
            → Refines n
                (if b then (true, view (more, w)) else (false, view (q, w)))
                (acquired w (if b then (true, more) else (false, q)))
        go true h = record {
          same = refl;
          sound = record {
            ordered = record { sorted = (s.ordered).sorted; numbered = (s.ordered).numbered };
            room = omega (arith, s.room);
            bounded = ground (arith, h);
            size = s.size;
          };
        }
        go false h = record { same = refl; sound = stays }

    joins-Refines :
        (key : K) (waker : SimWaker) (a : ℕ)
        → Refines n (spec_step (joins key waker a) (view (q, w))) (step (joins key waker a) (q, w))
    unfolding spec_step step register
    joins-Refines key waker a = record {
      same = go (is_canceled w a) (
          sym (live-insert entry w q.waiters (s.ordered).sorted)
          ∙ ap (live w) (sym (register_stable key waker a q s.ordered)));
      sound = record {
        ordered = register-IsOrdered key waker a q (omega (arith, s.room)) s.ordered;
        room = omega (arith, s.room);
        bounded = s.bounded;
        size = s.size;
      };
    }
      where
        entry : Entry K
        entry = record { key = key; seq = q.next_seq; waker = waker; flags = a }

        with_waiting : List (Waiter K) → Bool × Turnstile K
        with_waiting l = (true, record (view (q, w)) { waiting = l })

        joined : List (Waiter K)
        joined = insert (record { key = key; waker = waker; flags = a }) (live w q.waiters)

        go :
            (b : Bool)
            → (if b then live w q.waiters else joined) ≡ live w (register key waker a q).waiters
            → ◌≡◌ {A = Bool × Turnstile K}
                (true, if b then view (q, w) else record (view (q, w)) { waiting = joined })
                (true, view (register key waker a q, w))
        go true h = ap with_waiting h
        go false h = ap with_waiting h

    leaves-Refines :
        (a : ℕ) → Refines n (spec_step (leaves a) (view (q, w))) (step (leaves a) (q, w))
    unfolding spec_step step
    leaves-Refines a = record {
      same =
          ap (λ l. seen l (update (λ b. is_canceled w b) a true) (λ b. is_granted w b))
            (sym (live-leave a w q.waiters))
          ∙ ap (λ g. seen (live (set_canceled a w) q.waiters) g (λ b. is_granted w b))
              (fun_ext (λ b. ground arith))
          ∙ ap
              (λ g.
                seen (live (set_canceled a w) q.waiters) (λ b. is_canceled (set_canceled a w) b) g)
              (fun_ext (λ b. ground arith));
      sound = stays;
    }
      where
        seen : List (Waiter K) → (ℕ → Bool) → (ℕ → Bool) → Bool × Turnstile K
        seen l gone granted =
            (true, record (view (q, w)) { waiting = l; gone = gone; granted = granted })

    settle-same :
        (seen : List (Waiter K)) (r : Option (List (Entry K) × World))
        → 0 < q.in_use
        → Finds w seen r
        → serve_first (view (q, w)) seen ≡ view (settle q w r)
    settle-same seen none pos h =
        ap (serve_first (view (q, w))) h
        ∙ ap (λ i. record (view (q, w)) { in_use = i; waiting = [] })
            (sym (wrap_pred_of_pos q.in_use pos (omega (arith, s.bounded, s.size))))
    settle-same seen (some (rest, w')) pos (e, at, split) =
        ap (serve_first (view (q, w))) split
        ∙ ap (λ l. after l (λ b. is_canceled w b) (update (λ b. is_granted w b) e.flags true))
            (sym (live-granted e.waker e.flags w rest))
        ∙ ap (λ g. after (live given rest) g (update (λ b. is_granted w b) e.flags true))
            (fun_ext (λ b. ground arith))
        ∙ ap (λ g. after (live given rest) (λ b. is_canceled given b) g)
            (fun_ext (λ b. ground arith))
        ∙ ap (λ w''. view (record q { waiters = rest }, w'')) (sym at)
      where
        given : World
        given = wake e.waker (set_granted e.flags w)

        after : List (Waiter K) → (ℕ → Bool) → (ℕ → Bool) → Turnstile K
        after l gone granted = record (view (q, given)) {
          waiting = l;
          gone = gone;
          granted = granted;
        }

    release-Refines :
        0 < q.in_use
        → Refines n (true, serve_first (view (q, w)) (live w q.waiters)) (true, release q w)
    unfolding release
    release-Refines pos = record {
      same =
          ap (λ t. (true, t))
            (settle-same (live w q.waiters) (hand_off w q.waiters) pos
              (hand_off-Finds w q.waiters));
      sound = record {
        ordered = release-IsOrdered q w s.ordered;
        room = omega (arith, release-next_seq q w s.ordered, s.room);
        bounded = (settle-bounds (hand_off w q.waiters)).0;
        size = (settle-bounds (hand_off w q.waiters)).1;
      };
    }
      where
        settle-bounds :
            (r : Option (List (Entry K) × World))
            → ((settle q w r).0.in_use ≤ (settle q w r).0.capacity)
              × ((settle q w r).0.capacity < u64_mod)
        settle-bounds none = (omega (arith, s.bounded, s.size), s.size)
        settle-bounds (some (rest, w')) = (s.bounded, s.size)

    releases-Refines : Refines n (spec_step releases (view (q, w))) (step releases (q, w))
    unfolding spec_step step
    releases-Refines = go (q.in_use == 0) refl
      where
        go :
            (b : Bool)
            → q.in_use == 0 ≡ b
            → Refines n
                (true, if b then view (q, w) else serve_first (view (q, w)) (live w q.waiters))
                (true, if b then (q, w) else release q w)
        go true h = record { same = refl; sound = stays }
        go false h = release-Refines (ground (arith, h))

  step-Refines :
      (n : ℕ) (op : Op K) (c : WaitQueue K × World)
      → Sound (suc n) c.0
      → Refines n (spec_step op (view c)) (step op c)
  step-Refines n acquires (q, w) s = acquires-Refines n q w s
  step-Refines n (joins key waker a) (q, w) s = joins-Refines n q w s key waker a
  step-Refines n (leaves a) (q, w) s = leaves-Refines n q w s a
  step-Refines n releases (q, w) s = releases-Refines n q w s

  runs :
      (ops : List (Op K)) (c : WaitQueue K × World)
      → Sound (length ops) c.0
      → let (answers, end) = run step ops c in run spec_step ops (view c) ≡ (answers, view end)
  unfolding run
  runs [] c s = refl
  runs (op ∷ ops) c s =
      let r = step-Refines (length ops) op c s in rw (r.same, runs ops (step op c).1 r.sound) refl

  live_waiters-view :
      (w : World) (q : WaitQueue K) → live_waiters w q ≡ length (view (q, w)).waiting
  unfolding live_waiters
  live_waiters-view w q = go q.waiters
    where
      go : (es : List (Entry K)) → count (λ e. not (is_canceled w e.flags)) es ≡ length (live w es)
      go [] = refl
      go (e ∷ es) = ground (arith, go es)

  -- Fewer than 2^64 calls on a new queue of less than 2^64 units, in any world, are answered as by
  -- the specification, which takes a waiter out when it leaves, puts each behind those of the same
  -- or a lesser key and serves the first; and what can be seen of the queue in the end is what the
  -- specification says: the units in use, the waiters in order, the cells and the ready queue. The
  -- length that the queue reports is the number of those waiters.
  pub run-view :
      (capacity : ℕ) (w : World) (ops : List (Op K))
      → capacity < u64_mod
      → length ops < u64_mod
      → let (answers, end) = run step ops (WaitQueue.new capacity, w) in
        (run spec_step ops (view (WaitQueue.new capacity, w)) ≡ (answers, view end))
        × (live_waiters end.1 end.0 ≡ length (view end).waiting)
  unfolding WaitQueue.new
  run-view capacity w ops size few = (
    runs ops _ (record {
      ordered = record { sorted = tt; numbered = tt };
      room = omega arith;
      bounded = omega arith;
      size = size;
    }),
    live_waiters-view _ _,
  )
