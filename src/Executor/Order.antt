-- ===== src/Executor/Order.antt =====
-- src/executor/queue.rs: the order of the event queue, by time and then by scheduling.
use sim_core.Base.{
  ◌+◌, ◌<◌, ◌≡◌, refl, Bool, true, false, not, ◌&&◌, List, [], ◌∷◌, Option, none, some, arith, All,
  All-imp, subst, if◌then◌else◌, u64_mod, wrap_suc,
}
use sim_core.Base.Order.{is_gt}
use sim_core.Heap.{All-push, push}
use sim_core.Float.{Float}
use sim_core.Executor.Waker.{SimWaker}
use sim_core.Executor.State.{ScheduledWaker, SimState, schedule_wakeup, event_ord, in_future}

module _ (f : Float) (P : Type 0) where
  open f use {F}

  -- The place of an event: behind every event at the same or an earlier time.
  pub insert_by_time : ScheduledWaker f → List (ScheduledWaker f) → List (ScheduledWaker f)
  insert_by_time e [] = e ∷ []
  insert_by_time e (x ∷ xs) =
      if is_gt (f.order.cmp x.time e.time) then e ∷ x ∷ xs else x ∷ insert_by_time e xs

  push-insert_by_time :
      (e : ScheduledWaker f) (xs : List (ScheduledWaker f))
      → All (λ x. x.seq < e.seq) xs
      → push ⦃o = event_ord f⦄ e xs ≡ insert_by_time e xs
  unfolding push insert_by_time
  push-insert_by_time e [] h = refl
  push-insert_by_time e (x ∷ xs) h =
      ground (arith, push-insert_by_time e xs h.1, f.order.flip e.time x.time)

  -- In a state whose events all have a number below the counter, as long as the counter does not
  -- wrap: a wake-up that is scheduled goes behind every event at the same or an earlier time and
  -- before all others, and again all events have a number below the counter.
  pub schedule_wakeup-stable :
      (debug : Bool) (time : F) (waker : SimWaker) (s s' : SimState f P)
      → All (λ x. x.seq < s.seq_counter) s.event_queue
      → s.seq_counter + 1 < u64_mod
      → schedule_wakeup f debug time waker s ≡ some s'
      → (s'.event_queue
          ≡ insert_by_time
              (record { time = time; seq = s.seq_counter; waker = waker })
              s.event_queue)
        × All (λ x. x.seq < s'.seq_counter) s'.event_queue
  unfolding schedule_wakeup
  schedule_wakeup-stable debug time waker s s' numbered room done =
      go (debug && not (in_future f time s)) done
    where
      e : ScheduledWaker f
      e = record { time = time; seq = s.seq_counter; waker = waker }

      scheduled : SimState f P
      scheduled = record s {
        seq_counter = wrap_suc s.seq_counter;
        event_queue = push ⦃o = event_ord f⦄ e s.event_queue;
      }

      Stable : SimState f P → Type 0
      Stable t =
          (t.event_queue ≡ insert_by_time e s.event_queue)
          × All (λ (x : ScheduledWaker f). x.seq < t.seq_counter) t.event_queue

      StableIfAny : Option (SimState f P) → Type 0
      StableIfAny none = Unit
      StableIfAny (some t) = Stable t

      go : (b : Bool) → (if b then none else some scheduled) ≡ some s' → Stable s'
      go true h = cc
      go false h = subst StableIfAny h (
        push-insert_by_time e s.event_queue numbered,
        All-push ⦃o = event_ord f⦄ (λ (x : ScheduledWaker f). x.seq < wrap_suc s.seq_counter) e
            s.event_queue (omega arith) (All-imp _ _ s.event_queue (λ x lt. omega arith) numbered),
      )
