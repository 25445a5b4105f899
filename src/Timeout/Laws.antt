-- ===== src/Timeout/Laws.antt =====
-- src/timeout.rs: a timeout polled before, at and after its deadline.
use sim_core.Base.{
  ◌≡◌, refl, Ordering, Bool, true, false, List, [], ◌∷◌, none, some, arith, All, wrap_suc,
}
use sim_core.Float.{Float, IsIeee}
use sim_core.Heap.{push}
use sim_core.Executor.Waker.{SimWaker}
use sim_core.Executor.State.{ScheduledWaker, event_ord, SimState, schedule_wakeup}
use sim_core.Env.Clock.{Timed, After}
use sim_core.Timeout.{Timeout, timeout, Polled, poll}

module _ (f : Float) (ieee : IsIeee f) (P : Type 0) where
  open f use {F, le, add, is_finite}

  -- A timeout made now, for a delay that is finite and not negative, and polled before the clock
  -- moves, does not trip the assertion, whatever the build, as long as its deadline does not
  -- overflow: it is pending, and its wake-up is queued for the current time plus the delay.
  pub fresh_timeout :
      (debug : Bool) (delay : F) (waker : SimWaker) (s : SimState f P)
      → is_finite s.current_time ≡ true
      → le f.zero delay ≡ true
      → is_finite delay ≡ true
      → is_finite (add s.current_time delay) ≡ true
      → (t : Timeout f) × (p : Polled f P) × (timeout f delay s ≡ some t)
        × (poll f debug t waker s ≡ some p)
        × (p.ready ≡ false)
        × (p.future ≡ record { deadline = add s.current_time delay; scheduled = true })
        × (p.state.event_queue
            ≡ push ⦃o = event_ord f⦄
                (record { time = add s.current_time delay; seq = s.seq_counter; waker = waker })
                s.event_queue)
  unfolding timeout poll schedule_wakeup
  fresh_timeout debug delay waker s now positive number fits =
      let e : ScheduledWaker f = record {
        time = add s.current_time delay;
        seq = s.seq_counter;
        waker = waker;
      } in
      let later = ieee.le_add s.current_time delay now positive in
      (
        record { deadline = add s.current_time delay; scheduled = false },
        record {
          ready = false;
          future = record { deadline = add s.current_time delay; scheduled = true };
          state = record s {
            seq_counter = wrap_suc s.seq_counter;
            event_queue = push ⦃o = event_ord f⦄ e s.event_queue;
          };
        },
        rw (positive, number) refl,
        ground (arith, later),
        refl,
        refl,
        refl,
      )

  -- A poll that says `Ready` was made at or after the deadline, by a timeout that has scheduled
  -- its wake-up, and changes nothing.
  pub ready_at_deadline :
      (debug : Bool) (t : Timeout f) (waker : SimWaker) (s : SimState f P) (p : Polled f P)
      → poll f debug t waker s ≡ some p
      → p.ready ≡ true
      → (le t.deadline s.current_time ≡ true) × (t.scheduled ≡ true) × (p.state ≡ s)
  unfolding poll schedule_wakeup
  ready_at_deadline debug t waker s p e r = ground arith

  first_event :
      (e : ScheduledWaker f) (now : F) (xs : List (ScheduledWaker f))
      → is_finite now ≡ true
      → is_finite e.time ≡ true
      → le now e.time ≡ false
      → All (After f ieee P now) xs
      → push ⦃o = event_ord f⦄ e xs ≡ e ∷ xs
  unfolding push
  first_event e now [] n d late a = refl
  first_event e now (x ∷ xs) n d late a =
      let order = f.order in
      let before : order.cmp e.time x.time ≡ Ordering.lt =
        ieee.order_of_not_le x.time e.time a.0.0 d (not_le x.time a.0.1) in
      ground (arith, before, order.flip e.time x.time)
    where
      not_le : (y : F) → le now y ≡ true → le y e.time ≡ false
      not_le y h = go (le y e.time) refl
        where
          go : (b : Bool) → le y e.time ≡ b → b ≡ false
          go true q = cc (ieee.le_trans now y e.time h q)
          go false q = refl

  -- A timeout that has not scheduled its wake-up and is polled when a finite deadline lies before
  -- the clock, with no event before the clock, panics in a build with debug assertions; in one
  -- without, its wake-up becomes the first event, at a time before the current one.
  pub stale_timeout :
      (t : Timeout f) (waker : SimWaker) (s : SimState f P)
      → Timed f ieee P s.current_time s.event_queue
      → t.scheduled ≡ false
      → is_finite t.deadline ≡ true
      → le s.current_time t.deadline ≡ false
      → (poll f true t waker s ≡ none)
        × (poll f false t waker s
            ≡ some (record {
              ready = false;
              future = record t { scheduled = true };
              state = record s {
                seq_counter = wrap_suc s.seq_counter;
                event_queue =
                    record { time = t.deadline; seq = s.seq_counter; waker = waker }
                    ∷ s.event_queue;
              };
            }))
  unfolding poll schedule_wakeup
  stale_timeout t waker s v fresh number late =
      let e : ScheduledWaker f = record { time = t.deadline; seq = s.seq_counter; waker = waker } in
      let first = first_event e s.current_time s.event_queue v.number number late v.ahead in
      (ground arith, ground (arith, first))
