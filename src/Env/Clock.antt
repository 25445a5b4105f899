-- ===== src/Env/Clock.antt =====
-- src/env.rs: the clock of the event loop, in a build with debug assertions.
use sim_core.Base.{
  ℕ, zero, suc, ◌≡◌, refl, Bool, true, false, not, ◌&&◌, List, [], ◌∷◌, Option, none, some, arith,
  All, wrap_suc, set, if◌then◌else◌, get_elem?,
}
use sim_core.Heap.{Ge, IsSorted, push, All-push, push-IsSorted}
use sim_core.Float.{Float, IsIeee}
use sim_core.Executor.State.{
  ScheduledWaker, event_ord, ProcessEntry, SimState, schedule_wakeup, alloc_process_id,
}
use sim_core.Env.{
  ok, ◌>>=◌, or_panic, Call, schedules, spawns, wakes, panics, Program, spawn, perform, perform_all,
  drain_pending_spawns, Sim, put_back, poll_entry, poll_slot, poll_batch, take_ready, poll_ready,
  settle, fired, run_loop,
}
use sim_core.Env.Results.{Ensures, Ensures-bind}

module _ (f : Float) (ieee : IsIeee f) (P : Type 0) where
  open f use {F, le, is_finite}

  abbrev pub After : F → ScheduledWaker f → Type 0
  After t e = (is_finite e.time ≡ true) × (le t e.time ≡ true)

  -- The clock is a number, and every event lies at or after it, in the order of the queue.
  pub record Timed (now : F) (queue : List (ScheduledWaker f)) : Type 0 where
    pub number : is_finite now ≡ true
    pub sorted : IsSorted ⦃o = event_ord f⦄ queue
    pub ahead : All (After now) queue

  -- `t`: a time that the clock has passed.
  abbrev pub Passed : F → SimState f P → Type 0
  Passed t s = Timed s.current_time s.event_queue × (le t s.current_time ≡ true)

  perform-Passed :
      (t : F) (c : Call f P) (s : SimState f P)
      → Passed t s
      → Ensures (Passed t) (or_panic (perform f P true c s))
  unfolding perform schedule_wakeup spawn alloc_process_id
  perform-Passed t (schedules time waker) s v =
      go (is_finite time) (le s.current_time time) refl refl
    where
      e : ScheduledWaker f
      e = record { time = time; seq = s.seq_counter; waker = waker }

      go :
          (p q : Bool)
          → is_finite time ≡ p
          → le s.current_time time ≡ q
          → Ensures (Passed t) (
              or_panic (
                if not (p && q)
                then none
                else some (record s {
                  seq_counter = wrap_suc s.seq_counter;
                  event_queue = push ⦃o = event_ord f⦄ e s.event_queue;
                })))
      go true true hp hq = (
        record {
          number = v.0.number;
          sorted = push-IsSorted ⦃o = event_ord f⦄ e s.event_queue v.0.sorted;
          ahead =
              All-push ⦃o = event_ord f⦄ (After s.current_time) e s.event_queue (hp, hq) v.0.ahead;
        },
        v.1,
      )
      go true false hp hq = tt
      go false q hp hq = tt
  perform-Passed t (spawns p) s v = v
  perform-Passed t (wakes w) s v = v
  perform-Passed t panics s v = tt

  perform_all-Passed :
      (t : F) (cs : List (Call f P)) (s : SimState f P)
      → Passed t s
      → Ensures (Passed t) (perform_all f P true cs s)
  unfolding perform_all
  perform_all-Passed t [] s v = v
  perform_all-Passed t (c ∷ cs) s v =
      Ensures-bind (Passed t) (Passed t) (or_panic (perform f P true c s)) (perform_all f P true cs)
        (perform-Passed t c s v) (perform_all-Passed t cs)

  module _ {U : Type 0} (program : Program f P U) where
    abbrev pub Kept : F → Sim f P U → Type 0
    Kept t m = Passed t m.state

    poll_entry-Kept :
        (t : F) (id : ℕ) (e : ProcessEntry f P) (m : Sim f P U)
        → Kept t m
        → Ensures (Kept t) (poll_entry f P true program id e m)
    unfolding poll_entry drain_pending_spawns
    poll_entry-Kept t id e m v =
        let taken = record (m.state) { processes = set m.state.processes id none } in
        let out = program taken.current_time e.waker m.shared e.future in
        Ensures-bind (Passed t) (Kept t) (perform_all f P true out.calls taken)
          (λ s. ok (record {
            state = drain_pending_spawns f P (put_back f P true program id e.waker out.left s);
            shared = out.shared;
          }))
          (perform_all-Passed t out.calls taken v) (λ s h. put out.left out.shared s h)
      where
        put :
            (o : Option P) (u : U) (s : SimState f P)
            → Passed t s
            → Passed t (drain_pending_spawns f P (put_back f P true program id e.waker o s))
        put none u s h = h
        put (some p) u s h = h

    poll_slot-Kept :
        (t : F) (id : ℕ) (o : Option (Option (ProcessEntry f P))) (m : Sim f P U)
        → Kept t m
        → Ensures (Kept t) (poll_slot f P true program id o m)
    poll_slot-Kept t id none m v = tt
    poll_slot-Kept t id (some none) m v = v
    poll_slot-Kept t id (some (some e)) m v = poll_entry-Kept t id e m v

    poll_batch-Kept :
        (t : F) (batch : List ℕ) (m : Sim f P U)
        → Kept t m
        → Ensures (Kept t) (poll_batch f P true program batch m)
    unfolding poll_batch
    poll_batch-Kept t [] m v = v
    poll_batch-Kept t (id ∷ batch) m v =
        Ensures-bind (Kept t) (Kept t) _ (poll_batch f P true program batch)
          (poll_slot-Kept t id (get_elem? m.state.processes id) m v) (poll_batch-Kept t batch)

    poll_ready-Kept :
        (t : F) (fuel : ℕ) (m : Sim f P U)
        → Kept t m
        → Ensures (Kept t) (poll_ready f P true program fuel m)
    unfolding poll_ready
    poll_ready-Kept t zero m v = tt
    poll_ready-Kept t (suc fuel) m v = go (m.state.ready_queue) (poll_ready-Kept t fuel)
      where
        go :
            (q : List ℕ)
            → ((n : Sim f P U) → Kept t n → Ensures (Kept t) (poll_ready f P true program fuel n))
            → Ensures (Kept t) (elim q [
              | [] ↦ ok m
              | id ∷ batch ↦
                  poll_batch f P true program (id ∷ batch) (take_ready f P true program m)
                  >>= poll_ready f P true program fuel
            ])
        go [] later = v
        go (id ∷ batch) later =
            Ensures-bind (Kept t) (Kept t) _ (poll_ready f P true program fuel)
              (poll_batch-Kept t (id ∷ batch) (take_ready f P true program m) v) later

    pub settle-Kept :
        (t : F) (fuel : ℕ) (m : Sim f P U)
        → Kept t m
        → Ensures (Kept t) (settle f P true program fuel m)
    unfolding settle drain_pending_spawns
    settle-Kept t fuel m v = poll_ready-Kept t fuel _ v

    -- The first event is the earliest.
    pub Ge-le :
        (e x : ScheduledWaker f)
        → is_finite e.time ≡ true
        → is_finite x.time ≡ true
        → Ge ⦃o = event_ord f⦄ e x
        → le e.time x.time ≡ true
    Ge-le e x fe fx h =
        ieee.le_of_order e.time x.time fe fx (λ g. h (ground (arith, f.order.flip e.time x.time)))

    pub fired-Kept :
        (t : F) (e : ScheduledWaker f) (rest : List (ScheduledWaker f)) (m : Sim f P U)
        → m.state.event_queue ≡ e ∷ rest
        → Kept t m
        → Kept t (fired f P true program e rest m)
    fired-Kept t e rest m same v =
        let q = rw same at (v.0) in
        (
          record {
            number = q.ahead.0.0;
            sorted = q.sorted.1;
            ahead = later rest q.ahead.0.0 q.sorted.0 q.ahead.1;
          },
          ieee.le_trans t m.state.current_time e.time v.1 q.ahead.0.1,
        )
      where
        later :
            (xs : List (ScheduledWaker f))
            → is_finite e.time ≡ true
            → All (Ge ⦃o = event_ord f⦄ e) xs
            → All (After m.state.current_time) xs
            → All (After e.time) xs
        later [] n g a = tt
        later (x ∷ xs) n g a = ((a.0.0, Ge-le e x n a.0.0 g.0), later xs n g.1 a.1)

    pub run_loop-Kept :
        (t : F) (rounds fuel : ℕ) (m : Sim f P U)
        → Kept t m
        → Ensures (Kept t) (run_loop f P true program rounds fuel m)
    unfolding run_loop
    run_loop-Kept t rounds zero m v = tt
    run_loop-Kept t rounds (suc fuel) m v =
        go m.state.event_queue refl (run_loop-Kept t rounds fuel)
      where
        go :
            (q : List (ScheduledWaker f))
            → m.state.event_queue ≡ q
            → ((n : Sim f P U)
                → Kept t n
                → Ensures (Kept t) (run_loop f P true program rounds fuel n))
            → Ensures (Kept t) (elim q [
              | [] ↦ ok m
              | e ∷ rest ↦
                  settle f P true program rounds (fired f P true program e rest m)
                  >>= run_loop f P true program rounds fuel
            ])
        go [] same later = v
        go (e ∷ rest) same later =
            Ensures-bind (Kept t) (Kept t) _ (run_loop f P true program rounds fuel)
              (settle-Kept t rounds _ (fired-Kept t e rest m same v)) later
