-- ===== src/Compare/Queue/Tended/Steps.antt =====
-- examples/compare.rs: every step of the event loop leaves each process of a simulated queue with
-- what will wake it.
use sim_core.Base.{
  ℕ, ◌+◌, ◌<◌, ◌≤◌, ◌≡◌, ◌≢◌, refl, sym, ap, ◌∙◌, subst, ◌⊎◌, inl, inr, true, false, List, [], ◌∷◌,
  ◌++◌, Option, none, some, arith, get_elem?, u64_mod,
}
use native.Mathlib.Decide.{dec_lt}
use sim_core.Base.Order.{Ord}
use sim_core.Float.{Float, IsIeee}
use sim_core.Executor.Waker.{SimWaker, make_waker}
use sim_core.Executor.State.{SimState, ScheduledWaker, ProcessEntry}
use sim_core.Env.{poll_entry, perform_all, fired, take_ready, drain_pending_spawns, admit_all, ids}
use sim_core.Env.Results.{Ensures, Ensures-bind, Ensures-imp}
use sim_core.Env.Conservation.Calls.{fails, perform_all-fails}
use sim_core.Env.Effects.{HasEvent, times, times-append, entry_at-get_elem}
use sim_core.Env.Effects.Entry.{kid_count, Effect, poll_entry-Effect}
use sim_core.Env.Tended.{IsTended}
use sim_core.Timeout.{Timeout}
use sim_core.Timeout.Calls.{is_due}
use sim_core.Rng.{SplitMix64}
use sim_core.Rng.Sample.{Math}
use sim_core.Compare.Queue.{entering, waiting, served, Process, arrives, customer, program}
use sim_core.Compare.Queue.Laws.{to_come}
use sim_core.Compare.Queue.Books.{Role, Booked}
use sim_core.Compare.Queue.Sources.Polls.{Wakeful, program-Turns}
use sim_core.Compare.Queue.Tended.{
  Run, slot, role_at, coming_at, Sleeping, Source, Tended, Source-moves,
}
use sim_core.Compare.Queue.Tended.Polls.{total-ge, after-Tended}

module _ (f : Float) (ieee : IsIeee f) (m : Math f) {K : Type 0} ⦃o : Ord K⦄
    (draw_key : SplitMix64 → K × SplitMix64) (lambda mu : f.F) where
  -- A process that sleeps has its event as long as it is not due.
  undue :
      (batch : List ℕ) (s : Run f K) (x : ℕ) (t : Timeout f)
      → Sleeping f K batch s x t
      → is_due f s.state.current_time t ≡ false
      → HasEvent f x t.deadline s.state.event_queue
  unfolding is_due
  undue batch s x t (scheduled, inl event) h = event
  undue batch s x t (scheduled, inr (woke, le)) h = absurd (ground (arith, scheduled, le, h))

  Source-Wakeful :
      (batch : List ℕ) (s : Run f K) (id n : ℕ) (roles : ℕ → Role K)
      (b : Booked K n roles s.shared.queue s.shared.flags) (p : Process f K)
      → Source f K batch s id p
      → Wakeful f m draw_key lambda mu n roles id s.state.event_queue s.state.current_time s.shared
          b p
  Source-Wakeful batch s id n roles b (arrives left none) h = tt
  Source-Wakeful batch s id n roles b (arrives left (some t)) h = undue batch s id t h
  Source-Wakeful batch s id n roles b (customer key arrival service entering) h = tt
  Source-Wakeful batch s id n roles b (customer key arrival service (waiting r)) h = tt
  Source-Wakeful batch s id n roles b (customer key arrival service (served wait t)) h =
      undue batch s id t h

  module _ (id : ℕ) (batch : List ℕ) (s : Run f K) (h : Tended f K (id ∷ batch) s) where
    below :
        (e : ProcessEntry f (Process f K)) → slot f K s id ≡ some e → id < s.state.next_process_id
    below e at = elim (dec_lt id s.state.next_process_id) [
      | yes lt ↦ lt
      | no ge ↦ absurd (let none_there = h.fresh id (omega (arith, ge)) in cc)
    ]

    kid-fits :
        (p : Process f K) (kid : Option (Process f K)) (w : SimWaker)
        → slot f K s id ≡ some (record { future = p; waker = w })
        → kid_count f (Process f K) kid ≤ to_come f K p
        → s.state.next_process_id + kid_count f (Process f K) kid < u64_mod
    kid-fits p kid w at few = omega (
      arith,
      h.room,
      few,
      ap (coming_at f K) at,
      total-ge s.state.next_process_id id (λ x. coming_at f K (slot f K s x)) (below _ at),
    )

    dies-tends :
        (e : ProcessEntry f (Process f K))
        → fails f
            (Process f K)
            (program f m draw_key lambda mu s.state.current_time e.waker s.shared e.future).calls
          ≡ true
        → Ensures
            (Tended f K batch)
            (poll_entry f (Process f K) true (program f m draw_key lambda mu) id e s)
    unfolding poll_entry
    dies-tends e dies =
        Ensures-bind (λ s'. ⊥) (Tended f K batch) (perform_all f (Process f K) true _ _) _
          (perform_all-fails f (Process f K) true _ _ dies) (λ s' none. elim none [ ])

    poll-tends :
        (p : Process f K)
        → get_elem? s.state.processes id
          ≡ some (some (record { future = p; waker = make_waker id }))
        → Ensures (Tended f K batch) (
            poll_entry f
              (Process f K)
              true
              (program f m draw_key lambda mu)
              id
              (record { future = p; waker = make_waker id })
              s)
    poll-tends p there =
        let at = entry_at-get_elem f (Process f K) s.state.processes id _ there in
        let lt = below _ at in
        let (kid, turn) =
          program-Turns f m draw_key lambda mu s.state.next_process_id
            (λ x. role_at f K (slot f K s x)) id s.state.event_queue s.state.current_time s.shared
            h.booked p lt (ap (role_at f K) at)
            (Source-Wakeful (id ∷ batch) s id s.state.next_process_id _ h.booked p
              (h.sources id _ at).1) in
        let e : ProcessEntry f (Process f K) = record { future = p; waker = make_waker id } in
        elim turn [
          | inl dies ↦ dies-tends e dies
          | inr st ↦
              Ensures-imp (Effect f (Process f K) (program f m draw_key lambda mu) id e _ kid s)
                (Tended f K batch) _
                (λ s' k.
                  after-Tended f (program f m draw_key lambda mu) id batch p s s' _ kid h at lt st
                    k)
                (poll_entry-Effect f (Process f K) (program f m draw_key lambda mu) id e s there kid
                  h.settled st.only (kid-fits p kid (make_waker id) at (omega (arith, st.fewer)))
                  (λ same. omega (arith, same, lt)))
        ]

    polled-tends :
        (e : ProcessEntry f (Process f K))
        → get_elem? s.state.processes id ≡ some (some e)
        → Ensures
            (Tended f K batch)
            (poll_entry f (Process f K) true (program f m draw_key lambda mu) id e s)
    polled-tends e there =
        let at = entry_at-get_elem f (Process f K) s.state.processes id _ there in
        subst
          (λ w.
            get_elem? s.state.processes id ≡ some (some (record { future = e.future; waker = w }))
            → Ensures (Tended f K batch) (
                poll_entry f (Process f K) true (program f m draw_key lambda mu) id
                  (record { future = e.future; waker = w }) s))
          (sym (h.sources id e at).0) (poll-tends e.future) there

  slot-differs :
      (s : Run f K) (i x : ℕ) (e : ProcessEntry f (Process f K))
      → slot f K s i ≡ none
      → slot f K s x ≡ some e
      → i ≢ x
  slot-differs s i x e h g same = cc

  drain-same :
      (s : SimState f (Process f K))
      → s.pending_spawns ≡ []
      → drain_pending_spawns f (Process f K) s ≡ s
  unfolding drain_pending_spawns admit_all
  drain-same s taken = go s.pending_spawns taken
    where
      nil : (q : List ℕ) → q ++ [] ≡ q
      nil [] = refl
      nil (x ∷ q) = cc (nil q)

      go :
          (pending : List (ℕ × Process f K))
          → pending ≡ []
          → record s {
            pending_spawns = [];
            processes = admit_all f (Process f K) pending s.processes;
            ready_queue = s.ready_queue ++ ids f (Process f K) pending;
          }
            ≡ record s { pending_spawns = pending }
      go [] h = ap (λ q. record s { pending_spawns = []; ready_queue = q }) (nil s.ready_queue)
      go (x ∷ pending) h = absurd cc

  -- An event fires, and its process wakes at its time.
  fired-Source :
      (e : ScheduledWaker f) (rest : List (ScheduledWaker f)) (s : Run f K)
      → s.state.event_queue ≡ e ∷ rest
      → s.state.ready_queue ≡ []
      → (x : ℕ) (p : Process f K) → Source f K [] s x p
      → Source f K [] (fired f (Process f K) true (program f m draw_key lambda mu) e rest s) x p
  fired-Source e rest s same idle_now x p =
      Source-moves f K [] [] s
        (fired f (Process f K) true (program f m draw_key lambda mu) e rest s) x
        (λ woke. absurd (nobody woke)) event (λ t woke le. absurd (nobody woke)) p
        (λ r role g. inl g)
    where
      nobody : 0 < 0 + times x s.state.ready_queue → ⊥
      nobody woke = omega (arith, woke, ap (times x) idle_now)

      event :
          (t : f.F)
          → HasEvent f x t s.state.event_queue
          → HasEvent f x t rest
            ⊎ ((0 < 0 + times x (s.state.ready_queue ++ e.waker.process_id ∷ []))
                × (f.le t e.time ≡ true))
      event t there = elim (subst (HasEvent f x t) same there) [
        | inl (at, who, number) ↦ inr (
          ground (arith, who, times-append x s.state.ready_queue (e.waker.process_id ∷ [])),
          ap (f.le t) at ∙ ieee.le_refl t number,
        )
        | inr later ↦ inl later
      ]

  pub Tended-IsTended : IsTended f (Process f K) true (program f m draw_key lambda mu) (Tended f K)
  unfolding drain_pending_spawns
  Tended-IsTended = record {
    drained = λ s h.
        subst (λ st. Tended f K [] (record s { state = st })) (sym (drain-same s.state h.settled))
          h;
    polled = λ id batch e s there h. polled-tends id batch s h e there;
    skipped = λ id batch s there h. record {
      settled = h.settled;
      booked = h.booked;
      room = h.room;
      fresh = h.fresh;
      sources = λ x e at.
          let (waker, source) = h.sources x e at in
          (
            waker,
            Source-moves f K (id ∷ batch) batch s s x
                (λ woke. ground (
                  arith,
                  woke,
                  slot-differs s id x e
                      (entry_at-get_elem f (Process f K) s.state.processes id none there) at,
                ))
                (λ t event. inl event) (λ t woke le. le) e.future (λ r role g. inl g) source,
          );
    };
    taken = λ s h. record {
      settled = h.settled;
      booked = h.booked;
      room = h.room;
      fresh = h.fresh;
      sources = λ x e at.
          let (waker, source) = h.sources x e at in
          (
            waker,
            Source-moves f K [] s.state.ready_queue s
                (take_ready f (Process f K) true (program f m draw_key lambda mu) s) x
                (λ woke. omega (arith, woke)) (λ t there. inl there) (λ t woke le. le) e.future
                (λ r role g. inl g) source,
          );
    };
    fires = λ e rest s same idle h. record {
      settled = h.settled;
      booked = h.booked;
      room = h.room;
      fresh = h.fresh;
      sources = λ x e' at.
          let (waker, source) = h.sources x e' at in
          (waker, fired-Source e rest s same idle x e'.future source);
    };
  }
