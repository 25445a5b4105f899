-- ===== src/Compare/Queue/Sources/Polls.antt =====
-- examples/compare.rs: each poll of a process of a simulated queue.
use sim_core.Base.{
  ℕ, zero, suc, ◌+◌, ◌<◌, ◌≡◌, ◌≢◌, refl, sym, ap, ◌∙◌, subst, inl, inr, Bool, true, false, List,
  Option, none, some, arith, update, if◌then◌else◌,
}
use mathlib.Core.Path.{fun_ext}
use sim_core.Base.Order.{Ord}
use sim_core.Float.{Float}
use sim_core.Executor.Waker.{make_waker}
use sim_core.Executor.State.{ScheduledWaker}
use sim_core.Env.Effects.{HasEvent, times}
use sim_core.Timeout.Calls.{is_due}
use sim_core.Rng.{SplitMix64}
use sim_core.Rng.Sample.{Math, splitmix64, exponential}
use sim_core.WaitQueue.{World, is_granted}
use sim_core.Request
use sim_core.Request.{Request, Polled}
use sim_core.Request.Effects.{PollEffect, poll-Effect}
use sim_core.Compare.Await.{awaiting}
use sim_core.Compare.Queue.{
  Shared, entering, waiting, served, Process, arrives, customer, world, next_arrival, arrive,
  polled, request, depart, poll_customer, poll_arrivals, program,
}
use sim_core.Compare.Queue.Laws.{to_come}
use sim_core.Compare.Queue.Books.{
  Role, idle, holds, asks, quiet, Booked, Asking, request-Asking, asks-Asking,
}
use sim_core.Compare.Queue.Books.Polling.{poll-Booked, role-there}
use sim_core.Compare.Queue.Books.Leaving.{drop_guard-Booked}
use sim_core.Compare.Queue.Sources.{
  role_of, Turns, spawn-Turns, wake_calls-children, wake_calls-woken, awaiting-Settles, sleep-Turns,
}

module _ (f : Float) (m : Math f) {K : Type 0} ⦃o : Ord K⦄ (draw_key : SplitMix64 → K × SplitMix64)
    (lambda mu : f.F) where
  open f use {F}

  module _ (n : ℕ) (roles : ℕ → Role K) (id : ℕ) (events : List (ScheduledWaker f)) (now : f.F)
      (u : Shared f K) (b : Booked K n roles u.queue u.flags) where
    -- A process whose role stays.
    stays : (role : Role K) → roles id ≡ role → Booked K n (update roles id role) u.queue u.flags
    stays role e =
        subst (λ rs. Booked K n rs u.queue u.flags) (sym (fun_ext λ x. ground (arith, e))) b

    next_arrival-Turns :
        (left : ℕ) (rng : SplitMix64)
        → roles id ≡ idle
        → Turns f K n roles id events u left none
            (next_arrival f m draw_key lambda mu now (make_waker id) left (record u { rng = rng }))
    unfolding next_arrival
    next_arrival-Turns zero rng free = inr (record {
      only = refl;
      enters = tt;
      booked = stays idle free;
      fewer = omega arith;
      rests = tt;
      grants = λ x r ne e g. inl g;
    })
    next_arrival-Turns (suc left) rng free =
        let (inter_arrival, rng') = exponential f m splitmix64 (m.div m.one lambda) rng in
        sleep-Turns f K n roles id events (λ t. arrives left (some t)) (suc left) idle u
          (record u { rng = rng' }) (λ x r ne e g. g) (stays idle free)
          (λ t calls. (refl, omega arith, λ h. h)) now inter_arrival

    arrive-Turns :
        (left : ℕ)
        → roles id ≡ idle
        → let (key, rng') = draw_key (exponential f m splitmix64 (m.div m.one mu) u.rng).1 in
          Turns f K n roles id events u
            (left + 1)
            (some (customer key now (exponential f m splitmix64 (m.div m.one mu) u.rng).0 entering))
            (arrive f m draw_key lambda mu now (make_waker id) left u)
    unfolding arrive
    arrive-Turns left free =
        let (service, rng) = exponential f m splitmix64 (m.div m.one mu) u.rng in
        let (key, rng') = draw_key rng in
        spawn-Turns f K n roles id events u left key now service
          (next_arrival f m draw_key lambda mu now (make_waker id) left (record u { rng = rng' }))
          (next_arrival-Turns left rng' free)

    -- A process that polls its request.
    request-Turns :
        (key : K) (arrival service : F) (r : Request K) (w : World)
        → Asking K n roles u.queue w id r
        → ((x : ℕ) (s : Request K)
            → id ≢ x
            → roles x ≡ asks s
            → is_granted w s.flags ≡ true
            → is_granted (world f K u) s.flags ≡ true)
        → Turns f K n roles id events u 0 none
            (request f m draw_key lambda mu now (make_waker id) key arrival service r w u)
    unfolding request
    request-Turns key arrival service r w a before =
        let books = poll-Booked n roles u.queue w id r a in
        go (Request.poll r (make_waker id) u.queue w) (poll-Effect r (make_waker id) u.queue w)
          books.0 books.1
      where
        go :
            (p : Polled K)
            → PollEffect r (make_waker id) u.queue w p
            → (p.ready ≡ true → Booked K n (update roles id holds) p.queue p.world.flags)
            → (p.ready ≡ false
                → Booked K n (update roles id (asks p.request)) p.queue p.world.flags)
            → Turns f K n roles id events u 0 none (
                polled f m draw_key lambda mu now
                  (make_waker id)
                  key
                  arrival
                  service
                  (record u { queue = p.queue; flags = p.world.flags })
                  p)
        go p eff ready pending = split p.ready refl
          where
            same :
                (x : ℕ) (s : Request K)
                → id ≢ x
                → roles x ≡ asks s
                → is_granted (quiet K p.world.flags) s.flags ≡ true
                → is_granted (world f K u) s.flags ≡ true
            same x s ne e g =
                before x s ne e (ground (arith, g, ap (λ v. is_granted v s.flags) eff.world))

            split :
                (b : Bool)
                → p.ready ≡ b
                → Turns f K n roles id events u 0 none (
                    polled f m draw_key lambda mu now
                      (make_waker id)
                      key
                      arrival
                      service
                      (record u { queue = p.queue; flags = p.world.flags })
                      (record p { ready = b }))
            split true e =
                sleep-Turns f K n roles id events
                  (λ t. customer key arrival service (served (f.sub now arrival) t)) 0 holds u
                  (record u { queue = p.queue; flags = p.world.flags }) same (ready e)
                  (λ t calls. (refl, omega arith, λ h. h)) now service
            split false e = inr (record {
              only = refl;
              enters = tt;
              booked = pending e;
              fewer = omega arith;
              rests = ground (
                arith,
                (eff.waits e).2,
                eff.address,
                ap (λ v. is_granted v p.request.flags) eff.world,
              );
              grants = λ x s ne h g. inl (same x s ne h g);
            })

    depart-Turns :
        (key : K) (wait service : F)
        → roles id ≡ holds
        → Turns f K n roles id events u 0 none
            (depart f m draw_key lambda mu now key wait service u)
    unfolding depart
    depart-Turns key wait service e =
        let r = Request.drop_guard u.queue (world f K u) in
        let (books, given) = drop_guard-Booked n roles u.queue u.flags b id e in
        inr (record {
          only = wake_calls-children f K r.1.ready_queue;
          enters = tt;
          booked = books;
          fewer = omega arith;
          rests = tt;
          grants = λ x s ne h g. elim (given x s (role-there roles id idle x ne ∙ h) g) [
            | inl old ↦ inl old
            | inr woke ↦
                inr (ground (arith, wake_calls-woken f K x r.1.ready_queue, ap (times x) woke))
          ];
        })

    -- A process that sleeps is due, or its event is still there.
    abbrev pub Wakeful : Process f K → Type 0
    Wakeful (arrives left none) = Unit
    Wakeful (arrives left (some t)) = is_due f now t ≡ false → HasEvent f id t.deadline events
    Wakeful (customer key arrival service entering) = Unit
    Wakeful (customer key arrival service (waiting r)) = Unit
    Wakeful (customer key arrival service (served wait t)) =
        is_due f now t ≡ false → HasEvent f id t.deadline events

    pub program-Turns :
        (p : Process f K)
        → id < n
        → roles id ≡ role_of f K p
        → Wakeful p
        → (kid : Option (Process f K)) × Turns f K n roles id events u
            (to_come f K p)
            kid
            (program f m draw_key lambda mu now (make_waker id) u p)
    unfolding program poll_arrivals poll_customer Request.request
    program-Turns (arrives left none) lt e h = (none, next_arrival-Turns left u.rng e)
    program-Turns (arrives left (some t)) lt e h = go (is_due f now t) h
      where
        go :
            (due : Bool)
            → (due ≡ false → HasEvent f id t.deadline events)
            → (kid : Option (Process f K)) × Turns f K n roles id events u (left + 1) kid (
                if due
                then arrive f m draw_key lambda mu now (make_waker id) left u
                else awaiting f (make_waker id) (λ t'. arrives left (some t')) u t)
        go true there = (some _, arrive-Turns left e)
        go false there = (
          none,
          inr (
              awaiting-Settles f K n roles id events (λ t'. arrives left (some t')) (left + 1) idle
                u u (λ x r ne e g. g) (stays idle e) (λ t' calls. (refl, omega arith, λ k. k)) t
                (λ marked. there refl)),
        )
    program-Turns (customer key arrival service entering) lt e h =
        let (r, w) = Request.request key (world f K u) in
        (
          none,
          request-Turns key arrival service r w
              (request-Asking n roles u.queue u.flags b id key lt e)
              (λ x s ne g granted. ground (arith, granted)),
        )
    program-Turns (customer key arrival service (waiting r)) lt e h = (
      none,
      request-Turns key arrival service r (world f K u)
          (asks-Asking n roles u.queue u.flags b id r e) (λ x s ne g granted. granted),
    )
    program-Turns (customer key arrival service (served wait t)) lt e h = go (is_due f now t) h
      where
        go :
            (due : Bool)
            → (due ≡ false → HasEvent f id t.deadline events)
            → (kid : Option (Process f K)) × Turns f K n roles id events u 0 kid (
                if due
                then depart f m draw_key lambda mu now key wait service u
                else awaiting f
                    (make_waker id)
                    (λ t'. customer key arrival service (served wait t'))
                    u
                    t)
        go true there = (none, depart-Turns key wait service e)
        go false there = (
          none,
          inr (
              awaiting-Settles f K n roles id events
                (λ t'. customer key arrival service (served wait t')) 0 holds u u (λ x r ne e g. g)
                (stays holds e) (λ t' calls. (refl, omega arith, λ k. k)) t (λ marked. there refl)),
        )
