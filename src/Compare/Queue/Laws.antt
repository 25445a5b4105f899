-- ===== src/Compare/Queue/Laws.antt =====
-- examples/compare.rs: the customers of a queue, over whole runs of the simulation.
use sim_core.Base.{
  ℕ, zero, suc, ◌+◌, ◌*◌, ◌≤◌, ◌≡◌, refl, Bool, true, false, List, [], ◌∷◌, Option, none, some,
  arith, length, length-append, if◌then◌else◌,
}
use sim_core.Base.Order.{Ord}
use sim_core.Float.{Float}
use sim_core.Executor.Waker.{SimWaker}
use sim_core.Env.{schedules}
use sim_core.Env.Conservation.Calls.{in_calls, in_left, fails}
use sim_core.Env.Weight.{costs, size_left}
use sim_core.Timeout.{Timeout}
use sim_core.Timeout.Calls.{timeout_at, is_due, marked, poll_calls}
use sim_core.Rng.{SplitMix64}
use sim_core.Rng.Sample.{Math, splitmix64, exponential}
use sim_core.WaitQueue.{WaitQueue, World, Entry, hand_off, settle, release}
use sim_core.Request
use sim_core.Request.{Request, Polled}
use sim_core.Compare.Await.{wake_calls, awaiting, await_new, sleep}
use sim_core.Compare.Queue.{
  Shared, Stage, entering, waiting, served, Process, arrives, customer, Done, world, next_arrival,
  arrive, polled, request, depart, depart_with, poll_customer, poll_arrivals, program,
}

module _ (f : Float) (K : Type 0) where
  -- The customers that a process stands for: itself, or those that are still to come.
  abbrev pub customers : Process f K → ℕ
  customers (arrives left none) = left
  customers (arrives left (some t)) = left + 1
  customers (customer key arrival service stage) = 1

  abbrev pub recorded : Shared f K → ℕ
  recorded u = length u.recs

  -- What a process can still spawn.
  abbrev pub to_come : Process f K → ℕ
  to_come (arrives left none) = left
  to_come (arrives left (some t)) = left + 1
  to_come (customer key arrival service stage) = 0

  -- Two for an event that is still to be asked for.
  abbrev unscheduled : Timeout f → ℕ
  unscheduled t = if t.scheduled then 0 else 2

  abbrev stage_size : Stage f K → ℕ
  stage_size entering = 3
  stage_size (waiting r) = 3
  stage_size (served wait t) = 1 + unscheduled t

  -- What a process can still ask for: the events, wakes and spawns of its customers.
  abbrev pub size : Process f K → ℕ
  size (arrives left none) = 6 * left
  size (arrives left (some t)) = 6 * left + 4 + unscheduled t
  size (customer key arrival service stage) = stage_size stage

  -- A poll that starts with so many customers, spawns to come and size in all.
  pub record Turn (customers_in_all spawns_in_all size_in_all : ℕ) (out : Done f K) : Type 0 where
    pub kept :
        fails f (Process f K) out.calls ≡ false
        → recorded out.shared
            + in_calls f (Process f K) customers out.calls
            + in_left f (Process f K) customers out.left
          ≡ customers_in_all
    pub bred :
        in_calls f (Process f K) (λ q. to_come q + 1) out.calls
          + in_left f (Process f K) to_come out.left
        ≤ spawns_in_all
    pub paid :
        costs f (Process f K) size out.calls + size_left f (Process f K) size out.left ≤ size_in_all

  module _ (waker : SimWaker) (back : Timeout f → Process f K) (u : Shared f K) (c s n : ℕ)
      (h : (t : Timeout f)
        → (customers (back t) ≡ c)
          × (to_come (back t) ≤ s)
          × (size (back t) ≡ n + unscheduled t)) where
    awaiting-Turn :
        (t : Timeout f) → Turn (recorded u + c) s (n + unscheduled t) (awaiting f waker back u t)
    unfolding poll_calls
    awaiting-Turn t = go t.scheduled
      where
        go :
            (b : Bool)
            → Turn (recorded u + c) s (n + (if b then 0 else 2)) (record {
              calls = if b then [] else schedules t.deadline waker ∷ [];
              left = some (back (marked f t));
              shared = u;
            })
        go true = record {
          kept = λ lives. omega (arith, h (marked f t));
          bred = omega (arith, h (marked f t));
          paid = omega (arith, h (marked f t));
        }
        go false = record {
          kept = λ lives. omega (arith, h (marked f t));
          bred = omega (arith, h (marked f t));
          paid = omega (arith, h (marked f t));
        }

    sleep-Turn :
        (now delay : f.F) → Turn (recorded u + c) s (n + 2) (sleep f now waker delay back u)
    unfolding timeout_at
    sleep-Turn now delay = go (timeout_at f now delay)
      where
        go : (o : Option (Timeout f)) → Turn (recorded u + c) s (n + 2) (await_new f waker back u o)
        go none = record { kept = λ lives. cc; bred = omega arith; paid = omega arith }
        go (some t) =
            let r = awaiting-Turn t in
            record { kept = r.kept; bred = r.bred; paid = ground (arith, r.paid) }

  wake_calls-nothing :
      (v : Process f K → ℕ) (ids : List ℕ) → in_calls f (Process f K) v (wake_calls f ids) ≡ 0
  wake_calls-nothing v [] = refl
  wake_calls-nothing v (id ∷ ids) = wake_calls-nothing v ids

  wake_calls-costs : (ids : List ℕ) → costs f (Process f K) size (wake_calls f ids) ≡ length ids
  wake_calls-costs [] = refl
  wake_calls-costs (id ∷ ids) = omega (arith, wake_calls-costs ids)

-- A unit that is given back wakes one process at most.
hand_off-wakes {ℓ} :
    {K : Type ℓ} (w : World) (es : List (Entry K)) (q : WaitQueue K)
    → length (settle q w (hand_off w es)).1.ready_queue ≤ length w.ready_queue + 1
unfolding hand_off
hand_off-wakes w [] q = omega arith
hand_off-wakes w (e ∷ es) q =
    ground (arith, hand_off-wakes w es q, length-append w.ready_queue (e.waker.process_id ∷ []))

module _ (f : Float) (m : Math f) {K : Type 0} ⦃o : Ord K⦄ (draw_key : SplitMix64 → K × SplitMix64)
    (lambda mu : f.F) where
  next_arrival-Turn :
      (now : f.F) (waker : SimWaker) (left : ℕ) (u : Shared f K)
      → Turn f K
          (recorded f K u + left)
          left
          (6 * left)
          (next_arrival f m draw_key lambda mu now waker left u)
  unfolding next_arrival
  next_arrival-Turn now waker zero u = record {
    kept = λ lives. omega arith;
    bred = omega arith;
    paid = omega arith;
  }
  next_arrival-Turn now waker (suc left) u =
      let (inter_arrival, rng) = exponential f m splitmix64 (m.div m.one lambda) u.rng in
      let r =
        sleep-Turn f K waker (λ t. arrives left (some t)) (record u { rng = rng }) (suc left)
          (suc left) (6 * left + 4) (λ t. (omega arith, omega arith, refl)) now inter_arrival in
      record { kept = r.kept; bred = r.bred; paid = omega (arith, r.paid) }

  arrive-Turn :
      (now : f.F) (waker : SimWaker) (left : ℕ) (u : Shared f K)
      → Turn f K
          (recorded f K u + (left + 1))
          (left + 1)
          (6 * left + 4)
          (arrive f m draw_key lambda mu now waker left u)
  unfolding arrive
  arrive-Turn now waker left u =
      let rng = (draw_key (exponential f m splitmix64 (m.div m.one mu) u.rng).1).1 in
      let r = next_arrival-Turn now waker left (record u { rng = rng }) in
      record {
        kept = λ lives. omega (arith, r.kept lives);
        bred = omega (arith, r.bred);
        paid = omega (arith, r.paid);
      }

  request-Turn :
      (now : f.F) (waker : SimWaker) (key : K) (arrival service : f.F) (r : Request K) (w : World)
      (u : Shared f K)
      → Turn f K
          (recorded f K u + 1)
          0
          3
          (request f m draw_key lambda mu now waker key arrival service r w u)
  unfolding request
  request-Turn now waker key arrival service r w u =
      let p = Request.poll r waker u.queue w in go p p.ready
    where
      go :
          (p : Polled K) (b : Bool)
          → Turn f K (recorded f K u + 1) 0 3 (
              polled f m draw_key lambda mu now waker key arrival service
                (record u { queue = p.queue; flags = p.world.flags })
                (record p { ready = b }))
      go p true =
          sleep-Turn f K waker (λ t. customer key arrival service (served (f.sub now arrival) t))
            (record u { queue = p.queue; flags = p.world.flags }) 1 0 1
            (λ t. (refl, omega arith, refl)) now service
      go p false = record { kept = λ lives. omega arith; bred = omega arith; paid = omega arith }

  depart-Turn :
      (now : f.F) (key : K) (wait service : f.F) (u : Shared f K)
      → Turn f K (recorded f K u + 1) 0 1 (depart f m draw_key lambda mu now key wait service u)
  unfolding depart Request.drop_guard release
  depart-Turn now key wait service u =
      let r = go (Request.drop_guard u.queue (world f K u)) in
      record {
        kept = r.kept;
        bred = r.bred;
        paid = omega (arith, r.paid, hand_off-wakes (world f K u) u.queue.waiters u.queue);
      }
    where
      go :
          (r : WaitQueue K × World)
          → Turn f K
              (recorded f K u + 1)
              0
              (length r.1.ready_queue)
              (depart_with f m draw_key lambda mu key wait service now u r)
      go (q, w) = record {
        kept = λ lives. omega (
          arith,
          wake_calls-nothing f K (customers f K) w.ready_queue,
          length-append u.recs
              (record { key = key; wait = wait; service = service; departure = now } ∷ []),
        );
        bred = omega (arith, wake_calls-nothing f K (λ q. to_come f K q + 1) w.ready_queue);
        paid = omega (arith, wake_calls-costs f K w.ready_queue);
      }

  pub program-Turn :
      (now : f.F) (waker : SimWaker) (u : Shared f K) (p : Process f K)
      → Turn f K
          (recorded f K u + customers f K p)
          (to_come f K p)
          (size f K p)
          (program f m draw_key lambda mu now waker u p)
  unfolding program poll_arrivals poll_customer
  program-Turn now waker u (arrives left none) = next_arrival-Turn now waker left u
  program-Turn now waker u (arrives left (some t)) = go (is_due f now t)
    where
      go :
          (b : Bool)
          → Turn f K (recorded f K u + (left + 1)) (left + 1) (6 * left + 4 + unscheduled f K t) (
              if b
              then arrive f m draw_key lambda mu now waker left u
              else awaiting f waker (λ t'. arrives left (some t')) u t)
      go true =
          let r = arrive-Turn now waker left u in
          record { kept = r.kept; bred = r.bred; paid = omega (arith, r.paid) }
      go false =
          awaiting-Turn f K waker (λ t'. arrives left (some t')) u (left + 1) (left + 1)
            (6 * left + 4) (λ t'. (refl, omega arith, refl)) t
  program-Turn now waker u (customer key arrival service entering) =
      request-Turn now waker key arrival service _ _ u
  program-Turn now waker u (customer key arrival service (waiting r)) =
      request-Turn now waker key arrival service r (world f K u) u
  program-Turn now waker u (customer key arrival service (served wait t)) = go (is_due f now t)
    where
      go :
          (b : Bool)
          → Turn f K (recorded f K u + 1) 0 (1 + unscheduled f K t) (
              if b
              then depart f m draw_key lambda mu now key wait service u
              else awaiting f waker (λ t'. customer key arrival service (served wait t')) u t)
      go true =
          let r = depart-Turn now key wait service u in
          record { kept = r.kept; bred = r.bred; paid = omega (arith, r.paid) }
      go false =
          awaiting-Turn f K waker (λ t'. customer key arrival service (served wait t')) u 1 0 1
            (λ t'. (refl, omega arith, refl)) t
