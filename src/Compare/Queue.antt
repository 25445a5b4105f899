-- ===== src/Compare/Queue.antt =====
-- examples/compare.rs: a queue with one or more servers, first come first served or by priority. The
-- two models are the same code but for the resource, its key and what a record keeps; a record
-- here keeps what either does.
pub mod Laws
pub mod Books
pub mod Sources
pub mod Tended
pub mod Progress
pub mod Runs
use sim_core.Base.{
  ℕ, zero, suc, ◌+◌, Bool, true, false, List, [], ◌∷◌, ◌++◌, map, Option, none, some, if◌then◌else◌,
}
use sim_core.Base.Store.{Store}
use sim_core.Base.Order.{Ord}
use sim_core.Float.{Float}
use sim_core.Executor.Waker.{SimWaker, make_waker}
use sim_core.Executor.State
use sim_core.Env.{Call, schedules, spawns, wakes, panics, Outcome, Program, Sim, spawn}
use sim_core.Timeout.{Timeout}
use sim_core.Timeout.Calls.{timeout_at, is_due, marked, poll_calls}
use sim_core.Rng
use sim_core.Rng.{SplitMix64}
use sim_core.Rng.Sample.{Math, splitmix64, exponential}
use sim_core.WaitQueue.{WaitQueue, World, Flags}
use sim_core.Compare.Await.{wake_calls, after_calls, awaiting, sleep}
use sim_core.Request
use sim_core.Request.{Request, Polled}

module _ (f : Float) (K : Type 0) where
  open f use {F}

  pub record Rec : Type 0 where
    pub key : K
    pub wait : F
    pub service : F
    pub departure : F

  -- What the processes share: the random source, the resource with its cells, and the records.
  pub record Shared : Type 0 where
    pub rng : SplitMix64
    pub queue : WaitQueue K
    pub flags : Store Flags
    pub recs : List Rec

  -- Where a customer waits: nowhere yet, for the server, or for its service to end.
  pub data Stage : Type 0 where
    entering : Stage
    waiting : Request K → Stage
    served : (wait : F) → Timeout f → Stage

  -- `arrives left none` is before a turn of the loop with `left` turns to go, and
  -- `arrives left (some t)` waits for an arrival with `left` turns to go after it.
  pub data Process : Type 0 where
    arrives : (left : ℕ) → Option (Timeout f) → Process
    customer : (key : K) (arrival service : F) → Stage → Process

  -- A source with its seed, a resource that nobody uses, and the arrivals as the one process.
  unfoldable pub begin : (seed n : ℕ) → WaitQueue K → Sim f Process Shared
  begin seed n q = record {
    state = spawn f Process (arrives n none) (State.new f);
    shared = record {
      rng = Rng.new seed;
      queue = q;
      flags = record { next = 0; cell = λ a. Request.fresh_flags };
      recs = [];
    };
  }

  abbrev pub Done : Type 0
  Done = Outcome f Process Shared

  abbrev pub world : Shared → World
  world u = record { flags = u.flags; ready_queue = [] }

module _ (f : Float) (m : Math f) {K : Type 0} ⦃o : Ord K⦄ (draw_key : SplitMix64 → K × SplitMix64)
    (lambda mu : f.F) where
  open f use {F, sub}

  -- The head of the loop of `queue_arrivals` and `prio_arrivals`.
  unfoldable pub next_arrival : F → SimWaker → ℕ → Shared f K → Done f K
  next_arrival now waker zero u = record { calls = []; left = none; shared = u }
  next_arrival now waker (suc left) u =
      let (inter_arrival, rng) = exponential f m splitmix64 (m.div m.one lambda) u.rng in
      sleep f now waker inter_arrival (λ t. arrives left (some t)) (record u { rng = rng })

  -- The rest of a turn, when the arrival is due.
  unfoldable pub arrive : F → SimWaker → ℕ → Shared f K → Done f K
  arrive now waker left u =
      let (service, rng) = exponential f m splitmix64 (m.div m.one mu) u.rng in
      let (key, rng') = draw_key rng in
      after_calls f (spawns (customer key now service entering) ∷ [])
        (next_arrival now waker left (record u { rng = rng' }))

  abbrev pub with_queue : WaitQueue K → World → Shared f K → Shared f K
  with_queue q w u = record u { queue = q; flags = w.flags }

  abbrev pub polled : F → SimWaker → K → F → F → Shared f K → Polled K → Done f K
  polled now waker key arrival service u p =
      if p.ready
      then sleep f now waker service
          (λ t. customer key arrival service (served (sub now arrival) t)) u
      else record {
        calls = [];
        left = some (customer key arrival service (waiting p.request));
        shared = u;
      }

  -- `res.request().await` of `queue_customer` and `prio_customer`, and the start of the service.
  unfoldable pub request : F → SimWaker → K → F → F → Request K → World → Shared f K → Done f K
  request now waker key arrival service r w u =
      let p = Request.poll r waker u.queue w in
      polled now waker key arrival service (with_queue p.queue p.world u) p

  abbrev pub depart_with : K → F → F → F → Shared f K → WaitQueue K × World → Done f K
  depart_with key wait service now u (q, w) = record {
    calls = wake_calls f w.ready_queue;
    left = none;
    shared = record (with_queue q w u) {
      recs = u.recs ++ record { key = key; wait = wait; service = service; departure = now } ∷ [];
    };
  }

  -- `drop(guard)`, and the record.
  unfoldable pub depart : F → K → F → F → Shared f K → Done f K
  depart now key wait service u =
      depart_with key wait service now u (Request.drop_guard u.queue (world f K u))

  unfoldable pub poll_customer : F → SimWaker → K → F → F → Shared f K → Stage f K → Done f K
  poll_customer now waker key arrival service u entering =
      let (r, w) = Request.request key (world f K u) in request now waker key arrival service r w u
  poll_customer now waker key arrival service u (waiting r) =
      request now waker key arrival service r (world f K u) u
  poll_customer now waker key arrival service u (served wait t) =
      if is_due f now t
      then depart now key wait service u
      else awaiting f waker (λ t'. customer key arrival service (served wait t')) u t

  unfoldable pub poll_arrivals : F → SimWaker → ℕ → Shared f K → Option (Timeout f) → Done f K
  poll_arrivals now waker left u none = next_arrival now waker left u
  poll_arrivals now waker left u (some t) =
      if is_due f now t
      then arrive now waker left u
      else awaiting f waker (λ t'. arrives left (some t')) u t

  unfoldable pub program : Program f (Process f K) (Shared f K)
  program now waker u (arrives left t) = poll_arrivals now waker left u t
  program now waker u (customer key arrival service stage) =
      poll_customer now waker key arrival service u stage
