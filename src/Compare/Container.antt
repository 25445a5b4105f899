-- ===== src/Compare/Container.antt =====
-- examples/compare.rs: consumers of large and small amounts of a container, and a producer that fills
-- it.
use sim_core.Base.{ℕ, zero, suc, Bool, List, [], ◌∷◌, ◌++◌, Option, none, some, if◌then◌else◌}
use sim_core.Base.Store.{Store}
use sim_core.Float.{Float}
use sim_core.Executor.State
use sim_core.Executor.Waker.{SimWaker}
use sim_core.Env.{spawns, panics, Outcome, Program, Sim, spawn}
use sim_core.Timeout.{Timeout}
use sim_core.Timeout.Calls.{is_due}
use sim_core.Rng
use sim_core.Rng.{SplitMix64}
use sim_core.Rng.Sample.{Math, splitmix64, exponential, bernoulli}
use sim_core.Container.{ContainerState, World, Flags}
use sim_core.Container.Requests.{
  ContainerRequest, Polled, fresh_flags, make_request, poll_get, poll_put,
}
use sim_core.Compare.Await.{wake_calls, after_calls, awaiting, sleep}

module _ (f : Float) where
  open f use {F}

  pub record Rec : Type 0 where
    pub large : Bool
    pub wait : F

  pub record Shared : Type 0 where
    pub rng : SplitMix64
    pub cont : ContainerState f
    pub flags : Store Flags
    pub recs : List Rec

  -- Where the producer waits: for its interval, or for room.
  pub data Putting : Type 0 where
    pausing : Timeout f → Putting
    putting : ContainerRequest f → Putting

  -- `left`: the turns to go, of the loop of the arrivals or of the producer, after the one under
  -- way if there is one. A consumer has no request before its first poll.
  pub data Process : Type 0 where
    arrives : (left : ℕ) → Option (Timeout f) → Process
    produces : (left : ℕ) → Option Putting → Process
    consumer : (amount : F) → (large : Bool) → (arrival : F) → Option (ContainerRequest f) → Process

  abbrev pub Done : Type 0
  Done = Outcome f Process Shared

  abbrev pub world : Shared → World
  world u = record { flags = u.flags; ready_queue = [] }

  abbrev pub with_cont : Polled f → Shared → Shared
  with_cont p u = record u { cont = p.state; flags = p.world.flags }

  abbrev pub panicking : Shared → Done
  panicking u = record { calls = panics ∷ []; left = none; shared = u }

module _ (f : Float) (m : Math f) where
  open f use {F, sub}

  -- `C_ARRIVAL_SCALE`, `C_SMALL`, `C_LARGE`, `C_P_LARGE`, `C_PUT_AMT` and `C_PUT_INTERVAL`
  abbrev pub arrival_scale : F
  arrival_scale = m.of_u64 1

  abbrev pub small : F
  small = m.of_u64 2

  abbrev pub large_amount : F
  large_amount = m.of_u64 20

  abbrev pub p_large : F
  p_large = m.div (m.of_u64 3) (m.of_u64 10)

  abbrev pub put_amt : F
  put_amt = m.of_u64 7

  abbrev pub put_interval : F
  put_interval = m.of_u64 1

  abbrev consumed : F → F → Bool → F → Shared f → Polled f → Done f
  consumed now amount large arrival u p = record {
    calls = wake_calls f p.world.ready_queue;
    left = if p.ready then none else some (consumer amount large arrival (some p.request));
    shared =
        if p.ready
        then record (with_cont f p u) {
          recs = u.recs ++ record { large = large; wait = sub now arrival } ∷ [];
        }
        else with_cont f p u;
  }

  abbrev consume_with :
      F → SimWaker → F → Bool → F → Shared f → Option (ContainerRequest f × World) → Done f
  consume_with now waker amount large arrival u none = panicking f u
  consume_with now waker amount large arrival u (some (r, w)) =
      consumed now amount large arrival u (poll_get f r waker u.cont w)

  unfoldable pub consume :
      F → SimWaker → F → Bool → F → Shared f → Option (ContainerRequest f) → Done f
  consume now waker amount large arrival u none =
      consume_with now waker amount large arrival u (make_request f amount u.cont (world f u))
  consume now waker amount large arrival u (some r) =
      consumed now amount large arrival u (poll_get f r waker u.cont (world f u))

  -- The head of the loop of `c_arrivals`.
  unfoldable pub next_arrival : F → SimWaker → ℕ → Shared f → Done f
  next_arrival now waker zero u = record { calls = []; left = none; shared = u }
  next_arrival now waker (suc left) u =
      let (inter_arrival, rng) = exponential f m splitmix64 arrival_scale u.rng in
      sleep f now waker inter_arrival (λ t. arrives left (some t)) (record u { rng = rng })

  -- The rest of a turn, when the arrival is due.
  unfoldable pub arrive : F → SimWaker → ℕ → Shared f → Done f
  arrive now waker left u =
      let (large, rng) = bernoulli f m splitmix64 p_large u.rng in
      let amount = if large then large_amount else small in
      after_calls f (spawns (consumer amount large now none) ∷ [])
        (next_arrival now waker left (record u { rng = rng }))

  unfoldable pub poll_arrivals : F → SimWaker → ℕ → Shared f → Option (Timeout f) → Done f
  poll_arrivals now waker left u none = next_arrival now waker left u
  poll_arrivals now waker left u (some t) =
      if is_due f now t
      then arrive now waker left u
      else awaiting f waker (λ t'. arrives left (some t')) u t

  -- The head of the loop of `c_producer`.
  unfoldable pub next_put : F → SimWaker → ℕ → Shared f → Done f
  next_put now waker zero u = record { calls = []; left = none; shared = u }
  next_put now waker (suc left) u =
      sleep f now waker put_interval (λ t. produces left (some (pausing t))) u

  abbrev put_polled : F → SimWaker → ℕ → Shared f → Polled f → Done f
  put_polled now waker left u p = after_calls f (wake_calls f p.world.ready_queue) (
      if p.ready then next_put now waker left (with_cont f p u) else record {
        calls = [];
        left = some (produces left (some (putting p.request)));
        shared = with_cont f p u;
      })

  abbrev put_with : F → SimWaker → ℕ → Shared f → Option (ContainerRequest f × World) → Done f
  put_with now waker left u none = panicking f u
  put_with now waker left u (some (r, w)) =
      put_polled now waker left u (poll_put f r waker u.cont w)

  unfoldable pub poll_producer : F → SimWaker → ℕ → Shared f → Option (Putting f) → Done f
  poll_producer now waker left u none = next_put now waker left u
  poll_producer now waker left u (some (pausing t)) =
      if is_due f now t
      then put_with now waker left u (make_request f put_amt u.cont (world f u))
      else awaiting f waker (λ t'. produces left (some (pausing t'))) u t
  poll_producer now waker left u (some (putting r)) =
      put_polled now waker left u (poll_put f r waker u.cont (world f u))

  unfoldable pub program : Program f (Process f) (Shared f)
  program now waker u (arrives left t) = poll_arrivals now waker left u t
  program now waker u (produces left p) = poll_producer now waker left u p
  program now waker u (consumer amount large arrival r) = consume now waker amount large arrival u r

module _ (f : Float) where
  -- The source with its seed, a container, the arrivals and the producer.
  unfoldable pub begin : (seed n : ℕ) → ContainerState f → Sim f (Process f) (Shared f)
  begin seed n cont = record {
    state =
        spawn f (Process f) (produces n none) (spawn f (Process f) (arrives n none) (State.new f));
    shared = record {
      rng = Rng.new seed;
      cont = cont;
      flags = record { next = 0; cell = λ a. fresh_flags };
      recs = [];
    };
  }
