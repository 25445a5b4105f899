-- ===== src/Container/Requests.antt =====
-- src/resource/container.rs: the two request futures, and a container in use as one system.
use sim_core.Base.{
  ℕ, Bool, true, false, not, ◌&&◌, List, [], ◌∷◌, ◌++◌, Option, none, some, update, if◌then◌else◌,
}
use sim_core.Base.Store.{alloc}
use sim_core.Executor.Waker.{SimWaker}
use sim_core.Float.{Float}
use sim_core.Container.{
  Flags, World, is_done, set_canceled, Waiter, ContainerState, has_live_get_waiter,
  has_live_put_waiter, trigger_cascade,
}

abbrev pub fresh_flags : Flags
fresh_flags = record { done = false; canceled = false }

module _ (f : Float) where
  open f use {F, le, lt, add, sub}

  -- `ContainerGetRequest` and `ContainerPutRequest`
  pub record ContainerRequest : Type 0 where
    pub amount : F
    pub registered : Bool
    pub flags : ℕ

  pub record Polled : Type 0 where
    pub ready : Bool
    pub request : ContainerRequest
    pub state : ContainerState f
    pub world : World

  -- `get` and `put` alike: `none` is a panic of an assertion.
  unfoldable pub make_request : F → ContainerState f → World → Option (ContainerRequest × World)
  make_request amount s w =
      if lt f.zero amount && le amount s.capacity
      then some (
        record { amount = amount; registered = false; flags = w.flags.next },
        record w { flags = alloc fresh_flags w.flags },
      )
      else none

  abbrev pub completed : ContainerRequest → ContainerState f × World → Polled
  completed r (s, w) = record { ready = true; request = r; state = s; world = w }

  abbrev pub waiter : ContainerRequest → SimWaker → Waiter f
  waiter r waker = record { amount = r.amount; waker = waker; flags = r.flags }

  abbrev pub pending : ContainerRequest → ContainerState f → World → Polled
  pending r s w = record {
    ready = false;
    request = record r { registered = true };
    state = s;
    world = w;
  }

  unfoldable pub poll_put : ContainerRequest → SimWaker → ContainerState f → World → Polled
  poll_put r waker s w =
      if is_done w r.flags
      then completed r (s, w)
      else (if not r.registered
            && le (add s.level r.amount) s.capacity
            && not (has_live_put_waiter f w s)
          then completed r (trigger_cascade f (record s { level = add s.level r.amount }) w)
          else (if not r.registered
              then pending r (record s { put_waiters = s.put_waiters ++ waiter r waker ∷ [] }) w
              else pending r s w))

  unfoldable pub poll_get : ContainerRequest → SimWaker → ContainerState f → World → Polled
  poll_get r waker s w =
      if is_done w r.flags
      then completed r (s, w)
      else (if not r.registered && le r.amount s.level && not (has_live_get_waiter f w s)
          then completed r (trigger_cascade f (record s { level = sub s.level r.amount }) w)
          else (if not r.registered
              then pending r (record s { get_waiters = s.get_waiters ++ waiter r waker ∷ [] }) w
              else pending r s w))

  -- The `Drop` of either request.
  unfoldable pub drop : ContainerRequest → World → World
  drop r w = if r.registered && not (is_done w r.flags) then set_canceled r.flags w else w

  pub data Side : Type 0 where
    gets puts : Side

  -- A request that has not been dropped, with its side; a finished one is polled no more.
  pub record Slot : Type 0 where
    pub side : Side
    pub finished : Bool
    pub request : ContainerRequest

  pub record System : Type 0 where
    pub state : ContainerState f
    pub world : World
    pub requests : ℕ → Option Slot

  -- What processes do with a container, in any order.
  pub data Op : Type 0 where
    requests : Side → F → Op
    polls : ℕ → SimWaker → Op
    drops : ℕ → Op

  abbrev pub poll_side : Side → ContainerRequest → SimWaker → ContainerState f → World → Polled
  poll_side gets = poll_get
  poll_side puts = poll_put

  abbrev pub make_at : System → Side → Option (ContainerRequest × World) → System
  make_at s side none = s
  make_at s side (some (r, w)) = record s {
    world = w;
    requests =
        update s.requests r.flags (some (record { side = side; finished = false; request = r }));
  }

  abbrev pub after_poll : System → ℕ → Slot → Polled → System
  after_poll s a x p = record {
    state = p.state;
    world = p.world;
    requests = update s.requests a (some (record x { finished = p.ready; request = p.request }));
  }

  abbrev pub poll_at : System → ℕ → SimWaker → Option Slot → System
  poll_at s a waker none = s
  poll_at s a waker (some x) =
      if x.finished then s else after_poll s a x (poll_side x.side x.request waker s.state s.world)

  abbrev pub drop_at : System → ℕ → Option Slot → System
  drop_at s a none = s
  drop_at s a (some x) = record s {
    world = drop x.request s.world;
    requests = update s.requests a none;
  }

  unfoldable pub step : Op → System → System
  step (requests side amount) s = make_at s side (make_request amount s.state s.world)
  step (polls a waker) s = poll_at s a waker (s.requests a)
  step (drops a) s = drop_at s a (s.requests a)

  unfoldable pub run : List Op → System → System
  run [] s = s
  run (op ∷ ops) s = run ops (step op s)

  -- A new container in a world in which nobody has made a request of it.
  abbrev pub start : ContainerState f → World → System
  start c w = record { state = c; world = w; requests = λ a. none }
