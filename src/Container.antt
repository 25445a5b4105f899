-- ===== src/Container.antt =====
-- src/resource/container.rs: a reservoir with strict head-of-line FIFO queues on both sides.
-- A request's `done` and `canceled` are made together and shared with its queue entry: one
-- address into the store stands for both.
pub mod Cascade
pub mod Requests
pub mod Cases
pub mod Level
pub mod Quiet
use sim_core.Base.{
  ℕ, zero, suc, ◌+◌, ◌≡◌, Bool, true, false, not, ◌&&◌, ◌||◌, List, [], ◌∷◌, ◌++◌, Option, none,
  some, length, count, any, update, if◌then◌else◌,
}
use sim_core.Base.Store.{Store, alloc, write}
use sim_core.Executor.Waker.{SimWaker, wake_by_ref}
use sim_core.Float.{Float}

pub record Flags : Type 0 where
  pub done : Bool
  pub canceled : Bool

pub record World : Type 0 where
  pub flags : Store Flags
  pub ready_queue : List ℕ

abbrev pub is_done : World → ℕ → Bool
is_done w a = (w.flags.cell a).done

abbrev pub is_canceled : World → ℕ → Bool
is_canceled w a = (w.flags.cell a).canceled

abbrev pub set_done : ℕ → World → World
set_done a w = record w { flags = write a (record (w.flags.cell a) { done = true }) w.flags }

abbrev pub set_canceled : ℕ → World → World
set_canceled a w = record w {
  flags = write a (record (w.flags.cell a) { canceled = true }) w.flags;
}

abbrev pub wake : SimWaker → World → World
wake v w = record w { ready_queue = wake_by_ref v w.ready_queue }

module _ (f : Float) where
  open f use {F, le, lt, add, sub}

  -- `GetWaiter` and `PutWaiter`
  pub record Waiter : Type 0 where
    pub amount : F
    pub waker : SimWaker
    pub flags : ℕ

  pub record ContainerState : Type 0 where
    pub capacity : F
    pub level : F
    pub get_waiters : List Waiter
    pub put_waiters : List Waiter

  abbrev pub is_live : World → Waiter → Bool
  is_live w x = not (is_canceled w x.flags)

  unfoldable pub has_live_get_waiter : World → ContainerState → Bool
  has_live_get_waiter w s = any (is_live w) s.get_waiters

  unfoldable pub has_live_put_waiter : World → ContainerState → Bool
  has_live_put_waiter w s = any (is_live w) s.put_waiters

  -- What a loop over a queue of waiters leaves.
  pub record Drained : Type 0 where
    pub serviced : Bool
    pub level : F
    pub waiters : List Waiter
    pub world : World

  -- The loop of `wake_get_waiters` and of `wake_put_waiters`, which differ in the test of the
  -- head of the queue and in what serving it does to the level.
  unfoldable pub drain : (F → F → Bool) → (F → F → F) → Bool → F → World → List Waiter → Drained
  drain fits move serviced level w [] = record {
    serviced = serviced;
    level = level;
    waiters = [];
    world = w;
  }
  drain fits move serviced level w (x ∷ xs) =
      let skipped = drain fits move serviced level w xs in
      let served =
        drain fits move true (move level x.amount) (wake x.waker (set_done x.flags w)) xs in
      let blocked : Drained = record {
        serviced = serviced;
        level = level;
        waiters = x ∷ xs;
        world = w;
      } in
      if is_canceled w x.flags then skipped else (if fits level x.amount then served else blocked)

  -- `level >= amount`, and `level + amount <= capacity`.
  abbrev pub get_fits : F → F → Bool
  get_fits level amount = le amount level

  abbrev pub put_fits : F → F → F → Bool
  put_fits capacity level amount = le (add level amount) capacity

  -- The state and the world after a loop, and whether it served anybody.
  pub record Woken : Type 0 where
    pub serviced : Bool
    pub state : ContainerState
    pub world : World

  unfoldable pub wake_get_waiters : ContainerState → World → Woken
  wake_get_waiters s w =
      let d = drain get_fits sub false s.level w s.get_waiters in
      record {
        serviced = d.serviced;
        state = record s { level = d.level; get_waiters = d.waiters };
        world = d.world;
      }

  unfoldable pub wake_put_waiters : ContainerState → World → Woken
  wake_put_waiters s w =
      let d = drain (put_fits s.capacity) add false s.level w s.put_waiters in
      record {
        serviced = d.serviced;
        state = record s { level = d.level; put_waiters = d.waiters };
        world = d.world;
      }

  -- The loop of `trigger_cascade`, on fuel: `none` would be a cascade that has not ended.
  unfoldable pub cascade : ℕ → ContainerState → World → Option (ContainerState × World)
  cascade zero s w = none
  cascade (suc fuel) s w =
      let g = wake_get_waiters s w in
      let p = wake_put_waiters g.state g.world in
      let again = cascade fuel p.state p.world in
      if not g.serviced && not p.serviced then some (p.state, p.world) else again

  -- Each round but the last takes a waiter out of a queue.
  abbrev pub rounds : ContainerState → ℕ
  rounds s = suc (length s.get_waiters + length s.put_waiters)

  abbrev pub ended :
      ContainerState × World → Option (ContainerState × World) → ContainerState × World
  ended d none = d
  ended d (some r) = r

  unfoldable pub trigger_cascade : ContainerState → World → ContainerState × World
  trigger_cascade s w = ended (s, w) (cascade (rounds s) s w)

  -- `none` is a panic of an assertion.
  unfoldable pub new : F → F → Option ContainerState
  new capacity initial_level =
      if lt f.zero capacity && le f.zero initial_level && le initial_level capacity
      then some (record {
        capacity = capacity;
        level = initial_level;
        get_waiters = [];
        put_waiters = [];
      })
      else none

  unfoldable pub empty : F → Option ContainerState
  empty capacity = new capacity f.zero

  unfoldable pub get_queue_len : ContainerState → World → ℕ
  get_queue_len s w = count (is_live w) s.get_waiters

  unfoldable pub put_queue_len : ContainerState → World → ℕ
  put_queue_len s w = count (is_live w) s.put_waiters
