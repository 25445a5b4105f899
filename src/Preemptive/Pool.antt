-- ===== src/Preemptive/Pool.antt =====
-- src/resource/preemptive.rs: a preemptive pool with all its requests and guards as one system.
use sim_core.Base.{ℕ, List, [], ◌∷◌, Option, none, some, update, if◌then◌else◌}
use sim_core.Executor.Waker.{SimWaker}
use sim_core.WaitQueue.{World}
use sim_core.Request
use sim_core.Request.{Request}
use sim_core.Preemptive.{
  PreemptiveState, PreemptiveGuard, Signal, Scene, Polled, poll, drop, drop_guard,
}

-- The requests that have not been dropped, by the address of their cells, and the guards, by id.
pub record PreemptivePool : Type 0 where
  pub scene : Scene
  pub requests : ℕ → Option (Request ℕ)
  pub guards : ℕ → Option PreemptiveGuard

-- What processes do with the pool, in any order.
pub data Op : Type 0 where
  requests : (priority : ℕ) → Op
  polls : ℕ → SimWaker → Op
  drops : ℕ → Op
  drops_guard : ℕ → Op

-- `PreemptiveResource::request`
unfoldable pub request : ℕ → World → Request ℕ × World
request priority w = Request.request priority w

abbrev pub make_request : PreemptivePool → Request ℕ × World → PreemptivePool
make_request s (r, w) = record s {
  scene = record (s.scene) { world = w };
  requests = update s.requests r.flags (some r);
}

abbrev pub keep_guard :
    Option PreemptiveGuard → (ℕ → Option PreemptiveGuard) → ℕ → Option PreemptiveGuard
keep_guard none guards = guards
keep_guard (some g) guards = update guards g.id (some g)

abbrev pub with_poll : PreemptivePool → ℕ → Polled → PreemptivePool
with_poll s a p = record {
  scene = p.scene;
  requests = update s.requests a (some p.request);
  guards = keep_guard p.guard s.guards;
}

-- A poll that panics would leave the pool as it was.
abbrev pub after_poll : PreemptivePool → ℕ → Option Polled → PreemptivePool
after_poll s a none = s
after_poll s a (some p) = with_poll s a p

abbrev pub poll_at : PreemptivePool → ℕ → SimWaker → Option (Request ℕ) → PreemptivePool
poll_at s a waker none = s
poll_at s a waker (some r) = if r.consumed then s else after_poll s a (poll r waker s.scene)

abbrev pub drop_at : PreemptivePool → ℕ → Option (Request ℕ) → PreemptivePool
drop_at s a none = s
drop_at s a (some r) = record s { scene = drop r s.scene; requests = update s.requests a none }

abbrev pub drop_guard_at : PreemptivePool → ℕ → Option PreemptiveGuard → PreemptivePool
drop_guard_at s a none = s
drop_guard_at s a (some g) = record s {
  scene = drop_guard g s.scene;
  guards = update s.guards a none;
}

unfoldable pub step : Op → PreemptivePool → PreemptivePool
step (requests priority) s = make_request s (request priority s.scene.world)
step (polls a waker) s = poll_at s a waker (s.requests a)
step (drops a) s = drop_at s a (s.requests a)
step (drops_guard a) s = drop_guard_at s a (s.guards a)

unfoldable pub run : List Op → PreemptivePool → PreemptivePool
run [] s = s
run (op ∷ ops) s = run ops (step op s)

-- A new pool, in a world in which nobody has made a request of it.
abbrev pub start : PreemptiveState → World → Signal → PreemptivePool
start state w filler = record {
  scene = record { state = state; world = w; signals = record { next = 0; cell = λ a. filler } };
  requests = λ a. none;
  guards = λ a. none;
}
