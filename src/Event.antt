-- ===== src/Event.antt =====
-- src/event.rs: a manual event, a latch with its waiters.
pub mod Laws
use sim_core.Base.{ℕ, Bool, true, false, List, [], ◌∷◌, ◌++◌, any, if◌then◌else◌}
use sim_core.Executor.Waker.{SimWaker, wake_by_ref, will_wake}

pub record EventState : Type 0 where
  pub fired : Bool
  pub waiters : List SimWaker

unfoldable pub new_event : EventState
new_event = record { fired = false; waiters = [] }

-- The loop over `waiters.drain(..)`.
unfoldable pub wake_all : List SimWaker → List ℕ → List ℕ
wake_all [] ready_queue = ready_queue
wake_all (w ∷ ws) ready_queue = wake_all ws (wake_by_ref w ready_queue)

unfoldable pub fire : EventState → List ℕ → EventState × List ℕ
fire s ready_queue = (record { fired = true; waiters = [] }, wake_all s.waiters ready_queue)

-- Whether the poll is ready, and the state after it.
unfoldable pub poll : SimWaker → EventState → Bool × EventState
poll waker s = if s.fired then (true, s) else (
  false,
  if any (λ w. will_wake w waker) s.waiters
      then s
      else record s { waiters = s.waiters ++ waker ∷ [] },
)
