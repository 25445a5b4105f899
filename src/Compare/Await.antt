-- ===== src/Compare/Await.antt =====
-- examples/compare.rs: what its processes do alike in a poll.
use sim_core.Base.{ℕ, List, [], ◌∷◌, ◌++◌, Option, none, some}
use sim_core.Float.{Float}
use sim_core.Executor.Waker.{SimWaker, make_waker}
use sim_core.Env.{Call, wakes, panics, Outcome}
use sim_core.Timeout.{Timeout}
use sim_core.Timeout.Calls.{timeout_at, marked, poll_calls}

module _ (f : Float) where
  abbrev pub wake_calls : {P : Type 0} → List ℕ → List (Call f P)
  wake_calls [] = []
  wake_calls (id ∷ ids) = wakes (make_waker id) ∷ wake_calls ids

module _ (f : Float) {P U : Type 0} where
  open f use {F}

  abbrev pub after_calls : List (Call f P) → Outcome f P U → Outcome f P U
  after_calls cs d = record d { calls = cs ++ d.calls }

  -- A poll of a timeout that is not due.
  abbrev pub awaiting : SimWaker → (Timeout f → P) → U → Timeout f → Outcome f P U
  awaiting waker back u t = record {
    calls = poll_calls f waker t;
    left = some (back (marked f t));
    shared = u;
  }

  abbrev pub await_new : SimWaker → (Timeout f → P) → U → Option (Timeout f) → Outcome f P U
  await_new waker back u none = record { calls = panics ∷ []; left = none; shared = u }
  await_new waker back u (some t) = awaiting waker back u t

  -- `env.timeout(delay).await`, up to its first poll.
  abbrev pub sleep : F → SimWaker → F → (Timeout f → P) → U → Outcome f P U
  sleep now waker delay back u = await_new waker back u (timeout_at f now delay)
