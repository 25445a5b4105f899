-- ===== src/Container/Quiet.antt =====
-- src/resource/container.rs: the waiters at the head of the queues, and what dropping one leaves.
mod Polling
use sim_core.Base.{
  suc, ◌<◌, ◌≡◌, ◌≢◌, subst, ◌∙◌, Bool, true, false, not, ◌&&◌, List, [], ◌∷◌, ◌++◌, Option, none,
  some, arith, All, All-append, All-imp, any, if◌then◌else◌,
}
use sim_core.Base.Store.{alloc}
use sim_core.Executor.Waker.{SimWaker}
use sim_core.Float.{Float}
use sim_core.Container.{
  World, is_canceled, is_done, is_live, Waiter, ContainerState, get_fits, put_fits, trigger_cascade,
  has_live_get_waiter, has_live_put_waiter,
}
use sim_core.Container.Cascade.{quiet, quiet-Uncanceled, Made, trigger_cascade-Cascaded}
use sim_core.Container.Cases.{poll_get_cases, poll_put_cases}
use sim_core.Container.Requests.{
  ContainerRequest, Polled, make_request, poll_put, poll_get, Side, Slot, System, Op, fresh_flags,
  requests, drops, poll_side, make_at, after_poll, poll_at, step, drop, waiter,
}
use sim_core.Container.Quiet.Polling.{quiet-append, CalmPoll, after_poll-Calm}

module _ (f : Float) where
  open f use {F, le, lt, add, sub}

  -- Whether dropping a request cancels it: it is in the queue and nothing has been done for it.
  unfoldable pub waits : World → Option (Slot f) → Bool
  waits w none = false
  waits w (some x) = x.request.registered && not (is_done w x.request.flags)

  abbrev pub Keeps : Op f → System f → Type 0
  Keeps (drops a) s = waits s.world (s.requests a) ≡ false
  Keeps _ s = Unit {0}

  -- No operation of the sequence drops a request that waits.
  abbrev pub KeepsAll : List (Op f) → System f → Type 0
  KeepsAll [] s = Unit {0}
  KeepsAll (op ∷ ops) s = Keeps op s × KeepsAll ops (step f op s)

  -- When a blocked `get` at the head of the queue is dropped, and the live one behind it is for no
  -- more than the level, nobody is woken or marked done, and that request goes on waiting although
  -- it could be served.
  pub drop_strands :
      (s : ContainerState f) (w : World) (r : ContainerRequest f) (x y : Waiter f)
      (rest : List (Waiter f))
      → s.get_waiters ≡ x ∷ y ∷ rest
      → x.flags ≡ r.flags
      → r.registered ≡ true
      → is_done w r.flags ≡ false
      → y.flags ≢ r.flags
      → is_canceled w y.flags ≡ false
      → is_done w y.flags ≡ false
      → le y.amount s.level ≡ true
      → (quiet f (get_fits f) (drop f r w) s.level s.get_waiters ≡ false)
        × ((drop f r w).ready_queue ≡ w.ready_queue)
        × (is_done (drop f r w) y.flags ≡ false)
  unfolding drop quiet
  drop_strands s w r x y rest eq ex reg nd ne live wait fits = rw eq (ground arith)
