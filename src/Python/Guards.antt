-- ===== src/Python/Guards.antt =====
-- simcore-python/src/lib.rs: what the request objects and events do with what they hold.
use sim_core.Base.{ℕ, Bool, true, false, List, Option, none, some, if◌then◌else◌}
use sim_core.Event.{EventState, new_event, fire}
use sim_core.WaitQueue.{WaitQueue, World}
use sim_core.Request
use sim_core.Preemptive
use sim_core.Preemptive.{PreemptiveGuard, Scene}
use sim_core.Python.Objects.{PyResult, ok, err, runtime_error}

-- `AcquireRequest` and `PriorityAcquireRequest`: whether a guard is held.
-- Setting `guard` to `None`, by `release` or by `__aexit__`, drops one that is there.
module _ {ℓ} {K : Type ℓ} where
  unfoldable pub release : Bool → WaitQueue K → World → Bool × (WaitQueue K × World)
  release true q w = (false, Request.drop_guard q w)
  release false q w = (false, (q, w))

  -- Storing a new guard drops one that was held.
  unfoldable pub store_guard : Bool → WaitQueue K → World → Bool × (WaitQueue K × World)
  unfolding release
  store_guard held q w = (true, (release held q w).1)

-- `PreemptAcquireRequest`
unfoldable pub release_preemptive : Option PreemptiveGuard → Scene → Option PreemptiveGuard × Scene
release_preemptive none sc = (none, sc)
release_preemptive (some g) sc = (none, Preemptive.drop_guard g sc)

unfoldable pub preempted : Option PreemptiveGuard → Scene → Bool
preempted none sc = false
preempted (some g) sc = Preemptive.is_preempted g sc

-- The event that the signal awaits.
unfoldable pub preempt_event : (E : Type 0) → Option PreemptiveGuard → PyResult E ℕ
preempt_event E none = err runtime_error
preempt_event E (some g) = ok g.signal

-- `trigger`: whether the kernel's trigger has not been taken yet.
pub record Event : Type 0 where
  pub trigger : Bool
  pub state : EventState

unfoldable pub event : Event
event = record { trigger = true; state = new_event }

-- The second call of `trigger` raises.
unfoldable pub trigger : (E : Type 0) → Event → List ℕ → PyResult E (Unit {0}) × (Event × List ℕ)
trigger E e ready_queue =
    let (state, ready) = fire e.state ready_queue in
    if e.trigger
    then (ok tt, (record { trigger = false; state = state }, ready))
    else (err runtime_error, (e, ready_queue))

unfoldable pub triggered : Event → Bool
triggered e = if e.trigger then false else true
