-- ===== src/Process.antt =====
-- src/process.rs: the slot that a spawned process shares with its handle.
pub mod Laws
use sim_core.Base.{ℕ, Bool, true, false, List, Option, none, some, if◌then◌else◌}
use sim_core.Executor.Waker.{SimWaker, wake_by_ref, will_wake}

pub record ProcessSlot {ℓ} (T : Type ℓ) : Type ℓ where
  pub result : Option T
  pub waker : Option SimWaker

abbrev pub keep_waker : SimWaker → Option SimWaker → Option SimWaker
keep_waker w none = some w
keep_waker w (some existing) = if will_wake existing w then some existing else some w

abbrev pub wake_awaiter : Option SimWaker → List ℕ → List ℕ
wake_awaiter none q = q
wake_awaiter (some w) q = wake_by_ref w q

module _ {ℓ} {T : Type ℓ} where
  unfoldable pub new_slot : ProcessSlot T
  new_slot = record { result = none; waker = none }

  abbrev pub poll_slot : SimWaker → Option T → ProcessSlot T → Option T × ProcessSlot T
  poll_slot w (some value) s = (some value, record s { result = none })
  poll_slot w none s = (none, record s { waker = keep_waker w s.waker })

  -- `ProcessHandle::poll`: `some` is `Poll::Ready`.
  unfoldable pub poll : SimWaker → ProcessSlot T → Option T × ProcessSlot T
  poll w s = poll_slot w s.result s

  -- What the wrapper of `spawn_with_handle` does with the value of the user's future.
  unfoldable pub finish : T → ProcessSlot T → List ℕ → ProcessSlot T × List ℕ
  finish value s q = (record { result = some value; waker = none }, wake_awaiter s.waker q)
