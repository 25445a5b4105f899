-- ===== src/Process/Laws.antt =====
-- src/process.rs: a handle that is polled before and after its process ends.
use sim_core.Base.{ℕ, ◌≡◌, refl, sym, List, [], ◌∷◌, ◌++◌, Option, none, some, arith}
use mathlib.Core.List.{append-nil}
use sim_core.Executor.Waker.{SimWaker}
use sim_core.Process.{ProcessSlot, new_slot, keep_waker, wake_awaiter, poll, finish}

-- Only the process that polled last is to be woken.
abbrev pub last_awaiter : List SimWaker → Option SimWaker → Option SimWaker
last_awaiter [] o = o
last_awaiter (w ∷ ws) o = last_awaiter ws (some w)

abbrev pub woken : Option SimWaker → List ℕ
woken none = []
woken (some w) = w.process_id ∷ []

keep_waker_lem : (w : SimWaker) (o : Option SimWaker) → keep_waker w o ≡ some w
keep_waker_lem w none = refl
keep_waker_lem w (some v) = ground arith

module _ {ℓ} {T : Type ℓ} where
  -- The polls of a handle, one after the other.
  pub polls : List SimWaker → ProcessSlot T → ProcessSlot T
  polls [] s = s
  polls (w ∷ ws) s = polls ws (poll w s).1

  polls-pending :
      (ws : List SimWaker) (o : Option SimWaker)
      → polls ws (record { result = none; waker = o })
        ≡ record { result = none; waker = last_awaiter ws o }
  unfolding polls poll
  polls-pending [] o = refl
  polls-pending (w ∷ ws) o = rw (keep_waker_lem w o) (polls-pending ws (some w))

  -- When the process ends with a value, the process that polled its handle last is put on the
  -- ready queue, if any did, and no other; the next poll yields the value, and no later one does.
  pub handle_yields_once :
      (ws : List SimWaker) (value : T) (q : List ℕ) (w v : SimWaker)
      → let r = finish value (polls ws new_slot) q in
        (r.1 ≡ q ++ woken (last_awaiter ws none))
        × ((poll w r.0).0 ≡ some value)
        × ((poll v (poll w r.0).1).0 ≡ none)
  unfolding finish poll new_slot
  handle_yields_once ws value q w v =
      rw (polls-pending ws none) (awaiter (last_awaiter ws none), refl, refl)
    where
      awaiter : (o : Option SimWaker) → wake_awaiter o q ≡ q ++ woken o
      awaiter none = sym (append-nil q)
      awaiter (some u) = refl
