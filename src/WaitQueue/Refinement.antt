-- ===== src/WaitQueue/Refinement.antt =====
-- src/resource/wait_queue.rs: the queue, which keeps canceled waiters until `release` meets them,
-- against a specification that takes a waiter out when it leaves.
pub mod Views
pub mod Runs
use sim_core.Base.{
  ℕ, ◌+◌, ◌-◌, Bool, true, false, List, [], ◌∷◌, ◌++◌, ltb, update, if◌then◌else◌, ◌==◌, wrap_pred,
}
use sim_core.Base.Order.{Ord, is_gt}
use sim_core.Executor.Waker.{SimWaker, wake_by_ref}
use sim_core.WaitQueue.{
  Entry, WaitQueue, World, is_canceled, is_granted, set_canceled, try_acquire, register, release,
}

-- What is done to a queue; `a` is the address of a waiter's cells.
pub data Op {ℓ} (K : Type ℓ) : Type ℓ where
  acquires : Op K
  joins : (key : K) (waker : SimWaker) (a : ℕ) → Op K
  leaves : (a : ℕ) → Op K
  releases : Op K

-- A waiter, without its number.
pub record Waiter {ℓ} (K : Type ℓ) : Type ℓ where
  pub key : K
  pub waker : SimWaker
  pub flags : ℕ

-- The specification: waiters in the order in which they are served, none of which has left.
pub record Turnstile {ℓ} (K : Type ℓ) : Type ℓ where
  pub capacity : ℕ
  pub in_use : ℕ
  pub waiting : List (Waiter K)
  pub gone : ℕ → Bool
  pub granted : ℕ → Bool
  pub ready_queue : List ℕ

-- The answers of the steps, a Boolean each, and the state after them.
unfoldable pub run {ℓ κ} :
    {O : Type ℓ} {S : Type κ} (step : O → S → Bool × S) → List O → S → List Bool × S
run step [] s = ([], s)
run step (op ∷ ops) s =
    let (answer, s') = step op s in let (answers, end) = run step ops s' in (answer ∷ answers, end)

module _ {ℓ} {K : Type ℓ} where
  abbrev pub without : ℕ → List (Waiter K) → List (Waiter K)
  without a [] = []
  without a (x ∷ xs) = if x.flags == a then without a xs else x ∷ without a xs

  abbrev pub serve_first : Turnstile K → List (Waiter K) → Turnstile K
  serve_first t [] = record t { in_use = t.in_use - 1; waiting = [] }
  serve_first t (x ∷ xs) = record t {
    waiting = xs;
    granted = update t.granted x.flags true;
    ready_queue = wake_by_ref x.waker t.ready_queue;
  }

module _ {ℓ} {K : Type ℓ} ⦃o : Ord K⦄ where
  -- Behind every waiter with the same or a lesser key.
  unfoldable pub insert : Waiter K → List (Waiter K) → List (Waiter K)
  insert e [] = e ∷ []
  insert e (x ∷ xs) = if is_gt (o.cmp x.key e.key) then e ∷ x ∷ xs else x ∷ insert e xs

  -- A waiter that has left is not let in again; what is not in use is not released.
  unfoldable pub spec_step : Op K → Turnstile K → Bool × Turnstile K
  spec_step acquires t =
      if ltb t.in_use t.capacity then (true, record t { in_use = t.in_use + 1 }) else (false, t)
  spec_step (joins key waker a) t = (
    true,
    if t.gone a then t else record t {
      waiting = insert (record { key = key; waker = waker; flags = a }) t.waiting;
    },
  )
  spec_step (leaves a) t =
      (true, record t { gone = update t.gone a true; waiting = without a t.waiting })
  spec_step releases t = (true, if t.in_use == 0 then t else serve_first t t.waiting)

  abbrev pub acquired : World → Bool × WaitQueue K → Bool × (WaitQueue K × World)
  acquired w (answer, q) = (answer, (q, w))

  -- The code's operations, called as the requests and guards of a pool call them.
  unfoldable pub step : Op K → WaitQueue K × World → Bool × (WaitQueue K × World)
  step acquires (q, w) = acquired w (try_acquire q)
  step (joins key waker a) (q, w) = (true, (register key waker a q, w))
  step (leaves a) (q, w) = (true, (q, set_canceled a w))
  step releases (q, w) = (true, if q.in_use == 0 then (q, w) else release q w)

module _ {ℓ} {K : Type ℓ} where
  -- What can be seen of a queue: the waiters that have not been canceled.
  abbrev pub live : World → List (Entry K) → List (Waiter K)
  live w [] = []
  live w (e ∷ es) =
      if is_canceled w e.flags
      then live w es
      else record { key = e.key; waker = e.waker; flags = e.flags } ∷ live w es

  abbrev pub view : WaitQueue K × World → Turnstile K
  view (q, w) = record {
    capacity = q.capacity;
    in_use = q.in_use;
    waiting = live w q.waiters;
    gone = λ a. is_canceled w a;
    granted = λ a. is_granted w a;
    ready_queue = w.ready_queue;
  }
