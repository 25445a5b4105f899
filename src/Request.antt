-- ===== src/Request.antt =====
-- The request future and the guard that src/resource/mod.rs and src/resource/priority.rs each
-- write out over `WaitQueue<K>`, and the pool with all its requests and guards as one system.
pub mod Invariant
pub mod Effects
pub mod Order
pub mod Safety
use sim_core.Base.{
  ℕ, suc, ◌-◌, Bool, true, false, List, [], ◌∷◌, Option, none, some, update, if◌then◌else◌, ◌==◌,
}
use sim_core.Base.Store.{alloc}
use sim_core.Base.Order.{Ord}
use sim_core.WaitQueue
use sim_core.WaitQueue.{
  WaitQueue, World, Flags, is_granted, set_canceled, try_acquire, register, release,
}
use sim_core.Executor.Waker.{SimWaker}

-- `flags` is the address of the request's `canceled` and `granted`.
pub record Request {ℓ} (K : Type ℓ) : Type ℓ where
  pub key : K
  pub registered : Bool
  pub consumed : Bool
  pub flags : ℕ

-- `ready`: the poll returned `Poll::Ready` with a guard.
pub record Polled {ℓ} (K : Type ℓ) : Type ℓ where
  pub ready : Bool
  pub request : Request K
  pub queue : WaitQueue K
  pub world : World

abbrev pub fresh_flags : Flags
fresh_flags = record { canceled = false; granted = false }

module _ {ℓ} {K : Type ℓ} where
  unfoldable pub request : K → World → Request K × World
  request key w = (
    record { key = key; registered = false; consumed = false; flags = w.flags.next },
    record w { flags = alloc fresh_flags w.flags },
  )

  unfoldable pub drop : Request K → WaitQueue K → World → WaitQueue K × World
  drop r q w =
      if r.consumed
      then (q, w)
      else (if is_granted w r.flags
          then release q w
          else (if r.registered then (q, set_canceled r.flags w) else (q, w)))

  unfoldable pub drop_guard : WaitQueue K → World → WaitQueue K × World
  drop_guard q w = release q w

module _ {ℓ} {K : Type ℓ} ⦃o : Ord K⦄ where
  -- The part of `poll` behind the check of `granted`: `try_acquire`, or a place in the queue.
  unfoldable pub attempt : Request K → SimWaker → Bool × WaitQueue K → World → Polled K
  attempt r waker (true, q) w = record {
    ready = true;
    request = record r { consumed = true };
    queue = q;
    world = w;
  }
  attempt r waker (false, q) w = record {
    ready = false;
    request = record r { registered = true };
    queue = if r.registered then q else register r.key waker r.flags q;
    world = w;
  }

  unfoldable pub poll : Request K → SimWaker → WaitQueue K → World → Polled K
  unfolding attempt
  poll r waker q w =
      if is_granted w r.flags
      then record { ready = true; request = record r { consumed = true }; queue = q; world = w }
      else attempt r waker (try_acquire q) w

-- A pool in use: its requests that have not been dropped, by the address of their cells, and the
-- number of its live guards.
pub record Pool {ℓ} (K : Type ℓ) : Type ℓ where
  pub queue : WaitQueue K
  pub world : World
  pub requests : ℕ → Option (Request K)
  pub guards : ℕ

-- What processes do with a pool: in any order, each request polled by any waker.
pub data Op {ℓ} (K : Type ℓ) : Type ℓ where
  requests : K → Op K
  polls : ℕ → SimWaker → Op K
  drops : ℕ → Op K
  drops_guard : Op K

module _ {ℓ} {K : Type ℓ} where
  unfoldable pub new_pool : ℕ → World → Pool K
  new_pool capacity w = record {
    queue = WaitQueue.new capacity;
    world = w;
    requests = λ a. none;
    guards = 0;
  }

  unfoldable pub after_poll : Pool K → ℕ → Polled K → Pool K
  after_poll s a p = record {
    queue = p.queue;
    world = p.world;
    requests = update s.requests a (some p.request);
    guards = if p.ready then suc s.guards else s.guards;
  }

  unfoldable pub make_request : Pool K → Request K × World → Pool K
  make_request s (r, w) = record s { requests = update s.requests r.flags (some r); world = w }

  unfoldable pub after_drop : Pool K → ℕ → WaitQueue K × World → Pool K
  after_drop s a (q, w) = record s { queue = q; world = w; requests = update s.requests a none }

  unfoldable pub after_drop_guard : Pool K → WaitQueue K × World → Pool K
  after_drop_guard s (q, w) = record s { queue = q; world = w; guards = s.guards - 1 }

module _ {ℓ} {K : Type ℓ} ⦃o : Ord K⦄ where
  -- A future that is gone or has returned `Ready` is not polled.
  abbrev pub poll_at : Pool K → ℕ → SimWaker → Option (Request K) → Pool K
  poll_at s a waker none = s
  poll_at s a waker (some r) =
      if r.consumed then s else after_poll s a (poll r waker s.queue s.world)

  abbrev pub drop_at : Pool K → ℕ → Option (Request K) → Pool K
  drop_at s a none = s
  drop_at s a (some r) = after_drop s a (drop r s.queue s.world)

  -- A guard that is not there is not dropped.
  unfoldable pub step : Op K → Pool K → Pool K
  step (requests k) s = make_request s (request k s.world)
  step (polls a waker) s = poll_at s a waker (s.requests a)
  step (drops a) s = drop_at s a (s.requests a)
  step drops_guard s = if s.guards == 0 then s else after_drop_guard s (drop_guard s.queue s.world)

  unfoldable pub run : List (Op K) → Pool K → Pool K
  run [] s = s
  run (op ∷ ops) s = run ops (step op s)
