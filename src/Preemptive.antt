-- ===== src/Preemptive.antt =====
-- src/resource/preemptive.rs: a priority pool whose units are taken from holders of lower priority.
-- A holder's trigger and its guard's awaitable share one event, and both share the `preempted`
-- cell. The two are made together, so one address into the store stands for both.
pub mod Victim
pub mod Polling
pub mod Pool
pub mod Books
use sim_core.Base.{
  ℕ, zero, suc, ◌+◌, Bool, true, false, List, [], ◌∷◌, ◌++◌, Option, none, some, ltb, wrap_suc,
  if◌then◌else◌, ◌==◌,
}
use sim_core.Base.Store.{Store, alloc, write}
use sim_core.Base.Order.{nat_ord}
use sim_core.Executor.Waker.{SimWaker}
use sim_core.Event.{EventState, new_event, fire}
use sim_core.WaitQueue
use sim_core.WaitQueue.{
  WaitQueue, World, is_granted, set_canceled, try_acquire, register, release, live_waiters,
}
use sim_core.Request.{Request, fresh_flags}

-- The shared cells of a holder: its event and its `preempted` flag.
pub record Signal : Type 0 where
  pub event : EventState
  pub preempted : Bool

pub record Holder : Type 0 where
  pub priority : ℕ
  pub id : ℕ
  pub signal : ℕ

pub record PreemptiveGuard : Type 0 where
  pub id : ℕ
  pub signal : ℕ

pub record PreemptiveState : Type 0 where
  pub wq : WaitQueue ℕ
  pub holders : List Holder
  pub next_holder_id : ℕ

-- The resource with all the cells it shares.
pub record Scene : Type 0 where
  pub state : PreemptiveState
  pub world : World
  pub signals : Store Signal

-- `none` is the panic on capacity 0.
unfoldable pub new : ℕ → Option PreemptiveState
new capacity =
    if capacity == 0
    then none
    else some (record { wq = WaitQueue.new capacity; holders = []; next_holder_id = 0 })

-- `max_by_key`: a later element replaces the best so far unless its key is less.
abbrev pub best_of : ℕ → ℕ → Option (ℕ × ℕ) → Option (ℕ × ℕ)
best_of i priority none = some (i, priority)
best_of i priority (some (j, top)) = if ltb priority top then some (j, top) else some (i, priority)

-- The index and the priority of the victim among the holders from position `i` on.
unfoldable pub scan : ℕ → ℕ → Option (ℕ × ℕ) → List Holder → Option (ℕ × ℕ)
scan incoming i best [] = best
scan incoming i best (h ∷ hs) =
    scan incoming (suc i) (if ltb incoming h.priority then best_of i h.priority best else best) hs

abbrev pub index : Option (ℕ × ℕ) → Option ℕ
index none = none
index (some (i, p)) = some i

unfoldable pub victim_index : ℕ → PreemptiveState → Option ℕ
victim_index incoming s = index (scan incoming 0 none s.holders)

-- `Vec::remove`, which panics out of range: `none`.
unfoldable pub remove : ℕ → List Holder → Option (Holder × List Holder)
remove i [] = none
remove zero (h ∷ hs) = some (h, hs)
remove (suc i) (h ∷ hs) = keep (remove i hs)
  where
    keep : Option (Holder × List Holder) → Option (Holder × List Holder)
    keep none = none
    keep (some (x, rest)) = some (x, h ∷ rest)

-- The holders without the first one of this id, if any.
unfoldable pub remove_id : ℕ → List Holder → List Holder
remove_id id [] = []
remove_id id (h ∷ hs) = if h.id == id then hs else h ∷ remove_id id hs

unfoldable pub grant : ℕ → Scene → PreemptiveGuard × Scene
grant priority sc =
    let a = sc.signals.next in
    let id = sc.state.next_holder_id in
    (
      record { id = id; signal = a },
      record sc {
        signals = alloc (record { event = new_event; preempted = false }) sc.signals;
        state = record (sc.state) {
          next_holder_id = wrap_suc id;
          holders = sc.state.holders ++ (record { priority = priority; id = id; signal = a }) ∷ [];
        };
      },
    )

-- `victim.preempted.set(true)` and `trigger.fire()`.
unfoldable pub signal_preempted : Holder → Scene → Scene
signal_preempted h sc =
    let (event, ready_queue) = fire (sc.signals.cell h.signal).event sc.world.ready_queue in
    record sc {
      signals = write h.signal (record { event = event; preempted = true }) sc.signals;
      world = record (sc.world) { ready_queue = ready_queue };
    }

-- `guard`: none is `Poll::Pending`.
pub record Polled : Type 0 where
  pub guard : Option PreemptiveGuard
  pub request : Request ℕ
  pub scene : Scene

-- `self.consumed = true` and the guard of a new holder.
abbrev pub granted : Request ℕ → PreemptiveGuard × Scene → Polled
granted r (g, sc) = record { guard = some g; request = record r { consumed = true }; scene = sc }

-- `Outcome::Preempt`: the victim loses its entry and the unit is granted again; `none` is the
-- panic of `remove` on an index out of range.
unfoldable pub preempt : Request ℕ → Scene → Option (Holder × List Holder) → Option Polled
preempt r sc none = none
preempt r sc (some (victim, rest)) = some (
    granted r (
      grant r.key
        (signal_preempted victim (record sc { state = record (sc.state) { holders = rest } }))))

-- `Outcome::Block`, after the request has taken its place in the queue.
unfoldable pub block : Request ℕ → SimWaker → Scene → Polled
block r waker sc = record {
  guard = none;
  request = record r { registered = true };
  scene = if r.registered then sc else record sc {
    state = record (sc.state) { wq = register r.key waker r.flags sc.state.wq };
  };
}

-- No unit is free: a victim is found or not.
abbrev pub contend : Request ℕ → SimWaker → Scene → Option ℕ → Option Polled
contend r waker sc none = some (block r waker sc)
contend r waker sc (some i) = preempt r sc (remove i sc.state.holders)

abbrev pub attempt : Request ℕ → SimWaker → Scene → Bool × WaitQueue ℕ → Option Polled
attempt r waker sc (true, wq) =
    some (granted r (grant r.key (record sc { state = record (sc.state) { wq = wq } })))
attempt r waker sc (false, wq) = contend r waker sc (victim_index r.key sc.state)

-- `none` is a panic.
unfoldable pub poll : Request ℕ → SimWaker → Scene → Option Polled
poll r waker sc =
    if is_granted sc.world r.flags
    then some (granted r (grant r.key sc))
    else attempt r waker sc (try_acquire sc.state.wq)

abbrev pub released : Scene → WaitQueue ℕ × World → Scene
released sc (wq, w) = record sc { state = record (sc.state) { wq = wq }; world = w }

-- `request`: as for the other pools, its `canceled` and `granted` at one address.
unfoldable pub drop : Request ℕ → Scene → Scene
drop r sc =
    if r.consumed
    then sc
    else (if is_granted sc.world r.flags
        then released sc (release sc.state.wq sc.world)
        else (if r.registered then record sc { world = set_canceled r.flags sc.world } else sc))

unfoldable pub drop_guard : PreemptiveGuard → Scene → Scene
drop_guard g sc =
    if (sc.signals.cell g.signal).preempted
    then sc
    else (let kept = record sc {
      state = record (sc.state) { holders = remove_id g.id sc.state.holders };
    } in
        released kept (release kept.state.wq kept.world))

unfoldable pub is_preempted : PreemptiveGuard → Scene → Bool
is_preempted g sc = (sc.signals.cell g.signal).preempted

unfoldable pub queue_len : Scene → ℕ
queue_len sc = live_waiters sc.world sc.state.wq
