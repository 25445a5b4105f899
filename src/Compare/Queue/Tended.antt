-- ===== src/Compare/Queue/Tended.antt =====
-- examples/compare.rs: throughout a run, each process of a simulated queue has what will wake it.
pub mod Polls
pub mod Ends
pub mod Steps
pub mod Begins
use sim_core.Base.{
  ℕ, zero, suc, ◌+◌, ◌<◌, ◌≤◌, ◌≡◌, ◌≢◌, refl, sym, ap, ◌∙◌, subst, ◌⊎◌, inl, inr, Bool, true,
  false, ◌&&◌, List, [], ◌∷◌, ◌++◌, Option, none, some, arith, update, if◌then◌else◌, ◌==◌,
  Bool-cases, get_elem?, total, total-change, total-suc, total-eq, u64_mod,
}
use mathlib.Core.Path.{fun_ext}
use native.Mathlib.Decide.{dec_lt}
use sim_core.Base.Order.{Ord}
use sim_core.Float.{Float, IsIeee}
use sim_core.Executor.Waker.{SimWaker, make_waker}
use sim_core.Executor.State.{ScheduledWaker, ProcessEntry}
use sim_core.Env.{Sim, Outcome, poll_entry, perform_all, fired, take_ready, drain_pending_spawns}
use sim_core.Env.Results.{Ensures, Ensures-bind, Ensures-imp}
use sim_core.Env.Conservation.Calls.{fails, perform_all-fails}
use sim_core.Env.Effects.{
  HasEvent, Alarms, children, woken, times, times-append, entry_at, entry_at-get_elem,
}
use sim_core.Env.Effects.Entry.{
  kids, kid_count, newborn, born, next_id, as_entry, Effect, poll_entry-Effect,
}
use sim_core.Timeout.{Timeout}
use sim_core.Timeout.Calls.{is_due}
use sim_core.Rng.{SplitMix64}
use sim_core.Rng.Sample.{Math}
use sim_core.WaitQueue.{is_granted}
use sim_core.Request.{Request}
use sim_core.Compare.Queue.{
  Shared, Stage, entering, waiting, served, Process, arrives, customer, Done, world, program,
}
use sim_core.Compare.Queue.Laws.{to_come}
use sim_core.Compare.Queue.Books.{Role, idle, holds, asks, Booked}
use sim_core.Compare.Queue.Books.Leaving.{grow-Booked}
use sim_core.Compare.Queue.Sources.{
  role_of, role_left, coming, IsEntering, Sleeps, Rests, Settles, Turns,
}
use sim_core.Compare.Queue.Sources.Polls.{Wakeful, program-Turns}

module _ (f : Float) (K : Type 0) where
  abbrev pub Run : Type 0
  Run = Sim f (Process f K) (Shared f K)

  abbrev pub slot : Run → ℕ → Option (ProcessEntry f (Process f K))
  slot m x = entry_at f (Process f K) m.state.processes x

  abbrev pub role_at : Option (ProcessEntry f (Process f K)) → Role K
  role_at none = idle
  role_at (some e) = role_of f K e.future

  abbrev pub coming_at : Option (ProcessEntry f (Process f K)) → ℕ
  coming_at none = 0
  coming_at (some e) = to_come f K e.future

  module _ (batch : List ℕ) (m : Run) (x : ℕ) where
    -- The process is in what is left of the batch, or in the next one.
    abbrev pub Woken : Type 0
    Woken = 0 < times x batch + times x m.state.ready_queue

    abbrev pub Sleeping : Timeout f → Type 0
    Sleeping t =
        (t.scheduled ≡ true)
        × (HasEvent f x t.deadline m.state.event_queue
            ⊎ (Woken × (f.le t.deadline m.state.current_time ≡ true)))

    -- What will wake the process.
    abbrev pub Source : Process f K → Type 0
    Source (arrives left none) = Woken
    Source (arrives left (some t)) = Sleeping t
    Source (customer key arrival service entering) = Woken
    Source (customer key arrival service (waiting r)) =
        is_granted (world f K m.shared) r.flags ≡ true → Woken
    Source (customer key arrival service (served wait t)) = Sleeping t

  pub record Tended (batch : List ℕ) (m : Run) : Type 0 where
    pub settled : m.state.pending_spawns ≡ []
    pub booked :
        Booked K m.state.next_process_id (λ x. role_at (slot m x)) m.shared.queue m.shared.flags
    pub room :
        m.state.next_process_id + total m.state.next_process_id (λ x. coming_at (slot m x))
        < u64_mod
    pub fresh : (x : ℕ) → m.state.next_process_id ≤ x → slot m x ≡ none
    pub sources :
        (x : ℕ) (e : ProcessEntry f (Process f K))
        → slot m x ≡ some e
        → (e.waker ≡ make_waker x) × Source batch m x e.future

  -- Sources, from one state to another.
  module _ (batch batch' : List ℕ) (m m' : Run) (x : ℕ)
      (wakes : Woken batch m x → Woken batch' m' x) where
    Sleeping-moves :
        (t : Timeout f)
        → (HasEvent f x t.deadline m.state.event_queue
            → HasEvent f x t.deadline m'.state.event_queue
              ⊎ (Woken batch' m' x × (f.le t.deadline m'.state.current_time ≡ true)))
        → (Woken batch m x
            → f.le t.deadline m.state.current_time ≡ true
            → f.le t.deadline m'.state.current_time ≡ true)
        → Sleeping batch m x t
        → Sleeping batch' m' x t
    Sleeping-moves t event on_time (scheduled, inl there) = (scheduled, event there)
    Sleeping-moves t event on_time (scheduled, inr (woke, le)) =
        (scheduled, inr (wakes woke, on_time woke le))

    pub Source-moves :
        ((t : f.F)
          → HasEvent f x t m.state.event_queue
          → HasEvent f x t m'.state.event_queue
            ⊎ (Woken batch' m' x × (f.le t m'.state.current_time ≡ true)))
        → ((t : f.F)
            → Woken batch m x
            → f.le t m.state.current_time ≡ true
            → f.le t m'.state.current_time ≡ true)
        → (p : Process f K)
        → ((r : Request K)
            → role_of f K p ≡ asks r
            → is_granted (world f K m'.shared) r.flags ≡ true
            → (is_granted (world f K m.shared) r.flags ≡ true) ⊎ Woken batch' m' x)
        → Source batch m x p
        → Source batch' m' x p
    Source-moves events on_time (arrives left none) grants h = wakes h
    Source-moves events on_time (arrives left (some t)) grants h =
        Sleeping-moves t (events t.deadline) (on_time t.deadline) h
    Source-moves events on_time (customer key arrival service entering) grants h = wakes h
    Source-moves events on_time (customer key arrival service (waiting r)) grants h =
        λ granted. elim (grants r refl granted) [ inl before ↦ wakes (h before) | inr woke ↦ woke ]
    Source-moves events on_time (customer key arrival service (served wait t)) grants h =
        Sleeping-moves t (events t.deadline) (on_time t.deadline) h

  -- What is left of a process that was polled.
  pub Rests-Source :
      (batch : List ℕ) (m m' : Run) (id : ℕ) (out : Done f K)
      → m'.shared ≡ out.shared
      → ((t : f.F) → Alarms f (Process f K) id t out.calls → HasEvent f id t m'.state.event_queue)
      → ((t : f.F) → HasEvent f id t m.state.event_queue → HasEvent f id t m'.state.event_queue)
      → (p : Process f K) → Rests f K id m.state.event_queue out.calls out.shared (some p)
      → Source batch m' id p
  Rests-Source batch m m' id out same alarms events (arrives left none) h = elim h [ ]
  Rests-Source batch m m' id out same alarms events (arrives left (some t)) (scheduled, h) = (
    scheduled,
    inl (elim h [ inl asked ↦ alarms t.deadline asked | inr there ↦ events t.deadline there ]),
  )
  Rests-Source batch m m' id out same alarms events (customer key arrival service entering) h =
      elim h [ ]
  Rests-Source batch m m' id out same alarms events (customer key arrival service (waiting r)) h =
      λ granted.
        absurd (ground (arith, h, granted, ap (λ u. is_granted (world f K u) r.flags) same))
  Rests-Source batch m m' id out same alarms events (customer key arrival service (served wait t))
        (scheduled, h) =
      (
        scheduled,
        inl (elim h [ inl asked ↦ alarms t.deadline asked | inr there ↦ events t.deadline there ]),
      )
