-- ===== src/Env/Tended.antt =====
-- src/env.rs: a run seen with the processes that it still has to poll.
use sim_core.Base.{
  ℕ, zero, suc, ◌≡◌, refl, Bool, List, [], ◌∷◌, Option, none, some, get_elem?, subst,
}
use sim_core.Float.{Float}
use sim_core.Executor.State.{ScheduledWaker, ProcessEntry}
use sim_core.Env.{
  ok, ◌>>=◌, Program, Sim, drain_pending_spawns, poll_entry, poll_slot, poll_batch, take_ready,
  poll_ready, settle, fired, run_loop, run,
}
use sim_core.Env.Results.{Ensures, Ensures-bind, Ensures-imp}

module _ (f : Float) (P : Type 0) {U : Type 0} (debug : Bool) (program : Program f P U) where
  -- The steps of the loop; the list has the ids that are left of the batch under way.
  pub record IsTended (T : List ℕ → Sim f P U → Type 0) : Type 0 where
    pub drained :
        (m : Sim f P U) → T [] m → T [] (record m { state = drain_pending_spawns f P (m.state) })
    pub polled :
        (id : ℕ) (batch : List ℕ) (e : ProcessEntry f P) (m : Sim f P U)
        → get_elem? m.state.processes id ≡ some (some e)
        → T (id ∷ batch) m
        → Ensures (T batch) (poll_entry f P debug program id e m)
    pub skipped :
        (id : ℕ) (batch : List ℕ) (m : Sim f P U)
        → get_elem? m.state.processes id ≡ some none
        → T (id ∷ batch) m
        → T batch m
    pub taken : (m : Sim f P U) → T [] m → T m.state.ready_queue (take_ready f P debug program m)
    pub fires :
        (e : ScheduledWaker f) (rest : List (ScheduledWaker f)) (m : Sim f P U)
        → m.state.event_queue ≡ e ∷ rest
        → m.state.ready_queue ≡ []
        → T [] m
        → T [] (fired f P debug program e rest m)

  module _ (T : List ℕ → Sim f P U → Type 0) (steps : IsTended T) where
    open steps use {drained, polled, skipped, taken, fires}

    -- Between two events.
    Rests : Sim f P U → Type 0
    Rests m = T [] m × (m.state.ready_queue ≡ [])

    poll_slot-tends :
        (id : ℕ) (batch : List ℕ) (o : Option (Option (ProcessEntry f P))) (m : Sim f P U)
        → get_elem? m.state.processes id ≡ o
        → T (id ∷ batch) m
        → Ensures (T batch) (poll_slot f P debug program id o m)
    poll_slot-tends id batch none m e h = tt
    poll_slot-tends id batch (some none) m e h = skipped id batch m e h
    poll_slot-tends id batch (some (some entry)) m e h = polled id batch entry m e h

    poll_batch-tends :
        (batch : List ℕ) (m : Sim f P U)
        → T batch m
        → Ensures (T []) (poll_batch f P debug program batch m)
    unfolding poll_batch
    poll_batch-tends [] m h = h
    poll_batch-tends (id ∷ batch) m h =
        Ensures-bind (T batch) (T []) _ (poll_batch f P debug program batch)
          (poll_slot-tends id batch (get_elem? m.state.processes id) m refl h)
          (poll_batch-tends batch)

    poll_ready-tends :
        (fuel : ℕ) (m : Sim f P U) → T [] m → Ensures Rests (poll_ready f P debug program fuel m)
    unfolding poll_ready Rests
    poll_ready-tends zero m h = tt
    poll_ready-tends (suc fuel) m h = go m.state.ready_queue refl (poll_ready-tends fuel)
      where
        go :
            (q : List ℕ)
            → m.state.ready_queue ≡ q
            → ((m' : Sim f P U) → T [] m' → Ensures Rests (poll_ready f P debug program fuel m'))
            → Ensures Rests (elim q [
              | [] ↦ ok m
              | id ∷ batch ↦
                  poll_batch f P debug program (id ∷ batch) (take_ready f P debug program m)
                  >>= poll_ready f P debug program fuel
            ])
        go [] same later = (h, same)
        go (id ∷ batch) same later =
            Ensures-bind (T []) Rests _ (poll_ready f P debug program fuel)
              (poll_batch-tends (id ∷ batch) (take_ready f P debug program m)
                (subst (λ q. T q (take_ready f P debug program m)) same (taken m h)))
              later

    run_loop-tends :
        (rounds fuel : ℕ) (m : Sim f P U)
        → Rests m
        → Ensures Rests (run_loop f P debug program rounds fuel m)
    unfolding run_loop settle Rests
    run_loop-tends rounds zero m h = tt
    run_loop-tends rounds (suc fuel) m h = go m.state.event_queue refl (run_loop-tends rounds fuel)
      where
        go :
            (q : List (ScheduledWaker f))
            → m.state.event_queue ≡ q
            → ((m' : Sim f P U)
                → Rests m'
                → Ensures Rests (run_loop f P debug program rounds fuel m'))
            → Ensures Rests (elim q [
              | [] ↦ ok m
              | e ∷ rest ↦
                  settle f P debug program rounds (fired f P debug program e rest m)
                  >>= run_loop f P debug program rounds fuel
            ])
        go [] same later = h
        go (e ∷ rest) same later =
            Ensures-bind Rests Rests _ (run_loop f P debug program rounds fuel)
              (poll_ready-tends rounds _ (drained _ (fires e rest m same h.1 h.0))) later

    pub run-tends :
        (rounds fuel : ℕ) (m : Sim f P U)
        → T [] (record m { state = drain_pending_spawns f P (m.state) })
        → Ensures (T []) (run f P debug program rounds fuel m)
    unfolding run settle Rests
    run-tends rounds fuel m h =
        Ensures-imp Rests (T []) _ (λ m' r. r.0)
          (Ensures-bind Rests Rests _ (run_loop f P debug program rounds fuel)
            (poll_ready-tends rounds _ h) (run_loop-tends rounds fuel))
