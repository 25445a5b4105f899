-- ===== src/Env/Drained.antt =====
-- src/env.rs: what is left when `run` returns.
use sim_core.Base.{ℕ, zero, suc, ◌<◌, ◌≡◌, refl, Bool, List, [], ◌∷◌, Option, none, some, get_elem?}
use sim_core.Float.{Float}
use sim_core.Executor.State.{ScheduledWaker, ProcessEntry}
use sim_core.Env.{
  Result, ok, panicked, unfinished, ◌>>=◌, Program, Sim, poll_entry, poll_slot, poll_batch,
  take_ready, poll_ready, settle, fired, run_loop, run, drain_pending_spawns, perform_all,
}
use sim_core.Env.Results.{Ensures, Ensures-any, Ensures-bind}
use sim_core.Env.Weight.{weight}
use sim_core.Env.Termination.{Pays, Ends, run-Within}

module _ (f : Float) (P : Type 0) {U : Type 0} (debug : Bool) (program : Program f P U) where
  abbrev IsAdmitted : Sim f P U → Type 0
  IsAdmitted m = m.state.pending_spawns ≡ []

  -- Every spawned process has its slot, and every process that was made ready has been polled.
  abbrev pub IsSettled : Sim f P U → Type 0
  IsSettled m = (m.state.pending_spawns ≡ []) × (m.state.ready_queue ≡ [])

  abbrev pub IsDrained : Sim f P U → Type 0
  IsDrained m = IsSettled m × (m.state.event_queue ≡ [])

  poll_slot-IsAdmitted :
      (id : ℕ) (o : Option (Option (ProcessEntry f P))) (m : Sim f P U)
      → IsAdmitted m
      → Ensures IsAdmitted (poll_slot f P debug program id o m)
  unfolding poll_entry drain_pending_spawns
  poll_slot-IsAdmitted id none m h = tt
  poll_slot-IsAdmitted id (some none) m h = h
  poll_slot-IsAdmitted id (some (some e)) m h =
      Ensures-bind (λ s. Unit {0}) IsAdmitted (perform_all f P debug _ _) _
        (Ensures-any (perform_all f P debug _ _)) (λ s _. refl)

  poll_batch-IsAdmitted :
      (batch : List ℕ) (m : Sim f P U)
      → IsAdmitted m
      → Ensures IsAdmitted (poll_batch f P debug program batch m)
  unfolding poll_batch
  poll_batch-IsAdmitted [] m h = h
  poll_batch-IsAdmitted (id ∷ batch) m h =
      Ensures-bind IsAdmitted IsAdmitted _ (poll_batch f P debug program batch)
        (poll_slot-IsAdmitted id (get_elem? m.state.processes id) m h) (poll_batch-IsAdmitted batch)

  poll_ready-IsSettled :
      (fuel : ℕ) (m : Sim f P U)
      → IsAdmitted m
      → Ensures IsSettled (poll_ready f P debug program fuel m)
  unfolding poll_ready
  poll_ready-IsSettled zero m h = tt
  poll_ready-IsSettled (suc fuel) m h = go m.state.ready_queue refl (poll_ready-IsSettled fuel)
    where
      go :
          (q : List ℕ)
          → m.state.ready_queue ≡ q
          → ((m' : Sim f P U)
              → IsAdmitted m'
              → Ensures IsSettled (poll_ready f P debug program fuel m'))
          → Ensures IsSettled (elim q [
            | [] ↦ ok m
            | id ∷ batch ↦
                poll_batch f P debug program (id ∷ batch) (take_ready f P debug program m)
                >>= poll_ready f P debug program fuel
          ])
      go [] e later = (h, e)
      go (id ∷ batch) e later =
          Ensures-bind IsAdmitted IsSettled _ (poll_ready f P debug program fuel)
            (poll_batch-IsAdmitted (id ∷ batch) (take_ready f P debug program m) h) later

  settle-IsSettled :
      (fuel : ℕ) (m : Sim f P U) → Ensures IsSettled (settle f P debug program fuel m)
  unfolding settle drain_pending_spawns
  settle-IsSettled fuel m = poll_ready-IsSettled fuel _ refl

  run_loop-IsDrained :
      (rounds fuel : ℕ) (m : Sim f P U)
      → IsSettled m
      → Ensures IsDrained (run_loop f P debug program rounds fuel m)
  unfolding run_loop
  run_loop-IsDrained rounds zero m h = tt
  run_loop-IsDrained rounds (suc fuel) m h =
      go m.state.event_queue refl (run_loop-IsDrained rounds fuel)
    where
      go :
          (q : List (ScheduledWaker f))
          → m.state.event_queue ≡ q
          → ((m' : Sim f P U)
              → IsSettled m'
              → Ensures IsDrained (run_loop f P debug program rounds fuel m'))
          → Ensures IsDrained (elim q [
            | [] ↦ ok m
            | e ∷ rest ↦
                settle f P debug program rounds (fired f P debug program e rest m)
                >>= run_loop f P debug program rounds fuel
          ])
      go [] e later = (h, e)
      go (x ∷ rest) e later =
          Ensures-bind IsSettled IsDrained _ (run_loop f P debug program rounds fuel)
            (settle-IsSettled rounds (fired f P debug program x rest m)) later

  run-IsDrained :
      (rounds fuel : ℕ) (m : Sim f P U) → Ensures IsDrained (run f P debug program rounds fuel m)
  unfolding run
  run-IsDrained rounds fuel m =
      Ensures-bind IsSettled IsDrained _ (run_loop f P debug program rounds fuel)
        (settle-IsSettled rounds m) (run_loop-IsDrained rounds fuel)

  -- The model's fuel has not run out, and of what is returned nothing is left to do.
  abbrev pub IsDone : Result (Sim f P U) → Type 0
  IsDone (ok m) = IsDrained m
  IsDone panicked = Unit
  IsDone unfinished = ⊥

  -- If each poll pays, with the size that the process loses, for the events, the wakes and the
  -- processes that it asks for, and there is more fuel than the weight of all that is under way,
  -- `run` either panics or returns a state in which no event is left, no spawned process is still
  -- without its slot, and no process is ready: it never stops early.
  pub run-IsDone :
      (size : P → ℕ) (rounds fuel : ℕ) (m : Sim f P U)
      → Pays f P size debug program
      → weight f P size m.state < rounds
      → weight f P size m.state < fuel
      → IsDone (run f P debug program rounds fuel m)
  run-IsDone size rounds fuel m pays wide h =
      both (run f P debug program rounds fuel m)
        (run-Within f P size debug program rounds fuel m pays wide h).0
        (run-IsDrained rounds fuel m)
    where
      both :
          (r : Result (Sim f P U))
          → Ends f P size debug program m r
          → Ensures IsDrained r
          → IsDone r
      both (ok m') w d = d
      both panicked w d = tt
      both unfinished w d = w
