-- ===== src/Env/Preserved.antt =====
-- src/env.rs: what every step of the event loop preserves, whole runs preserve.
use sim_core.Base.{
  ℕ, zero, suc, ◌≡◌, refl, Bool, true, false, List, [], ◌∷◌, Option, none, some, get_elem?,
  if◌then◌else◌,
}
use sim_core.Float.{Float}
use sim_core.Executor.State.{ScheduledWaker, ProcessEntry}
use sim_core.Env.{
  Result, ok, ◌>>=◌, Program, Sim, drain_pending_spawns, poll_entry, poll_slot, poll_batch,
  take_ready, poll_ready, settle, fired, stopped, run_loop, run_until_loop, run, run_until,
}
use sim_core.Env.Results.{Ensures, Ensures-bind}

module _ (f : Float) (P : Type 0) {U : Type 0} (debug : Bool) (program : Program f P U) where
  -- The steps of the loop.
  pub record IsPreserved (J : Sim f P U → Type 0) : Type 0 where
    pub drained :
        (m : Sim f P U) → J m → J (record m { state = drain_pending_spawns f P (m.state) })
    pub polled :
        (id : ℕ) (e : ProcessEntry f P) (m : Sim f P U)
        → get_elem? m.state.processes id ≡ some (some e)
        → J m
        → Ensures J (poll_entry f P debug program id e m)
    pub taken : (m : Sim f P U) → J m → J (take_ready f P debug program m)
    pub fires :
        (e : ScheduledWaker f) (rest : List (ScheduledWaker f)) (m : Sim f P U)
        → m.state.event_queue ≡ e ∷ rest
        → J m
        → J (fired f P debug program e rest m)
    pub stops : (until : f.F) (m : Sim f P U) → J m → J (stopped f P debug program until m)

  module _ (J : Sim f P U → Type 0) (steps : IsPreserved J) where
    open steps use {drained, polled, taken, fires, stops}

    poll_slot-keeps :
        (id : ℕ) (o : Option (Option (ProcessEntry f P))) (m : Sim f P U)
        → get_elem? m.state.processes id ≡ o
        → J m
        → Ensures J (poll_slot f P debug program id o m)
    poll_slot-keeps id none m e h = tt
    poll_slot-keeps id (some none) m e h = h
    poll_slot-keeps id (some (some entry)) m e h = polled id entry m e h

    poll_batch-keeps :
        (batch : List ℕ) (m : Sim f P U) → J m → Ensures J (poll_batch f P debug program batch m)
    unfolding poll_batch
    poll_batch-keeps [] m h = h
    poll_batch-keeps (id ∷ batch) m h =
        Ensures-bind J J _ (poll_batch f P debug program batch)
          (poll_slot-keeps id (get_elem? m.state.processes id) m refl h) (poll_batch-keeps batch)

    poll_ready-keeps :
        (fuel : ℕ) (m : Sim f P U) → J m → Ensures J (poll_ready f P debug program fuel m)
    unfolding poll_ready
    poll_ready-keeps zero m h = tt
    poll_ready-keeps (suc fuel) m h = go m.state.ready_queue (poll_ready-keeps fuel)
      where
        go :
            (q : List ℕ)
            → ((m' : Sim f P U) → J m' → Ensures J (poll_ready f P debug program fuel m'))
            → Ensures J (elim q [
              | [] ↦ ok m
              | id ∷ batch ↦
                  poll_batch f P debug program (id ∷ batch) (take_ready f P debug program m)
                  >>= poll_ready f P debug program fuel
            ])
        go [] later = h
        go (id ∷ batch) later =
            Ensures-bind J J _ (poll_ready f P debug program fuel)
              (poll_batch-keeps (id ∷ batch) (take_ready f P debug program m) (taken m h)) later

    settle-keeps : (fuel : ℕ) (m : Sim f P U) → J m → Ensures J (settle f P debug program fuel m)
    unfolding settle
    settle-keeps fuel m h = poll_ready-keeps fuel _ (drained m h)

    run_loop-keeps :
        (rounds fuel : ℕ) (m : Sim f P U)
        → J m
        → Ensures J (run_loop f P debug program rounds fuel m)
    unfolding run_loop
    run_loop-keeps rounds zero m h = tt
    run_loop-keeps rounds (suc fuel) m h = go m.state.event_queue refl (run_loop-keeps rounds fuel)
      where
        go :
            (q : List (ScheduledWaker f))
            → m.state.event_queue ≡ q
            → ((m' : Sim f P U) → J m' → Ensures J (run_loop f P debug program rounds fuel m'))
            → Ensures J (elim q [
              | [] ↦ ok m
              | e ∷ rest ↦
                  settle f P debug program rounds (fired f P debug program e rest m)
                  >>= run_loop f P debug program rounds fuel
            ])
        go [] same later = h
        go (e ∷ rest) same later =
            Ensures-bind J J _ (run_loop f P debug program rounds fuel)
              (settle-keeps rounds (fired f P debug program e rest m) (fires e rest m same h)) later

    run_until_loop-keeps :
        (rounds : ℕ) (until : f.F) (fuel : ℕ) (m : Sim f P U)
        → J m
        → Ensures J (run_until_loop f P debug program rounds until fuel m)
    unfolding run_until_loop
    run_until_loop-keeps rounds until zero m h = tt
    run_until_loop-keeps rounds until (suc fuel) m h =
        go m.state.event_queue refl (run_until_loop-keeps rounds until fuel)
      where
        halted :
            (b : Bool) (r : Result (Sim f P U))
            → Ensures J r
            → Ensures J (if b then ok (stopped f P debug program until m) else r)
        halted true r k = stops until m h
        halted false r k = k

        go :
            (q : List (ScheduledWaker f))
            → m.state.event_queue ≡ q
            → ((m' : Sim f P U)
                → J m'
                → Ensures J (run_until_loop f P debug program rounds until fuel m'))
            → Ensures J (elim q [
              | [] ↦ ok (stopped f P debug program until m)
              | e ∷ rest ↦
                  let more =
                    settle f P debug program rounds (fired f P debug program e rest m)
                    >>= run_until_loop f P debug program rounds until fuel in
                  if f.le until e.time then ok (stopped f P debug program until m) else more
            ])
        go [] same later = stops until m h
        go (e ∷ rest) same later = halted (f.le until e.time) _ (
            Ensures-bind J J _ (run_until_loop f P debug program rounds until fuel)
              (settle-keeps rounds (fired f P debug program e rest m) (fires e rest m same h))
              later)

    pub run-keeps :
        (rounds fuel : ℕ) (m : Sim f P U) → J m → Ensures J (run f P debug program rounds fuel m)
    unfolding run
    run-keeps rounds fuel m h =
        Ensures-bind J J _ (run_loop f P debug program rounds fuel) (settle-keeps rounds m h)
          (run_loop-keeps rounds fuel)

    pub run_until-keeps :
        (rounds fuel : ℕ) (until : f.F) (m : Sim f P U)
        → J m
        → Ensures J (run_until f P debug program rounds fuel until m)
    unfolding run_until
    run_until-keeps rounds fuel until m h =
        Ensures-bind J J _ (run_until_loop f P debug program rounds until fuel)
          (settle-keeps rounds m h) (run_until_loop-keeps rounds until fuel)
