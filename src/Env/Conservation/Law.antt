-- ===== src/Env/Conservation/Law.antt =====
-- src/env.rs: runs of processes that conserve a quantity, from a new environment.
use sim_core.Base.{ℕ, ◌+◌, ◌<◌, ◌≡◌, refl, Bool, List, [], ◌∷◌, arith, u64_mod}
use sim_core.Float.{Float}
use sim_core.Executor.State
use sim_core.Executor.State.{SimState, alloc_process_id}
use sim_core.Env.{Program, Sim, spawn, run, run_until}
use sim_core.Env.Results.{Ensures, Ensures-imp}
use sim_core.Env.Preserved.{IsPreserved, run-keeps, run_until-keeps}
use sim_core.Env.Conservation.Slots.{holding}
use sim_core.Env.Conservation.Calls.{IsAllotted, spawn-Called}
use sim_core.Env.Conservation.Loop.{
  IsAtRest, Breeds, Conserves, Holds, drain-IsAtRest, poll_entry-Holds,
}

module _ (f : Float) (P : Type 0) where
  -- Processes spawned one after the other.
  unfoldable pub spawn_all : List P → SimState f P → SimState f P
  spawn_all [] s = s
  spawn_all (p ∷ ps) s = spawn_all ps (spawn f P p s)

  abbrev pub sum_of : (P → ℕ) → List P → ℕ
  sum_of v [] = 0
  sum_of v (p ∷ ps) = v p + sum_of v ps

  spawn_all-IsAtRest :
      (children v : P → ℕ) (ps : List P) (s : SimState f P)
      → IsAllotted f P children (λ a. 0) (sum_of (λ p. children p + 1) ps) s
      → IsAtRest f P children v (spawn_all ps s)
        × (holding f P v (spawn_all ps s) ≡ holding f P v s + sum_of v ps)
  unfolding spawn_all spawn alloc_process_id
  spawn_all-IsAtRest children v [] s h = (h, omega arith)
  spawn_all-IsAtRest children v (p ∷ ps) s h =
      let c = spawn-Called f P children v (λ a. 0) p s (sum_of (λ q. children q + 1) ps) h in
      let (rest, held) = spawn_all-IsAtRest children v ps (spawn f P p s) c.allotted in
      (rest, omega (arith, held, c.holds))

  module _ (children v : P → ℕ) {U : Type 0} (count : U → ℕ) (debug : Bool)
      (program : Program f P U) where
    abbrev pub started : List P → U → Sim f P U
    started ps u = record { state = spawn_all ps (State.new f); shared = u }

    Holds-IsPreserved :
        (total : ℕ)
        → Breeds f P children v count debug program
        → Conserves f P children v count debug program
        → IsPreserved f P debug program (Holds f P children v count debug program total)
    Holds-IsPreserved total breeds conserves = record {
      drained = λ m h.
          let (rest, held) = drain-IsAtRest f P children v m.state h.0 in
          (rest, omega (arith, held, h.1));
      polled = poll_entry-Holds f P children v count debug program breeds conserves total;
      taken = λ m h. (record { once = h.0.once; known = h.0.known; room = h.0.room }, h.1);
      fires = λ e rest m q h. (record { once = h.0.once; known = h.0.known; room = h.0.room }, h.1);
      stops = λ until m h. (record { once = h.0.once; known = h.0.known; room = h.0.room }, h.1);
    }

    -- What the processes and the shared state have between them.
    abbrev pub Has : ℕ → Sim f P U → Type 0
    Has total m = count m.shared + holding f P v m.state ≡ total

    -- A quantity `v` of the processes, with what is counted of it in the shared state, is conserved
    -- by whole runs if each poll that does not panic conserves it between the process, what is left of it, those that
    -- it spawns and the shared state: after `run` or `run_until` from a new environment with some
    -- processes spawned, when it returns, the processes that are left and the shared state have
    -- between them what the first processes and the shared state had. So the loop neither loses nor
    -- doubles a process. The processes that are spawned, as `children` bounds them in each poll, are
    -- fewer than 2^64.
    pub run-conserves :
        (rounds fuel : ℕ) (ps : List P) (u : U)
        → Breeds f P children v count debug program
        → Conserves f P children v count debug program
        → sum_of (λ p. children p + 1) ps < u64_mod
        → Ensures (Has (count u + sum_of v ps)) (run f P debug program rounds fuel (started ps u))
          × ((until : f.F)
              → Ensures
                  (Has (count u + sum_of v ps))
                  (run_until f P debug program rounds fuel until (started ps u)))
    unfolding State.new
    run-conserves rounds fuel ps u breeds conserves few =
        let total = count u + sum_of v ps in
        let steps = Holds-IsPreserved total breeds conserves in
        (
          Ensures-imp (Holds f P children v count debug program total) (Has total) _ (λ m h. h.1)
              (run-keeps f P debug program (Holds f P children v count debug program total) steps
                rounds fuel (started ps u) (begins few)),
          λ until.
              Ensures-imp (Holds f P children v count debug program total) (Has total) _
                (λ m h. h.1)
                (run_until-keeps f P debug program (Holds f P children v count debug program total)
                  steps rounds fuel until (started ps u) (begins few)),
        )
      where
        begins :
            sum_of (λ p. children p + 1) ps < u64_mod
            → Holds f P children v count debug program (count u + sum_of v ps) (started ps u)
        begins few =
            let (rest, held) =
              spawn_all-IsAtRest children v ps (State.new f)
                (record { once = λ a. omega arith; known = λ a le. refl; room = omega arith }) in
            (rest, omega (arith, held))
