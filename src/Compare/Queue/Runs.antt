-- ===== src/Compare/Queue/Runs.antt =====
-- examples/compare.rs: the simulations of `run_queue` and `run_priority`, from their start to the end.
use sim_core.Base.{ℕ, ◌+◌, ◌*◌, ◌<◌, ◌≡◌, Bool, [], ◌∷◌, none, arith, u64_mod}
use sim_core.Base.Order.{Ord}
use sim_core.Float.{Float}
use sim_core.Executor.State
use sim_core.Executor.State.{alloc_process_id}
use sim_core.Env.{Result, ok, panicked, unfinished, Sim, run, spawn}
use sim_core.Env.Results.{Ensures}
use sim_core.Env.Drained.{IsDrained, IsDone, run-IsDone}
use sim_core.Env.Conservation.Slots.{holding}
use sim_core.Env.Conservation.Law.{run-conserves, spawn_all}
use sim_core.Rng.{SplitMix64}
use sim_core.Rng.Sample.{Math}
use sim_core.WaitQueue.{WaitQueue}
use sim_core.Compare.Queue.{Shared, Process, arrives, begin, program}
use sim_core.Compare.Queue.Laws.{customers, recorded, to_come, size, program-Turn}

module _ (f : Float) (m : Math f) {K : Type 0} ⦃o : Ord K⦄ (draw_key : SplitMix64 → K × SplitMix64)
    (lambda mu : f.F) (debug : Bool) where
  -- The customers that are recorded, and those that are still to come or in the queue.
  abbrev accounted : Sim f (Process f K) (Shared f K) → ℕ
  accounted m = recorded f K m.shared + holding f (Process f K) (customers f K) m.state

  -- Nothing is left to do, and so many customers are accounted for.
  abbrev pub Simulates : ℕ → Result (Sim f (Process f K) (Shared f K)) → Type 0
  Simulates n (ok s) =
      IsDrained f (Process f K) debug (program f m draw_key lambda mu) s × (accounted s ≡ n)
  Simulates n panicked = Unit
  Simulates n unfinished = ⊥

  both :
      (total n : ℕ) (r : Result (Sim f (Process f K) (Shared f K)))
      → total ≡ n
      → Ensures (λ s. accounted s ≡ total) r
      → IsDone f (Process f K) debug (program f m draw_key lambda mu) r
      → Simulates n r
  both total n (ok s) e h d = (d, omega (arith, e, h))
  both total n panicked e h d = tt
  both total n unfinished e h d = d

  -- A simulation of a queue with `n` customers, by turn or by priority, with a resource of any
  -- capacity, any seed and any rates, either panics or, with more than 6n + 1 of fuel, runs until
  -- there is nothing left to do; and then every customer has either been recorded, once, or is
  -- still in its queue or still to come: none is lost and none is doubled. Condition: `n + 1` is
  -- less than 2^64.
  pub run-Simulates :
      (seed n rounds fuel : ℕ) (q : WaitQueue K)
      → n + 1 < u64_mod
      → 6 * n + 1 < rounds
      → 6 * n + 1 < fuel
      → Simulates n (
          run f
            (Process f K)
            debug
            (program f m draw_key lambda mu)
            rounds
            fuel
            (begin f K seed n q))
  unfolding begin spawn_all spawn State.new alloc_process_id
  run-Simulates seed n rounds fuel q few wide enough =
      let turn = program-Turn f m draw_key lambda mu in
      both _ n _ (omega arith)
        (run-conserves f (Process f K) (to_come f K) (customers f K) (recorded f K) debug
          (program f m draw_key lambda mu) rounds fuel (arrives n none ∷ [])
          (begin f K seed n q).shared (λ now waker u p. (turn now waker u p).bred)
          (λ now waker u p. (turn now waker u p).kept) (omega arith)).0
        (run-IsDone f (Process f K) debug (program f m draw_key lambda mu) (size f K) rounds fuel
          (begin f K seed n q) (λ now waker u p. (turn now waker u p).paid) (omega arith)
          (omega arith))
