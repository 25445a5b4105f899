-- ===== src/Compare/Queue/Progress.antt =====
-- examples/compare.rs: at the end of a simulated queue nobody is left waiting.
use sim_core.Base.{ℕ, ◌+◌, ◌*◌, ◌<◌, ◌≡◌, ap, true, [], none, arith, u64_mod}
use sim_core.Base.Order.{Ord}
use sim_core.Float.{Float, IsIeee}
use sim_core.Env.{Result, ok, panicked, unfinished, run}
use sim_core.Env.Results.{Ensures}
use sim_core.Env.Conservation.Slots.{in_pending}
use sim_core.Env.Tended.{run-tends}
use sim_core.Rng.{SplitMix64}
use sim_core.Rng.Sample.{Math}
use sim_core.WaitQueue
use sim_core.WaitQueue.{WaitQueue, is_granted}
use sim_core.Compare.Queue.{Process, program, begin}
use sim_core.Compare.Queue.Runs.{Simulates, run-Simulates}
use sim_core.Compare.Queue.Laws.{customers, recorded}
use sim_core.Compare.Queue.Tended.{Run, slot, Tended}
use sim_core.Compare.Queue.Tended.Ends.{none-left, in_table-none}
use sim_core.Compare.Queue.Tended.Steps.{Tended-IsTended}
use sim_core.Compare.Queue.Tended.Begins.{begin-Tended}

module _ (f : Float) (ieee : IsIeee f) (m : Math f) {K : Type 0} ⦃o : Ord K⦄
    (draw_key : SplitMix64 → K × SplitMix64) (lambda mu : f.F) where
  -- All customers are recorded, and no process is left.
  abbrev pub AllServed : ℕ → Result (Run f K) → Type 0
  AllServed n (ok s) = (recorded f K s.shared ≡ n) × ((x : ℕ) → slot f K s x ≡ none)
  AllServed n panicked = Unit
  AllServed n unfinished = ⊥

  served-all :
      (n : ℕ) (r : Result (Run f K))
      → Simulates f m draw_key lambda mu true n r
      → Ensures (Tended f K []) r
      → AllServed n r
  served-all n (ok s) (done, accounted) h =
      let gone = none-left f s h done.0.1 done.1 in
      (
        omega (
          arith,
          accounted,
          in_table-none f (Process f K) (customers f K) s.state.processes gone,
          ap (in_pending f (Process f K) (customers f K)) done.0.0,
        ),
        gone,
      )
  served-all n panicked h g = tt
  served-all n unfinished h g = h

  -- In a debug build, with numbers that behave as IEEE 754 says, a simulation of a queue with `n`
  -- customers, by turn or by priority, with a new resource, either panics or, with more than 6n + 1
  -- of fuel, ends with each of the `n` customers served and recorded, and with no process left: no
  -- wake-up is lost, so nobody waits for the server for ever. The seed and the rates are any.
  -- Conditions: the capacity is at least 1 and less than 2^64, and `n + 1` is less than 2^64.
  pub run-AllServed :
      (seed n capacity rounds fuel : ℕ)
      → 0 < capacity
      → capacity < u64_mod
      → n + 1 < u64_mod
      → 6 * n + 1 < rounds
      → 6 * n + 1 < fuel
      → AllServed n (
          run f
            (Process f K)
            true
            (program f m draw_key lambda mu)
            rounds
            fuel
            (begin f K seed n (WaitQueue.new capacity)))
  run-AllServed seed n capacity rounds fuel some_capacity small few wide enough =
      served-all n _
        (run-Simulates f m draw_key lambda mu true seed n rounds fuel (WaitQueue.new capacity) few
          wide enough)
        (run-tends f (Process f K) true (program f m draw_key lambda mu) (Tended f K)
          (Tended-IsTended f ieee m draw_key lambda mu) rounds fuel
          (begin f K seed n (WaitQueue.new capacity))
          (begin-Tended f seed n capacity some_capacity small few))
