-- ===== src/Env/Termination.antt =====
-- src/env.rs: the end of the event loop, over processes whose polls pay for what they ask for.
use sim_core.Base.{
  true, false, if◌then◌else◌, ℕ, zero, suc, ◌≤◌, ◌<◌, ◌≡◌, refl, Bool, List, [], ◌∷◌, arith, ap,
  length, length-append,
}
use sim_core.Float.{Float}
use sim_core.Executor.State.{ScheduledWaker}
use sim_core.Env.{
  Result, run_until, run_until_loop, stopped, ok, ◌>>=◌, Program, Sim, settle, fired, run_loop, run,
}
use sim_core.Env.Weight.{Within, Within-bind, Within-mono, weight}
use sim_core.Env.Payment
use sim_core.Env.Payment.{settle-Within}

module _ (f : Float) (P : Type 0) (size : P → ℕ) {U : Type 0} (debug : Bool)
    (program : Program f P U) where
  -- Each poll pays, with the size that the process loses, for the events, the wakes and the
  -- processes that it asks for.
  abbrev pub Pays : Type 0
  Pays = Payment.Pays f P size debug program

  abbrev weight_of : Sim f P U → ℕ
  weight_of m = weight f P size m.state

  -- The end of a run from a state: it does not run out of fuel.
  abbrev pub Ends : Sim f P U → Result (Sim f P U) → Type 0
  Ends m = Within weight_of (weight_of m)

  module _ (pays : Pays) where
    -- An event fires, what it wakes settles, and the rest follows.
    another-Within :
        (rounds fuel : ℕ) (again : Sim f P U → Result (Sim f P U)) (m : Sim f P U)
        (e : ScheduledWaker f) (rest : List (ScheduledWaker f))
        → weight_of m < rounds
        → weight_of m < suc fuel
        → m.state.event_queue ≡ e ∷ rest
        → ((m' : Sim f P U)
            → weight_of m' < rounds
            → weight_of m' < fuel
            → Within weight_of (weight_of m') (again m'))
        → Within weight_of
            (weight_of m)
            (settle f P debug program rounds (fired f P debug program e rest m) >>= again)
    another-Within rounds fuel again m e rest wide h eq later =
        let some_event : length m.state.event_queue ≡ suc (length rest) = ap length eq in
        let woken = length-append m.state.ready_queue (e.waker.process_id ∷ []) in
        Within-bind weight_of weight_of (weight_of (fired f P debug program e rest m)) (weight_of m)
          _ _
          (settle-Within f P size debug program pays rounds (fired f P debug program e rest m)
            (omega arith))
          (λ m' h'.
            Within-mono weight_of _ _ _ (omega arith) (later m' (omega arith) (omega arith)))

    run_loop-Within :
        (rounds fuel : ℕ) (m : Sim f P U)
        → weight_of m < rounds
        → weight_of m < fuel
        → Within weight_of (weight_of m) (run_loop f P debug program rounds fuel m)
    unfolding run_loop
    run_loop-Within rounds zero m wide h = absurd (omega arith)
    run_loop-Within rounds (suc fuel) m wide h =
        go (m.state.event_queue) refl (run_loop-Within rounds fuel)
      where
        go :
            (q : List (ScheduledWaker f))
            → m.state.event_queue ≡ q
            → ((m' : Sim f P U)
                → weight_of m' < rounds
                → weight_of m' < fuel
                → Within weight_of (weight_of m') (run_loop f P debug program rounds fuel m'))
            → Within weight_of (weight_of m) (elim q [
              | [] ↦ ok m
              | e ∷ rest ↦
                  settle f P debug program rounds (fired f P debug program e rest m)
                  >>= run_loop f P debug program rounds fuel
            ])
        go [] e later = omega arith
        go (e ∷ rest) eq later =
            another-Within rounds fuel (run_loop f P debug program rounds fuel) m e rest wide h eq
              later

    run_until_loop-Within :
        (rounds fuel : ℕ) (until : f.F) (m : Sim f P U)
        → weight_of m < rounds
        → weight_of m < fuel
        → Within weight_of (weight_of m) (run_until_loop f P debug program rounds until fuel m)
    unfolding run_until_loop
    run_until_loop-Within rounds zero until m wide h = absurd (omega arith)
    run_until_loop-Within rounds (suc fuel) until m wide h =
        go (m.state.event_queue) refl (run_until_loop-Within rounds fuel until)
      where
        halted :
            (b : Bool) (r : Result (Sim f P U))
            → Within weight_of (weight_of m) r
            → Within weight_of
                (weight_of m)
                (if b then ok (stopped f P debug program until m) else r)
        halted true r h' = omega arith
        halted false r h' = h'

        go :
            (q : List (ScheduledWaker f))
            → m.state.event_queue ≡ q
            → ((m' : Sim f P U)
                → weight_of m' < rounds
                → weight_of m' < fuel
                → Within weight_of
                    (weight_of m')
                    (run_until_loop f P debug program rounds until fuel m'))
            → Within weight_of (weight_of m) (elim q [
              | [] ↦ ok (stopped f P debug program until m)
              | e ∷ rest ↦
                  let more =
                    settle f P debug program rounds (fired f P debug program e rest m)
                    >>= run_until_loop f P debug program rounds until fuel in
                  if f.le until e.time then ok (stopped f P debug program until m) else more
            ])
        go [] e later = omega arith
        go (e ∷ rest) eq later = halted (f.le until e.time) _ (
            another-Within rounds fuel (run_until_loop f P debug program rounds until fuel) m e rest
              wide h eq later)

  -- If each poll pays, with the size that the process loses, for the events, the wakes and the
  -- processes that it asks for, `run` and `run_until` end, whatever the boundary: with more fuel
  -- than the weight of all that is under way (processes, spawns, ready entries and events) each
  -- returns or panics, and a state that it returns weighs no more than the one that it began with.
  pub run-Within :
      (rounds fuel : ℕ) (m : Sim f P U)
      → Pays
      → weight f P size m.state < rounds
      → weight f P size m.state < fuel
      → Ends m (run f P debug program rounds fuel m)
        × ((until : f.F) → Ends m (run_until f P debug program rounds fuel until m))
  unfolding run run_until
  run-Within rounds fuel m pays wide h = (
    after_settling (run_loop f P debug program rounds fuel)
        (λ m' le. run_loop-Within pays rounds fuel m' (omega arith) (omega arith)),
    λ until.
        after_settling (run_until_loop f P debug program rounds until fuel)
          (λ m' le. run_until_loop-Within pays rounds fuel until m' (omega arith) (omega arith)),
  )
    where
      after_settling :
          (again : Sim f P U → Result (Sim f P U))
          → ((m' : Sim f P U)
              → weight_of m' ≤ weight_of m
              → Within weight_of (weight_of m') (again m'))
          → Within weight_of (weight_of m) (settle f P debug program rounds m >>= again)
      after_settling again later =
          Within-bind weight_of weight_of (weight_of m) (weight_of m) _ again
            (settle-Within f P size debug program pays rounds m wide)
            (λ m' h'. Within-mono weight_of _ _ _ h' (later m' h'))
