-- ===== src/Env/Until.antt =====
-- src/env.rs: `run_until` and its boundary.
use sim_core.Base.{
  ℕ, zero, suc, ◌≡◌, refl, true, List, [], ◌∷◌, All, if◌then◌else◌, Bool-cases, inl, inr,
}
use sim_core.Heap.{Ge}
use sim_core.Float.{Float, IsIeee}
use sim_core.Executor.State.{ScheduledWaker, event_ord}
use sim_core.Env.{ok, ◌>>=◌, Program, Sim, settle, fired, stopped, run_until_loop, run_until}
use sim_core.Env.Clock.{After, Timed, Kept, settle-Kept, fired-Kept, Ge-le}
use sim_core.Env.Results.{Ensures, Ensures-ok, Ensures-bind}

module _ (f : Float) (ieee : IsIeee f) (P : Type 0) where
  open f use {F, le, is_finite}

  -- No event before `until`.
  abbrev pub NoneBefore : F → List (ScheduledWaker f) → Type 0
  NoneBefore until = All (λ e. le until e.time ≡ true)

  module _ {U : Type 0} (program : Program f P U) (until : F)
      (number : is_finite until ≡ true) where
    record Stopped (t : F) (m : Sim f P U) : Type 0 where
      kept : Kept f ieee P program t m
      reached : le until m.state.current_time ≡ true
      done : NoneBefore until m.state.event_queue

    stopped-Stopped :
        (t : F) (m : Sim f P U)
        → Kept f ieee P program t m
        → NoneBefore until m.state.event_queue
        → Stopped t (stopped f P true program until m)
    stopped-Stopped t m v none_before = record {
      kept = (
        record {
          number = ieee.max_finite until now number (v.0).number;
          sorted = (v.0).sorted;
          ahead = later m.state.event_queue (v.0).ahead none_before;
        },
        ieee.le_trans t now (f.max until now) v.1 (ieee.le_max_right until now (v.0).number),
      );
      reached = ieee.le_max_left until now number;
      done = none_before;
    }
      where
        now : F
        now = m.state.current_time

        later :
            (xs : List (ScheduledWaker f))
            → All (After f ieee P now) xs
            → NoneBefore until xs
            → All (After f ieee P (f.max until now)) xs
        later [] a b = tt
        later (x ∷ xs) a b = ((a.0.0, ieee.max_le until now x.time b.0 a.0.1), later xs a.1 b.1)

    -- If the first event is not before `until`, none is.
    none_before :
        (t : F) (e : ScheduledWaker f) (xs : List (ScheduledWaker f))
        → le until e.time ≡ true
        → is_finite e.time ≡ true
        → All (Ge ⦃o = event_ord f⦄ e) xs
        → All (After f ieee P t) xs
        → NoneBefore until xs
    none_before t e [] h n g a = tt
    none_before t e (x ∷ xs) h n g a = (
      ieee.le_trans until e.time x.time h (Ge-le f ieee P program e x n a.0.0 g.0),
      none_before t e xs h n g.1 a.1,
    )

    run_until_loop-Stopped :
        (t : F) (rounds fuel : ℕ) (m : Sim f P U)
        → Kept f ieee P program t m
        → Ensures (Stopped t) (run_until_loop f P true program rounds until fuel m)
    unfolding run_until_loop
    run_until_loop-Stopped t rounds zero m v = tt
    run_until_loop-Stopped t rounds (suc fuel) m v =
        go m.state.event_queue refl (run_until_loop-Stopped t rounds fuel)
      where
        go :
            (q : List (ScheduledWaker f))
            → m.state.event_queue ≡ q
            → ((n : Sim f P U)
                → Kept f ieee P program t n
                → Ensures (Stopped t) (run_until_loop f P true program rounds until fuel n))
            → Ensures (Stopped t) (elim q [
              | [] ↦ ok (stopped f P true program until m)
              | e ∷ rest ↦
                  let more =
                    settle f P true program rounds (fired f P true program e rest m)
                    >>= run_until_loop f P true program rounds until fuel in
                  if le until e.time then ok (stopped f P true program until m) else more
            ])
        go [] same later = stopped-Stopped t m v (rw same tt)
        go (e ∷ rest) same later = elim (Bool-cases (le until e.time)) [
          | inl stop ↦
              let q = rw same at (v.0) in
              rw stop (
                stopped-Stopped t m v (
                  rw same (
                    stop,
                    none_before m.state.current_time e rest stop q.ahead.0.0 q.sorted.0 q.ahead.1,
                  )))
          | inr more ↦ rw more (
              Ensures-bind (Kept f ieee P program t) (Stopped t) _
                (run_until_loop f P true program rounds until fuel)
                (settle-Kept f ieee P program t rounds _
                  (fired-Kept f ieee P program t e rest m same v))
                later)
        ]

    -- In a build with debug assertions, from a state with a finite clock, an ordered queue and no
    -- event before the clock, and for a finite boundary: when `run_until` returns, the time is no
    -- earlier than it was and no earlier than the boundary, no event before the boundary is left,
    -- and the state is again such a state.
    pub run_until_boundary :
        (rounds fuel : ℕ) (m m' : Sim f P U)
        → Timed f ieee P m.state.current_time m.state.event_queue
        → run_until f P true program rounds fuel until m ≡ ok m'
        → (le m.state.current_time m'.state.current_time ≡ true)
          × (le until m'.state.current_time ≡ true)
          × NoneBefore until m'.state.event_queue
          × Timed f ieee P m'.state.current_time m'.state.event_queue
    unfolding run_until
    run_until_boundary rounds fuel m m' v returned =
        let t = m.state.current_time in
        let k =
          Ensures-ok (Stopped t) _ m'
            (Ensures-bind (Kept f ieee P program t) (Stopped t) _
              (run_until_loop f P true program rounds until fuel)
              (settle-Kept f ieee P program t rounds m (v, ieee.le_refl t v.number))
              (run_until_loop-Stopped t rounds fuel))
            returned in
        (k.kept.1, k.reached, k.done, k.kept.0)
