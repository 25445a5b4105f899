-- ===== src/Env/Trace.antt =====
-- src/env.rs: the events that a run fires, one after the other.
use sim_core.Base.{ℕ, zero, suc, ◌≡◌, refl, true, List, [], ◌∷◌, All}
use sim_core.Heap.{Ge}
use sim_core.Float.{Float, IsIeee}
use sim_core.Executor.State.{ScheduledWaker, event_ord}
use sim_core.Env.{
  Result, ok, panicked, unfinished, ◌>>=◌, Program, Sim, settle, fired, run_loop, run,
}
use sim_core.Env.Results.{Ensures, Ensures-ok}
use sim_core.Env.Clock.{Timed, After, Kept, Ge-le, fired-Kept, settle-Kept, run_loop-Kept}

module _ (f : Float) (ieee : IsIeee f) (P : Type 0) {U : Type 0} (program : Program f P U) where
  open f use {F, le}

  -- No event is earlier than this one, as numbers compare.
  abbrev pub IsEarliest : ScheduledWaker f → List (ScheduledWaker f) → Type 0
  IsEarliest e es = All (λ (x : ScheduledWaker f). le e.time x.time ≡ true) es

  -- From a settled state: each time the event taken is an earliest one, the clock goes to its time,
  -- and everything is polled until it has settled; the last state has no event.
  pub data Fires (rounds : ℕ) : Sim f P U → List F → Sim f P U → Type 0 where
    stop : {m : Sim f P U} → m.state.event_queue ≡ [] → Fires rounds m [] m
    next :
        {m n m' : Sim f P U} {ts : List F} (e : ScheduledWaker f) (rest : List (ScheduledWaker f))
        → m.state.event_queue ≡ e ∷ rest
        → IsEarliest e rest
        → (fired f P true program e rest m).state.current_time ≡ e.time
        → settle f P true program rounds (fired f P true program e rest m) ≡ ok n
        → Fires rounds n ts m'
        → Fires rounds m (e.time ∷ ts) m'

  -- None is before `t` or before the one in front of it.
  abbrev pub Rising : F → List F → Type 0
  Rising t [] = Unit
  Rising t (x ∷ xs) = (le t x ≡ true) × Rising x xs

  abbrev pub Fired : ℕ → F → Sim f P U → Sim f P U → Type 0
  Fired rounds t m m' = (ts : List F) × Fires rounds m ts m' × Rising t ts

  earliest :
      (now : F) (e : ScheduledWaker f) (xs : List (ScheduledWaker f))
      → After f ieee P now e
      → All (Ge ⦃o = event_ord f⦄ e) xs
      → All (After f ieee P now) xs
      → IsEarliest e xs
  earliest now e [] n g a = tt
  earliest now e (x ∷ xs) n g a =
      (Ge-le f ieee P program e x n.0 a.0.0 g.0, earliest now e xs n g.1 a.1)

  one_more :
      (rounds fuel : ℕ) (t : F) (m : Sim f P U) (e : ScheduledWaker f)
      (rest : List (ScheduledWaker f))
      → m.state.event_queue ≡ e ∷ rest
      → IsEarliest e rest
      → le t e.time ≡ true
      → (x : Result (Sim f P U))
      → settle f P true program rounds (fired f P true program e rest m) ≡ x
      → Ensures (Kept f ieee P program e.time) x
      → ((n : Sim f P U)
          → Kept f ieee P program e.time n
          → Ensures (Fired rounds e.time n) (run_loop f P true program rounds fuel n))
      → Ensures (Fired rounds t m) (x >>= run_loop f P true program rounds fuel)
  one_more rounds fuel t m e rest same first late (ok n) settled h later =
      go (run_loop f P true program rounds fuel n) (later n h)
    where
      go :
          (y : Result (Sim f P U))
          → Ensures (Fired rounds e.time n) y
          → Ensures (Fired rounds t m) y
      go (ok m') (ts, fires, rising) =
          (e.time ∷ ts, next e rest same first refl settled fires, (late, rising))
      go panicked g = tt
      go unfinished g = tt
  one_more rounds fuel t m e rest same first late panicked settled h later = tt
  one_more rounds fuel t m e rest same first late unfinished settled h later = tt

  run_loop-Fired :
      (rounds fuel : ℕ) (t : F) (m : Sim f P U)
      → Kept f ieee P program t m
      → Ensures (Fired rounds t m) (run_loop f P true program rounds fuel m)
  unfolding run_loop
  run_loop-Fired rounds zero t m v = tt
  run_loop-Fired rounds (suc fuel) t m v =
      go m.state.event_queue refl (λ t' n. run_loop-Fired rounds fuel t' n)
    where
      go :
          (q : List (ScheduledWaker f))
          → m.state.event_queue ≡ q
          → ((t' : F) (n : Sim f P U)
              → Kept f ieee P program t' n
              → Ensures (Fired rounds t' n) (run_loop f P true program rounds fuel n))
          → Ensures (Fired rounds t m) (elim q [
            | [] ↦ ok m
            | e ∷ rest ↦
                settle f P true program rounds (fired f P true program e rest m)
                >>= run_loop f P true program rounds fuel
          ])
      go [] same later = ([], stop same, tt)
      go (e ∷ rest) same later =
          let q = rw same at (v.0) in
          let (timed, late) = fired-Kept f ieee P program t e rest m same v in
          one_more rounds fuel t m e rest same
            (earliest m.state.current_time e rest q.ahead.0 q.sorted.0 q.ahead.1) late _ refl
            (settle-Kept f ieee P program e.time rounds (fired f P true program e rest m)
              (timed, ieee.le_refl e.time q.ahead.0.0))
            (later e.time)

  -- In a build with debug assertions, from a state with a finite clock, an ordered queue and no
  -- event before the clock: when `run` returns, it has settled and then fired events one after the
  -- other until none was left, each an earliest one of those in the queue. Their times, to which
  -- the clock goes, never fall and none is before the time at the start.
  pub run-Fired :
      (rounds fuel : ℕ) (m m' : Sim f P U)
      → Timed f ieee P m.state.current_time m.state.event_queue
      → run f P true program rounds fuel m ≡ ok m'
      → (n : Sim f P U) × (settle f P true program rounds m ≡ ok n)
        × Fired rounds m.state.current_time n m'
        × (le m.state.current_time m'.state.current_time ≡ true)
        × Timed f ieee P m'.state.current_time m'.state.event_queue
  unfolding run
  run-Fired rounds fuel m m' v returned = go (settle f P true program rounds m) refl start returned
    where
      t : F
      t = m.state.current_time

      kept : Kept f ieee P program t m
      kept = (v, ieee.le_refl t v.number)

      start : Ensures (Kept f ieee P program t) (settle f P true program rounds m)
      start = settle-Kept f ieee P program t rounds m kept

      go :
          (x : Result (Sim f P U))
          → settle f P true program rounds m ≡ x
          → Ensures (Kept f ieee P program t) x
          → (x >>= run_loop f P true program rounds fuel) ≡ ok m'
          → (n : Sim f P U) × (settle f P true program rounds m ≡ ok n)
            × Fired rounds t n m'
            × (le t m'.state.current_time ≡ true)
            × Timed f ieee P m'.state.current_time m'.state.event_queue
      go (ok n) settled h e =
          let k =
            Ensures-ok (Kept f ieee P program t) _ m'
              (run_loop-Kept f ieee P program t rounds fuel n h) e in
          (
            n,
            settled,
            Ensures-ok (Fired rounds t n) _ m' (run_loop-Fired rounds fuel t n h) e,
            k.1,
            k.0,
          )
      go panicked settled h e = cc
      go unfinished settled h e = cc
