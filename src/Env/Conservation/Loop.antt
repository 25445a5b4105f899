-- ===== src/Env/Conservation/Loop.antt =====
-- src/env.rs: a turn of the event loop, with the slots of all processes and what they hold.
use sim_core.Base.{
  ℕ, zero, suc, ◌+◌, ◌≤◌, ◌<◌, ◌≡◌, refl, ap, ◌∙◌, Bool, true, false, [], ◌∷◌, Option, none, some,
  arith, length, length-set, get_elem?, set, if◌then◌else◌, ◌==◌,
}
use sim_core.Float.{Float}
use sim_core.Executor.Waker.{SimWaker}
use sim_core.Executor.State.{SimState, ProcessEntry}
use sim_core.Env.{
  Outcome, ok, ◌>>=◌, perform_all, put_back, drain_pending_spawns, Program, Sim, poll_entry,
}
use sim_core.Env.Results.{Ensures, Ensures-bind}
use sim_core.Env.Conservation.Slots.{
  holding, at_slot, occupied, named, in_table-set, in_table-take, occupied-set, admit_all-exact,
  Table,
}
use sim_core.Env.Conservation.Calls.{
  fails, perform_all-fails, in_calls, in_left, IsAllotted, less-to-come, Called, perform_all-Called,
}

module _ (f : Float) (P : Type 0) where
  slot-long :
      (ps : Table f P) (i : ℕ) (s : Option (ProcessEntry f P))
      → get_elem? ps i ≡ some s
      → i < length ps
  slot-long [] i s h = cc
  slot-long (p ∷ ps) zero s h = omega arith
  slot-long (p ∷ ps) (suc i) s h = omega (arith, slot-long ps i s h)

  module _ (children v : P → ℕ) where
    abbrev pub IsAtRest : SimState f P → Type 0
    IsAtRest s = IsAllotted f P children (λ a. 0) 0 s

    pub drain-IsAtRest :
        (s : SimState f P)
        → IsAtRest s
        → IsAtRest (drain_pending_spawns f P s)
          × (holding f P v (drain_pending_spawns f P s) ≡ holding f P v s)
    unfolding drain_pending_spawns
    drain-IsAtRest s h =
        let once : (a : ℕ) → occupied f P a s.processes + named f P a s.pending_spawns ≤ 1 =
          λ a. omega (arith, h.once a) in
        let held = admit_all-exact f P v s.pending_spawns s.processes once in
        let bred = admit_all-exact f P children s.pending_spawns s.processes once in
        (
          record {
            once = λ a. omega (arith, h.once a, held.1 a);
            known = λ a le. omega (arith, h.known a le, held.1 a);
            room = omega (arith, h.room, bred.0);
          },
          omega (arith, held.0),
        )

    module _ {U : Type 0} (count : U → ℕ) (debug : Bool) (program : Program f P U) where
      -- Each poll takes the processes that it spawns from those that the process can still spawn.
      abbrev pub Breeds : Type 0
      Breeds =
          (now : f.F) (waker : SimWaker) (u : U) (p : P)
          → let out = program now waker u p in
            in_calls f P (λ q. children q + 1) out.calls + in_left f P children out.left
            ≤ children p

      -- What a process holds goes, in each poll that does not panic, to what is left of it, to the processes that it
      -- spawns, and to what is counted in the shared state.
      abbrev pub Conserves : Type 0
      Conserves =
          (now : f.F) (waker : SimWaker) (u : U) (p : P)
          → let out = program now waker u p in
            fails f P out.calls ≡ false
            → count out.shared + in_calls f P v out.calls + in_left f P v out.left ≡ count u + v p

      abbrev pub Holds : ℕ → Sim f P U → Type 0
      Holds total m = IsAtRest m.state × (count m.shared + holding f P v m.state ≡ total)

      put_back-IsAtRest :
          (id : ℕ) (w : SimWaker) (o : Option P) (s : SimState f P)
          → id < length s.processes
          → occupied f P id s.processes ≡ 0
          → IsAllotted f P children (λ a. if id == a then 1 else 0) (in_left f P children o) s
          → IsAtRest (put_back f P debug program id w o s)
            × (holding f P v (put_back f P debug program id w o s)
                ≡ holding f P v s + in_left f P v o)
      put_back-IsAtRest id w none s long free h = (
        record {
          once = λ a. omega (arith, h.once a);
          known = λ a le. omega (arith, h.known a le);
          room = omega (arith, h.room);
        },
        omega arith,
      )
      put_back-IsAtRest id w (some p) s long free h =
          let e : Option (ProcessEntry f P) = some (record { future = p; waker = w }) in
          (
            record {
              once = λ a. ground (arith, h.once a, occupied-set f P s.processes id a e long, free);
              known = λ a le.
                  ground (arith, h.known a le, occupied-set f P s.processes id a e long, free);
              room = omega (arith, h.room, in_table-set f P children s.processes id e long free);
            },
            omega (arith, in_table-set f P v s.processes id e long free),
          )

      module _ (breeds : Breeds) (conserves : Conserves) (total : ℕ) where
        taken-IsAllotted :
            (id : ℕ) (e : ProcessEntry f P) (s : SimState f P)
            → get_elem? s.processes id ≡ some (some e)
            → IsAtRest s
            → IsAllotted f P children
                (λ a. if id == a then 1 else 0)
                (children e.future)
                (record s { processes = set s.processes id none })
        taken-IsAllotted id e s there h =
            let long = slot-long s.processes id (some e) there in
            let here : occupied f P id s.processes ≡ 1 = ap (at_slot f P) there in
            record {
              once =
                  λ a. ground (arith, h.once a, occupied-set f P s.processes id a none long, here);
              known = λ a le.
                  ground (arith, h.known a le, occupied-set f P s.processes id a none long, here);
              room = omega (arith, h.room, in_table-take f P children s.processes id e there);
            }

        pub poll_entry-Holds :
            (id : ℕ) (e : ProcessEntry f P) (m : Sim f P U)
            → get_elem? m.state.processes id ≡ some (some e)
            → Holds total m
            → Ensures (Holds total) (poll_entry f P debug program id e m)
        unfolding poll_entry
        poll_entry-Holds id e m there h = go (fails f P out.calls) refl
          where
            taken : SimState f P
            taken = record (m.state) { processes = set m.state.processes id none }

            out : Outcome f P U
            out = program taken.current_time e.waker m.shared e.future

            ended :
                (s : SimState f P)
                → Called f P children v
                    (λ a. if id == a then 1 else 0)
                    (in_left f P children out.left)
                    (holding f P v taken + in_calls f P v out.calls)
                    taken
                    s
                → count out.shared + in_calls f P v out.calls + in_left f P v out.left
                  ≡ count m.shared + v e.future
                → Holds total (record {
                  state =
                      drain_pending_spawns f P (put_back f P debug program id e.waker out.left s);
                  shared = out.shared;
                })
            ended s c kept =
                let gone : length s.processes ≡ length m.state.processes =
                  ap length c.same ∙ length-set m.state.processes id none in
                let free : occupied f P id s.processes ≡ 0 = ground (
                  arith,
                  ap (occupied f P id) c.same,
                  occupied-set f P m.state.processes id id none
                      (slot-long m.state.processes id (some e) there),
                ) in
                let (rest, held) =
                  put_back-IsAtRest id e.waker out.left s
                    (omega (arith, gone, slot-long m.state.processes id (some e) there)) free
                    c.allotted in
                let (rest', held') =
                  drain-IsAtRest (put_back f P debug program id e.waker out.left s) rest in
                (
                  rest',
                  omega (
                    arith,
                    held',
                    held,
                    c.holds,
                    kept,
                    h.1,
                    in_table-take f P v m.state.processes id e there,
                  ),
                )

            Done : SimState f P → Type 0
            Done s =
                Called f P children v (λ a. if id == a then 1 else 0)
                  (in_left f P children out.left) (holding f P v taken + in_calls f P v out.calls)
                  taken s

            go :
                (b : Bool)
                → fails f P out.calls ≡ b
                → Ensures (Holds total) (do
                  s ← perform_all f P debug out.calls taken
                  ok (record {
                    state =
                        drain_pending_spawns f P (put_back f P debug program id e.waker out.left s);
                    shared = out.shared;
                  }))
            go true dies =
                Ensures-bind (λ s. ⊥) (Holds total) (perform_all f P debug out.calls taken) _
                  (perform_all-fails f P debug out.calls taken dies) (λ s h. elim h [ ])
            go false lives =
                Ensures-bind Done (Holds total) (perform_all f P debug out.calls taken) _
                  (perform_all-Called f P children v (λ a. if id == a then 1 else 0) debug out.calls
                    taken (in_left f P children out.left)
                    (less-to-come f P children v (λ a. if id == a then 1 else 0) _ _ taken
                      (breeds taken.current_time e.waker m.shared e.future)
                      (taken-IsAllotted id e m.state there h.0)))
                  (λ s c. ended s c (conserves taken.current_time e.waker m.shared e.future lives))
