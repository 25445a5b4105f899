-- ===== src/Env/Payment.antt =====
-- src/env.rs: the end of a batch, and of all batches up to the next event, over processes whose polls
-- pay for what they ask for.
use sim_core.Base.{
  ℕ, zero, suc, ◌+◌, ◌≤◌, ◌<◌, ◌≡◌, refl, Bool, List, [], ◌∷◌, Option, none, some, arith, ap,
  length, get_elem?, set,
}
use sim_core.Float.{Float}
use sim_core.Executor.Waker.{SimWaker}
use sim_core.Executor.State.{SimState, ProcessEntry}
use sim_core.Env.{
  ok, ◌>>=◌, Program, Sim, perform_all, put_back, poll_entry, poll_slot, poll_batch, take_ready,
  poll_ready, settle,
}
use sim_core.Env.Weight.{
  Within, Within-bind, Within-mono, costs, size_left, weight, table-take, table-set, drain-le,
  perform_all-Within,
}

module _ (f : Float) (P : Type 0) (size : P → ℕ) {U : Type 0} (debug : Bool)
    (program : Program f P U) where
  -- Each poll pays, with the size that the process loses, for the events, the wakes and the
  -- processes that it asks for.
  abbrev pub Pays : Type 0
  Pays =
      (now : f.F) (waker : SimWaker) (u : U) (p : P)
      → let out = program now waker u p in
        costs f P size out.calls + size_left f P size out.left ≤ size p

  abbrev pub weight_of : Sim f P U → ℕ
  weight_of m = weight f P size m.state

  module _ (pays : Pays) where
    put_back-le :
        (id : ℕ) (w : SimWaker) (o : Option P) (s : SimState f P)
        → weight f P size (put_back f P debug program id w o s)
          ≤ weight f P size s + size_left f P size o
    put_back-le id w none s = omega arith
    put_back-le id w (some p) s =
        omega (arith, table-set f P size s.processes id (some (record { future = p; waker = w })))

    poll_entry-Within :
        (id : ℕ) (e : ProcessEntry f P) (m : Sim f P U)
        → get_elem? m.state.processes id ≡ some (some e)
        → Within weight_of (weight_of m) (poll_entry f P debug program id e m)
    unfolding poll_entry
    poll_entry-Within id e m there =
        let taken = record (m.state) { processes = set m.state.processes id none } in
        let out = program taken.current_time e.waker m.shared e.future in
        Within-bind (weight f P size) weight_of (weight f P size taken + costs f P size out.calls)
          (weight_of m) (perform_all f P debug out.calls taken) _
          (perform_all-Within f P size debug out.calls taken _ (omega arith))
          (λ s h. omega (
            arith,
            drain-le f P size (put_back f P debug program id e.waker out.left s),
            put_back-le id e.waker out.left s,
            table-take f P size m.state.processes id e there,
            pays taken.current_time e.waker m.shared e.future,
          ))

    poll_batch-Within :
        (batch : List ℕ) (m : Sim f P U)
        → Within weight_of (weight_of m) (poll_batch f P debug program batch m)
    unfolding poll_batch
    poll_batch-Within [] m = omega arith
    poll_batch-Within (id ∷ batch) m =
        Within-bind weight_of weight_of (weight_of m) (weight_of m) _
          (poll_batch f P debug program batch) (slot (get_elem? m.state.processes id) refl)
          (λ m' h. later m' h (poll_batch-Within batch m'))
      where
        slot :
            (o : Option (Option (ProcessEntry f P)))
            → get_elem? m.state.processes id ≡ o
            → Within weight_of (weight_of m) (poll_slot f P debug program id o m)
        slot none e = tt
        slot (some none) e = omega arith
        slot (some (some entry)) e = poll_entry-Within id entry m e

        later :
            (m' : Sim f P U)
            → weight_of m' ≤ weight_of m
            → Within weight_of (weight_of m') (poll_batch f P debug program batch m')
            → Within weight_of (weight_of m) (poll_batch f P debug program batch m')
        later m' h w = Within-mono weight_of _ _ _ h w

    poll_ready-Within :
        (fuel : ℕ) (m : Sim f P U)
        → weight_of m < fuel
        → Within weight_of (weight_of m) (poll_ready f P debug program fuel m)
    unfolding poll_ready
    poll_ready-Within zero m h = absurd (omega arith)
    poll_ready-Within (suc fuel) m h = go (m.state.ready_queue) refl (poll_ready-Within fuel)
      where
        go :
            (q : List ℕ)
            → m.state.ready_queue ≡ q
            → ((m' : Sim f P U)
                → weight_of m' < fuel
                → Within weight_of (weight_of m') (poll_ready f P debug program fuel m'))
            → Within weight_of (weight_of m) (elim q [
              | [] ↦ ok m
              | id ∷ batch ↦
                  poll_batch f P debug program (id ∷ batch) (take_ready f P debug program m)
                  >>= poll_ready f P debug program fuel
            ])
        go [] e later = omega arith
        go (id ∷ batch) e later =
            let busy : length m.state.ready_queue ≡ suc (length batch) = ap length e in
            Within-bind weight_of weight_of (weight_of (take_ready f P debug program m))
              (weight_of m) _ _ (poll_batch-Within (id ∷ batch) (take_ready f P debug program m))
              (λ m' h'. Within-mono weight_of _ _ _ (omega arith) (later m' (omega arith)))

    pub settle-Within :
        (fuel : ℕ) (m : Sim f P U)
        → weight_of m < fuel
        → Within weight_of (weight_of m) (settle f P debug program fuel m)
    unfolding settle
    settle-Within fuel m h =
        let less = drain-le f P size m.state in
        Within-mono weight_of _ _ _ (omega arith) (poll_ready-Within fuel _ (omega arith))
