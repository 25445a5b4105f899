-- ===== src/Compare/Queue/Tended/Begins.antt =====
-- examples/compare.rs: the start of a simulated queue.
use sim_core.Base.{
  ℕ, zero, suc, ◌+◌, ◌<◌, ◌≤◌, ◌≡◌, refl, sym, ap, ◌∙◌, subst, [], Option, none, some, arith, total,
  total-zero, total-suc, total-eq, u64_mod,
}
use sim_core.Float.{Float}
use sim_core.Executor.Waker.{make_waker}
use sim_core.Executor.State
use sim_core.Executor.State.{alloc_process_id, SimState, ScheduledWaker, ProcessEntry}
use sim_core.Env.{drain_pending_spawns, admit_all, spawn}
use sim_core.WaitQueue
use sim_core.WaitQueue.{WaitQueue, is_granted}
use sim_core.Request
use sim_core.Request.{Request, new_pool}
use sim_core.Request.Invariant.{new_pool-Inv}
use sim_core.Compare.Queue.{Process, arrives, begin}
use sim_core.Compare.Queue.Books.{Role, idle, asks, guards-Inv, held, quiet}
use sim_core.Compare.Queue.Tended.{slot, role_at, coming_at, Source, Tended}

first-coming : (n : ℕ) (w : ℕ → ℕ) → w 0 ≡ n → total 1 w ≡ n
first-coming n w e = omega (
  arith,
  e,
  total-suc 0 w,
  total-eq 0 w (λ i. 0) (λ i lt. absurd (omega arith)),
  total-zero 0 (λ i. 0) (λ i. refl),
)

module _ (f : Float) {K : Type 0} where
  -- The one process of the start.
  abbrev first : ℕ → ℕ → Option (ProcessEntry f (Process f K))
  first n zero = some (record { future = arrives n none; waker = make_waker 0 })
  first n (suc x) = none

  first-idle : (n x : ℕ) → role_at f K (first n x) ≡ idle
  first-idle n zero = refl
  first-idle n (suc x) = refl

  begin-slot :
      (seed n capacity x : ℕ)
      → let s = begin f K seed n (WaitQueue.new capacity) in
        slot f K (record s { state = drain_pending_spawns f (Process f K) s.state }) x ≡ first n x
  unfolding begin spawn State.new alloc_process_id drain_pending_spawns admit_all
  begin-slot seed n capacity zero = refl
  begin-slot seed n capacity (suc x) = refl

  entry-inj : (a b : ProcessEntry f (Process f K)) → some a ≡ some b → a ≡ b
  entry-inj a b e = cc e

  first-none : (n x : ℕ) → 1 ≤ x → first n x ≡ none
  first-none n zero le = absurd (omega arith)
  first-none n (suc x) le = refl

  not-asking : (role : Role K) (r : Request K) → role ≡ idle → role ≡ asks r → ⊥
  not-asking role r h g = cc

  first-Source :
      (seed n capacity x : ℕ) (e : ProcessEntry f (Process f K))
      → first n x ≡ some e
      → let s = begin f K seed n (WaitQueue.new capacity) in
        (e.waker ≡ make_waker x)
        × Source f K []
            (record s { state = drain_pending_spawns f (Process f K) s.state })
            x
            e.future
  unfolding begin spawn State.new alloc_process_id drain_pending_spawns
  first-Source seed n capacity zero e at =
      let s = begin f K seed n (WaitQueue.new capacity) in
      subst
        (λ e'.
          (e'.waker ≡ make_waker 0)
          × Source f K [] (record s { state = drain_pending_spawns f (Process f K) s.state }) 0
              e'.future)
        (entry-inj (record { future = arrives n none; waker = make_waker 0 }) e at)
        (refl, omega arith)
  first-Source seed n capacity (suc x) e at = absurd cc

  pub begin-Tended :
      (seed n capacity : ℕ)
      → 0 < capacity
      → capacity < u64_mod
      → n + 1 < u64_mod
      → let s = begin f K seed n (WaitQueue.new capacity) in
        Tended f K [] (record s { state = drain_pending_spawns f (Process f K) s.state })
  unfolding begin spawn State.new alloc_process_id drain_pending_spawns WaitQueue.new new_pool
  begin-Tended seed n capacity some_capacity small few =
      let slots = begin-slot seed n capacity in
      let idle_all : (x : ℕ)
          → role_at f K (
              slot f K
                (record (begin f K seed n (WaitQueue.new capacity)) {
                  state =
                      drain_pending_spawns f (Process f K)
                        (begin f K seed n (WaitQueue.new capacity)).state;
                })
                x)
            ≡ idle =
        λ x. ap (role_at f K) (slots x) ∙ first-idle n x in
      record {
        settled = refl;
        booked = record {
          requests = λ a. none;
          pool =
              guards-Inv K 0
                (new_pool capacity (quiet K (record { next = 0; cell = λ a. Request.fresh_flags })))
                _ (sym (total-zero 1 _ (λ x. ap (held K) (idle_all x))))
                (new_pool-Inv capacity _ small);
          roomy = some_capacity;
          beyond = λ x le. idle_all x;
          known = λ a r e. absurd cc;
          asked = λ x r e. absurd (not-asking _ r (idle_all x) e);
          single = λ i j r r' e g same. absurd (not-asking _ r (idle_all i) e);
          owned = tt;
        };
        room = omega (
          arith,
          first-coming n
              (λ x. coming_at f K (
                slot f K
                  (record (begin f K seed n (WaitQueue.new capacity)) {
                    state =
                        drain_pending_spawns f (Process f K)
                          (begin f K seed n (WaitQueue.new capacity)).state;
                  })
                  x))
              (ap (coming_at f K) (slots 0)),
        );
        fresh = λ x le. slots x ∙ first-none n x le;
        sources = λ x e at. first-Source seed n capacity x e (sym (slots x) ∙ at);
      }
