-- ===== src/Executor/State.antt =====
-- src/executor/queue.rs and src/executor/mod.rs. `P` stands for the futures of the processes: the
-- code of a process is not the executor's.
use sim_core.Base.{
  ℕ, ◌≢◌, ◌≡◌, Ordering, Bool, not, ◌&&◌, List, [], Option, none, some, wrap_suc, if◌then◌else◌,
}
use sim_core.Base.Order.{lex_cmp, swap, lex_flip, lex_ge_trans}
use sim_core.Heap.{HeapOrd, push}
use sim_core.Float.{Float}
use sim_core.Executor.Waker.{SimWaker}

module _ (f : Float) where
  open f use {F, le, is_finite}

  pub record ScheduledWaker : Type 0 where
    pub time : F
    pub seq : ℕ
    pub waker : SimWaker

  -- `Reverse` swaps the operands of `time.total_cmp(..).then(seq.cmp(..))`.
  abbrev pub event_cmp : ScheduledWaker → ScheduledWaker → Ordering
  event_cmp a b = lex_cmp ⦃o = f.order⦄ b.time b.seq a.time a.seq

  pub event_flip : (a b : ScheduledWaker) → event_cmp b a ≡ swap (event_cmp a b)
  event_flip a b = lex_flip ⦃o = f.order⦄ b.time b.seq a.time a.seq

  pub event_ge_trans :
      (a b c : ScheduledWaker)
      → event_cmp a b ≢ Ordering.lt
      → event_cmp b c ≢ Ordering.lt
      → event_cmp a c ≢ Ordering.lt
  event_ge_trans a b c h g = lex_ge_trans ⦃o = f.order⦄ c.time c.seq b.time b.seq a.time a.seq g h

  instance abbrev pub event_ord : HeapOrd ScheduledWaker
  event_ord = record { cmp = event_cmp; flip = event_flip; ge_trans = event_ge_trans }

  pub record ProcessEntry (P : Type 0) : Type 0 where
    pub future : P
    pub waker : SimWaker

  pub record SimState (P : Type 0) : Type 0 where
    pub current_time : F
    pub event_queue : List ScheduledWaker
    pub seq_counter : ℕ
    pub ready_queue : List ℕ
    pub next_process_id : ℕ
    pub processes : List (Option (ProcessEntry P))
    pub pending_spawns : List (ℕ × P)

  module _ {P : Type 0} where
    unfoldable pub new : SimState P
    new = record {
      current_time = f.zero;
      event_queue = [];
      seq_counter = 0;
      ready_queue = [];
      next_process_id = 0;
      processes = [];
      pending_spawns = [];
    }

    -- The condition of the `debug_assert!`.
    abbrev pub in_future : F → SimState P → Bool
    in_future time s = is_finite time && le s.current_time time

    -- `debug`: whether the build has debug assertions; `none` is the panic of one that fails.
    unfoldable pub schedule_wakeup : Bool → F → SimWaker → SimState P → Option (SimState P)
    schedule_wakeup debug time waker s =
        if debug && not (in_future time s)
        then none
        else some (record s {
          seq_counter = wrap_suc s.seq_counter;
          event_queue =
              push ⦃o = event_ord⦄ (record { time = time; seq = s.seq_counter; waker = waker })
                s.event_queue;
        })

    unfoldable pub alloc_process_id : SimState P → ℕ × SimState P
    alloc_process_id s =
        (s.next_process_id, record s { next_process_id = wrap_suc s.next_process_id })
