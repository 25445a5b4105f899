-- ===== src/WaitQueue.antt =====
-- src/resource/wait_queue.rs: the waiters of a unit pool, served by direct handoff.
-- A waiter's two `Rc<Cell<bool>>` are made together by its request and are shared with it, so
-- one address into the store stands for both. `K` is the ordering key.
pub mod Serving
pub mod Order
pub mod Refinement
use sim_core.Base.{
  ℕ, ◌+◌, ◌≢◌, Ordering, Bool, true, false, not, List, [], ◌∷◌, Option, none, some, ltb, wrap_suc,
  wrap_pred, count, if◌then◌else◌, ◌≡◌,
}
use sim_core.Base.Store.{Store, write}
use sim_core.Base.Order.{Ord, lex_cmp, swap, lex_flip, lex_ge_trans}
use sim_core.Heap.{HeapOrd, push}
use sim_core.Executor.Waker.{SimWaker, wake_by_ref}

pub record Flags : Type 0 where
  pub canceled : Bool
  pub granted : Bool

-- The shared cells, and the ready queue that wakers push to.
pub record World : Type 0 where
  pub flags : Store Flags
  pub ready_queue : List ℕ

pub record Entry {ℓ} (K : Type ℓ) : Type ℓ where
  pub key : K
  pub seq : ℕ
  pub waker : SimWaker
  pub flags : ℕ

pub record WaitQueue {ℓ} (K : Type ℓ) : Type ℓ where
  pub capacity : ℕ
  pub in_use : ℕ
  pub next_seq : ℕ
  pub waiters : List (Entry K)

abbrev pub is_canceled : World → ℕ → Bool
is_canceled w a = (w.flags.cell a).canceled

abbrev pub is_granted : World → ℕ → Bool
is_granted w a = (w.flags.cell a).granted

abbrev pub set_canceled : ℕ → World → World
set_canceled a w = record w {
  flags = write a (record (w.flags.cell a) { canceled = true }) w.flags;
}

abbrev pub set_granted : ℕ → World → World
set_granted a w = record w { flags = write a (record (w.flags.cell a) { granted = true }) w.flags }

abbrev pub wake : SimWaker → World → World
wake v w = record w { ready_queue = wake_by_ref v w.ready_queue }

module _ {ℓ} {K : Type ℓ} ⦃o : Ord K⦄ where
  -- `other.key.cmp(&self.key).then(other.seq.cmp(&self.seq))`: the least key is the greatest entry.
  abbrev pub entry_cmp : Entry K → Entry K → Ordering
  entry_cmp a b = lex_cmp b.key b.seq a.key a.seq

  pub entry_flip : (a b : Entry K) → entry_cmp b a ≡ swap (entry_cmp a b)
  entry_flip a b = lex_flip b.key b.seq a.key a.seq

  pub entry_ge_trans :
      (a b c : Entry K)
      → entry_cmp a b ≢ Ordering.lt
      → entry_cmp b c ≢ Ordering.lt
      → entry_cmp a c ≢ Ordering.lt
  entry_ge_trans a b c h g = lex_ge_trans c.key c.seq b.key b.seq a.key a.seq g h

  instance abbrev pub entry_ord : HeapOrd (Entry K)
  entry_ord = record { cmp = entry_cmp; flip = entry_flip; ge_trans = entry_ge_trans }

  -- `in_use < capacity`, a `usize`: the increment does not wrap.
  unfoldable pub try_acquire : WaitQueue K → Bool × WaitQueue K
  try_acquire q =
      if ltb q.in_use q.capacity then (true, record q { in_use = q.in_use + 1 }) else (false, q)

  unfoldable pub register : K → SimWaker → ℕ → WaitQueue K → WaitQueue K
  register key waker flags q = record q {
    next_seq = wrap_suc q.next_seq;
    waiters = push (record { key = key; seq = q.next_seq; waker = waker; flags = flags }) q.waiters;
  }

module _ {ℓ} {K : Type ℓ} where
  unfoldable pub new : ℕ → WaitQueue K
  new capacity = record { capacity = capacity; in_use = 0; next_seq = 0; waiters = [] }

  unfoldable pub live_waiters : World → WaitQueue K → ℕ
  live_waiters w q = count (λ e. not (is_canceled w e.flags)) q.waiters

  -- The loop of `release`: the entries that are left after a handoff, with what it changed, or
  -- none when no live waiter was found.
  unfoldable pub hand_off : World → List (Entry K) → Option (List (Entry K) × World)
  hand_off w [] = none
  hand_off w (e ∷ es) =
      if is_canceled w e.flags
      then hand_off w es
      else some (es, wake e.waker (set_granted e.flags w))

  -- The unit is transferred and `in_use` stays as it is, or it truly frees.
  abbrev pub settle : WaitQueue K → World → Option (List (Entry K) × World) → WaitQueue K × World
  settle q w (some (es, w')) = (record q { waiters = es }, w')
  settle q w none = (record q { waiters = []; in_use = wrap_pred q.in_use }, w)

  unfoldable pub release : WaitQueue K → World → WaitQueue K × World
  release q w = settle q w (hand_off w q.waiters)
