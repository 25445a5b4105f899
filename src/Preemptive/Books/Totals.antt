-- ===== src/Preemptive/Books/Totals.antt =====
-- src/resource/preemptive.rs: the units and the holders of a preemptive pool after any operations.
use sim_core.Base.{
  All, ℕ, ◌+◌, ◌≤◌, ◌<◌, ◌≡◌, refl, ap, sym, subst, Bool, true, false, List, [], Option, none, some,
  arith, length, total-zero, if◌then◌else◌, ◌==◌, u64_mod,
}
use sim_core.Base.Order.{nat_ord}
use sim_core.WaitQueue.{
  WaitQueue, World, Entry, is_granted, release, settle, hand_off, register, try_acquire,
  set_canceled, set_granted,
}
use sim_core.Request.Invariant.{owed}
use sim_core.Preemptive.{PreemptiveState, Signal, new, PreemptiveGuard}
use sim_core.Preemptive.Pool.{Op, run, start}
use sim_core.Preemptive.Books.Holders.{holds}
use sim_core.Preemptive.Books.Units.{handed, Books}
use sim_core.Preemptive.Books.Runs.{run-Books}

-- What a pool is made of, where one is made.
abbrev Fresh : ℕ → Option PreemptiveState → Type 0
Fresh capacity none = Unit
Fresh capacity (some state) =
    (state.wq.capacity ≡ capacity)
    × (state.wq.in_use ≡ 0)
    × (state.holders ≡ [])
    × (state.next_holder_id ≡ 0)

new-Fresh : (capacity : ℕ) → Fresh capacity (new capacity)
unfolding new sim_core.WaitQueue.new
new-Fresh capacity = go (capacity == 0)
  where
    go :
        (b : Bool)
        → Fresh capacity (
            if b
            then none
            else some
                (record { wq = sim_core.WaitQueue.new capacity; holders = []; next_holder_id = 0 }))
    go true = tt
    go false = (refl, refl, refl, refl)

start-Books :
    (n capacity : ℕ) (w : World) (filler : Signal) (state : PreemptiveState)
    → capacity < u64_mod
    → n < u64_mod
    → Fresh capacity (some state)
    → Books capacity n (start state w filler)
start-Books n capacity w filler state size room (c, u, h, i) = record {
  room = omega (arith, room);
  held = record {
    synced = i;
    numbered = subst (All _) (sym h) tt;
    own = λ a g e. cc;
    backed = λ a g e. cc;
  };
  size = (c, size);
  bounded = omega (arith, u);
  covered = omega (
    arith,
    ap length h,
    total-zero w.flags.next (λ a. owed {K = ℕ} none (w.flags.cell a)) (λ a. refl),
  );
  own = λ a r e. cc;
  unused = λ a le. refl;
}

-- A pool of `capacity` units that fewer than 2^64 operations are run on.
module _ (capacity : ℕ) (state : PreemptiveState) (made : new capacity ≡ some state)
    (size : capacity < u64_mod) (w : World) (filler : Signal) (ops : List Op)
    (few : length ops < u64_mod) where
  reached : Books capacity 0 (run ops (start state w filler))
  reached = run-Books capacity ops (start state w filler) (
      start-Books (length ops) capacity w filler state size few
        (subst (Fresh capacity) made (new-Fresh capacity)))

  -- Whatever fewer than 2^64 requests, polls and drops are run on a new preemptive pool of less than
  -- 2^64 units: its capacity is still the one it was made with, `in_use` is within it, and each
  -- holder and each request that was handed a unit and has not made a holder of it yet has a unit in
  -- use of its own.
  pub run-Covered :
      let s = run ops (start state w filler) in
      (s.scene.state.wq.capacity ≡ capacity)
      × (s.scene.state.wq.in_use ≤ capacity)
      × (length s.scene.state.holders + handed s ≤ s.scene.state.wq.in_use)
  run-Covered = (reached.size.0, omega (arith, reached.size, reached.bounded), reached.covered)

  -- Whatever fewer than 2^64 requests, polls and drops are run on a new preemptive pool of less than
  -- 2^64 units: each guard that has not been dropped carries its own id, and while it is not marked
  -- as preempted it still has its entry among the holders.
  pub run-Backed :
      (a : ℕ) (g : PreemptiveGuard)
      → let s = run ops (start state w filler) in
        s.guards a ≡ some g
        → (s.scene.signals.cell a).preempted ≡ false
        → (g.id ≡ a) × (g.signal ≡ a) × (0 < holds g.id s.scene.state.holders)
  run-Backed a g e kept =
      let own = reached.held.own a g e in
      (
        own.0,
        own.1,
        subst (λ b. 0 < holds b (run ops (start state w filler)).scene.state.holders) (sym own.0)
            (reached.held.backed a g e kept),
      )
