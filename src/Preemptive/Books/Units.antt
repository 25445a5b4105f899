-- ===== src/Preemptive/Books/Units.antt =====
-- src/resource/preemptive.rs: the units of a pool in use against its holders and its requests.
use sim_core.Base.{
  ℕ, ◌+◌, ◌≤◌, ◌<◌, ◌≡◌, refl, List, Option, none, some, arith, length, total, total-le-suc,
  u64_mod,
}
use sim_core.Base.Order.{nat_ord}
use sim_core.WaitQueue.{WaitQueue, World, Entry, release, settle, set_granted}
use sim_core.WaitQueue.Serving.{Served, nobody, served, hand_off-Served}
use sim_core.Request.{Request}
use sim_core.Request.Invariant.{owed}
use sim_core.Preemptive.Pool.{PreemptivePool}
use sim_core.Preemptive.Books.Holders.{Held}

-- The units handed to requests that have not made holders of them yet.
abbrev pub handed_in : (ℕ → Option (Request ℕ)) → World → ℕ
handed_in rs w = total w.flags.next (λ a. owed (rs a) (w.flags.cell a))

abbrev pub handed : PreemptivePool → ℕ
handed s = handed_in s.requests s.scene.world

-- The books of a pool of which `n` more steps are to be taken: every id so far is a new one.
pub record Books (c n : ℕ) (s : PreemptivePool) : Type 0 where
  pub room : s.scene.signals.next + n < u64_mod
  pub held : Held s.scene s.guards
  pub size : (s.scene.state.wq.capacity ≡ c) × (c < u64_mod)
  pub bounded : s.scene.state.wq.in_use ≤ s.scene.state.wq.capacity
  pub covered : length s.scene.state.holders + handed s ≤ s.scene.state.wq.in_use
  pub own : (a : ℕ) (r : Request ℕ) → s.requests a ≡ some r → r.flags ≡ a
  pub unused : (a : ℕ) → s.scene.world.flags.next ≤ a → s.requests a ≡ none

-- A unit that `x` holders and the handed ones do not need is released.
pub record Released (rs : ℕ → Option (Request ℕ)) (x : ℕ) (q : WaitQueue ℕ) (w : World)
    (r : WaitQueue ℕ × World) : Type 0 where
  pub covered : x + handed_in rs r.1 ≤ r.0.in_use
  pub bounded : r.0.in_use ≤ q.capacity
  pub capacity : r.0.capacity ≡ q.capacity
  pub next : r.1.flags.next ≡ w.flags.next

settle-Released :
    (rs : ℕ → Option (Request ℕ)) (x : ℕ) (q : WaitQueue ℕ) (w : World)
    {o : Option (List (Entry ℕ) × World)}
    → q.capacity < u64_mod
    → q.in_use ≤ q.capacity
    → x + handed_in rs w + 1 ≤ q.in_use
    → Served w q.waiters o
    → Released rs x q w (settle q w o)
settle-Released rs x q w size bounded spare (nobody h) = record {
  covered = omega arith;
  bounded = omega arith;
  capacity = refl;
  next = refl;
}
settle-Released rs x q w size bounded spare (served e rest live le eq) = record {
  covered = omega (
    arith,
    spare,
    total-le-suc w.flags.next e.flags (λ a. owed (rs a) ((set_granted e.flags w).flags.cell a))
        (λ a. owed (rs a) (w.flags.cell a)) (λ j ne. ground arith) (ground arith),
  );
  bounded = bounded;
  capacity = refl;
  next = refl;
}

pub release-Released :
    (rs : ℕ → Option (Request ℕ)) (x : ℕ) (q : WaitQueue ℕ) (w : World)
    → q.capacity < u64_mod
    → q.in_use ≤ q.capacity
    → x + handed_in rs w + 1 ≤ q.in_use
    → Released rs x q w (release q w)
unfolding release
release-Released rs x q w size bounded spare =
    settle-Released rs x q w size bounded spare (hand_off-Served w q.waiters)
