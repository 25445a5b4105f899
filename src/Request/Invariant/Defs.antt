-- ===== src/Request/Invariant/Defs.antt =====
-- src/resource/mod.rs and src/resource/priority.rs: what links a pool's books to its requests,
-- their cells and the queue.
use sim_core.Base.{
  ℕ, ◌+◌, ◌<◌, ◌≤◌, ◌≡◌, Bool, true, false, not, ◌&&◌, Option, none, some, total, total-change, ◌≢◌,
  arith, u64_mod, if◌then◌else◌,
}
use sim_core.WaitQueue.{Flags, is_canceled, is_granted}
use sim_core.WaitQueue.Serving.{occurs}
use sim_core.Request.{Request, Pool}

-- The units that a request has been handed and has not yet made a guard of.
abbrev pub owed {ℓ} : {K : Type ℓ} → Option (Request K) → Flags → ℕ
owed none f = 0
owed (some r) f = if r.consumed then 0 else (if f.granted then 1 else 0)

abbrev pub owes {ℓ} : {K : Type ℓ} → Pool K → ℕ → ℕ
owes s a = owed (s.requests a) (s.world.flags.cell a)

abbrev pub is_waiting {ℓ} : {K : Type ℓ} → Option (Request K) → Bool
is_waiting none = false
is_waiting (some r) = r.registered && not r.consumed

-- The units handed out and not yet turned into guards.
abbrev pub handed {ℓ} : {K : Type ℓ} → Pool K → ℕ
handed s = total s.world.flags.next (owes s)

abbrev pub entries {ℓ} : {K : Type ℓ} → Pool K → ℕ → ℕ
entries s a = occurs a s.queue.waiters

-- With `extra` units that nobody holds and that are about to be released.
pub record Inv {ℓ} {K : Type ℓ} (extra : ℕ) (s : Pool K) : Type ℓ where
  pub size : s.queue.capacity < u64_mod
  pub bounded : s.queue.in_use ≤ s.queue.capacity
  pub counted : s.queue.in_use ≡ s.guards + handed s + extra
  pub unused : (a : ℕ) → s.world.flags.next ≤ a → s.requests a ≡ none
  pub unqueued : (a : ℕ) → s.world.flags.next ≤ a → entries s a ≡ 0
  pub once : (a : ℕ) → entries s a ≤ 1
  pub full :
      (a : ℕ) → 0 < entries s a → is_canceled s.world a ≡ false → s.queue.in_use ≡ s.queue.capacity
  pub backed :
      (a : ℕ)
      → 0 < entries s a
      → is_canceled s.world a ≡ false
      → (is_granted s.world a ≡ false) × (is_waiting (s.requests a) ≡ true)
  pub own : (a : ℕ) (r : Request K) → s.requests a ≡ some r → r.flags ≡ a
  pub live : (a : ℕ) (r : Request K) → s.requests a ≡ some r → is_canceled s.world a ≡ false
  pub unseen :
      (a : ℕ) (r : Request K)
      → s.requests a ≡ some r
      → r.registered ≡ false
      → (is_granted s.world a ≡ false) × (entries s a ≡ 0)
  pub parked :
      (a : ℕ) (r : Request K)
      → s.requests a ≡ some r
      → r.registered ≡ true
      → r.consumed ≡ false
      → is_granted s.world a ≡ false
      → entries s a ≡ 1

module _ {ℓ} {K : Type ℓ} where
  pub allocated :
      (s : Pool K) {n : ℕ}
      → Inv n s
      → (a : ℕ) (r : Request K) → s.requests a ≡ some r
      → a < s.world.flags.next
  allocated s inv a r e = ground (arith, inv.unused a)

  -- The sum over the requests when only the one at `a` changes.
  pub handed_change :
      (s : Pool K) {n : ℕ} (inv : Inv n s) (a : ℕ) (r : Request K)
      → s.requests a ≡ some r
      → (t : Pool K) → t.world.flags.next ≡ s.world.flags.next
      → ((b : ℕ) → a ≢ b → owes t b ≡ owes s b)
      → handed t + owes s a ≡ handed s + owes t a
  handed_change s inv a r e t same rest =
      rw same (total-change s.world.flags.next a (owes t) (owes s) (allocated s inv a r e) rest)
