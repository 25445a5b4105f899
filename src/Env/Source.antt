-- ===== src/Env/Source.antt =====
-- src/env.rs, src/rng.rs: an environment with its random source, which handles and guards share.
use sim_core.Base.{ℕ, Bool, true, false, List, Option, none, some, if◌then◌else◌, ◌≡◌, refl}
use sim_core.Float.{Float}
use sim_core.Executor.State.{SimState}
use sim_core.Executor.State
use sim_core.Rng
use sim_core.Rng.{SplitMix64}

-- `reseed` is none where the source panics on it, as one without an implementation of it does.
pub record RandomSource : Type 1 where
  pub S : Type 0
  pub next_u64 : S → ℕ × S
  pub next_u32 : S → ℕ × S
  pub fill_bytes : ℕ → S → List ℕ × S
  pub reseed : ℕ → S → Option S

abbrev pub splitmix64 : RandomSource
splitmix64 = record {
  S = SplitMix64;
  next_u64 = Rng.next_u64;
  next_u32 = Rng.next_u32;
  fill_bytes = Rng.fill_bytes;
  reseed = λ seed r. some (Rng.reseed seed r);
}

module _ (f : Float) (P : Type 0) (src : RandomSource) where
  open src use {S, next_u64, next_u32, fill_bytes, reseed}

  -- `borrowed`: an `RngGuard` holds the mutable borrow of the source.
  pub record SimEnv : Type 0 where
    pub state : SimState f P
    pub rng : S
    pub borrowed : Bool

  unfoldable pub with_source : S → SimEnv
  with_source s = record { state = State.new f; rng = s; borrowed = false }

  abbrev pub with_rng : SimEnv → Option S → Option SimEnv
  with_rng env none = none
  with_rng env (some s) = some (record env { rng = s })

  -- `none` is a panic: of `borrow_mut` on a source that is borrowed, or of `reseed`.
  unfoldable pub set_seed : ℕ → SimEnv → Option SimEnv
  set_seed seed env = if env.borrowed then none else with_rng env (reseed seed env.rng)

  -- `EnvHandle::rng` makes a guard, and a guard's drop ends the borrow.
  unfoldable pub rng : SimEnv → Option SimEnv
  rng env = if env.borrowed then none else some (record env { borrowed = true })

  unfoldable pub drop_guard : SimEnv → SimEnv
  drop_guard env = record env { borrowed = false }

  abbrev pub drawn {ℓ} : {A : Type ℓ} → SimEnv → A × S → A × SimEnv
  drawn env (a, s) = (a, record env { rng = s })

  unfoldable pub guard_next_u32 : SimEnv → ℕ × SimEnv
  guard_next_u32 env = drawn env (next_u32 env.rng)

  unfoldable pub guard_next_u64 : SimEnv → ℕ × SimEnv
  guard_next_u64 env = drawn env (next_u64 env.rng)

  unfoldable pub guard_fill_bytes : ℕ → SimEnv → List ℕ × SimEnv
  guard_fill_bytes len env = drawn env (fill_bytes len env.rng)

-- On a source that nobody has borrowed, reseeding succeeds, and the guard taken next starts on the
-- outputs of the seed, whatever was drawn before. While it is there a second guard or a reseeding
-- panics, and after its drop the source can be borrowed again.
set_seed-restarts :
    (f : Float) (P : Type 0) (seed : ℕ) (env : SimEnv f P splitmix64)
    → env.borrowed ≡ false
    → (fresh : SimEnv f P splitmix64) × (guarded : SimEnv f P splitmix64) × (set_seed f P splitmix64
          seed env
        ≡ some fresh)
      × (rng f P splitmix64 fresh ≡ some guarded)
      × ((guard_next_u64 f P splitmix64 guarded).0 ≡ (Rng.next_u64 (Rng.new seed)).0)
      × (rng f P splitmix64 guarded ≡ none)
      × (set_seed f P splitmix64 seed guarded ≡ none)
      × (rng f P splitmix64 (drop_guard f P splitmix64 guarded) ≡ some guarded)
unfolding Rng.new Rng.reseed set_seed rng Rng.next_u64 guard_next_u64 drop_guard
set_seed-restarts f P seed env free = (
  record env { rng = Rng.new seed },
  record env { rng = Rng.new seed; borrowed = true },
  rw free refl,
  rw free refl,
  refl,
  refl,
  refl,
  refl,
)
