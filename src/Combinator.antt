-- ===== src/Combinator.antt =====
-- src/combinator.rs: the races and joins of futures.
-- A child is any future: what polling it with the task's waker does to it and to the world is a
-- parameter.
pub mod Laws
use sim_core.Base.{Bool, true, false, List, [], ◌∷◌, Option, none, some}

abbrev pub is_empty {ℓ} : {F : Type ℓ} → List F → Bool
is_empty [] = true
is_empty (f ∷ fs) = false

module _ {ℓ κ} {F : Type ℓ} {W : Type κ} where
  -- The first future has been polled; the others are, unless it is ready.
  abbrev pub race : List F → (W → Bool × (List F × W)) → Bool × (F × W) → Bool × (List F × W)
  race fs others (true, (f, w)) = (true, (f ∷ fs, w))
  race fs others (false, (f, w)) = let (b, (fs', w')) = others w in (b, (f ∷ fs', w'))

  -- The first future has been polled, and stays if it is pending.
  abbrev pub kept : (W → List F × W) → Bool × (F × W) → List F × W
  kept others (true, (f, w)) = others w
  kept others (false, (f, w)) = let (fs', w') = others w in (f ∷ fs', w')

module _ {ℓ κ} {F : Type ℓ} {W : Type κ} (poll_child : F → W → Bool × (F × W)) where
  -- Whether some future is ready, and the futures and the world after it.
  unfoldable pub any_poll : List F → W → Bool × (List F × W)
  any_poll [] w = (false, ([], w))
  any_poll (f ∷ fs) w = race fs (any_poll fs) (poll_child f w)

  -- `retain_mut`
  unfoldable pub retain : List F → W → List F × W
  retain [] w = ([], w)
  retain (f ∷ fs) w = kept (retain fs) (poll_child f w)

  unfoldable pub all_poll : List F → W → Bool × (List F × W)
  all_poll fs w = let (fs', w') = retain fs w in (is_empty fs', (fs', w'))

-- `none` is the panic on an empty list.
unfoldable pub any_of {ℓ} : {F : Type ℓ} → List F → Option (List F)
any_of [] = none
any_of (f ∷ fs) = some (f ∷ fs)

unfoldable pub all_of {ℓ} : {F : Type ℓ} → List F → List F
all_of fs = fs
