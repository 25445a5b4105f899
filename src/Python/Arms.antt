-- ===== src/Python/Arms.antt =====
-- simcore-python/src/lib.rs: the arms of a race or a join.
pub mod Laws
use sim_core.Base.{ℕ, suc, Bool, true, false, List, [], ◌∷◌, Option, none, some, if◌then◌else◌}
use sim_core.Float.{Float}
use sim_core.Python.Objects.{
  PyErr, PyResult, ok, err, type_error, value_error, Object, Request, classify, is_supported_arm,
}

infixl 5 ◌>>=◌
abbrev pub ◌>>=◌ {ℓ κ} :
    {E : Type 0} {A : Type ℓ} {B : Type κ} → PyResult E A → (A → PyResult E B) → PyResult E B
ok a >>= g = g a
err e >>= g = err e

module _ (f : Float) (E : Type 0) where
  -- The arms of `any_of` and `all_of`, or a `TypeError`.
  unfoldable pub collect_arms : List (Object f E) → PyResult E (List (Object f E))
  collect_arms [] = ok []
  collect_arms (o ∷ os) =
      if is_supported_arm f E o then (do v ← collect_arms os; ok (o ∷ v)) else err type_error

  abbrev pub some_arms : List (Object f E) → PyResult E (List (Object f E))
  some_arms [] = err value_error
  some_arms (o ∷ os) = ok (o ∷ os)

  -- `Simulation::any_of` and `Simulation::all_of`: the arms of the new request object, which has no
  -- winner yet.
  unfoldable pub any_of : List (Object f E) → PyResult E (List (Object f E))
  any_of os = collect_arms os >>= some_arms

  unfoldable pub all_of : List (Object f E) → PyResult E (List (Object f E))
  all_of os = collect_arms os

  -- The kernel future of one arm, named by the request that it is for.
  unfoldable pub translate_arm : Object f E → PyResult E (Request f E)
  translate_arm (Object.timeout t) = ok (Request.timeout t)
  translate_arm (Object.acquire a r) = ok (Request.acquire a r)
  translate_arm (Object.priority_acquire a r p) = ok (Request.priority_acquire a r p)
  translate_arm (Object.preempt_acquire a r p) = ok (Request.preempt_acquire a r p)
  translate_arm (Object.container_get c x) = ok (Request.container_get c x)
  translate_arm (Object.container_put c x) = ok (Request.container_put c x)
  translate_arm (Object.event e) = ok (Request.event e)
  translate_arm (Object.preemption_signal s) = ok (Request.event s)
  translate_arm _ = err type_error

  unfoldable pub build_arms : List (Object f E) → PyResult E (List (Request f E))
  build_arms [] = ok []
  build_arms (o ∷ os) = do r ← translate_arm o; rs ← build_arms os; ok (r ∷ rs)

-- The wrapper round an arm's future: it records its index as the winner's if there is none yet.
-- `poll_child` polls an arm's own future.
module _ {ℓ κ} {F : Type ℓ} {W : Type κ} (poll_child : F → W → Bool × (F × W)) where
  abbrev pub keep_winner : ℕ → Option ℕ → Option ℕ
  keep_winner i none = some i
  keep_winner i (some j) = some j

  abbrev pub finished : ℕ → Option ℕ → Bool × (F × W) → Bool × ((ℕ × F) × (W × Option ℕ))
  finished i winner (true, (fut, w)) = (true, ((i, fut), (w, keep_winner i winner)))
  finished i winner (false, (fut, w)) = (false, ((i, fut), (w, winner)))

  unfoldable pub poll_arm : ℕ × F → W × Option ℕ → Bool × ((ℕ × F) × (W × Option ℕ))
  poll_arm (i, fut) (w, winner) = finished i winner (poll_child fut w)

-- `iter().enumerate()` from `i` on.
unfoldable pub enumerate {ℓ} : {F : Type ℓ} → ℕ → List F → List (ℕ × F)
enumerate i [] = []
enumerate i (fut ∷ futs) = (i, fut) ∷ enumerate (suc i) futs
