-- ===== src/Python/Checks/Laws.antt =====
-- simcore-python/src/lib.rs: the binding's checks against the assertions of the kernel.
use sim_core.Base.{ℕ, ◌≡◌, ◌≢◌, true, Option, none, arith}
use sim_core.Float.{Float, IsIeee}
use sim_core.Container.{ContainerState, World}
use sim_core.Container.Requests.{make_request}
use sim_core.Python.Objects.{PyResult, ok, err, value_error, Object}
use sim_core.Python.Checks.{check_amount, get, put}

module _ (f : Float) (E : Type 0) where
  open f use {F, le, lt, is_finite}

  -- `kernel` is what the kernel would make of the same request.
  abbrev pub Agrees {ℓ} : {K : Type ℓ} → Object f E → Option K → PyResult E (Object f E) → Type ℓ
  Agrees request kernel (ok o) = (o ≡ request) × (kernel ≢ none)
  Agrees request kernel (err e) = (e ≡ value_error) × (kernel ≡ none)

  -- Of a container of finite capacity, `get` and `put` raise a `ValueError` exactly where the
  -- kernel would panic on the amount, whatever its level, queues and world.
  pub get-Agrees :
      (ieee : IsIeee f) (container : ℕ) (amount : F) (s : ContainerState f) (w : World)
      → is_finite s.capacity ≡ true
      → let kernel = make_request f amount s w in
        Agrees (Object.container_get container amount) kernel (get f E container amount s)
        × Agrees (Object.container_put container amount) kernel (put f E container amount s)
  unfolding get put check_amount make_request
  get-Agrees ieee container amount s w number = ground (
    arith,
    ieee.le_of_not_lt s.capacity amount,
    ieee.not_le_of_lt s.capacity amount,
    ieee.le_of_lt f.zero amount,
    ieee.finite_below amount s.capacity,
  )
