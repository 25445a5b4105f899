-- ===== src/Python/Objects.antt =====
-- simcore-python/src/lib.rs: the objects that a process may yield, and what they ask for.
-- A request object's identity is an address; what never changes in it stands in its constructor,
-- and its guard, its winner and its arms stand on the heap.
use sim_core.Base.{ℕ, Bool, true, false}
use sim_core.Float.{Float}

-- The classes of exception that the binding raises; `raised` is one that user code raised.
pub data PyErr (E : Type 0) : Type 0 where
  value_error : PyErr E
  type_error : PyErr E
  runtime_error : PyErr E
  raised : E → PyErr E

pub data PyResult {ℓ} (E : Type 0) (A : Type ℓ) : Type ℓ where
  ok : A → PyResult E A
  err : PyErr E → PyResult E A

module _ (f : Float) (E : Type 0) where
  open f use {F}

  -- `generator`: it has `gi_frame`; `faulty`: looking that up raises.
  pub data Object : Type 0 where
    timeout : F → Object
    acquire : (self resource : ℕ) → Object
    priority_acquire : (self resource priority : ℕ) → Object
    preempt_acquire : (self resource priority : ℕ) → Object
    container_get : (container : ℕ) → F → Object
    container_put : (container : ℕ) → F → Object
    event : (awaitable : ℕ) → Object
    preemption_signal : (signal : ℕ) → Object
    any_of : (self : ℕ) → Object
    all_of : (self : ℕ) → Object
    generator : ℕ → Object
    other : ℕ → Object
    faulty : PyErr E → Object

  -- What a stepped coroutine yielded, classified.
  pub data Request : Type 0 where
    timeout : F → Request
    acquire : (self resource : ℕ) → Request
    priority_acquire : (self resource priority : ℕ) → Request
    container_get : (container : ℕ) → F → Request
    container_put : (container : ℕ) → F → Request
    event : ℕ → Request
    preempt_acquire : (self resource priority : ℕ) → Request
    any_of : (self : ℕ) → Request
    all_of : (self : ℕ) → Request
    subroutine : Object → Request

  -- A Python value: what is sent into a generator, and what it returns.
  pub data Value : Type 0 where
    none_value : Value
    index : ℕ → Value
    boolean : Bool → Value
    object : Object → Value
    opaque : ℕ → Value

  -- The chain of casts.
  unfoldable pub classify : Object → PyResult E Request
  classify (Object.timeout t) = ok (Request.timeout t)
  classify (Object.acquire a r) = ok (Request.acquire a r)
  classify (Object.priority_acquire a r p) = ok (Request.priority_acquire a r p)
  classify (Object.container_get c x) = ok (Request.container_get c x)
  classify (Object.container_put c x) = ok (Request.container_put c x)
  classify (Object.event e) = ok (Request.event e)
  classify (Object.preemption_signal s) = ok (Request.event s)
  classify (Object.preempt_acquire a r p) = ok (Request.preempt_acquire a r p)
  classify (Object.any_of a) = ok (Request.any_of a)
  classify (Object.all_of a) = ok (Request.all_of a)
  classify (Object.generator g) = ok (Request.subroutine (Object.generator g))
  classify (Object.other o) = err type_error
  classify (Object.faulty e) = err e

  unfoldable pub is_supported_arm : Object → Bool
  is_supported_arm (Object.any_of a) = false
  is_supported_arm (Object.all_of a) = false
  is_supported_arm (Object.generator g) = false
  is_supported_arm (Object.other o) = false
  is_supported_arm (Object.faulty e) = false
  is_supported_arm _ = true
