-- ===== src/Env/Results.antt =====
-- src/env.rs: predicates of what the event loop returns, and how they pass through a bind.
use sim_core.Base.{◌≡◌}
use sim_core.Env.{Result, ok, panicked, unfinished, ◌>>=◌}

module _ {ℓ κ} {A : Type ℓ} where
  abbrev pub Ensures : (A → Type κ) → Result A → Type κ
  Ensures P (ok a) = P a
  Ensures P panicked = Unit
  Ensures P unfinished = Unit

  pub Ensures-any : (r : Result A) → Ensures (λ a. Unit {κ}) r
  Ensures-any (ok a) = tt
  Ensures-any panicked = tt
  Ensures-any unfinished = tt

  pub Ensures-ok : (P : A → Type κ) (r : Result A) (a : A) → Ensures P r → r ≡ ok a → P a
  Ensures-ok P r a h e = rw e at h

module _ {ℓ κ μ ν} {A : Type ℓ} {B : Type κ} where
  pub Ensures-bind :
      (P : A → Type μ) (Q : B → Type ν) (r : Result A) (g : A → Result B)
      → Ensures P r
      → ((a : A) → P a → Ensures Q (g a))
      → Ensures Q (r >>= g)
  Ensures-bind P Q (ok a) g h k = k a h
  Ensures-bind P Q panicked g h k = tt
  Ensures-bind P Q unfinished g h k = tt

module _ {ℓ κ μ} {A : Type ℓ} where
  pub Ensures-imp :
      (P : A → Type κ) (Q : A → Type μ) (r : Result A)
      → ((a : A) → P a → Q a)
      → Ensures P r
      → Ensures Q r
  Ensures-imp P Q (ok a) k h = k a h
  Ensures-imp P Q panicked k h = tt
  Ensures-imp P Q unfinished k h = tt
