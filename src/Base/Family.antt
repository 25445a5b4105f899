-- ===== src/Base/Family.antt =====
-- Families indexed by addresses: update at one index, sums over the first `n`.
use Prim.Native.Nat.{ℕ, zero, suc, ◌+◌, ◌<◌, ◌≤◌}
use mathlib.Core.Path.{◌≡◌, refl}
use mathlib.Core.Logic.{◌≢◌}
use native.Mathlib.Decide.{dec_lt}
use native.Mathlib.Omega.{arith}
use sim_core.Base.Tests.{if◌then◌else◌, ◌==◌}

abbrev pub update {ℓ} : {A : Type ℓ} → (ℕ → A) → ℕ → A → ℕ → A
update f i a j = if i == j then a else f j

pub total : ℕ → (ℕ → ℕ) → ℕ
total zero w = 0
total (suc n) w = total n w + w n

pub total-suc : (n : ℕ) (w : ℕ → ℕ) → total (suc n) w ≡ total n w + w n
unfolding total
total-suc n w = refl

pub total-eq : (n : ℕ) (v w : ℕ → ℕ) → ((i : ℕ) → i < n → v i ≡ w i) → total n v ≡ total n w
unfolding total
total-eq zero v w h = refl
total-eq (suc n) v w h =
    omega (arith, total-eq n v w (λ i lt. h i (omega arith)), h n (omega arith))

-- Two families that differ at one index only.
pub total-change :
    (n i : ℕ) (v w : ℕ → ℕ)
    → i < n
    → ((j : ℕ) → i ≢ j → v j ≡ w j)
    → total n v + w i ≡ total n w + v i
unfolding total
total-change zero i v w lt h = absurd (omega arith)
total-change (suc n) i v w lt h = elim (dec_lt i n) [
  | yes below ↦ omega (arith, total-change n i v w below h, h n (omega arith))
  | no last ↦ go (omega arith)
]
  where
    same : (j : ℕ) → j < n → n ≡ i → v j ≡ w j
    same j lt e = h j (omega arith)

    go : n ≡ i → total n v + v n + w i ≡ total n w + w n + v i
    go e = ground (arith, total-eq n v w (λ j lt. same j lt e))

pub total-zero : (n : ℕ) (w : ℕ → ℕ) → ((i : ℕ) → w i ≡ 0) → total n w ≡ 0
unfolding total
total-zero zero w h = refl
total-zero (suc n) w h = omega (arith, total-zero n w h, h n)

-- Sums over families that differ at one index, by one at most.
pub total-le-suc :
    (n i : ℕ) (v w : ℕ → ℕ)
    → ((j : ℕ) → i ≢ j → v j ≡ w j)
    → v i ≤ w i + 1
    → total n v ≤ total n w + 1
total-le-suc n i v w same le = elim (dec_lt i n) [
  | yes below ↦ omega (arith, total-change n i v w below same)
  | no beyond ↦ omega (arith, total-eq n v w (λ j lt. same j (λ e. beyond (ground (arith, e)))))
]
