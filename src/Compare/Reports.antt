-- ===== src/Compare/Reports.antt =====
-- examples/compare.rs: a replication of a model, from its seed to its report.
use sim_core.Base.{
  ℕ, Bool, true, false, not, List, [], ◌∷◌, map, Option, none, some, length, if◌then◌else◌, ◌==◌,
}
use sim_core.Base.Order.{nat_ord, unit_ord}
use sim_core.Float.{Float}
use sim_core.Env.{Result, ok, ◌>>=◌, or_panic, run}
use sim_core.Rng.{SplitMix64}
use sim_core.Rng.Sample.{Math, splitmix64, bernoulli}
use sim_core.Container
use sim_core.Resource
use sim_core.PriorityResource
use sim_core.Compare.Json.{Text, codes, obj, num}
use sim_core.Compare.Queue
use sim_core.Compare.Queue.{Rec, Process}
use sim_core.Compare.Container as Tank

module _ {ℓ} {A : Type ℓ} where
  abbrev pub filter : (A → Bool) → List A → List A
  filter p [] = []
  filter p (x ∷ xs) = let rest = filter p xs in if p x then x ∷ rest else rest

  abbrev pub fold {κ} : {B : Type κ} → (B → A → B) → B → List A → B
  fold g b [] = b
  fold g b (x ∷ xs) = fold g (g b x) xs

-- `class.is_none_or(|c| key == c)`
abbrev pub is_none_or {ℓ} : {A : Type ℓ} → (A → Bool) → Option A → Bool
is_none_or p none = true
is_none_or p (some a) = p a

abbrev pub is_of : Option Bool → Bool → Bool
is_of none large = true
is_of (some true) large = large
is_of (some false) large = not large

abbrev pub no_key : SplitMix64 → Unit {0} × SplitMix64
no_key r = (tt, r)

module _ (f : Float) (m : Math f) where
  -- `if sample::bernoulli(&mut env.rng(), 0.5) { 0 } else { 1 }`
  abbrev pub draw_prio : SplitMix64 → ℕ × SplitMix64
  draw_prio r =
      let (high, r') = bernoulli f m splitmix64 (m.div m.one (m.of_u64 2)) r in
      (if high then 0 else 1, r')

module _ (f : Float) (m : Math f) (print : f.F → Text) where
  open f use {F, lt, add}

  -- `iter().sum()`
  abbrev pub sum : List F → F
  sum = fold add f.zero

  -- A quotient, or 0.0 where the divisor is not positive.
  abbrev pub ratio : F → F → F
  ratio a b = if lt f.zero b then m.div a b else f.zero

  abbrev pub mean : List F → F
  mean [] = f.zero
  mean (x ∷ xs) = m.div (sum (x ∷ xs)) (m.of_u64 (length (x ∷ xs)))

  -- The metrics at the end of `run_queue`.
  unfoldable pub queue_report : ℕ → List (Rec f (Unit {0})) → Text
  queue_report servers recs =
      let count = m.of_u64 (length recs) in
      let t_end = fold f.max f.zero (map (λ r. r.departure) recs) in
      let sum_wait = sum (map (λ r. r.wait) recs) in
      let sum_service = sum (map (λ r. r.service) recs) in
      let sum_sojourn = sum (map (λ r. add r.wait r.service) recs) in
      let utilization =
        if lt f.zero t_end then m.div sum_service (m.mul (m.of_u64 servers) t_end) else f.zero in
      obj (
        (codes "mean_wait", num f print (ratio sum_wait count))
        ∷ (codes "mean_sojourn", num f print (ratio sum_sojourn count))
        ∷ (codes "mean_queue", num f print (ratio sum_sojourn t_end))
        ∷ (codes "utilization", num f print utilization)
        ∷ (codes "throughput", num f print (ratio count t_end))
        ∷ [])

  -- `mean_of` of `run_priority`.
  abbrev pub mean_of_class : List (Rec f ℕ) → Option ℕ → F
  mean_of_class recs class =
      mean (map (λ r. r.wait) (filter (λ r. is_none_or (λ c. r.key == c) class) recs))

  unfoldable pub priority_report : List (Rec f ℕ) → Text
  priority_report recs = obj (
      (codes "mean_wait_high", num f print (mean_of_class recs (some 0)))
      ∷ (codes "mean_wait_low", num f print (mean_of_class recs (some 1)))
      ∷ (codes "mean_wait_all", num f print (mean_of_class recs none))
      ∷ [])

  -- `mean_of` of `run_container`.
  abbrev pub mean_of_large : List (Tank.Rec f) → Option Bool → F
  mean_of_large recs which = mean (map (λ r. r.wait) (filter (λ r. is_of which r.large) recs))

  unfoldable pub container_report : List (Tank.Rec f) → Text
  container_report recs = obj (
      (codes "mean_wait_all", num f print (mean_of_large recs none))
      ∷ (codes "mean_wait_small", num f print (mean_of_large recs (some false)))
      ∷ (codes "mean_wait_large", num f print (mean_of_large recs (some true)))
      ∷ (codes "served", num f print (m.of_u64 (length recs)))
      ∷ [])

  -- Of a run: whether assertions of debug builds are checked, and the fuel of its two loops.
  module _ (debug : Bool) (rounds fuel : ℕ) where
    unfoldable pub run_queue : (seed n : ℕ) → (lambda mu : F) → (servers : ℕ) → Result Text
    run_queue seed n lambda mu servers = do
      q ← or_panic (Resource.new servers)
      end ←
          run f (Process f (Unit {0})) debug (Queue.program f m no_key lambda mu) rounds fuel
            (Queue.begin f (Unit {0}) seed n q)
      ok (queue_report servers end.shared.recs)

    unfoldable pub run_priority : (seed n : ℕ) → (lambda mu : F) → (servers : ℕ) → Result Text
    run_priority seed n lambda mu servers = do
      q ← or_panic (PriorityResource.new servers)
      end ←
          run f (Process f ℕ) debug (Queue.program f m (draw_prio f m) lambda mu) rounds fuel
            (Queue.begin f ℕ seed n q)
      ok (priority_report end.shared.recs)

    unfoldable pub run_container : (seed n : ℕ) → Result Text
    run_container seed n = do
      cont ← or_panic (Container.new f (m.of_u64 1000) f.zero)
      end ← run f (Tank.Process f) debug (Tank.program f m) rounds fuel (Tank.begin f seed n cont)
      ok (container_report end.shared.recs)
