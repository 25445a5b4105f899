-- ===== src/Python/Arms/Laws.antt =====
-- simcore-python/src/lib.rs: arms that were collected and are then built and raced.
use sim_core.Base.{
  ◌≢◌, sym, ℕ, suc, ◌≡◌, refl, ap, Bool, true, false, List, [], ◌∷◌, Option, none, some, Bool-cases,
  inl, inr, All, ◌⊎◌,
}
use sim_core.Float.{Float}
use sim_core.Combinator.{any_poll, race}
use sim_core.Python.Objects.{
  PyResult, ok, err, type_error, value_error, Object, Request, is_supported_arm, classify,
}
use sim_core.Python.Arms.{
  ◌>>=◌, any_of, all_of, some_arms, collect_arms, translate_arm, build_arms, poll_arm, finished,
  enumerate,
}

module _ (f : Float) (E : Type 0) where
  -- A supported arm is translated to what it would be as a request of its own.
  translate-classify :
      (o : Object f E)
      → is_supported_arm f E o ≡ true
      → (r : Request f E) × (translate_arm f E o ≡ ok r) × (classify f E o ≡ ok r)
  unfolding is_supported_arm translate_arm classify
  translate-classify (Object.timeout t) h = (Request.timeout t, refl, refl)
  translate-classify (Object.acquire a r) h = (Request.acquire a r, refl, refl)
  translate-classify (Object.priority_acquire a r p) h =
      (Request.priority_acquire a r p, refl, refl)
  translate-classify (Object.preempt_acquire a r p) h = (Request.preempt_acquire a r p, refl, refl)
  translate-classify (Object.container_get c x) h = (Request.container_get c x, refl, refl)
  translate-classify (Object.container_put c x) h = (Request.container_put c x, refl, refl)
  translate-classify (Object.event e) h = (Request.event e, refl, refl)
  translate-classify (Object.preemption_signal s) h = (Request.event s, refl, refl)
  translate-classify (Object.any_of a) h = cc
  translate-classify (Object.all_of a) h = cc
  translate-classify (Object.generator g) h = cc
  translate-classify (Object.other o) h = cc
  translate-classify (Object.faulty e) h = cc

  -- Each request is the one that its object stands for.
  pub data AsRequests : List (Object f E) → List (Request f E) → Type 0 where
    nil : AsRequests [] []
    cons :
        {o : Object f E} {r : Request f E} {os : List (Object f E)} {rs : List (Request f E)}
        → classify f E o ≡ ok r
        → AsRequests os rs
        → AsRequests (o ∷ os) (r ∷ rs)

  -- What can be an arm of a race or a join.
  abbrev pub IsArm : Object f E → Type 0
  IsArm (Object.timeout t) = Unit
  IsArm (Object.acquire a r) = Unit
  IsArm (Object.priority_acquire a r p) = Unit
  IsArm (Object.preempt_acquire a r p) = Unit
  IsArm (Object.container_get c x) = Unit
  IsArm (Object.container_put c x) = Unit
  IsArm (Object.event e) = Unit
  IsArm (Object.preemption_signal s) = Unit
  IsArm (Object.any_of a) = ⊥
  IsArm (Object.all_of a) = ⊥
  IsArm (Object.generator g) = ⊥
  IsArm (Object.other o) = ⊥
  IsArm (Object.faulty e) = ⊥

  is_supported_arm-IsArm : (o : Object f E) → is_supported_arm f E o ≡ true → IsArm o
  unfolding is_supported_arm
  is_supported_arm-IsArm (Object.timeout t) h = tt
  is_supported_arm-IsArm (Object.acquire a r) h = tt
  is_supported_arm-IsArm (Object.priority_acquire a r p) h = tt
  is_supported_arm-IsArm (Object.preempt_acquire a r p) h = tt
  is_supported_arm-IsArm (Object.container_get c x) h = tt
  is_supported_arm-IsArm (Object.container_put c x) h = tt
  is_supported_arm-IsArm (Object.event e) h = tt
  is_supported_arm-IsArm (Object.preemption_signal s) h = tt
  is_supported_arm-IsArm (Object.any_of a) h = cc
  is_supported_arm-IsArm (Object.all_of a) h = cc
  is_supported_arm-IsArm (Object.generator g) h = cc
  is_supported_arm-IsArm (Object.other o) h = cc
  is_supported_arm-IsArm (Object.faulty e) h = cc

  not-IsArm : (o : Object f E) → is_supported_arm f E o ≡ false → ¬ IsArm o
  unfolding is_supported_arm
  not-IsArm (Object.timeout t) h = cc
  not-IsArm (Object.acquire a r) h = cc
  not-IsArm (Object.priority_acquire a r p) h = cc
  not-IsArm (Object.preempt_acquire a r p) h = cc
  not-IsArm (Object.container_get c x) h = cc
  not-IsArm (Object.container_put c x) h = cc
  not-IsArm (Object.event e) h = cc
  not-IsArm (Object.preemption_signal s) h = cc
  not-IsArm (Object.any_of a) h = λ a. a
  not-IsArm (Object.all_of a) h = λ a. a
  not-IsArm (Object.generator g) h = λ a. a
  not-IsArm (Object.other o) h = λ a. a
  not-IsArm (Object.faulty e) h = λ a. a

  -- Some object cannot be an arm.
  abbrev pub HasStray : List (Object f E) → Type 0
  HasStray [] = ⊥
  HasStray (o ∷ os) = (¬ IsArm o) ⊎ HasStray os

  abbrev pub Built : List (Object f E) → PyResult E (List (Object f E)) → Type 0
  Built os (ok v) =
      (v ≡ os)
      × (All IsArm os × ((rs : List (Request f E)) × (build_arms f E v ≡ ok rs) × AsRequests v rs))
  Built os (err e) = (e ≡ type_error) × HasStray os

  build-cons :
      (o : Object f E) (os : List (Object f E)) (c : PyResult E (List (Object f E)))
      → is_supported_arm f E o ≡ true
      → Built os c
      → Built (o ∷ os) (do v ← c; ok (o ∷ v))
  unfolding build_arms
  build-cons o os (ok v) h (same, (arms, (rs, built, asked))) =
      let (r, t, c) = translate-classify o h in
      (
        ap (λ xs. o ∷ xs) same,
        ((is_supported_arm-IsArm o h, arms), (r ∷ rs, rw (t, built) refl, cons c asked)),
      )
  build-cons o os (err e) h (same, stray) = (same, inr stray)

  collect_arms-Built : (os : List (Object f E)) → Built os (collect_arms f E os)
  unfolding collect_arms build_arms
  collect_arms-Built [] = (refl, (tt, ([], refl, nil)))
  collect_arms-Built (o ∷ os) = elim (Bool-cases (is_supported_arm f E o)) [
    | inl yes_arm ↦
        rw yes_arm (build-cons o os (collect_arms f E os) yes_arm (collect_arms-Built os))
    | inr no_arm ↦ rw no_arm (refl, inl (not-IsArm o no_arm))
  ]

  -- A race refuses no arms at all with a `ValueError`.
  abbrev pub Raced : List (Object f E) → PyResult E (List (Object f E)) → Type 0
  Raced os (ok v) = (v ≢ []) × Built os (ok v)
  Raced os (err type_error) = HasStray os
  Raced os (err value_error) = os ≡ []
  Raced os (err e) = ⊥

  -- What `any_of` and `all_of` accept can be awaited: all objects can be arms, the arms are those
  -- that were given, and the futures of all arms are built, each for the request that its object
  -- would be by itself. Both refuse with a `TypeError` only where some object cannot be an arm, and
  -- `all_of` refuses nothing else; `any_of` refuses no arms at all with a `ValueError`.
  pub any_of-Raced : (os : List (Object f E)) → Raced os (any_of f E os) × Built os (all_of f E os)
  unfolding any_of all_of
  any_of-Raced os = (go (collect_arms f E os) (collect_arms-Built os), collect_arms-Built os)
    where
      go : (c : PyResult E (List (Object f E))) → Built os c → Raced os (c >>= some_arms f E)
      go (ok []) h = sym h.0
      go (ok (o ∷ v)) h = ((λ e. absurd (cc)), h)
      go (err e) h = rw h.0 h.1

module _ {F W : Type 0} (poll_child : F → W → Bool × (F × W)) where
  abbrev found : ℕ → (W → Option ℕ) → Bool × (F × W) → Option ℕ
  found i others (true, (g, w)) = some i
  found i others (false, (g, w)) = others w

  -- The specification: the position, counted from `i`, of the first future that is ready when they
  -- are polled in turn.
  unfoldable pub first_ready : ℕ → List F → W → Option ℕ
  first_ready i [] w = none
  first_ready i (g ∷ gs) w = found i (first_ready (suc i) gs) (poll_child g w)

  abbrev pub recorded : ℕ → Option ℕ → Bool × (List F × W) → Bool × (List (ℕ × F) × (W × Option ℕ))
  recorded i winner (b, (gs, w)) = (b, (enumerate i gs, (w, winner)))

  any_poll-from :
      (i : ℕ) (gs : List F) (w : W)
      → any_poll (poll_arm poll_child) (enumerate i gs) (w, none)
        ≡ recorded i (first_ready i gs w) (any_poll poll_child gs w)
  unfolding any_poll poll_arm enumerate first_ready
  any_poll-from i [] w = refl
  any_poll-from i (g ∷ gs) w = go (poll_child g w) (λ w'. any_poll-from (suc i) gs w')
    where
      go :
          (p : Bool × (F × W))
          → ((w' : W)
              → any_poll (poll_arm poll_child) (enumerate (suc i) gs) (w', none)
                ≡ recorded (suc i) (first_ready (suc i) gs w') (any_poll poll_child gs w'))
          → race
              (enumerate (suc i) gs)
              (any_poll (poll_arm poll_child) (enumerate (suc i) gs))
              (finished poll_child i none p)
            ≡ recorded i (found i (first_ready (suc i) gs) p) (race gs (any_poll poll_child gs) p)
      go (true, (g', w')) rest = refl
      go (false, (g', w')) rest = ap (λ r. (r.0, ((i, g') ∷ r.1.0, r.1.1))) (rest w')

  -- A race over wrapped arms does what the race over the arms does, and the winner that it records
  -- is the position of the first arm that is ready, if any is.
  pub any_poll-first_ready :
      (gs : List F) (w : W)
      → any_poll (poll_arm poll_child) (enumerate 0 gs) (w, none)
        ≡ recorded 0 (first_ready 0 gs w) (any_poll poll_child gs w)
  any_poll-first_ready gs w = any_poll-from 0 gs w
