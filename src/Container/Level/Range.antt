-- ===== src/Container/Level/Range.antt =====
-- src/resource/container.rs: the level after a cascade and after a poll.
use sim_core.Base.{
  ℕ, zero, suc, ◌≡◌, refl, Bool, true, false, not, ◌&&◌, List, [], ◌∷◌, Option, none, some, All,
  All-append, if◌then◌else◌, Bool-cases, inl, inr,
}
use sim_core.Executor.Waker.{SimWaker}
use sim_core.Float.{Float, IsIeee}
use sim_core.Container.{
  World, is_canceled, set_done, wake, Waiter, ContainerState, Drained, drain, get_fits, put_fits,
  wake_get_waiters, wake_put_waiters, cascade, rounds, ended, trigger_cascade,
}
use sim_core.Container.Cascade.{trigger_cascade-Cascaded}
use sim_core.Container.Cases.{poll_get_cases, poll_put_cases}
use sim_core.Container.Requests.{ContainerRequest, poll_put, poll_get}

module _ (f : Float) (ieee : IsIeee f) where
  open f use {F, le, lt, add, sub, is_finite}

  abbrev pub Between : F → F → Type 0
  Between capacity a = (le f.zero a ≡ true) × (le a capacity ≡ true)

  abbrev pub Good : F → List (Waiter f) → Type 0
  Good capacity xs = All (λ x. Between capacity x.amount) xs

  -- A loop keeps what each serving of a good amount keeps.
  pub drain-Between :
      (capacity : F) (fits : F → F → Bool) (move : F → F → F)
      → ((l a : F)
          → Between capacity l
          → Between capacity a
          → fits l a ≡ true
          → Between capacity (move l a))
      → (was : Bool) (level : F) (w : World) (xs : List (Waiter f)) → Between capacity level
      → Good capacity xs
      → let d = drain f fits move was level w xs in
        Between capacity d.level × Good capacity d.waiters
  unfolding drain
  drain-Between c fits move keep was level w [] l g = (l, tt)
  drain-Between c fits move keep was level w (x ∷ xs) l g =
      split (is_canceled w x.flags) (fits level x.amount) refl
        (drain-Between c fits move keep was level w xs l g.1)
        (λ m.
          drain-Between c fits move keep true (move level x.amount)
            (wake x.waker (set_done x.flags w)) xs m g.1)
    where
      split :
          (gone fit : Bool)
          → fits level x.amount ≡ fit
          → (let d = drain f fits move was level w xs in Between c d.level × Good c d.waiters)
          → (Between c (move level x.amount)
              → let d =
                  drain f fits move true
                    (move level x.amount)
                    (wake x.waker (set_done x.flags w))
                    xs in
                Between c d.level × Good c d.waiters)
          → let d : Drained f =
              (if gone
                then drain f fits move was level w xs
                else (if fit
                    then drain f fits move true
                        (move level x.amount)
                        (wake x.waker (set_done x.flags w))
                        xs
                    else record { serviced = was; level = level; waiters = x ∷ xs; world = w })) in
            Between c d.level × Good c d.waiters
      split true fit e skipped served = skipped
      split false true e skipped served = served (keep level x.amount l g.0 e)
      split false false e skipped served = (l, g)

  module _ (capacity : F) (finite : is_finite capacity ≡ true) where
    Between-finite : (a : F) → Between capacity a → is_finite a ≡ true
    Between-finite a b = ieee.finite_below a capacity b.0 b.1 finite

    get_keeps :
        (l a : F)
        → Between capacity l
        → Between capacity a
        → get_fits f l a ≡ true
        → Between capacity (sub l a)
    get_keeps l a bl ba fit =
        let fl = Between-finite l bl in
        let fa = Between-finite a ba in
        (
          ieee.sub_nonneg a l fa fl fit,
          ieee.le_trans (sub l a) l capacity (ieee.sub_le a l fa fl ba.0) bl.1,
        )

    put_keeps :
        (l a : F)
        → Between capacity l
        → Between capacity a
        → put_fits f capacity l a ≡ true
        → Between capacity (add l a)
    put_keeps l a bl ba fit =
        (ieee.le_trans f.zero l (add l a) bl.0 (ieee.le_add l a (Between-finite l bl) ba.0), fit)

  pub record InRange (s : ContainerState f) : Type 0 where
    pub finite : is_finite s.capacity ≡ true
    pub level : Between s.capacity s.level
    pub gets_ok : Good s.capacity s.get_waiters
    pub puts_ok : Good s.capacity s.put_waiters

  pub wake_get-InRange :
      (s : ContainerState f) (w : World) → InRange s → InRange (wake_get_waiters f s w).state
  unfolding wake_get_waiters
  wake_get-InRange s w i =
      let d =
        drain-Between s.capacity (get_fits f) sub (get_keeps s.capacity i.finite) false s.level w
          s.get_waiters i.level i.gets_ok in
      record { finite = i.finite; level = d.0; gets_ok = d.1; puts_ok = i.puts_ok }

  pub wake_put-InRange :
      (s : ContainerState f) (w : World) → InRange s → InRange (wake_put_waiters f s w).state
  unfolding wake_put_waiters
  wake_put-InRange s w i =
      let d =
        drain-Between s.capacity (put_fits f s.capacity) add (put_keeps s.capacity i.finite) false
          s.level w s.put_waiters i.level i.puts_ok in
      record { finite = i.finite; level = d.0; gets_ok = i.gets_ok; puts_ok = d.1 }

  abbrev pub Result : Option (ContainerState f × World) → Type 0
  Result none = Unit {0}
  Result (some r) = InRange r.0

  pub cascade-Result :
      (fuel : ℕ) (s : ContainerState f) (w : World) → InRange s → Result (cascade f fuel s w)
  unfolding cascade
  cascade-Result zero s w i = tt
  cascade-Result (suc fuel) s w i =
      let g = wake_get_waiters f s w in
      let p = wake_put_waiters f g.state g.world in
      let j = wake_put-InRange g.state g.world (wake_get-InRange s w i) in
      elim (Bool-cases (not g.serviced && not p.serviced)) [
        | inl stop ↦ rw stop j
        | inr more ↦ rw more (cascade-Result fuel p.state p.world j)
      ]

  pub trigger_cascade-InRange :
      (s : ContainerState f) (w : World) → InRange s → InRange (trigger_cascade f s w).0
  unfolding trigger_cascade
  trigger_cascade-InRange s w i =
      go (cascade f (rounds f s) s w) (cascade-Result (rounds f s) s w i)
    where
      go : (o : Option (ContainerState f × World)) → Result o → InRange (ended f (s, w) o).0
      go none h = i
      go (some r) h = h

  pub poll_get-InRange :
      (r : ContainerRequest f) (waker : SimWaker) (s : ContainerState f) (w : World)
      → InRange s
      → Between s.capacity r.amount
      → InRange (poll_get f r waker s w).state
  poll_get-InRange r waker s w i b =
      poll_get_cases f r waker s w (λ p. InRange p.state) (λ _. i)
        (λ _ fit _. trigger_cascade-InRange _ w (record {
          finite = i.finite;
          level = get_keeps s.capacity i.finite s.level r.amount i.level b fit;
          gets_ok = i.gets_ok;
          puts_ok = i.puts_ok;
        }))
        (λ _ _ _. record {
          finite = i.finite;
          level = i.level;
          gets_ok = All-append _ s.get_waiters _ i.gets_ok (b, tt);
          puts_ok = i.puts_ok;
        })
        (λ _ _. i)

  pub poll_put-InRange :
      (r : ContainerRequest f) (waker : SimWaker) (s : ContainerState f) (w : World)
      → InRange s
      → Between s.capacity r.amount
      → InRange (poll_put f r waker s w).state
  poll_put-InRange r waker s w i b =
      poll_put_cases f r waker s w (λ p. InRange p.state) (λ _. i)
        (λ _ fit _. trigger_cascade-InRange _ w (record {
          finite = i.finite;
          level = put_keeps s.capacity i.finite s.level r.amount i.level b fit;
          gets_ok = i.gets_ok;
          puts_ok = i.puts_ok;
        }))
        (λ _ _ _. record {
          finite = i.finite;
          level = i.level;
          gets_ok = i.gets_ok;
          puts_ok = All-append _ s.put_waiters _ i.puts_ok (b, tt);
        })
        (λ _ _. i)

  -- The capacity, and the amount that a request was made for, do not change.
  pub poll_get_same :
      (r : ContainerRequest f) (waker : SimWaker) (s : ContainerState f) (w : World)
      → let p = poll_get f r waker s w in
        (p.state.capacity ≡ s.capacity) × (p.request.amount ≡ r.amount)
  poll_get_same r waker s w =
      poll_get_cases f r waker s w
        (λ p. (p.state.capacity ≡ s.capacity) × (p.request.amount ≡ r.amount)) (λ _. (refl, refl))
        (λ _ _ _. ((trigger_cascade-Cascaded f _ w).same, refl)) (λ _ _ _. (refl, refl))
        (λ _ _. (refl, refl))

  pub poll_put_same :
      (r : ContainerRequest f) (waker : SimWaker) (s : ContainerState f) (w : World)
      → let p = poll_put f r waker s w in
        (p.state.capacity ≡ s.capacity) × (p.request.amount ≡ r.amount)
  poll_put_same r waker s w =
      poll_put_cases f r waker s w
        (λ p. (p.state.capacity ≡ s.capacity) × (p.request.amount ≡ r.amount)) (λ _. (refl, refl))
        (λ _ _ _. ((trigger_cascade-Cascaded f _ w).same, refl)) (λ _ _ _. (refl, refl))
        (λ _ _. (refl, refl))
  -- A container in use, with the amounts of its requests.
