-- ===== src/Container/Level.antt =====
-- src/resource/container.rs: the level against zero and the capacity.
mod Range
use sim_core.Base.{
  ℕ, zero, suc, ◌≡◌, refl, sym, subst, ◌∙◌, Bool, true, false, not, ◌&&◌, List, [], ◌∷◌, Option,
  none, some, arith, All, All-append, if◌then◌else◌, Bool-cases, inl, inr,
}
use sim_core.Executor.Waker.{SimWaker}
use sim_core.Base.Store.{alloc}
use sim_core.Float.{Float, IsIeee}
use sim_core.Container.{
  World, is_canceled, set_done, wake, Waiter, ContainerState, Drained, drain, get_fits, put_fits,
  wake_get_waiters, wake_put_waiters, cascade, rounds, ended, trigger_cascade, new,
}
use sim_core.Container.Cascade.{trigger_cascade-Cascaded}
use sim_core.Container.Cases.{poll_get_cases, poll_put_cases}
use sim_core.Container.Requests.{
  ContainerRequest, Polled, make_request, poll_put, poll_get, Side, gets, puts, Slot, System, Op,
  requests, polls, drops, poll_side, make_at, after_poll, poll_at, drop_at, step, run, start,
  fresh_flags,
}
use sim_core.Container.Level.Range.{
  Between, Good, drain-Between, InRange, wake_get-InRange, wake_put-InRange, Result, cascade-Result,
  trigger_cascade-InRange, poll_get-InRange, poll_put-InRange, poll_get_same, poll_put_same,
}

module _ (f : Float) (ieee : IsIeee f) where
  open f use {F, le, lt, add, sub, is_finite}

  pub record Sound (capacity : F) (s : System f) : Type 0 where
    pub same : s.state.capacity ≡ capacity
    pub in_range : InRange f ieee s.state
    pub amounts :
        (a : ℕ) (x : Slot f) → s.requests a ≡ some x → Between f ieee capacity x.request.amount

  make_at-Sound :
      (c : F) (side : Side f) (amount : F) (s : System f)
      → Sound c s
      → Sound c (make_at f s side (make_request f amount s.state s.world))
  unfolding make_request
  make_at-Sound c side amount s v = go (lt f.zero amount) (le amount s.state.capacity) refl refl
    where
      go :
          (p q : Bool)
          → lt f.zero amount ≡ p
          → le amount s.state.capacity ≡ q
          → Sound c (
              make_at f s side (
                if p && q
                then some (
                  record { amount = amount; registered = false; flags = s.world.flags.next },
                  record s.world { flags = alloc fresh_flags s.world.flags },
                )
                else none))
      go true true hp hq = record {
        same = v.same;
        in_range = v.in_range;
        amounts =
            λ a x e. ground (arith, v.amounts a x, ieee.le_of_lt f.zero amount hp, hq, v.same);
      }
      go true false hp hq = v
      go false q hp hq = v

  after_poll-Sound :
      (c : F) (s : System f) (a : ℕ) (x : Slot f) (p : Polled f)
      → Sound c s
      → Between f ieee c x.request.amount
      → (p.state.capacity ≡ s.state.capacity) × (p.request.amount ≡ x.request.amount)
      → InRange f ieee p.state
      → Sound c (after_poll f s a x p)
  after_poll-Sound c s a x p v b same i = record {
    same = same.0 ∙ v.same;
    in_range = i;
    amounts = λ d y e. ground (arith, v.amounts d y, b, same.1);
  }

  poll_at-Sound :
      (c : F) (s : System f) (a : ℕ) (waker : SimWaker) (o : Option (Slot f))
      → s.requests a ≡ o
      → Sound c s
      → Sound c (poll_at f s a waker o)
  poll_at-Sound c s a waker none e v = v
  poll_at-Sound c s a waker (some x) e v = go x.finished x.side
    where
      b : Between f ieee c x.request.amount
      b = v.amounts a x e

      b' : Between f ieee s.state.capacity x.request.amount
      b' = subst (λ k. Between f ieee k x.request.amount) (sym v.same) b

      go :
          (done : Bool) (side : Side f)
          → Sound c (
              if done
              then s
              else after_poll f s a x (poll_side f side x.request waker s.state s.world))
      go true side = v
      go false gets =
          after_poll-Sound c s a x (poll_get f x.request waker s.state s.world) v b
            (poll_get_same f ieee x.request waker s.state s.world)
            (poll_get-InRange f ieee x.request waker s.state s.world v.in_range b')
      go false puts =
          after_poll-Sound c s a x (poll_put f x.request waker s.state s.world) v b
            (poll_put_same f ieee x.request waker s.state s.world)
            (poll_put-InRange f ieee x.request waker s.state s.world v.in_range b')

  drop_at-Sound :
      (c : F) (s : System f) (a : ℕ) (o : Option (Slot f)) → Sound c s → Sound c (drop_at f s a o)
  drop_at-Sound c s a none v = v
  drop_at-Sound c s a (some x) v = record {
    same = v.same;
    in_range = v.in_range;
    amounts = λ d y e. ground (arith, v.amounts d y);
  }

  step-Sound : (c : F) (op : Op f) (s : System f) → Sound c s → Sound c (step f op s)
  unfolding step
  step-Sound c (requests side amount) s v = make_at-Sound c side amount s v
  step-Sound c (polls a waker) s v = poll_at-Sound c s a waker (s.requests a) refl v
  step-Sound c (drops a) s v = drop_at-Sound c s a (s.requests a) v

  pub run-Sound : (c : F) (ops : List (Op f)) (s : System f) → Sound c s → Sound c (run f ops s)
  unfolding run
  run-Sound c [] s v = v
  run-Sound c (op ∷ ops) s v = run-Sound c ops (step f op s) (step-Sound c op s v)

  start-Sound :
      (c l : F) (s : ContainerState f) (w : World)
      → is_finite c ≡ true
      → new f c l ≡ some s
      → Sound c (start f s w)
  unfolding new
  start-Sound c l s w finite made = go (lt f.zero c) (le f.zero l) (le l c) refl refl made
    where
      go :
          (p q r : Bool)
          → le f.zero l ≡ q
          → le l c ≡ r
          → (if p && q && r
              then some (record { capacity = c; level = l; get_waiters = []; put_waiters = [] })
              else none)
            ≡ some s
          → Sound c (start f s w)
      go true true true hq hr e =
          let made_of : ◌≡◌ {A = ContainerState f}
              (record { capacity = c; level = l; get_waiters = []; put_waiters = [] }) s =
            cc in
          subst (λ t. Sound c (start f t w)) made_of
            (record {
              same = refl;
              in_range = record { finite = finite; level = (hq, hr); gets_ok = tt; puts_ok = tt };
              amounts = λ a x n. cc;
            })
      go true true false hq hr e = cc
      go true false r hq hr e = cc
      go false q r hq hr e = cc

  -- A container that was made with a finite capacity never holds less than nothing or more than
  -- its capacity, and keeps that capacity, whatever requests are made, polled and dropped, in any
  -- order.
  pub level_bounds :
      (c l : F) (s : ContainerState f) (w : World) (ops : List (Op f))
      → is_finite c ≡ true
      → new f c l ≡ some s
      → let t = (run f ops (start f s w)).state in
        (t.capacity ≡ c) × (le f.zero t.level ≡ true) × (le t.level c ≡ true)
  level_bounds c l s w ops finite made =
      let v = run-Sound c ops (start f s w) (start-Sound c l s w finite made) in
      (
        v.same,
        v.in_range.level.0,
        subst (λ k. le (run f ops (start f s w)).state.level k ≡ true) v.same v.in_range.level.1,
      )
