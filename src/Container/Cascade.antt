-- ===== src/Container/Cascade.antt =====
-- src/resource/container.rs: the wake cascade, its end and the state it ends in.
use sim_core.Base.{
  ℕ, zero, suc, ◌+◌, ◌<◌, ◌≤◌, ◌≡◌, refl, ◌∙◌, Bool, true, false, not, ◌&&◌, List, [], ◌∷◌, some,
  arith, All, length, if◌then◌else◌, Bool-cases, inl, inr,
}
use sim_core.Executor.Waker.{SimWaker}
use sim_core.Float.{Float}
use sim_core.Container.{
  World, is_canceled, set_done, wake, Waiter, ContainerState, Drained, drain, get_fits, put_fits,
  Woken, wake_get_waiters, wake_put_waiters, cascade, rounds, trigger_cascade,
}

module _ (f : Float) where
  open f use {F, le, add, sub}

  -- The first waiter that has not been canceled cannot be served; so too when there is none.
  unfoldable pub quiet : (F → F → Bool) → World → F → List (Waiter f) → Bool
  quiet fits w level [] = true
  quiet fits w level (x ∷ xs) =
      if is_canceled w x.flags then quiet fits w level xs else not (fits level x.amount)

  abbrev pub Uncanceled : World → World → Type 0
  Uncanceled v w = (a : ℕ) → is_canceled v a ≡ is_canceled w a

  set_done-Uncanceled : (b : ℕ) (v : SimWaker) (w : World) → Uncanceled (wake v (set_done b w)) w
  set_done-Uncanceled b v w a = ground arith

  pub quiet-Uncanceled :
      (fits : F → F → Bool) (v w : World) (level : F) (xs : List (Waiter f))
      → All (λ x. is_canceled v x.flags ≡ is_canceled w x.flags) xs
      → quiet fits v level xs ≡ quiet fits w level xs
  unfolding quiet
  quiet-Uncanceled fits v w level [] h = refl
  quiet-Uncanceled fits v w level (x ∷ xs) h =
      ground (arith, h.0, quiet-Uncanceled fits v w level xs h.1)

  abbrev pub Made : ℕ → List (Waiter f) → Type 0
  Made n xs = All (λ x. x.flags < n) xs

  -- What a pass over `xs` leaves: quiet, no cancelation, an entry less if it served somebody, and
  -- all as it was, canceled entries apart, if not.
  record IsPass (fits : F → F → Bool) (was : Bool) (level : F) (w : World) (xs : List (Waiter f))
      (d : Drained f) : Type 0 where
    settled : quiet fits d.world d.level d.waiters ≡ true
    kept : Uncanceled d.world w
    next : d.world.flags.next ≡ w.flags.next
    made : (n : ℕ) → Made n xs → Made n d.waiters
    fewer : length d.waiters + (if d.serviced && not was then 1 else 0) ≤ length xs
    grows : was ≡ true → d.serviced ≡ true
    idle : d.serviced ≡ false → (d.level ≡ level) × (d.world ≡ w)

  drain-IsPass :
      (fits : F → F → Bool) (move : F → F → F) (was : Bool) (level : F) (w : World)
      (xs : List (Waiter f))
      → IsPass fits was level w xs (drain f fits move was level w xs)
  unfolding drain quiet
  drain-IsPass fits move was level w [] = record {
    settled = refl;
    kept = λ a. refl;
    next = refl;
    made = λ n h. h;
    fewer = ground arith;
    grows = λ h. h;
    idle = λ h. (refl, refl);
  }
  drain-IsPass fits move was level w (x ∷ xs) =
      split (is_canceled w x.flags) (fits level x.amount) refl refl
        (drain-IsPass fits move was level w xs)
        (drain-IsPass fits move true (move level x.amount) (wake x.waker (set_done x.flags w)) xs)
    where
      split :
          (c l : Bool)
          → is_canceled w x.flags ≡ c
          → fits level x.amount ≡ l
          → IsPass fits was level w xs (drain f fits move was level w xs)
          → IsPass fits true
              (move level x.amount)
              (wake x.waker (set_done x.flags w))
              xs
              (drain f fits move true (move level x.amount) (wake x.waker (set_done x.flags w)) xs)
          → IsPass fits was level w (x ∷ xs) (
              if c
              then drain f fits move was level w xs
              else (if l
                  then drain f fits move true
                      (move level x.amount)
                      (wake x.waker (set_done x.flags w))
                      xs
                  else record { serviced = was; level = level; waiters = x ∷ xs; world = w }))
      split true l hc hl skipped served = record {
        settled = skipped.settled;
        kept = skipped.kept;
        next = skipped.next;
        made = λ n h. skipped.made n h.1;
        fewer = omega (arith, skipped.fewer);
        grows = skipped.grows;
        idle = skipped.idle;
      }
      split false true hc hl skipped served = record {
        settled = served.settled;
        kept = λ a. served.kept a ∙ set_done-Uncanceled x.flags x.waker w a;
        next = served.next;
        made = λ n h. served.made n h.1;
        fewer = ground (arith, served.fewer);
        grows = λ h. served.grows refl;
        idle = λ h. cc (served.grows refl);
      }
      split false false hc hl skipped served = record {
        settled = ground arith;
        kept = λ a. refl;
        next = refl;
        made = λ n h. h;
        fewer = ground arith;
        grows = λ h. h;
        idle = λ h. (refl, refl);
      }

  abbrev pub queued : ContainerState f → ℕ
  queued s = length s.get_waiters + length s.put_waiters

  -- Neither queue has a first live waiter that could be served.
  pub record IsQuiet (s : ContainerState f) (w : World) : Type 0 where
    pub gets : quiet (get_fits f) w s.level s.get_waiters ≡ true
    pub puts : quiet (put_fits f s.capacity) w s.level s.put_waiters ≡ true

  pub record Cascaded (s : ContainerState f) (w : World) (r : ContainerState f × World)
      : Type 0 where
    pub rests : IsQuiet r.0 r.1
    pub kept : Uncanceled r.1 w
    pub same : r.0.capacity ≡ s.capacity
    pub next : r.1.flags.next ≡ w.flags.next
    pub made :
        (n : ℕ)
        → Made n s.get_waiters × Made n s.put_waiters
        → Made n r.0.get_waiters × Made n r.0.put_waiters

  -- One round of the loop of `trigger_cascade`.
  module _ (s : ContainerState f) (w : World) where
    abbrev after_gets : Woken f
    after_gets = wake_get_waiters f s w

    abbrev after_puts : Woken f
    after_puts = wake_put_waiters f after_gets.state after_gets.world

    gets-IsPass :
        IsPass
          (get_fits f)
          false
          s.level
          w
          s.get_waiters
          (drain f (get_fits f) sub false s.level w s.get_waiters)
    gets-IsPass = drain-IsPass (get_fits f) sub false s.level w s.get_waiters

    puts-IsPass :
        let g = after_gets in
        IsPass
          (put_fits f s.capacity)
          false
          g.state.level
          g.world
          s.put_waiters
          (drain f (put_fits f s.capacity) add false g.state.level g.world s.put_waiters)
    puts-IsPass =
        drain-IsPass (put_fits f s.capacity) add false after_gets.state.level after_gets.world
          s.put_waiters

    round_kept : Uncanceled after_puts.world w
    unfolding wake_get_waiters wake_put_waiters
    round_kept a = puts-IsPass.kept a ∙ gets-IsPass.kept a

    round_capacity : after_puts.state.capacity ≡ s.capacity
    unfolding wake_get_waiters wake_put_waiters
    round_capacity = refl

    round_next : after_puts.world.flags.next ≡ w.flags.next
    unfolding wake_get_waiters wake_put_waiters
    round_next = puts-IsPass.next ∙ gets-IsPass.next

    round-Made :
        (n : ℕ)
        → Made n s.get_waiters × Made n s.put_waiters
        → Made n after_puts.state.get_waiters × Made n after_puts.state.put_waiters
    unfolding wake_get_waiters wake_put_waiters
    round-Made n h = (gets-IsPass.made n h.0, puts-IsPass.made n h.1)

    -- A round that served somebody left an entry less.
    round_fewer :
        (not after_gets.serviced && not after_puts.serviced) ≡ false
        → queued after_puts.state < queued s
    unfolding wake_get_waiters wake_put_waiters
    round_fewer h = ground (arith, gets-IsPass.fewer, puts-IsPass.fewer)

    -- A round that served nobody found both queues at rest.
    round-IsQuiet :
        (not after_gets.serviced && not after_puts.serviced) ≡ true
        → IsQuiet after_puts.state after_puts.world
    unfolding wake_get_waiters wake_put_waiters
    round-IsQuiet h =
        let same = puts-IsPass.idle (ground arith) in
        record { gets = ground (arith, same, gets-IsPass.settled); puts = puts-IsPass.settled }

  -- With more fuel than waiters the cascade ends, in a state in which no live waiter at the head
  -- of a queue can be served; it cancels nobody and keeps the capacity.
  pub cascade_total :
      (fuel : ℕ) (s : ContainerState f) (w : World)
      → queued s < fuel
      → (r : ContainerState f × World) × (cascade f fuel s w ≡ some r) × Cascaded s w r
  unfolding cascade
  cascade_total zero s w h = absurd (omega arith)
  cascade_total (suc fuel) s w h =
      let p = after_puts s w in
      elim (Bool-cases (not (after_gets s w).serviced && not p.serviced)) [
        | inl stop ↦ (
          (p.state, p.world),
          rw stop refl,
          record {
            rests = round-IsQuiet s w stop;
            kept = round_kept s w;
            same = round_capacity s w;
            next = round_next s w;
            made = round-Made s w;
          },
        )
        | inr more ↦
            let (r, found, c) =
              cascade_total fuel p.state p.world (omega (arith, round_fewer s w more)) in
            (
              r,
              rw more found,
              record {
                rests = c.rests;
                kept = λ a. c.kept a ∙ round_kept s w a;
                same = c.same ∙ round_capacity s w;
                next = c.next ∙ round_next s w;
                made = λ n h. c.made n (round-Made s w n h);
              },
            )
      ]

  pub trigger_cascade-Cascaded :
      (s : ContainerState f) (w : World) → Cascaded s w (trigger_cascade f s w)
  unfolding trigger_cascade
  trigger_cascade-Cascaded s w =
      let (r, found, c) = cascade_total (rounds f s) s w (omega arith) in rw found c
