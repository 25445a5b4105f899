-- ===== src/Request/Invariant/Dropping.antt =====
-- src/resource/mod.rs: the invariant after a request is dropped.
use sim_core.Base.{
  ℕ, ◌-◌, ◌≡◌, ◌≢◌, refl, sym, subst, Bool, true, false, none, some, arith, update, if◌then◌else◌,
  inl, inr, ◌⊎◌,
}
use sim_core.WaitQueue.{release, is_granted, set_canceled}
use sim_core.Request.{Request, Pool, after_drop, after_drop_guard, drop, drop_guard}
use sim_core.Request.Invariant.Defs.{owes, is_waiting, Inv, handed_change}
use sim_core.Request.Invariant.Releasing.{release-Inv}

module _ {ℓ} {K : Type ℓ} (s : Pool K) (inv : Inv 0 s) where
  open inv use {
    size, bounded, counted, unused, unqueued, once, full, backed, own, live, unseen, parked,
  }

  module _ (a : ℕ) (r : Request K) (e : s.requests a ≡ some r) where
    abbrev vacated : Pool K
    vacated = record s { requests = update s.requests a none }

    -- Unless it waits, a request leaves behind just the unit that it was owed.
    vacated-Inv :
        ((is_waiting (some r) ≡ false) ⊎ (is_granted s.world a ≡ true)) → Inv (owes s a) vacated
    vacated-Inv idle = record {
      size = size;
      bounded = bounded;
      counted =
          ground (arith, counted, handed_change s inv a r e vacated refl (λ b ne. ground arith));
      unused = λ b p. ground (arith, unused b);
      unqueued = unqueued;
      once = once;
      full = full;
      backed = λ b p q. ground (arith, backed b, idle);
      own = λ b x q. ground (arith, own b x);
      live = λ b x q. ground (arith, live b x);
      unseen = λ b x q u. ground (arith, unseen b x);
      parked = λ b x q u v w. ground (arith, parked b x);
    }

    nothing_owed :
        ((is_waiting (some r) ≡ false) ⊎ (is_granted s.world a ≡ true))
        → owes s a ≡ 0
        → Inv 0 vacated
    nothing_owed idle z = subst (λ n. Inv n vacated) z (vacated-Inv idle)

    abbrev canceled : Pool K
    canceled = record s { requests = update s.requests a none; world = set_canceled a s.world }

    canceled-Inv : is_granted s.world a ≡ false → Inv 0 canceled
    canceled-Inv g = record {
      size = size;
      bounded = bounded;
      counted =
          ground (arith, counted, handed_change s inv a r e canceled refl (λ b ne. ground arith));
      unused = λ b p. ground (arith, unused b);
      unqueued = unqueued;
      once = once;
      full = λ b p q. ground (arith, full b);
      backed = λ b p q. ground (arith, backed b);
      own = λ b x q. ground (arith, own b x);
      live = λ b x q. ground (arith, live b x);
      unseen = λ b x q u. ground (arith, unseen b x);
      parked = λ b x q u v w. ground (arith, parked b x);
    }

    drop_cases :
        (c g b : Bool)
        → r.consumed ≡ c
        → is_granted s.world a ≡ g
        → r.registered ≡ b
        → Inv 0 (
            after_drop s a (
              if c
              then (s.queue, s.world)
              else (if g
                  then release s.queue s.world
                  else (if b then (s.queue, set_canceled a s.world) else (s.queue, s.world)))))
    unfolding after_drop
    drop_cases true g b hc hg hb = nothing_owed (inl (ground arith)) (ground arith)
    drop_cases false true b hc hg hb =
        release-Inv vacated (subst (λ n. Inv n vacated) (ground arith) (vacated-Inv (inr hg)))
    drop_cases false false true hc hg hb = canceled-Inv hg
    drop_cases false false false hc hg hb = nothing_owed (inl (ground arith)) (ground arith)

    pub drop-Inv : Inv 0 (after_drop s a (drop r s.queue s.world))
    unfolding drop
    drop-Inv =
        subst
          (λ f. Inv 0 (
            after_drop s a (
              if r.consumed
              then (s.queue, s.world)
              else (if is_granted s.world f
                  then release s.queue s.world
                  else (if r.registered
                      then (s.queue, set_canceled f s.world)
                      else (s.queue, s.world))))))
          (sym (own a r e))
          (drop_cases r.consumed (is_granted s.world a) r.registered refl refl refl)

  pub drop_guard-Inv : s.guards ≢ 0 → Inv 0 (after_drop_guard s (drop_guard s.queue s.world))
  unfolding after_drop_guard drop_guard
  drop_guard-Inv held = release-Inv (record s { guards = s.guards - 1 }) one_over
    where
      one_over : Inv 1 (record s { guards = s.guards - 1 })
      one_over = record {
        size = size;
        bounded = bounded;
        counted = omega (arith, counted);
        unused = unused;
        unqueued = unqueued;
        once = once;
        full = full;
        backed = backed;
        own = own;
        live = live;
        unseen = unseen;
        parked = parked;
      }
