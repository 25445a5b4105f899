-- ===== src/Preemptive/Books/Drops.antt =====
-- src/resource/preemptive.rs: the books of a preemptive pool after requests and guards are dropped.
use sim_core.Base.{
  ℕ, suc, ◌+◌, ◌≤◌, ◌<◌, ◌≡◌, ◌≢◌, refl, sym, subst, Bool, true, false, List, Option, none, some,
  arith, length, update, if◌then◌else◌,
}
use sim_core.Base.Order.{nat_ord}
use sim_core.WaitQueue.{World, is_granted, release, set_canceled}
use sim_core.Request.{Request}
use sim_core.Preemptive.{
  Holder, PreemptiveGuard, Scene, granted, remove_id, drop_guard, drop, released,
}
use sim_core.Preemptive.Pool.{PreemptivePool, drop_at, drop_guard_at}
use sim_core.Preemptive.Books.Holders.{Held, holds, leave-Held, forget-Held, length-remove_id}
use sim_core.Preemptive.Books.Units.{handed_in, Books, release-Released}
use sim_core.Preemptive.Books.Steps.{handed_change}

-- A unit is released, by a request that was handed it or by the guard of a holder that leaves.
released-Books :
    (c n : ℕ) (s : PreemptivePool)
    → Books c (suc n) s
    → (hs : List Holder) (rs : ℕ → Option (Request ℕ)) (gs : ℕ → Option PreemptiveGuard)
    → let kept = record (s.scene) { state = record (s.scene.state) { holders = hs } } in
      Held kept gs
      → length hs + handed_in rs s.scene.world + 1 ≤ s.scene.state.wq.in_use
      → ((a : ℕ) (r : Request ℕ) → rs a ≡ some r → r.flags ≡ a)
      → ((a : ℕ) → s.scene.world.flags.next ≤ a → rs a ≡ none)
      → Books c n (record {
        scene = released kept (release s.scene.state.wq s.scene.world);
        requests = rs;
        guards = gs;
      })
released-Books c n s books hs rs gs held spare own unused =
    let f =
      release-Released rs (length hs) s.scene.state.wq s.scene.world (omega (arith, books.size))
        books.bounded spare in
    record {
      room = omega (arith, books.room);
      held = record {
        synced = held.synced;
        numbered = held.numbered;
        own = held.own;
        backed = held.backed;
      };
      size = ground (arith, books.size, f.capacity);
      bounded = omega (arith, f.bounded, f.capacity);
      covered = f.covered;
      own = own;
      unused = λ a le. unused a (omega (arith, f.next));
    }

module _ (c n : ℕ) (s : PreemptivePool) (books : Books c (suc n) s) where
  open books use {room, held, size, bounded, covered, own, unused}

  -- A request goes that has not been handed a unit.
  gone-Books :
      (a : ℕ) (r : Request ℕ)
      → s.requests a ≡ some r
      → (w : World) → w.flags.next ≡ s.scene.world.flags.next
      → ((b : ℕ) → a ≢ b → w.flags.cell b ≡ s.scene.world.flags.cell b)
      → Books c n
          (record s { scene = record (s.scene) { world = w }; requests = update s.requests a none })
  gone-Books a r e w next cells = record {
    room = omega (arith, room);
    held = record {
      synced = held.synced;
      numbered = held.numbered;
      own = held.own;
      backed = held.backed;
    };
    size = size;
    bounded = bounded;
    covered = omega (arith, covered, handed_change c n s books a r e none w next cells);
    own = λ b q. ground (arith, own b q);
    unused = λ b le. ground (arith, unused b, next);
  }

  pub drop-Books :
      (a : ℕ) (r : Request ℕ) → s.requests a ≡ some r → Books c n (drop_at s a (some r))
  unfolding drop
  drop-Books a r e = go r.consumed refl
    where
      Left : Scene → Type 0
      Left sc = Books c n (record s { scene = sc; requests = update s.requests a none })

      same : Left s.scene
      same = gone-Books a r e s.scene.world refl (λ b ne. refl)

      parked :
          (b : Bool)
          → Left (
              if b
              then record (s.scene) { world = set_canceled r.flags s.scene.world }
              else s.scene)
      parked true =
          gone-Books a r e (set_canceled r.flags s.scene.world) refl
            (λ b ne. ground (arith, own a r e))
      parked false = same

      live :
          (b : Bool)
          → r.consumed ≡ false
          → is_granted s.scene.world r.flags ≡ b
          → Left (
              if b
              then released s.scene (release s.scene.state.wq s.scene.world)
              else (if r.registered
                  then record (s.scene) { world = set_canceled r.flags s.scene.world }
                  else s.scene))
      live true f granted =
          released-Books c n s books s.scene.state.holders (update s.requests a none) s.guards
            (record {
              synced = held.synced;
              numbered = held.numbered;
              own = held.own;
              backed = held.backed;
            })
            (ground (
              arith,
              covered,
              own a r e,
              f,
              granted,
              handed_change c n s books a r e none s.scene.world refl (λ b ne. refl),
            ))
            (λ b q. ground (arith, own b q)) (λ b le. ground (arith, unused b))
      live false f granted = parked r.registered

      go :
          (b : Bool)
          → r.consumed ≡ b
          → Left (
              if b
              then s.scene
              else (if is_granted s.scene.world r.flags
                  then released s.scene (release s.scene.state.wq s.scene.world)
                  else (if r.registered
                      then record (s.scene) { world = set_canceled r.flags s.scene.world }
                      else s.scene)))
      go true f = same
      go false f = live (is_granted s.scene.world r.flags) f refl

  pub drop_guard-Books :
      (a : ℕ) (g : PreemptiveGuard) → s.guards a ≡ some g → Books c n (drop_guard_at s a (some g))
  unfolding drop_guard
  drop_guard-Books a g e = go (s.scene.signals.cell g.signal).preempted refl
    where
      hs : List Holder
      hs = remove_id g.id s.scene.state.holders

      kept : Scene
      kept = record (s.scene) { state = record (s.scene.state) { holders = hs } }

      go :
          (b : Bool)
          → (s.scene.signals.cell g.signal).preempted ≡ b
          → Books c n (record s {
            scene = if b then s.scene else released kept (release kept.state.wq kept.world);
            guards = update s.guards a none;
          })
      go true f = record {
        room = omega (arith, room);
        held = forget-Held s.scene s.guards a held;
        size = size;
        bounded = bounded;
        covered = covered;
        own = own;
        unused = unused;
      }
      go false f =
          released-Books c n s books hs s.requests (update s.guards a none)
            (subst
              (λ b.
                Held
                  (record (s.scene) {
                    state = record (s.scene.state) { holders = remove_id b s.scene.state.holders };
                  })
                  (update s.guards a none))
              (sym (held.own a g e).0) (leave-Held s.scene s.guards a held))
            (omega (
              arith,
              covered,
              length-remove_id g.id s.scene.state.holders (
                  subst (λ b. 0 < holds b s.scene.state.holders) (sym (held.own a g e).0)
                    (held.backed a g e (
                      subst (λ b. (s.scene.signals.cell b).preempted ≡ false) (held.own a g e).1
                        f))),
            ))
            own unused
