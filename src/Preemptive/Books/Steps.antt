-- ===== src/Preemptive/Books/Steps.antt =====
-- src/resource/preemptive.rs: the books of a preemptive pool through every step.
use sim_core.Base.{
  ℕ, suc, ◌+◌, ◌≤◌, ◌<◌, ◌≡◌, ◌≢◌, refl, ap, sym, subst, ◌∙◌, Bool, true, false, [], ◌∷◌, ◌++◌,
  Option, none, some, arith, length, length-append, update, total-change, if◌then◌else◌, ltb,
}
use sim_core.Base.Order.{nat_ord}
use sim_core.Executor.Waker.{SimWaker}
use sim_core.WaitQueue.{WaitQueue, World, is_granted, register, try_acquire}
use sim_core.Request.{Request}
use sim_core.Request.Invariant.{owed}
use sim_core.Preemptive.{
  Scene, grant, granted, signal_preempted, poll, attempt, contend, preempt, block, victim_index,
  remove,
}
use sim_core.Event.{fire}
use sim_core.Preemptive.Polling.{remove-split}
use sim_core.Preemptive.Victim.{IsVictim, Chosen, victim_index-Chosen}
use sim_core.Preemptive.Pool.{PreemptivePool, with_poll, after_poll}
use sim_core.Preemptive.Books.Holders.{Held, grant-Held, evict-Held}
use sim_core.Preemptive.Books.Units.{handed_in, handed, Books}

module _ (c n : ℕ) (s : PreemptivePool) (books : Books c (suc n) s) where
  open books use {room, held, size, bounded, covered, own, unused}

  module _ (a : ℕ) (r : Request ℕ) (e : s.requests a ≡ some r) where
    pub allocated : a < s.scene.world.flags.next
    allocated = ground (arith, unused a)

    -- The units handed out when only this request and its cells change.
    pub handed_change :
        (o : Option (Request ℕ)) (w : World)
        → w.flags.next ≡ s.scene.world.flags.next
        → ((b : ℕ) → a ≢ b → w.flags.cell b ≡ s.scene.world.flags.cell b)
        → handed_in (update s.requests a o) w + owed (some r) (s.scene.world.flags.cell a)
          ≡ handed s + owed o (w.flags.cell a)
    handed_change o w next cells =
        let v : ℕ → ℕ = λ b. owed (update s.requests a o b) (w.flags.cell b) in
        rw next (
          omega (
            arith,
            total-change s.scene.world.flags.next a v
                (λ b. owed (s.requests b) (s.scene.world.flags.cell b)) allocated
                (λ b ne. ground (arith, cells b ne)),
            (let before : owed (s.requests a) (s.scene.world.flags.cell a)
                    ≡ owed (some r) (s.scene.world.flags.cell a) =
                  ap (λ q. owed q (s.scene.world.flags.cell a)) e in
                before),
            (let after : v a ≡ owed o (w.flags.cell a) = ground arith in after),
          ))

    -- A request whose poll makes a guard is owed nothing more.
    consumed-Books :
        (sc : Scene)
        → Held sc s.guards
        → sc.world.flags ≡ s.scene.world.flags
        → sc.signals.next ≡ s.scene.signals.next
        → sc.state.wq.capacity ≡ s.scene.state.wq.capacity
        → sc.state.wq.in_use ≤ sc.state.wq.capacity
        → length sc.state.holders + 1 + handed s
          ≤ sc.state.wq.in_use + owed (some r) (s.scene.world.flags.cell a)
        → Books c n (with_poll s a (granted r (grant r.key sc)))
    unfolding grant
    consumed-Books sc h flags signals capacity below fits =
        let t = with_poll s a (granted r (grant r.key sc)) in
        record {
          room = omega (arith, room);
          held = grant-Held r.key sc s.guards (omega (arith, room)) h;
          size = ground (arith, size);
          bounded = below;
          covered = omega (
            arith,
            fits,
            length-append sc.state.holders (
                record { priority = r.key; id = sc.state.next_holder_id; signal = sc.signals.next }
                ∷ []),
            handed_change (some (record r { consumed = true })) sc.world (ap (λ f. f.next) flags)
                (λ b ne. ap (λ f. f.cell b) flags),
          );
          own = λ b q f. ground (arith, own b q, own a r e);
          unused = λ b le. ground (arith, unused b, allocated);
        }

    at : r.flags ≡ a
    at = own a r e

    -- The request is as it was, or has taken its place in the queue.
    queued-Books :
        (q : WaitQueue ℕ)
        → q.in_use ≡ s.scene.state.wq.in_use
        → q.capacity ≡ s.scene.state.wq.capacity
        → Books c n (record {
          scene = record (s.scene) { state = record (s.scene.state) { wq = q } };
          requests = update s.requests a (some (record r { registered = true }));
          guards = s.guards;
        })
    queued-Books q used capacity = record {
      room = omega (arith, room);
      held = record {
        synced = held.synced;
        numbered = held.numbered;
        own = held.own;
        backed = held.backed;
      };
      size = ground (arith, size);
      bounded = omega (arith, bounded);
      covered = omega (
        arith,
        covered,
        handed_change (some (record r { registered = true })) s.scene.world refl (λ b ne. refl),
      );
      own = λ b p f. ground (arith, own b p, at);
      unused = λ b le. ground (arith, unused b, allocated);
    }

    block-Books : (waker : SimWaker) → Books c n (with_poll s a (block r waker s.scene))
    unfolding block register
    block-Books waker = go r.registered
      where
        go :
            (b : Bool)
            → Books c n (
                with_poll s a (record {
                  guard = none;
                  request = record r { registered = true };
                  scene = if b then s.scene else record (s.scene) {
                    state = record (s.scene.state) {
                      wq = register r.key waker r.flags s.scene.state.wq;
                    };
                  };
                }))
        go true = queued-Books s.scene.state.wq refl refl
        go false = queued-Books (register r.key waker r.flags s.scene.state.wq) refl refl

    preempt-Books :
        (i : ℕ)
        → (p : ℕ) × IsVictim r.key i p s.scene.state.holders
        → Books c n (after_poll s a (preempt r s.scene (remove i s.scene.state.holders)))
    unfolding preempt signal_preempted fire
    preempt-Books i (p, v) =
        let without = record (s.scene) {
          state = record (s.scene.state) { holders = v.before ++ v.after };
        } in
        let found : remove i s.scene.state.holders ≡ some (v.victim, v.before ++ v.after) =
          ap (λ hs. remove i hs) v.split
          ∙ ap (λ j. remove j (v.before ++ v.victim ∷ v.after)) (sym v.position)
          ∙ remove-split v.before v.victim v.after in
        subst (λ o. Books c n (after_poll s a (preempt r s.scene o))) (sym found)
          (consumed-Books (signal_preempted v.victim without)
            (evict-Held s.scene s.guards v.before v.victim v.after v.split held) refl refl refl
            bounded
            (omega (
              arith,
              covered,
              ap length v.split,
              length-append v.before (v.victim ∷ v.after),
              length-append v.before v.after,
            )))

    contend-Books :
        (waker : SimWaker) (o : Option ℕ)
        → Chosen r.key s.scene.state.holders o
        → Books c n (after_poll s a (contend r waker s.scene o))
    contend-Books waker none chosen = block-Books waker
    contend-Books waker (some i) chosen = preempt-Books i chosen

    pub poll-Books :
        (waker : SimWaker) → r.consumed ≡ false → Books c n (after_poll s a (poll r waker s.scene))
    unfolding poll try_acquire
    poll-Books waker live = go (is_granted s.scene.world r.flags) refl
      where
        free :
            (b : Bool)
            → ltb s.scene.state.wq.in_use s.scene.state.wq.capacity ≡ b
            → Books c n (
                after_poll s a (
                  attempt r waker s.scene (
                    if b
                    then (true, record (s.scene.state.wq) { in_use = s.scene.state.wq.in_use + 1 })
                    else (false, s.scene.state.wq))))
        free true f =
            consumed-Books
              (record (s.scene) {
                state = record (s.scene.state) {
                  wq = record (s.scene.state.wq) { in_use = s.scene.state.wq.in_use + 1 };
                };
              })
              (record {
                synced = held.synced;
                numbered = held.numbered;
                own = held.own;
                backed = held.backed;
              })
              refl refl refl (ground (arith, f)) (omega (arith, covered))
        free false f =
            contend-Books waker (victim_index r.key s.scene.state)
              (victim_index-Chosen r.key s.scene.state)

        go :
            (b : Bool)
            → is_granted s.scene.world r.flags ≡ b
            → Books c n (
                after_poll s a (
                  if b
                  then some (granted r (grant r.key s.scene))
                  else attempt r waker s.scene (try_acquire s.scene.state.wq)))
        go true f =
            consumed-Books s.scene held refl refl refl bounded
              (ground (arith, covered, f, live, at))
        go false f = free (ltb s.scene.state.wq.in_use s.scene.state.wq.capacity) refl
