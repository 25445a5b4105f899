-- ===== src/Preemptive/Polling.antt =====
-- src/resource/preemptive.rs: a poll of a request in a pool without a free unit.
use sim_core.Base.{
  ℕ, ◌+◌, ◌<◌, ◌≤◌, ◌≡◌, refl, ◌∙◌, sym, ap, subst, List, [], ◌∷◌, ◌++◌, Option, none, some, arith,
  ltb, Bool, true, false, if◌then◌else◌, length, All, count,
}
use sim_core.Base.Order.{nat_ord}
use sim_core.Event.{fire}
use sim_core.Heap.{count-push}
use sim_core.Executor.Waker.{SimWaker}
use sim_core.Request.{Request}
use sim_core.WaitQueue.{
  register, Entry, entry_ord, WaitQueue, is_granted, is_canceled, try_acquire, hand_off, release,
  settle, wake, set_granted,
}
use sim_core.Preemptive.{
  Holder, PreemptiveGuard, Scene, Polled, victim_index, remove, grant, signal_preempted, preempt,
  poll, drop, contend, attempt, block, granted, released, released, drop_guard,
}
use sim_core.Preemptive.Victim.{Chosen, IsVictim, victim_index-Chosen}

pub remove-split :
    (before : List Holder) (v : Holder) (after : List Holder)
    → remove (length before) (before ++ v ∷ after) ≡ some (v, before ++ after)
unfolding remove
remove-split [] v after = refl
remove-split (h ∷ hs) v after = rw (remove-split hs v after) refl

-- The cells of the holders have been made.
abbrev pub AreAllocated : Scene → Type 0
AreAllocated sc = All (λ (h : Holder). h.signal < sc.signals.next) sc.state.holders

-- The request takes the unit of `victim`: the queue stays as it is, the victim's entry goes and one
-- for the request comes last, the request is done, and the victim's guard, if it is dropped, changes
-- nothing.
pub record Evicts (r : Request ℕ) (sc : Scene) (p : Polled) : Type 0 where
  pub before : List Holder
  pub victim : Holder
  pub after : List Holder
  pub lower : r.key < victim.priority
  pub held : sc.state.holders ≡ before ++ victim ∷ after
  pub guard : PreemptiveGuard
  pub ready : p.guard ≡ some guard
  pub consumed : p.request.consumed ≡ true
  pub holds :
      p.scene.state.holders
      ≡ (before ++ after)
        ++ (record { priority = r.key; id = guard.id; signal = guard.signal }) ∷ []
  pub same_queue : p.scene.state.wq ≡ sc.state.wq
  pub same_flags : p.scene.world.flags ≡ sc.world.flags
  pub told : drop_guard (record { id = victim.id; signal = victim.signal }) p.scene ≡ p.scene

-- The waiters after the poll, where the request was in the queue already, and where it was not:
-- its entry has come to those that were there, and no other.
abbrev pub Queued : Bool → Request ℕ → SimWaker → WaitQueue ℕ → WaitQueue ℕ → Type 0
Queued true r waker q q' = q' ≡ q
Queued false r waker q q' =
    ((t : Entry ℕ → Bool)
      → count t q'.waiters
        ≡ (if t (record { key = r.key; seq = q.next_seq; waker = waker; flags = r.flags })
            then 1
            else 0)
          + count t q.waiters)
    × (q'.in_use ≡ q.in_use)
    × (q'.capacity ≡ q.capacity)

-- The request is not done and is in the queue, once; all but the queue is as it was.
pub record Waits (r : Request ℕ) (waker : SimWaker) (sc : Scene) (p : Polled) : Type 0 where
  pub idle : p.guard ≡ none
  pub still : p.request ≡ record r { registered = true }
  pub holders : p.scene.state.holders ≡ sc.state.holders
  pub same_world : p.scene.world ≡ sc.world
  pub same_signals : p.scene.signals ≡ sc.signals
  pub queued : Queued r.registered r waker sc.state.wq p.scene.state.wq

-- What the poll does, by what `victim_index` answers.
abbrev pub Contended : Request ℕ → SimWaker → Scene → Option ℕ → Polled → Type 0
Contended r waker sc none p = Waits r waker sc p
Contended r waker sc (some i) p = Evicts r sc p

drop_guard-preempted :
    (g : PreemptiveGuard) (sc : Scene)
    → (sc.signals.cell g.signal).preempted ≡ true
    → drop_guard g sc ≡ sc
unfolding drop_guard
drop_guard-preempted g sc h = rw h refl

All-middle :
    (n : ℕ) (before : List Holder) (v : Holder) (after : List Holder)
    → All (λ (h : Holder). h.signal < n) (before ++ v ∷ after)
    → v.signal < n
All-middle n [] v after h = h.0
All-middle n (x ∷ xs) v after h = All-middle n xs v after h.1

preempt-Evicts :
    (r : Request ℕ) (sc : Scene) (i k : ℕ)
    → AreAllocated sc
    → IsVictim r.key i k sc.state.holders
    → (p : Polled) × (preempt r sc (remove i sc.state.holders) ≡ some p) × Evicts r sc p
unfolding preempt grant signal_preempted fire drop_guard
preempt-Evicts r sc i k made v = (
  granted r (grant r.key (signal_preempted v.victim (without (v.before ++ v.after)))),
  ap (preempt r sc) (
      ap (λ hs. remove i hs) v.split
      ∙ ap (λ j. remove j (v.before ++ v.victim ∷ v.after)) (sym v.position)
      ∙ remove-split v.before v.victim v.after),
  record {
    before = v.before;
    victim = v.victim;
    after = v.after;
    lower = omega (arith, v.worse, v.priority);
    held = v.split;
    guard = record { id = sc.state.next_holder_id; signal = sc.signals.next };
    ready = refl;
    consumed = refl;
    holds = refl;
    same_queue = refl;
    same_flags = refl;
    told = drop_guard-preempted _ _ (ground (arith, fresh));
  },
)
  where
    without : List Holder → Scene
    without hs = record sc { state = record (sc.state) { holders = hs } }

    fresh : v.victim.signal < sc.signals.next
    fresh =
        All-middle _ v.before v.victim v.after
          (subst (All (λ (h : Holder). h.signal < sc.signals.next)) v.split made)

contend-Contended :
    (r : Request ℕ) (waker : SimWaker) (sc : Scene) (o : Option ℕ)
    → AreAllocated sc
    → Chosen r.key sc.state.holders o
    → (p : Polled) × (contend r waker sc o ≡ some p) × Contended r waker sc o p
unfolding block register
contend-Contended r waker sc none made none_worse =
    (block r waker sc, refl, waits r.registered refl)
  where
    scene : Bool → Scene
    scene b = if b then sc else record sc {
      state = record (sc.state) { wq = register r.key waker r.flags sc.state.wq };
    }

    waits :
        (b : Bool)
        → r.registered ≡ b
        → Waits r waker sc
            (record { guard = none; request = record r { registered = true }; scene = scene b })
    waits true e = record {
      idle = refl;
      still = refl;
      holders = refl;
      same_world = refl;
      same_signals = refl;
      queued = subst (λ b. Queued b r waker sc.state.wq sc.state.wq) (sym e) refl;
    }
    waits false e = record {
      idle = refl;
      still = refl;
      holders = refl;
      same_world = refl;
      same_signals = refl;
      queued =
          subst (λ b. Queued b r waker sc.state.wq (register r.key waker r.flags sc.state.wq))
            (sym e) ((λ t. count-push ⦃o = entry_ord⦄ t _ sc.state.wq.waiters), refl, refl);
    }
contend-Contended r waker sc (some i) made (k, v) = preempt-Evicts r sc i k made v

pub poll-full :
    (r : Request ℕ) (waker : SimWaker) (sc : Scene)
    → AreAllocated sc
    → is_granted sc.world r.flags ≡ false
    → sc.state.wq.capacity ≤ sc.state.wq.in_use
    → (p : Polled) × (poll r waker sc ≡ some p)
      × Contended r waker sc (victim_index r.key sc.state) p
unfolding poll try_acquire
poll-full r waker sc made ungranted full =
    subst
      (λ b.
        (p : Polled) × ((if b
            then some (granted r (grant r.key sc))
            else attempt r waker sc (try_acquire sc.state.wq))
          ≡ some p)
        × Contended r waker sc (victim_index r.key sc.state) p)
      (sym ungranted)
      (subst
        (λ b.
          (p : Polled) × (attempt r waker sc (
              if b
              then (true, record (sc.state.wq) { in_use = sc.state.wq.in_use + 1 })
              else (false, sc.state.wq))
            ≡ some p)
          × Contended r waker sc (victim_index r.key sc.state) p)
        (sym busy) (contend-Contended r waker sc _ made (victim_index-Chosen r.key sc.state)))
  where
    busy : ltb sc.state.wq.in_use sc.state.wq.capacity ≡ false
    busy = ground arith

-- The first waiter's cell is granted by a release, and `in_use` stays.
release-first :
    (sc : Scene) (e : Entry ℕ) (es : List (Entry ℕ))
    → sc.state.wq.waiters ≡ e ∷ es
    → is_canceled sc.world e.flags ≡ false
    → ((release sc.state.wq sc.world).0.in_use ≡ sc.state.wq.in_use)
      × (is_granted (release sc.state.wq sc.world).1 e.flags ≡ true)
unfolding release hand_off
release-first sc e es first live =
    subst
      (λ o.
        ((settle sc.state.wq sc.world o).0.in_use ≡ sc.state.wq.in_use)
        × (is_granted (settle sc.state.wq sc.world o).1 e.flags ≡ true))
      (sym found) (refl, ground arith)
  where
    found :
        hand_off sc.world sc.state.wq.waiters
        ≡ some (es, wake e.waker (set_granted e.flags sc.world))
    found = ap (hand_off sc.world) first ∙ rw live refl

drop-consumed : (r : Request ℕ) (sc : Scene) → r.consumed ≡ true → drop r sc ≡ sc
unfolding drop
drop-consumed r sc h = rw h refl

-- A request that is first in the queue of a pool without a free unit and is polled before it is
-- handed anything, at a time when a holder has a lower priority, evicts that holder and returns.
-- Its entry stays in the queue: the next unit that is released goes to the request that is done,
-- `in_use` does not fall, and dropping the request does not give the unit back.
pub poll_strands :
    (r : Request ℕ) (waker : SimWaker) (sc : Scene) (e : Entry ℕ) (es : List (Entry ℕ)) (i : ℕ)
    → AreAllocated sc
    → is_granted sc.world r.flags ≡ false
    → sc.state.wq.capacity ≤ sc.state.wq.in_use
    → sc.state.wq.waiters ≡ e ∷ es
    → e.flags ≡ r.flags
    → is_canceled sc.world r.flags ≡ false
    → victim_index r.key sc.state ≡ some i
    → (p : Polled) × (poll r waker sc ≡ some p)
      × (let (wq, w) = release p.scene.state.wq p.scene.world in
          (wq.in_use ≡ sc.state.wq.in_use)
          × (is_granted w r.flags ≡ true)
          × (drop p.request (released p.scene (wq, w)) ≡ released p.scene (wq, w)))
poll_strands r waker sc e es i made ungranted full first mine live victim =
    let (p, polled, did) = poll-full r waker sc made ungranted full in
    (p, polled, stranded p (subst (λ o. Contended r waker sc o p) victim did))
  where
    stranded :
        (p : Polled)
        → Evicts r sc p
        → let (wq, w) = release p.scene.state.wq p.scene.world in
          (wq.in_use ≡ sc.state.wq.in_use)
          × (is_granted w r.flags ≡ true)
          × (drop p.request (released p.scene (wq, w)) ≡ released p.scene (wq, w))
    stranded p ev =
        let (same, handed) =
          release-first p.scene e es (ap (λ q. q.waiters) ev.same_queue ∙ first) (
            subst (λ f. (f.cell e.flags).canceled ≡ false) (sym ev.same_flags)
              (subst (λ a. is_canceled sc.world a ≡ false) (sym mine) live)) in
        (
          same ∙ ap (λ q. q.in_use) ev.same_queue,
          subst (λ a. is_granted (release p.scene.state.wq p.scene.world).1 a ≡ true) mine handed,
          drop-consumed _ _ ev.consumed,
        )
