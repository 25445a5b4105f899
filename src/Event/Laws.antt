-- ===== src/Event/Laws.antt =====
-- src/event.rs: an event that is polled by several processes and then fired.
use sim_core.Base.{
  ℕ, ◌+◌, ◌≤◌, ◌≡◌, refl, sym, ◌∙◌, true, false, List, [], ◌∷◌, ◌++◌, map, any, count, arith, ◌==◌,
  Bool-cases, inl, inr, count-append,
}
use Prim.Native.Nat.{min}
use mathlib.Core.List.{append_assoc, append-nil}
use sim_core.Executor.Waker.{SimWaker, will_wake}
use sim_core.Event.{EventState, new_event, wake_all, fire, poll}

-- Polls by the given wakers, one after the other.
pub polled_by : List SimWaker → EventState → EventState
polled_by [] s = s
polled_by (w ∷ ws) s = polled_by ws (poll w s).1

-- How often a process is to be woken.
abbrev pub waiting : ℕ → List SimWaker → ℕ
waiting id ws = count (λ w. w.process_id == id) ws

wake_all-append :
    (ws : List SimWaker) (q : List ℕ) → wake_all ws q ≡ q ++ map (λ w. w.process_id) ws
unfolding wake_all
wake_all-append [] q = sym (append-nil q)
wake_all-append (w ∷ ws) q =
    wake_all-append ws (q ++ w.process_id ∷ []) ∙ append_assoc q (w.process_id ∷ []) _

any-waiting :
    (w : SimWaker) (ws : List SimWaker)
    → any (λ v. will_wake v w) ws ≡ false
    → waiting w.process_id ws ≡ 0
any-waiting w [] h = refl
any-waiting w (v ∷ ws) h = ground (arith, any-waiting w ws)

waiting-any :
    (w : SimWaker) (ws : List SimWaker)
    → any (λ v. will_wake v w) ws ≡ true
    → 1 ≤ waiting w.process_id ws
waiting-any w [] h = cc
waiting-any w (v ∷ ws) h = ground (arith, waiting-any w ws)

poll_once :
    (w : SimWaker) (s : EventState) (id : ℕ)
    → waiting id s.waiters ≤ 1
    → waiting id (poll w s).1.waiters ≤ 1
unfolding poll
poll_once w s id h = elim (Bool-cases s.fired) [
  | inl f ↦ ground arith
  | inr f ↦
      ground
        (arith, any-waiting w s.waiters, count-append (λ v. v.process_id == id) s.waiters (w ∷ []))
]

poll_keeps :
    (w : SimWaker) (s : EventState) (id : ℕ)
    → waiting id s.waiters ≤ waiting id (poll w s).1.waiters
unfolding poll
poll_keeps w s id = ground (arith, count-append (λ v. v.process_id == id) s.waiters (w ∷ []))

poll_adds :
    (w : SimWaker) (s : EventState)
    → s.fired ≡ false
    → 1 ≤ waiting w.process_id (poll w s).1.waiters
unfolding poll
poll_adds w s f = ground (
  arith,
  waiting-any w s.waiters,
  count-append (λ v. v.process_id == w.process_id) s.waiters (w ∷ []),
)

poll_unfired : (w : SimWaker) (s : EventState) → s.fired ≡ false → (poll w s).1.fired ≡ false
unfolding poll
poll_unfired w s f = ground arith

polled_keeps :
    (ws : List SimWaker) (s : EventState) (id : ℕ)
    → waiting id s.waiters ≤ waiting id (polled_by ws s).waiters
unfolding polled_by
polled_keeps [] s id = omega arith
polled_keeps (w ∷ ws) s id = omega (arith, poll_keeps w s id, polled_keeps ws (poll w s).1 id)

polled_counts :
    (ws : List SimWaker) (s : EventState) (id : ℕ)
    → s.fired ≡ false
    → waiting id s.waiters ≤ 1
    → (waiting id (polled_by ws s).waiters ≤ 1)
      × (1 ≤ waiting id ws → 1 ≤ waiting id (polled_by ws s).waiters)
unfolding polled_by
polled_counts [] s id f h = (h, λ z. absurd (omega arith))
polled_counts (w ∷ ws) s id f h =
    let rest = polled_counts ws (poll w s).1 id (poll_unfired w s f) (poll_once w s id h) in
    (rest.0, ground (arith, rest.1, poll_adds w s f, polled_keeps ws (poll w s).1 id))

poll_few :
    (w : SimWaker) (s : EventState) (id : ℕ)
    → waiting id (poll w s).1.waiters ≤ waiting id s.waiters + waiting id (w ∷ [])
unfolding poll
poll_few w s id = ground (arith, count-append (λ v. v.process_id == id) s.waiters (w ∷ []))

polled_few :
    (ws : List SimWaker) (s : EventState) (id : ℕ)
    → waiting id (polled_by ws s).waiters ≤ waiting id s.waiters + waiting id ws
unfolding polled_by
polled_few [] s id = omega arith
polled_few (w ∷ ws) s id = omega (arith, poll_few w s id, polled_few ws (poll w s).1 id)

-- After polls by any processes, any number of times, `fire` puts each process that polled on the
-- ready queue exactly once and no other, behind what was there, in the order of the waiters; and
-- every later poll is ready at once and leaves the event as it is.
pub fire_wakes_once :
    (ws : List SimWaker) (q : List ℕ) (id : ℕ) (later : SimWaker)
    → let s = polled_by ws new_event in
      let r = fire s q in
      (r.1 ≡ q ++ map (λ w. w.process_id) s.waiters)
      × (waiting id s.waiters ≡ min 1 (waiting id ws))
      × (poll later r.0 ≡ (true, r.0))
unfolding fire new_event poll
fire_wakes_once ws q id later =
    let s : EventState = record { fired = false; waiters = [] } in
    (
      wake_all-append (polled_by ws s).waiters q,
      (let counts = polled_counts ws s id refl (omega arith) in
          let few : waiting id (polled_by ws s).waiters ≤ waiting id ws =
            omega (arith, polled_few ws s id) in
          grind (arith, counts.0, counts.1, few)),
      refl,
    )
