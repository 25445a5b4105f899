-- ===== src/Compare/Queue/Books/Polling.antt =====
-- examples/compare.rs: the books of a simulated queue after a poll of a request.
use sim_core.Base.{
  ℕ, ◌≡◌, ◌≢◌, sym, ap, ◌∙◌, subst, ◌⊎◌, inl, inr, true, false, Option, none, some, All-imp, arith,
  update, ◌==◌, Bool-cases,
}
use sim_core.Base.Order.{Ord}
use sim_core.Executor.Waker.{make_waker}
use sim_core.WaitQueue.{WaitQueue, World}
use sim_core.Request
use sim_core.Request.{Request, Polled, Pool, make_request, after_poll, after_drop, after_drop_guard}
use sim_core.Request.Effects.{PollEffect, poll-Effect}
use sim_core.Request.Invariant.{Inv, poll-Inv, drop-Inv}
use sim_core.Compare.Queue.Books.{
  Role, holds, asks, pool_of, Owned, Booked, Asking, quiet-Inv, guards-Inv, held-update,
}

module _ {K : Type 0} ⦃o : Ord K⦄ where
  pub role_at :
      (roles : ℕ → Role K) (id : ℕ) (role : Role K) (i : ℕ) (r : Request K)
      → update roles id role i ≡ asks r
      → ((id ≡ i) × (role ≡ asks r)) ⊎ ((id ≢ i) × (roles i ≡ asks r))
  role_at roles id role i r h = elim (Bool-cases (id == i)) [
    | inl here ↦ inl (ground arith, ground arith)
    | inr there ↦ inr (ground arith, ground arith)
  ]

  request_at :
      (requests : ℕ → Option (Request K)) (a : ℕ) (x : Option (Request K)) (b : ℕ) (r : Request K)
      → update requests a x b ≡ some r
      → ((a ≡ b) × (x ≡ some r)) ⊎ ((a ≢ b) × (requests b ≡ some r))
  request_at requests a x b r h = elim (Bool-cases (a == b)) [
    | inl here ↦ inl (ground arith, ground arith)
    | inr there ↦ inr (ground arith, ground arith)
  ]

  pub role-here : (roles : ℕ → Role K) (id : ℕ) (role : Role K) → update roles id role id ≡ role
  role-here roles id role = ground arith

  pub role-there :
      (roles : ℕ → Role K) (id : ℕ) (role : Role K) (i : ℕ)
      → id ≢ i
      → update roles id role i ≡ roles i
  role-there roles id role i ne = ground arith

  asks_inj : (r s : Request K) → asks r ≡ asks s → r ≡ s
  asks_inj r s h = cc h

  some_inj : (r s : Request K) → some r ≡ some s → r ≡ s
  some_inj r s h = cc h

  drop-consumed :
      (r : Request K) (q : WaitQueue K) (w : World)
      → r.consumed ≡ true
      → Request.drop r q w ≡ (q, w)
  unfolding Request.drop
  drop-consumed r q w h = cc h

  -- After a poll, by what it does to the pool.
  module _ (n : ℕ) (roles : ℕ → Role K) (q : WaitQueue K) (w : World) (id : ℕ) (r : Request K)
      (A : Asking K n roles q w id r) (p : Polled K) (eff : PollEffect r (make_waker id) q w p)
      (inv : Inv 0 (after_poll (pool_of K n roles A.requests q w) r.flags p)) where
    pending-Booked :
        p.ready ≡ false → Booked K n (update roles id (asks p.request)) p.queue p.world.flags
    unfolding after_poll
    pending-Booked pending = record {
      requests = update A.requests r.flags (some p.request);
      pool =
          guards-Inv K 0 _ _
            (ground (arith, pending, A.unheld, held-update K n id roles (asks p.request) A.below))
            (quiet-Inv K 0 _ inv);
      roomy = ground (arith, A.roomy, eff.capacity);
      beyond = λ i le. ground (arith, A.beyond i le, A.below);
      known = λ a r' e. elim (request_at A.requests r.flags (some p.request) a r' e) [
        | inl (here, x) ↦
            let same = some_inj p.request r' x in
            (
              ap (λ s. s.consumed) (sym same) ∙ (eff.waits pending).1 ∙ A.unconsumed,
              ap (λ s. s.registered) (sym same) ∙ (eff.waits pending).0,
              id,
              role-here roles id (asks p.request) ∙ ap asks same,
            )
        | inr (there, x) ↦
            let (c, g, i, ne, e') = A.known a r' there x in
            (c, g, i, role-there roles id (asks p.request) i ne ∙ e')
      ];
      asked = λ i r' e. elim (role_at roles id (asks p.request) i r' e) [
        | inl (here, x) ↦
            let same = asks_inj p.request r' x in
            ground (arith, eff.address, ap (λ s. s.flags) same, ap some same)
        | inr (there, x) ↦ ground (arith, A.asked i r' there x)
      ];
      single = λ i j s s' e g same. elim (role_at roles id (asks p.request) i s e) [
        | inl (here, x) ↦ elim (role_at roles id (asks p.request) j s' g) [
          | inl (here', x') ↦ sym here ∙ here'
          | inr (there', x') ↦ absurd (
              (A.asked j s' there' x').1
                (sym eff.address ∙ ap (λ s. s.flags) (asks_inj p.request s x) ∙ same))
        ]
        | inr (there, x) ↦ elim (role_at roles id (asks p.request) j s' g) [
          | inl (here', x') ↦ absurd (
              (A.asked i s there x).1
                (sym eff.address ∙ ap (λ s. s.flags) (asks_inj p.request s' x') ∙ sym same))
          | inr (there', x') ↦ A.single i j s s' x x' same
        ]
      ];
      owned =
          eff.waiters (Owned K (update roles id (asks p.request)))
            (λ key seq i r' e same. elim (role_at roles id (asks p.request) i r' e) [
              | inl (here, x) ↦ here
              | inr (there, x) ↦ absurd ((A.asked i r' there x).1 (sym same))
            ])
            (All-imp _ _ q.waiters
              (λ x own i r' e same. elim (role_at roles id (asks p.request) i r' e) [
                | inl (here, y) ↦
                    own.1 (sym eff.address ∙ ap (λ s. s.flags) (asks_inj p.request r' y) ∙ same)
                    ∙ here
                | inr (there, y) ↦ own.0 i r' there y same
              ])
              A.owned);
    }

    ready-Booked : p.ready ≡ true → Booked K n (update roles id holds) p.queue p.world.flags
    unfolding after_poll after_drop
    ready-Booked ready =
        let s = after_poll (pool_of K n roles A.requests q w) r.flags p in
        let dropped = drop-Inv s inv r.flags p.request (ground arith) in
        record {
          requests = update (update A.requests r.flags (some p.request)) r.flags none;
          pool =
              guards-Inv K 0 _ _
                (ground (arith, ready, A.unheld, held-update K n id roles holds A.below))
                (quiet-Inv K 0 _ (
                  subst (λ r'. Inv 0 (after_drop s r.flags r'))
                    (drop-consumed p.request p.queue p.world (eff.takes ready)) dropped));
          roomy = ground (arith, A.roomy, eff.capacity);
          beyond = λ i le. ground (arith, A.beyond i le, A.below);
          known = λ a r' e.
              elim (request_at (update A.requests r.flags (some p.request)) r.flags none a r' e) [
                | inl (here, x) ↦ absurd cc
                | inr (there, x) ↦
                    let (c, g, i, ne, e') = A.known a r' there (ground arith) in
                    (c, g, i, role-there roles id holds i ne ∙ e')
              ];
          asked = λ i r' e. elim (role_at roles id holds i r' e) [
            | inl (here, x) ↦ absurd cc
            | inr (there, x) ↦ ground (arith, A.asked i r' there x)
          ];
          single = λ i j s s' e g same. elim (role_at roles id holds i s e) [
            | inl (here, x) ↦ absurd cc
            | inr (there, x) ↦ elim (role_at roles id holds j s' g) [
              | inl (here', x') ↦ absurd cc
              | inr (there', x') ↦ A.single i j s s' x x' same
            ]
          ];
          owned =
              eff.waiters (Owned K (update roles id holds))
                (λ key seq i r' e same. elim (role_at roles id holds i r' e) [
                  | inl (here, x) ↦ absurd cc
                  | inr (there, x) ↦ absurd ((A.asked i r' there x).1 (sym same))
                ])
                (All-imp _ _ q.waiters
                  (λ x own i r' e same. elim (role_at roles id holds i r' e) [
                    | inl (here, y) ↦ absurd cc
                    | inr (there, y) ↦ own.0 i r' there y same
                  ])
                  A.owned);
        }

  module _ (n : ℕ) (roles : ℕ → Role K) (q : WaitQueue K) (w : World) (id : ℕ) (r : Request K)
      (A : Asking K n roles q w id r) where
    -- A process whose request is ready has a guard, and one whose request is not has asked.
    pub poll-Booked :
        let p = Request.poll r (make_waker id) q w in
        (p.ready ≡ true → Booked K n (update roles id holds) p.queue p.world.flags)
        × (p.ready ≡ false → Booked K n (update roles id (asks p.request)) p.queue p.world.flags)
    poll-Booked =
        let p = Request.poll r (make_waker id) q w in
        let eff = poll-Effect r (make_waker id) q w in
        let inv =
          poll-Inv (pool_of K n roles A.requests q w) A.pool r.flags r A.here (make_waker id)
            A.unconsumed in
        (ready-Booked n roles q w id r A p eff inv, pending-Booked n roles q w id r A p eff inv)
