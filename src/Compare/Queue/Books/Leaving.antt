-- ===== src/Compare/Queue/Books/Leaving.antt =====
-- examples/compare.rs: the books of a simulated queue when a process leaves or comes.
use sim_core.Base.{
  ℕ, suc, ◌<◌, ◌≡◌, ◌≢◌, sym, ap, ◌∙◌, ◌⊎◌, inl, inr, true, [], ◌∷◌, All-imp, arith, update,
  total-suc,
}
use sim_core.Base.Order.{Ord}
use sim_core.Base.Store.{Store}
use native.Mathlib.Decide.{dec_lt}
use sim_core.WaitQueue.{WaitQueue, World, Flags, is_granted}
use sim_core.Request
use sim_core.Request.{Request, Polled, Pool, make_request, after_poll, after_drop, after_drop_guard}
use sim_core.Request.Effects.{ReleaseEffect, release-Effect}
use sim_core.Request.Invariant.{Inv, drop_guard-Inv}
use sim_core.Compare.Queue.Books.{
  Role, idle, holds, asks, held, quiet, pool_of, Owned, Booked, quiet-Inv, guards-Inv, held-update,
}
use sim_core.Compare.Queue.Books.Polling.{role_at, role-there}

module _ {K : Type 0} ⦃o : Ord K⦄ (n : ℕ) (roles : ℕ → Role K) (q : WaitQueue K)
    (flags : Store Flags) (b : Booked K n roles q flags) where
  held-below : (id : ℕ) → roles id ≡ holds → id < n
  held-below id e = elim (dec_lt id n) [
    | yes lt ↦ lt
    | no ge ↦ absurd (
        ground (
          arith,
          b.beyond id (omega arith),
          ap (held K) e,
          ap (held K) (b.beyond id (omega arith)),
        ))
  ]

  holds-asks : (i j : ℕ) (r : Request K) → roles i ≡ holds → roles j ≡ asks r → i ≢ j
  holds-asks i j r h g same = cc

  -- A process that leaves drops its guard; a request that is granted thereby is woken.
  module _ (id : ℕ) (e : roles id ≡ holds) where
    leave-Booked :
        (r : WaitQueue K × World)
        → ReleaseEffect q (quiet K flags) r
        → Inv 0 (after_drop_guard (pool_of K n roles b.requests q (quiet K flags)) r)
        → Booked K n (update roles id idle) r.0 r.1.flags
    unfolding after_drop_guard
    leave-Booked (q', w') eff inv = record {
      requests = b.requests;
      pool =
          guards-Inv K 0 _ _
            (ground (arith, ap (held K) e, held-update K n id roles idle (held-below id e)))
            (quiet-Inv K 0 _ inv);
      roomy = ground (arith, b.roomy, eff.capacity);
      beyond = λ i le. ground (arith, b.beyond i le);
      known = λ a r h.
          let (c, g, i, e') = b.known a r h in
          (c, g, i, role-there roles id idle i (holds-asks id i r e e') ∙ e');
      asked = λ i r h. elim (role_at roles id idle i r h) [
        | inl (here, x) ↦ absurd cc
        | inr (there, x) ↦ b.asked i r x
      ];
      single = λ i j r r' h g same. elim (role_at roles id idle i r h) [
        | inl (here, x) ↦ absurd cc
        | inr (there, x) ↦ elim (role_at roles id idle j r' g) [
          | inl (here', x') ↦ absurd cc
          | inr (there', x') ↦ b.single i j r r' x x' same
        ]
      ];
      owned = eff.waiters (Owned K (update roles id idle)) (
          All-imp _ _ q.waiters
            (λ x own i r h same. elim (role_at roles id idle i r h) [
              | inl (here, y) ↦ absurd cc
              | inr (there, y) ↦ own i r y same
            ])
            b.owned);
    }

    pub drop_guard-Booked :
        let r = Request.drop_guard q (quiet K flags) in
        Booked K n (update roles id idle) r.0 r.1.flags
        × ((i : ℕ) (s : Request K)
            → update roles id idle i ≡ asks s
            → is_granted r.1 s.flags ≡ true
            → (is_granted (quiet K flags) s.flags ≡ true) ⊎ (r.1.ready_queue ≡ i ∷ []))
    unfolding Request.drop_guard
    drop_guard-Booked =
        let s = pool_of K n roles b.requests q (quiet K flags) in
        let eff = release-Effect q (quiet K flags) in
        (
          leave-Booked _ eff (
              drop_guard-Inv s b.pool (λ z.
                omega (arith, z, ap (held K) e, held-update K n id roles idle (held-below id e)))),
          λ i s h granted. elim (role_at roles id idle i s h) [
            | inl (here, x) ↦ absurd cc
            | inr (there, x) ↦ elim (eff.grants (Owned K roles) b.owned s.flags granted) [
              | inl before ↦ inl before
              | inr (x', own, same, woken) ↦ inr (woken ∙ ap (λ j. j ∷ []) (own i s x (sym same)))
            ]
          ],
        )

  -- The next process id is taken by a process that has nothing.
  pub grow-Booked : Booked K (suc n) roles q flags
  grow-Booked = record {
    requests = b.requests;
    pool =
        guards-Inv K 0 _ _
          (ground
            (arith, total-suc n (λ x. held K (roles x)), ap (held K) (b.beyond n (omega arith))))
          b.pool;
    roomy = b.roomy;
    beyond = λ i le. b.beyond i (omega arith);
    known = b.known;
    asked = b.asked;
    single = b.single;
    owned = b.owned;
  }
