-- ===== src/Compare/Queue/Books.antt =====
-- examples/compare.rs: the resource of a simulated queue, with what each process has of it.
pub mod Polling
pub mod Leaving
use sim_core.Base.{
  ℕ, suc, ◌+◌, ◌-◌, ◌<◌, ◌≤◌, ◌≡◌, ◌≢◌, refl, sym, ap, ◌∙◌, subst, ◌⊎◌, inl, inr, Bool, true, false,
  List, [], ◌∷◌, ◌++◌, Option, none, some, All, All-imp, arith, update, total, total-change,
  total-eq, total-suc, if◌then◌else◌, ◌==◌, Bool-cases,
}
use sim_core.Base.Order.{Ord}
use sim_core.Base.Store.{Store}
use sim_core.Executor.Waker.{SimWaker, make_waker}
use native.Mathlib.Decide.{dec_lt}
use sim_core.WaitQueue.Serving.{occurs}
use sim_core.WaitQueue.{WaitQueue, World, Flags, Entry, is_granted, release}
use sim_core.Request
use sim_core.Request.{Request, Polled, Pool, make_request, after_poll, after_drop, after_drop_guard}
use sim_core.Request.Effects.{PollEffect, poll-Effect, ReleaseEffect, release-Effect}
use sim_core.Request.Invariant.{Inv, poll-Inv, drop-Inv, drop_guard-Inv, request-Inv}

module _ (K : Type 0) where
  -- What a process has of the resource: nothing, a guard, or a request that was polled.
  pub data Role : Type 0 where
    idle : Role
    holds : Role
    asks : Request K → Role

  abbrev pub held : Role → ℕ
  held idle = 0
  held holds = 1
  held (asks r) = 0

  abbrev pub quiet : Store Flags → World
  quiet flags = record { flags = flags; ready_queue = [] }

  -- The pool that the processes make up between them; `n` is the next process id.
  abbrev pub pool_of : ℕ → (ℕ → Role) → (ℕ → Option (Request K)) → WaitQueue K → World → Pool K
  pool_of n roles requests q w = record {
    queue = q;
    world = w;
    requests = requests;
    guards = total n (λ x. held (roles x));
  }

  -- Entries of the queue belong to the processes that ask.
  abbrev pub Owned : (ℕ → Role) → Entry K → Type 0
  Owned roles x =
      (id : ℕ) (r : Request K) → roles id ≡ asks r → r.flags ≡ x.flags → x.waker.process_id ≡ id

  pub record Booked (n : ℕ) (roles : ℕ → Role) (q : WaitQueue K) (flags : Store Flags)
      : Type 0 where
    pub requests : ℕ → Option (Request K)
    pub pool : Inv 0 (pool_of n roles requests q (quiet flags))
    pub roomy : 0 < q.capacity
    pub beyond : (id : ℕ) → n ≤ id → roles id ≡ idle
    pub known :
        (a : ℕ) (r : Request K)
        → requests a ≡ some r
        → (r.consumed ≡ false) × (r.registered ≡ true) × (id : ℕ) × (roles id ≡ asks r)
    pub asked : (id : ℕ) (r : Request K) → roles id ≡ asks r → requests r.flags ≡ some r
    pub single :
        (i j : ℕ) (r r' : Request K)
        → roles i ≡ asks r
        → roles j ≡ asks r'
        → r.flags ≡ r'.flags
        → i ≡ j
    pub owned : All (Owned roles) q.waiters

  -- The books with a process `id` that is about to poll its request `r`.
  pub record Asking (n : ℕ) (roles : ℕ → Role) (q : WaitQueue K) (w : World) (id : ℕ)
      (r : Request K) : Type 0 where
    pub requests : ℕ → Option (Request K)
    pub pool : Inv 0 (pool_of n roles requests q w)
    pub roomy : 0 < q.capacity
    pub below : id < n
    pub unheld : held (roles id) ≡ 0
    pub beyond : (i : ℕ) → n ≤ i → roles i ≡ idle
    pub here : requests r.flags ≡ some r
    pub unconsumed : r.consumed ≡ false
    pub known :
        (a : ℕ) (r' : Request K)
        → r.flags ≢ a
        → requests a ≡ some r'
        → (r'.consumed ≡ false) × (r'.registered ≡ true) × (i : ℕ) × (id ≢ i) × (roles i ≡ asks r')
    pub asked :
        (i : ℕ) (r' : Request K)
        → id ≢ i
        → roles i ≡ asks r'
        → (requests r'.flags ≡ some r') × (r.flags ≢ r'.flags)
    pub single :
        (i j : ℕ) (r r' : Request K)
        → roles i ≡ asks r
        → roles j ≡ asks r'
        → r.flags ≡ r'.flags
        → i ≡ j
    pub owned :
        All
          (λ x.
            ((i : ℕ) (r' : Request K)
              → id ≢ i
              → roles i ≡ asks r'
              → r'.flags ≡ x.flags
              → x.waker.process_id ≡ i)
            × (r.flags ≡ x.flags → x.waker.process_id ≡ id))
          q.waiters

  -- The invariant does not read the ready queue.
  pub quiet-Inv : (n : ℕ) (s : Pool K) → Inv n s → Inv n (record s { world = quiet s.world.flags })
  quiet-Inv n s i = record {
    size = i.size;
    bounded = i.bounded;
    counted = i.counted;
    unused = i.unused;
    unqueued = i.unqueued;
    once = i.once;
    full = i.full;
    backed = i.backed;
    own = i.own;
    live = i.live;
    unseen = i.unseen;
    parked = i.parked;
  }

  pub guards-Inv :
      (n : ℕ) (s : Pool K) (g : ℕ) → s.guards ≡ g → Inv n s → Inv n (record s { guards = g })
  guards-Inv n s g e i = subst (λ g. Inv n (record s { guards = g })) e i

  pub held-update :
      (n id : ℕ) (roles : ℕ → Role) (role : Role)
      → id < n
      → total n (λ x. held (update roles id role x)) + held (roles id)
        ≡ total n (λ x. held (roles x)) + held role
  held-update n id roles role lt =
      let e =
        total-change n id (λ x. held (update roles id role x)) (λ x. held (roles x)) lt
          (λ j ne. ground arith) in
      ground (arith, e)

  -- Nothing that asks is idle.
  pub asks-idle :
      (roles : ℕ → Role) (i j : ℕ) (r : Request K) → roles i ≡ idle → roles j ≡ asks r → i ≢ j
  asks-idle roles i j r h g e = cc

  pub asks-flags :
      (roles : ℕ → Role) (i j : ℕ) (r r' : Request K)
      → roles i ≡ asks r
      → roles j ≡ asks r'
      → i ≡ j
      → r.flags ≡ r'.flags
  asks-flags roles i j r r' h g e = cc

  pub Owned-fresh :
      (roles : ℕ → Role) (id a : ℕ) (es : List (Entry K))
      → occurs a es ≡ 0
      → All (Owned roles) es
      → All
          (λ x.
            ((i : ℕ) (r' : Request K)
              → id ≢ i
              → roles i ≡ asks r'
              → r'.flags ≡ x.flags
              → x.waker.process_id ≡ i)
            × (a ≡ x.flags → x.waker.process_id ≡ id))
          es
  unfolding occurs
  Owned-fresh roles id a [] h own = tt
  Owned-fresh roles id a (x ∷ es) h own = (
    (λ i r' ne. own.0 i r', λ e. absurd (ground arith)),
    Owned-fresh roles id a es (ground arith) own.1,
  )

module _ {K : Type 0} ⦃o : Ord K⦄ where
  module _ (n : ℕ) (roles : ℕ → Role K) (q : WaitQueue K) (flags : Store Flags)
      (b : Booked K n roles q flags) where
    -- A process that has nothing makes a request.
    pub request-Asking :
        (id : ℕ) (key : K)
        → id < n
        → roles id ≡ idle
        → let (r, w) = Request.request key (quiet K flags) in Asking K n roles q w id r
    unfolding Request.request make_request
    request-Asking id key lt free = record {
      requests = update b.requests flags.next (some _);
      pool = request-Inv (pool_of K n roles b.requests q (quiet K flags)) b.pool key;
      roomy = b.roomy;
      below = lt;
      unheld = ap (held K) free;
      beyond = b.beyond;
      here = ground arith;
      unconsumed = refl;
      known = λ a r' ne e.
          let (c, g, i, asks_r) = b.known a r' (ground arith) in
          (c, g, i, asks-idle K roles id i r' free asks_r, asks_r);
      asked = λ i r' ne e.
          let there = b.asked i r' e in
          let ne' : flags.next ≢ r'.flags = λ same. ground (arith, b.pool.unused r'.flags) in
          (ground arith, ne');
      single = b.single;
      owned =
          Owned-fresh K roles id flags.next q.waiters (b.pool.unqueued flags.next (omega arith))
            b.owned;
    }

    -- A process that has asked polls again.
    pub asks-Asking :
        (id : ℕ) (r : Request K) → roles id ≡ asks r → Asking K n roles q (quiet K flags) id r
    asks-Asking id r e = record {
      requests = b.requests;
      pool = b.pool;
      roomy = b.roomy;
      below = elim (dec_lt id n) [
        | yes lt ↦ lt
        | no ge ↦ absurd (asks-idle K roles id id r (b.beyond id (omega arith)) e refl)
      ];
      unheld = ap (held K) e;
      beyond = b.beyond;
      here = b.asked id r e;
      unconsumed = (b.known r.flags r (b.asked id r e)).0;
      known = λ a r' ne h.
          let (c, g, i, asks_r) = b.known a r' h in
          (
            c,
            g,
            i,
            (λ same. ne (ground (arith, asks-flags K roles id i r r' e asks_r, b.pool.own a r' h))),
            asks_r,
          );
      asked = λ i r' ne h. (b.asked i r' h, λ same. ne (b.single id i r r' e h same));
      single = b.single;
      owned = All-imp _ _ q.waiters (λ x own. (λ i r' ne. own i r', own id r e)) b.owned;
    }
