-- ===== src/Request/Effects.antt =====
-- src/resource/mod.rs, src/resource/priority.rs and src/resource/wait_queue.rs: what a poll of a
-- request and a release change, beside the books.
use sim_core.Base.{
  ℕ, ◌≡◌, refl, ◌⊎◌, inl, inr, Bool, true, false, List, [], ◌∷◌, ◌++◌, some, All, arith, ltb,
  Bool-cases, if◌then◌else◌, ◌==◌,
}
use sim_core.Base.Order.{Ord}
use sim_core.Executor.Waker.{SimWaker}
use sim_core.WaitQueue.{
  WaitQueue, World, Entry, entry_ord, is_granted, is_canceled, set_granted, wake, try_acquire,
  register, hand_off, settle, release,
}
use sim_core.Heap.{All-push}
use sim_core.Request.{Request, Polled, attempt, poll}

module _ {K : Type 0} ⦃o : Ord K⦄ where
  pub record PollEffect (r : Request K) (waker : SimWaker) (q : WaitQueue K) (w : World)
      (p : Polled K) : Type 1 where
    pub world : p.world ≡ w
    pub capacity : p.queue.capacity ≡ q.capacity
    pub address : p.request.flags ≡ r.flags
    pub takes : p.ready ≡ true → p.request.consumed ≡ true
    pub waits :
        p.ready ≡ false
        → (p.request.registered ≡ true)
          × (p.request.consumed ≡ r.consumed)
          × (is_granted w r.flags ≡ false)
    -- What holds of the queue's entries and of any entry for this request still does.
    pub waiters :
        (Q : Entry K → Type 0)
        → ((key : K) (seq : ℕ)
            → Q (record { key = key; seq = seq; waker = waker; flags = r.flags }))
        → All Q q.waiters
        → All Q p.queue.waiters

  module _ (r : Request K) (waker : SimWaker) (q : WaitQueue K) (w : World) where
    blocked-Effect :
        is_granted w r.flags ≡ false → PollEffect r waker q w (attempt r waker (false, q) w)
    unfolding attempt register
    blocked-Effect ungranted = go r.registered
      where
        go :
            (b : Bool)
            → PollEffect r waker q w (record {
              ready = false;
              request = record r { registered = true };
              queue = if b then q else register r.key waker r.flags q;
              world = w;
            })
        go true = record {
          world = refl;
          capacity = refl;
          address = refl;
          takes = λ e. cc;
          waits = λ e. (refl, refl, ungranted);
          waiters = λ Q new old. old;
        }
        go false = record {
          world = refl;
          capacity = refl;
          address = refl;
          takes = λ e. cc;
          waits = λ e. (refl, refl, ungranted);
          waiters = λ Q new old. All-push ⦃o = entry_ord⦄ Q _ q.waiters (new r.key q.next_seq) old;
        }

    pub poll-Effect : PollEffect r waker q w (poll r waker q w)
    unfolding poll attempt try_acquire
    poll-Effect = elim (Bool-cases (is_granted w r.flags)) [
      | inl granted ↦ rw granted (record {
        world = refl;
        capacity = refl;
        address = refl;
        takes = λ e. refl;
        waits = λ e. absurd cc;
        waiters = λ Q new old. old;
      })
      | inr ungranted ↦ rw ungranted (elim (Bool-cases (ltb q.in_use q.capacity)) [
        | inl room ↦ rw room (record {
          world = refl;
          capacity = refl;
          address = refl;
          takes = λ e. refl;
          waits = λ e. absurd cc;
          waiters = λ Q new old. old;
        })
        | inr full ↦ rw full (blocked-Effect ungranted)
      ])
    ]

module _ {K : Type 0} where
  -- After a release, with what holds of all the queue's entries.
  pub record ReleaseEffect (q : WaitQueue K) (w : World) (r : WaitQueue K × World) : Type 1 where
    pub capacity : r.0.capacity ≡ q.capacity
    pub waiters : (Q : Entry K → Type 0) → All Q q.waiters → All Q r.0.waiters
    pub grants :
        (Q : Entry K → Type 0)
        → All Q q.waiters
        → (a : ℕ) → is_granted r.1 a ≡ true
        → (is_granted w a ≡ true)
          ⊎ ((x : Entry K) × Q x
              × (x.flags ≡ a)
              × (r.1.ready_queue ≡ w.ready_queue ++ x.waker.process_id ∷ []))

  settle-Effect :
      (q : WaitQueue K) (w : World) (es : List (Entry K))
      → ReleaseEffect (record q { waiters = es }) w (settle q w (hand_off w es))
  unfolding hand_off
  settle-Effect q w [] = record { capacity = refl; waiters = λ Q h. tt; grants = λ Q h a g. inl g }
  settle-Effect q w (e ∷ es) = go (is_canceled w e.flags) (settle-Effect q w es)
    where
      given :
          (Q : Entry K → Type 0)
          → All Q (e ∷ es)
          → (a : ℕ) → is_granted (wake e.waker (set_granted e.flags w)) a ≡ true
          → (is_granted w a ≡ true)
            ⊎ ((x : Entry K) × Q x
                × (x.flags ≡ a)
                × (w.ready_queue ++ e.waker.process_id ∷ []
                    ≡ w.ready_queue ++ x.waker.process_id ∷ []))
      given Q h a g = elim (Bool-cases (e.flags == a)) [
        | inl here ↦ inr (e, h.0, ground arith, refl)
        | inr there ↦ inl (ground arith)
      ]

      go :
          (b : Bool)
          → ReleaseEffect (record q { waiters = es }) w (settle q w (hand_off w es))
          → ReleaseEffect
              (record q { waiters = e ∷ es })
              w
              (settle q w
                (if b then hand_off w es else some (es, wake e.waker (set_granted e.flags w))))
      go true later = record {
        capacity = later.capacity;
        waiters = λ Q h. later.waiters Q h.1;
        grants = λ Q h a g. later.grants Q h.1 a g;
      }
      go false later = record {
        capacity = refl;
        waiters = λ Q h. h.1;
        grants = λ Q h a g. given Q h a g;
      }

  pub release-Effect : (q : WaitQueue K) (w : World) → ReleaseEffect q w (release q w)
  unfolding release
  release-Effect q w = settle-Effect q w q.waiters
