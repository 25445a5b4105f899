-- ===== src/WaitQueue/Order.antt =====
-- src/resource/wait_queue.rs: the order of the queue, by key and then by arrival.
use sim_core.Base.{
  ℕ, ◌+◌, ◌<◌, ◌≤◌, ◌⊎◌, Ordering, ◌≡◌, refl, ap, ◌∙◌, Bool, true, false, List, [], ◌∷◌, ◌++◌,
  Option, none, some, arith, All, All-imp, if◌then◌else◌, u64_mod, wrap_suc, wrap_pred,
}
use sim_core.Base.Order.{Ord, is_gt, unit_ord}
use sim_core.Heap.{Ge, IsSorted, All-push, push-IsSorted, push}
use sim_core.WaitQueue.{
  Entry, WaitQueue, World, is_canceled, set_granted, wake, hand_off, register, release, entry_ord,
  settle,
}
use sim_core.Executor.Waker.{SimWaker}

module _ {ℓ} {K : Type ℓ} ⦃o : Ord K⦄ where
  pub record IsOrdered (q : WaitQueue K) : Type ℓ where
    pub sorted : IsSorted q.waiters
    pub numbered : All (λ e. e.seq < q.next_seq) q.waiters

  pub register-IsOrdered :
      (key : K) (waker : SimWaker) (flags : ℕ) (q : WaitQueue K)
      → q.next_seq + 1 < u64_mod
      → IsOrdered q
      → IsOrdered (register key waker flags q)
  unfolding register
  register-IsOrdered key waker flags q room h =
      let e : Entry K = record { key = key; seq = q.next_seq; waker = waker; flags = flags } in
      record {
        sorted = push-IsSorted e q.waiters h.sorted;
        numbered =
            All-push (λ x. x.seq < wrap_suc q.next_seq) e q.waiters (omega arith)
              (All-imp _ _ q.waiters (λ x lt. omega arith) h.numbered);
      }

  -- The specification of a place in the queue: behind every entry with the same or a lesser key.
  unfoldable pub insert_stable : Entry K → List (Entry K) → List (Entry K)
  insert_stable e [] = e ∷ []
  insert_stable e (x ∷ xs) =
      if is_gt (o.cmp x.key e.key) then e ∷ x ∷ xs else x ∷ insert_stable e xs

  push_stable :
      (e : Entry K) (xs : List (Entry K))
      → All (λ x. x.seq < e.seq) xs
      → push e xs ≡ insert_stable e xs
  unfolding push insert_stable
  push_stable e [] h = refl
  push_stable e (x ∷ xs) h = ground (arith, push_stable e xs h.1, o.flip e.key x.key)

  -- Registering puts a waiter behind those with the same or a lesser key, before all others.
  pub register_stable :
      (key : K) (waker : SimWaker) (flags : ℕ) (q : WaitQueue K)
      → IsOrdered q
      → (register key waker flags q).waiters
        ≡ insert_stable
            (record { key = key; seq = q.next_seq; waker = waker; flags = flags })
            q.waiters
  unfolding register
  register_stable key waker flags q h = push_stable _ q.waiters h.numbered

  -- The lower key comes first, and the earlier arrival among those with the same key.
  abbrev pub Precedes : Entry K → Entry K → Type 0
  Precedes e x =
      (o.cmp e.key x.key ≡ Ordering.lt) ⊎ ((o.cmp e.key x.key ≡ Ordering.eq) × (e.seq ≤ x.seq))

  Ge-Precedes : (e x : Entry K) → Ge e x → Precedes e x
  Ge-Precedes e x h = ground (arith, o.flip x.key e.key)

  entry_ge_refl : (e : Entry K) → Ge e e
  entry_ge_refl e h = ground (arith, o.cmp_refl e.key)

  -- Whom the loop of `release` serves: the live entry that comes before all others.
  pub data First (w : World) (es : List (Entry K)) : Option (List (Entry K) × World) → Type ℓ where
    nobody : All (λ x. is_canceled w x.flags ≡ true) es → First w es none
    first :
        (before : List (Entry K)) (e : Entry K) (rest : List (Entry K))
        → es ≡ before ++ e ∷ rest
        → All (λ x. is_canceled w x.flags ≡ true) before
        → is_canceled w e.flags ≡ false
        → All (λ x. is_canceled w x.flags ≡ false → Precedes e x) es
        → IsSorted rest
        → ((n : ℕ) → All (λ x. x.seq < n) es → All (λ x. x.seq < n) rest)
        → First w es (some (rest, wake e.waker (set_granted e.flags w)))

  skip_canceled :
      (w : World) (x : Entry K) (es : List (Entry K)) (r : Option (List (Entry K) × World))
      → is_canceled w x.flags ≡ true
      → First w es r
      → First w (x ∷ es) r
  skip_canceled w x es r c (nobody h) = nobody (c, h)
  skip_canceled w x es r c (first before e rest split gone live h s k) =
      first (x ∷ before) e rest (ap (◌∷◌ x) split) (c, gone) live ((λ l. cc), h) s (λ n a. k n a.1)

  first_entry :
      (w : World) (x : Entry K) (es : List (Entry K)) (c : Bool)
      → is_canceled w x.flags ≡ c
      → IsSorted (x ∷ es)
      → First w es (hand_off w es)
      → First w
          (x ∷ es)
          (if c then hand_off w es else some (es, wake x.waker (set_granted x.flags w)))
  first_entry w x es true gone s later = skip_canceled w x es _ gone later
  first_entry w x es false live s later =
      first [] x es refl tt live
        (
          (λ _. Ge-Precedes x x (entry_ge_refl x)),
          All-imp _ _ es (λ y ge _. Ge-Precedes x y ge) s.0,
        )
        s.1 (λ n a. a.1)

  pub hand_off-First : (w : World) (es : List (Entry K)) → IsSorted es → First w es (hand_off w es)
  unfolding hand_off
  hand_off-First w [] s = nobody tt
  hand_off-First w (x ∷ es) s =
      first_entry w x es (is_canceled w x.flags) refl s (hand_off-First w es s.1)

fifo : (e : Entry (Unit {0})) (xs : List (Entry (Unit {0}))) → insert_stable e xs ≡ xs ++ e ∷ []
unfolding insert_stable
fifo e [] = refl
fifo e (x ∷ xs) = ap (◌∷◌ x) (fifo e xs)

-- With the unit key, registering puts a waiter behind all others.
pub register_fifo :
    (waker : SimWaker) (flags : ℕ) (q : WaitQueue (Unit {0}))
    → IsOrdered q
    → (register tt waker flags q).waiters
      ≡ q.waiters ++ record { key = tt; seq = q.next_seq; waker = waker; flags = flags } ∷ []
register_fifo waker flags q h = register_stable tt waker flags q h ∙ fifo _ q.waiters

-- `release` on an ordered queue: every waiter had been canceled and the unit is free again, or
-- the unit goes to a live waiter with the lowest key among the live ones, the one that came first of
-- those, and `in_use` stays.
pub data Release {ℓ} {K : Type ℓ} ⦃o : Ord K⦄ (q : WaitQueue K) (w : World)
    : WaitQueue K × World → Type ℓ where
  frees :
      All (λ x. is_canceled w x.flags ≡ true) q.waiters
      → Release q w (record q { waiters = []; in_use = wrap_pred q.in_use }, w)
  hands :
      (before : List (Entry K)) (e : Entry K) (rest : List (Entry K))
      → q.waiters ≡ before ++ e ∷ rest
      → All (λ x. is_canceled w x.flags ≡ true) before
      → is_canceled w e.flags ≡ false
      → All (λ x. is_canceled w x.flags ≡ false → Precedes e x) q.waiters
      → IsOrdered (record q { waiters = rest })
      → Release q w (record q { waiters = rest }, wake e.waker (set_granted e.flags w))

module _ {ℓ} {K : Type ℓ} ⦃o : Ord K⦄ where
  settle-Release :
      (q : WaitQueue K) (w : World) {r : Option (List (Entry K) × World)}
      → IsOrdered q
      → First w q.waiters r
      → Release q w (settle q w r)
  settle-Release q w h (nobody gone) = frees gone
  settle-Release q w h (first before e rest split gone live least s k) =
      hands before e rest split gone live least
        (record { sorted = s; numbered = k q.next_seq h.numbered })

  pub release-Release : (q : WaitQueue K) (w : World) → IsOrdered q → Release q w (release q w)
  unfolding release
  release-Release q w h = settle-Release q w h (hand_off-First w q.waiters h.sorted)

  result-IsOrdered :
      {q : WaitQueue K} {w : World} {r : WaitQueue K × World} → Release q w r → IsOrdered r.0
  result-IsOrdered (frees gone) = record { sorted = tt; numbered = tt }
  result-IsOrdered (hands before e rest split gone live least h) = h

  pub release-IsOrdered : (q : WaitQueue K) (w : World) → IsOrdered q → IsOrdered (release q w).0
  release-IsOrdered q w h = result-IsOrdered (release-Release q w h)

  result-next_seq :
      {q : WaitQueue K} {w : World} {r : WaitQueue K × World}
      → Release q w r
      → r.0.next_seq ≡ q.next_seq
  result-next_seq (frees gone) = refl
  result-next_seq (hands before e rest split gone live least h) = refl

  pub release-next_seq :
      (q : WaitQueue K) (w : World) → IsOrdered q → (release q w).0.next_seq ≡ q.next_seq
  release-next_seq q w h = result-next_seq (release-Release q w h)
