-- ===== src/WaitQueue/Refinement/Views.antt =====
-- src/resource/wait_queue.rs: what can be seen of the queue after each of its operations.
use sim_core.Base.{
  ℕ, ◌≡◌, refl, Bool, true, false, List, [], ◌∷◌, Option, none, some, arith, All, All-imp,
  if◌then◌else◌, Ordering,
}
use sim_core.Base.Order.{Ord, is_gt}
use sim_core.Heap.{Ge, IsSorted}
use sim_core.WaitQueue.{
  Entry, World, is_canceled, set_canceled, set_granted, wake, hand_off, entry_ord,
}
use sim_core.Executor.Waker.{SimWaker}
use sim_core.WaitQueue.Order.{insert_stable}
use sim_core.WaitQueue.Refinement.{Waiter, live, insert, without}

module _ {ℓ} {K : Type ℓ} where
  pub live-leave :
      (a : ℕ) (w : World) (es : List (Entry K)) → live (set_canceled a w) es ≡ without a (live w es)
  live-leave a w [] = refl
  live-leave a w (e ∷ es) = ground (arith, live-leave a w es)

  pub live-granted :
      (v : SimWaker) (a : ℕ) (w : World) (es : List (Entry K))
      → live (wake v (set_granted a w)) es ≡ live w es
  live-granted v a w [] = refl
  live-granted v a w (e ∷ es) = ground (arith, live-granted v a w es)

module _ {ℓ} {K : Type ℓ} ⦃o : Ord K⦄ where
  -- What comes after an entry of a greater key has a greater key.
  greater :
      (e : K) (x y : Entry K) → o.cmp x.key e ≡ Ordering.gt → Ge x y → is_gt (o.cmp y.key e) ≡ true
  greater e x y h ge = ground (
    arith,
    o.flip y.key x.key,
    o.flip x.key e,
    o.flip y.key e,
    o.lt_trans e x.key y.key,
    o.eq_sound y.key x.key,
  )

  insert-first :
      (e : Waiter K) (w : World) (es : List (Entry K))
      → All (λ y. is_gt (o.cmp y.key e.key) ≡ true) es
      → insert e (live w es) ≡ e ∷ live w es
  unfolding insert
  insert-first e w [] h = refl
  insert-first e w (y ∷ ys) h = ground (arith, h.0, insert-first e w ys h.1)

  pub live-insert :
      (e : Entry K) (w : World) (es : List (Entry K))
      → IsSorted es
      → live w (insert_stable e es) ≡ (
          if is_canceled w e.flags
          then live w es
          else insert (record { key = e.key; waker = e.waker; flags = e.flags }) (live w es))
  unfolding insert insert_stable
  live-insert e w [] s = refl
  live-insert e w (x ∷ xs) s = go (o.cmp x.key e.key) refl (live-insert e w xs s.1)
    where
      seen : Waiter K
      seen = record { key = e.key; waker = e.waker; flags = e.flags }

      go :
          (c : Ordering)
          → o.cmp x.key e.key ≡ c
          → live w (insert_stable e xs)
            ≡ (if is_canceled w e.flags then live w xs else insert seen (live w xs))
          → live w (if is_gt c then e ∷ x ∷ xs else x ∷ insert_stable e xs)
            ≡ (if is_canceled w e.flags then live w (x ∷ xs) else insert seen (live w (x ∷ xs)))
      go Ordering.gt h rest = ground (
        arith,
        insert-first seen w (x ∷ xs)
            (ground (arith, h), All-imp _ _ xs (λ y ge. greater e.key x y h ge) s.0),
      )
      go Ordering.lt h rest = ground (arith, h, rest)
      go Ordering.eq h rest = ground (arith, h, rest)

  -- What the loop of `release` finds: the first of the waiters that can be seen.
  abbrev pub Finds : World → List (Waiter K) → Option (List (Entry K) × World) → Type ℓ
  Finds w seen none = seen ≡ []
  Finds w seen (some (rest, w')) =
      (e : Entry K) × (w' ≡ wake e.waker (set_granted e.flags w))
      × (seen ≡ record { key = e.key; waker = e.waker; flags = e.flags } ∷ live w rest)

  pub hand_off-Finds : (w : World) (es : List (Entry K)) → Finds w (live w es) (hand_off w es)
  unfolding hand_off
  hand_off-Finds w [] = refl
  hand_off-Finds w (e ∷ es) = go (is_canceled w e.flags) (hand_off-Finds w es)
    where
      go :
          (b : Bool)
          → Finds w (live w es) (hand_off w es)
          → Finds w
              (if b
                then live w es
                else record { key = e.key; waker = e.waker; flags = e.flags } ∷ live w es)
              (if b then hand_off w es else some (es, wake e.waker (set_granted e.flags w)))
      go true h = h
      go false h = (e, refl, refl)
