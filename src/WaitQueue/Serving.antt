-- ===== src/WaitQueue/Serving.antt =====
-- src/resource/wait_queue.rs: who `release` serves, as a loop over entries that stand for pairs of
-- shared cells.
use sim_core.Base.{
  ℕ, ◌+◌, ◌<◌, ◌≤◌, ◌≡◌, refl, Bool, true, false, List, [], ◌∷◌, Option, none, some, arith, ◌==◌,
  count, if◌then◌else◌,
}
use sim_core.Base.Order.{Ord}
use sim_core.Heap.{count-push}
use sim_core.WaitQueue.{
  Entry, WaitQueue, World, is_canceled, set_granted, wake, hand_off, register, entry_ord,
}
use sim_core.Executor.Waker.{SimWaker}

module _ {ℓ} {K : Type ℓ} where
  -- The number of entries whose request has the cells `a`.
  unfoldable pub occurs : ℕ → List (Entry K) → ℕ
  occurs a es = count (λ e. e.flags == a) es

  -- What the loop found: no live entry, or the first live one, every entry before it canceled.
  pub data Served (w : World) (es : List (Entry K)) : Option (List (Entry K) × World) → Type ℓ where
    nobody : ((a : ℕ) → 0 < occurs a es → is_canceled w a ≡ true) → Served w es none
    served :
        (e : Entry K) (rest : List (Entry K))
        → is_canceled w e.flags ≡ false
        → ((a : ℕ) → occurs a rest ≤ occurs a es)
        → ((a : ℕ)
            → is_canceled w a ≡ false
            → occurs a es ≡ occurs a rest + (if e.flags == a then 1 else 0))
        → Served w es (some (rest, wake e.waker (set_granted e.flags w)))

  skip :
      (w : World) (e : Entry K) (es : List (Entry K)) (r : Option (List (Entry K) × World))
      → is_canceled w e.flags ≡ true
      → Served w es r
      → Served w (e ∷ es) r
  unfolding occurs
  skip w e es r c (nobody h) = nobody (λ a p. ground (arith, h a))
  skip w e es r c (served f rest live le eq) =
      served f rest live (λ a. ground (arith, le a)) (λ a p. ground (arith, eq a p))

  test_entry :
      (w : World) (e : Entry K) (es : List (Entry K)) (c : Bool)
      → is_canceled w e.flags ≡ c
      → Served w es (hand_off w es)
      → Served w
          (e ∷ es)
          (if c then hand_off w es else some (es, wake e.waker (set_granted e.flags w)))
  unfolding occurs
  test_entry w e es true gone later = skip w e es _ gone later
  test_entry w e es false live later = served e es live (λ a. ground arith) (λ a p. ground arith)

  pub hand_off-Served : (w : World) (es : List (Entry K)) → Served w es (hand_off w es)
  unfolding hand_off occurs
  hand_off-Served w [] = nobody (λ a p. absurd (omega arith))
  hand_off-Served w (e ∷ es) = test_entry w e es (is_canceled w e.flags) refl (hand_off-Served w es)

module _ {ℓ} {K : Type ℓ} ⦃o : Ord K⦄ where
  pub occurs-register :
      (a : ℕ) (key : K) (waker : SimWaker) (flags : ℕ) (q : WaitQueue K)
      → occurs a (register key waker flags q).waiters
        ≡ (if flags == a then 1 else 0) + occurs a q.waiters
  unfolding occurs register
  occurs-register a key waker flags q =
      count-push (λ e. e.flags == a)
        (record { key = key; seq = q.next_seq; waker = waker; flags = flags }) q.waiters
