-- ===== src/Heap.antt =====
-- `std::collections::BinaryHeap`, as the program uses it: a max-heap by its elements' `Ord`,
-- here the list of its elements in the order in which `pop` hands them out. Among elements that
-- compare as equal the heap documents no order; here a new one comes first, so no element comes
-- behind those that were there before it but by the elements' own order.
use sim_core.Base.{
  ◌+◌, ◌≡◌, refl, ◌≢◌, Ordering, Bool, List, [], ◌∷◌, arith, All, All-imp, Bool-cases, inl, inr,
  count, if◌then◌else◌,
}
use sim_core.Base.Order.{swap, is_gt}

-- The order of the elements; `pop` hands out a greatest one.
pub record HeapOrd {ℓ} (E : Type ℓ) : Type ℓ where
  pub cmp : E → E → Ordering
  pub flip : (a b : E) → cmp b a ≡ swap (cmp a b)
  pub ge_trans : (a b c : E) → cmp a b ≢ Ordering.lt → cmp b c ≢ Ordering.lt → cmp a c ≢ Ordering.lt

module _ {ℓ} {E : Type ℓ} ⦃o : HeapOrd E⦄ where
  unfoldable pub push : E → List E → List E
  push e [] = e ∷ []
  push e (x ∷ xs) = if is_gt (o.cmp x e) then x ∷ push e xs else e ∷ x ∷ xs

  abbrev pub Ge : E → E → Type 0
  Ge a b = o.cmp a b ≢ Ordering.lt

  -- Each element is no smaller than those after it.
  abbrev pub IsSorted : List E → Type 0
  IsSorted [] = Unit {0}
  IsSorted (x ∷ xs) = All (Ge x) xs × IsSorted xs

  -- What holds of the new element and of all old ones holds of all after a push.
  pub All-push {κ} : (P : E → Type κ) (e : E) (xs : List E) → P e → All P xs → All P (push e xs)
  unfolding push
  All-push P e [] p h = (p, tt)
  All-push P e (x ∷ xs) p h = elim (Bool-cases (is_gt (o.cmp x e))) [
    | inl under ↦ rw under (h.0, All-push P e xs p h.1)
    | inr over ↦ rw over (p, h)
  ]

  pub push-IsSorted : (e : E) (xs : List E) → IsSorted xs → IsSorted (push e xs)
  unfolding push
  push-IsSorted e [] s = (tt, tt)
  push-IsSorted e (x ∷ xs) s = elim (Bool-cases (is_gt (o.cmp x e))) [
    | inl under ↦
        let first : Ge x e = ground arith in
        rw under (All-push (Ge x) e xs first s.0, push-IsSorted e xs s.1)
    | inr over ↦
        let first : Ge e x = ground (arith, o.flip e x) in
        rw over ((first, All-imp (Ge x) (Ge e) xs (λ b h. o.ge_trans e x b first h) s.0), s)
  ]

  pub count-push :
      (p : E → Bool) (e : E) (xs : List E)
      → count p (push e xs) ≡ (if p e then 1 else 0) + count p xs
  unfolding push
  count-push p e [] = refl
  count-push p e (x ∷ xs) = ground (arith, count-push p e xs)
