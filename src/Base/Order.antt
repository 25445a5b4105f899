-- ===== src/Base/Order.antt =====
-- `std::cmp::Ord`: three-way comparisons, and the order by a key and then by a sequence number.
use Prim.Native.Nat.{ℕ, compare, Ordering}
use mathlib.Core.Path.{◌≡◌, refl, ap}
use mathlib.Core.Logic.{◌≢◌}
use mathlib.Core.Bool.{Bool, true, false}
use native.Mathlib.Omega.{arith}

abbrev pub swap : Ordering → Ordering
swap Ordering.lt = Ordering.gt
swap Ordering.eq = Ordering.eq
swap Ordering.gt = Ordering.lt

-- `Ordering::then`
abbrev pub then : Ordering → Ordering → Ordering
then Ordering.eq o = o
then Ordering.lt o = Ordering.lt
then Ordering.gt o = Ordering.gt

abbrev pub is_gt : Ordering → Bool
is_gt Ordering.gt = true
is_gt _ = false

-- What `Ord` documents: a total order whose `Equal` is equality.
pub record Ord {ℓ} (K : Type ℓ) : Type ℓ where
  pub cmp : K → K → Ordering
  pub flip : (a b : K) → cmp b a ≡ swap (cmp a b)
  pub cmp_refl : (a : K) → cmp a a ≡ Ordering.eq
  pub eq_sound : (a b : K) → cmp a b ≡ Ordering.eq → a ≡ b
  pub lt_trans : (a b c : K) → cmp a b ≡ Ordering.lt → cmp b c ≡ Ordering.lt → cmp a c ≡ Ordering.lt

pub compare_flip : (a b : ℕ) → compare b a ≡ swap (compare a b)
compare_flip a b = ground arith

pub compare_refl : (a : ℕ) → compare a a ≡ Ordering.eq
compare_refl a = ground arith

pub compare_eq_sound : (a b : ℕ) → compare a b ≡ Ordering.eq → a ≡ b
compare_eq_sound a b h = ground arith

pub compare_lt_trans :
    (a b c : ℕ) → compare a b ≡ Ordering.lt → compare b c ≡ Ordering.lt → compare a c ≡ Ordering.lt
compare_lt_trans a b c h k = ground arith

-- `u32`, `u64` and `usize` compare as the numbers they stand for.
instance abbrev pub nat_ord : Ord ℕ
nat_ord = record {
  cmp = compare;
  flip = compare_flip;
  cmp_refl = compare_refl;
  eq_sound = compare_eq_sound;
  lt_trans = compare_lt_trans;
}

pub unit_eq : (a b : Unit {0}) → Ordering.eq ≡ Ordering.eq → a ≡ b
unit_eq a b h = refl

pub unit_lt :
    (a b c : Unit {0})
    → Ordering.eq ≡ Ordering.lt
    → Ordering.eq ≡ Ordering.lt
    → Ordering.eq ≡ Ordering.lt
unit_lt a b c h k = h

-- `()`: all keys are equal.
instance abbrev pub unit_ord : Ord (Unit {0})
unit_ord = record {
  cmp = λ a b. Ordering.eq;
  flip = λ a b. refl;
  cmp_refl = λ a. refl;
  eq_sound = unit_eq;
  lt_trans = unit_lt;
}

module _ {ℓ} {K : Type ℓ} ⦃o : Ord K⦄ where
  -- `(k, s)` against `(k', s')`.
  abbrev pub lex_cmp : K → ℕ → K → ℕ → Ordering
  lex_cmp k s k' s' = then (o.cmp k k') (compare s s')

  pub lex_flip : (k : K) (s : ℕ) (k' : K) (s' : ℕ) → lex_cmp k' s' k s ≡ swap (lex_cmp k s k' s')
  lex_flip k s k' s' = ground (arith, o.flip k k')

  cmp_congr : (a b c : K) → o.cmp a b ≡ Ordering.eq → o.cmp a c ≡ o.cmp b c
  cmp_congr a b c h = ap (λ x. o.cmp x c) (o.eq_sound a b h)

  cmp_congr_right : (a b c : K) → o.cmp b c ≡ Ordering.eq → o.cmp a b ≡ o.cmp a c
  cmp_congr_right a b c h = ap (o.cmp a) (o.eq_sound b c h)

  -- Not before, and not before: not before.
  pub lex_ge_trans :
      (k : K) (s : ℕ) (k' : K) (s' : ℕ) (k'' : K) (s'' : ℕ)
      → lex_cmp k s k' s' ≢ Ordering.lt
      → lex_cmp k' s' k'' s'' ≢ Ordering.lt
      → lex_cmp k s k'' s'' ≢ Ordering.lt
  lex_ge_trans k s k' s' k'' s'' h g = ground (
    arith,
    cmp_congr k k' k'',
    cmp_congr_right k k' k'',
    o.lt_trans k'' k' k,
    o.flip k k',
    o.flip k' k'',
    o.flip k k'',
  )
