-- ===== src/Float.antt =====
-- `f64`, as far as the program uses it: a parameter, with the behaviour that IEEE 754 fixes.
pub mod Sample
use sim_core.Base.{◌≡◌, ◌≢◌, Ordering, Bool, true, false}
use sim_core.Base.Order.{Ord}

-- `lt` and `le` are `<` and `<=`, false where an operand is NaN; `order` is `total_cmp`.
pub record Float : Type 1 where
  pub F : Type 0
  pub zero : F
  pub lt : F → F → Bool
  pub le : F → F → Bool
  pub add : F → F → F
  pub sub : F → F → F
  pub max : F → F → F
  pub is_finite : F → Bool
  pub order : Ord F

-- IEEE 754: comparisons are those of the extended reals, and a rounded result keeps them.
pub record IsIeee (f : Float) : Type 0 where
  pub zero_finite : f.is_finite f.zero ≡ true
  pub le_refl : (a : f.F) → f.is_finite a ≡ true → f.le a a ≡ true
  pub le_trans : (a b c : f.F) → f.le a b ≡ true → f.le b c ≡ true → f.le a c ≡ true
  pub le_of_not_lt :
      (a b : f.F) → f.is_finite a ≡ true → f.is_finite b ≡ true → f.lt a b ≡ false → f.le b a ≡ true
  pub not_le_of_lt : (a b : f.F) → f.lt a b ≡ true → f.le b a ≡ false
  pub le_of_lt : (a b : f.F) → f.lt a b ≡ true → f.le a b ≡ true
  -- What lies between zero and a finite number is finite.
  pub finite_below :
      (a b : f.F)
      → f.le f.zero a ≡ true
      → f.le a b ≡ true
      → f.is_finite b ≡ true
      → f.is_finite a ≡ true
  pub sub_nonneg :
      (a b : f.F)
      → f.is_finite a ≡ true
      → f.is_finite b ≡ true
      → f.le a b ≡ true
      → f.le f.zero (f.sub b a) ≡ true
  pub sub_le :
      (a b : f.F)
      → f.is_finite a ≡ true
      → f.is_finite b ≡ true
      → f.le f.zero a ≡ true
      → f.le (f.sub b a) b ≡ true
  pub le_add : (a b : f.F) → f.is_finite a ≡ true → f.le f.zero b ≡ true → f.le a (f.add a b) ≡ true
  -- `total_cmp` agrees with the order of the numbers, and `max` takes the greater operand.
  pub le_of_order :
      (a b : f.F)
      → f.is_finite a ≡ true
      → f.is_finite b ≡ true
      → f.order.cmp a b ≢ Ordering.gt
      → f.le a b ≡ true
  pub le_max_right : (a b : f.F) → f.is_finite b ≡ true → f.le b (f.max a b) ≡ true
  pub le_max_left : (a b : f.F) → f.is_finite a ≡ true → f.le a (f.max a b) ≡ true
  pub max_finite :
      (a b : f.F) → f.is_finite a ≡ true → f.is_finite b ≡ true → f.is_finite (f.max a b) ≡ true
  pub max_le : (a b c : f.F) → f.le a c ≡ true → f.le b c ≡ true → f.le (f.max a b) c ≡ true
  pub order_of_not_le :
      (a b : f.F)
      → f.is_finite a ≡ true
      → f.is_finite b ≡ true
      → f.le a b ≡ false
      → f.order.cmp b a ≡ Ordering.lt
