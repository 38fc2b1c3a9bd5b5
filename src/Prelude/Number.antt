-- ===== src/Prelude/Number.antt =====
-- The finite numbers of JavaScript where the program computes with fractions: a type with the
-- operations that it uses, and the laws of their order. The laws hold of finite doubles, since
-- rounding is monotone and keeps zero and signs; nothing is assumed of what a sum or a product is.
use harmotty.Prelude.{ℕ, ◌≡◌, Bool, true, false, not, ◌&&◌, arith, if◌then◌else◌}

pub record Number : Type 1 where
  pub Num : Type 0
  -- The literal `n / d`.
  pub lit : ℕ → ℕ → Num
  pub neg : Num → Num
  pub add : Num → Num → Num
  pub sub : Num → Num → Num
  pub mul : Num → Num → Num
  pub div : Num → Num → Num
  pub floor : Num → Num
  pub ceil : Num → Num
  pub le : Num → Num → Bool
  pub le_refl : (a : Num) → le a a ≡ true
  pub le_total : (a b : Num) → le a b ≡ false → le b a ≡ true
  pub le_trans : (a b c : Num) → le a b ≡ true → le b c ≡ true → le a c ≡ true
  pub neg-nonpos : (a : Num) → le (lit 0 1) a ≡ true → le (neg a) (lit 0 1) ≡ true
  pub mul-nonneg :
      (a b : Num) → le (lit 0 1) a ≡ true → le (lit 0 1) b ≡ true → le (lit 0 1) (mul a b) ≡ true
  pub div-nonneg :
      (a b : Num) → le (lit 0 1) a ≡ true → le (lit 0 1) b ≡ true → le (lit 0 1) (div a b) ≡ true
  pub le-add : (a b : Num) → le (lit 0 1) b ≡ true → le a (add a b) ≡ true
  pub lit-nonneg : (n : ℕ) → le (lit 0 1) (lit n 1) ≡ true

module _ (N : Number) where
  open N use {Num, lit, neg, le, le_refl, le_total, le_trans, neg-nonpos}

  -- `a < b` and `a === b` on numbers that are not NaN.
  unfoldable pub lt : Num → Num → Bool
  lt a b = not (le b a)

  unfoldable pub max : Num → Num → Num
  max a b = if le a b then b else a

  unfoldable pub min : Num → Num → Num
  min a b = if le a b then a else b

  unfoldable pub abs : Num → Num
  abs a = if le (lit 0 1) a then a else neg a

  pub le-max_left : (a b : Num) → le a (max a b) ≡ true
  unfolding max
  le-max_left a b = ground (arith, le_refl a)

  pub le-max_right : (a b : Num) → le b (max a b) ≡ true
  unfolding max
  le-max_right a b = ground (arith, le_refl b, le_total a b)

  pub neg-le : (a : Num) → le (lit 0 1) a ≡ true → le (neg a) a ≡ true
  neg-le a h = le_trans (neg a) (lit 0 1) a (neg-nonpos a h) h

  -- `Math.max(lo, Math.min(hi, a))` lies between `lo` and `hi`.
  pub clamp_bounds :
      (lo hi a : Num)
      → le lo hi ≡ true
      → (le lo (max lo (min hi a)) ≡ true) × (le (max lo (min hi a)) hi ≡ true)
  unfolding max min
  clamp_bounds lo hi a h =
      ground
        (arith, le_refl lo, le_refl hi, le_total hi a, le_total lo a, le_total lo hi, le_refl a)

  unfoldable pub eq : Num → Num → Bool
  eq a b = le a b && le b a
