-- ===== src/Tests/Hundredths.antt =====
-- Whole numbers of hundredths, an instance of the numbers that the policies compute with.
use harmotty.Prelude.{
  ℕ, suc, ◌+◌, ◌-◌, ◌*◌, ◌/◌, ◌≡◌, refl, Bool, true, false, arith, leb, if◌then◌else◌,
}
use harmotty.Prelude.Int.{ℤ, pos, negsuc}
use harmotty.Prelude.Number.{Number}

-- `a - b`.
abbrev pub difference : ℕ → ℕ → ℤ
difference a b = if leb b a then pos (a - b) else negsuc (b - a - 1)

abbrev pub negate : ℤ → ℤ
negate (pos n) = difference 0 n
negate (negsuc n) = pos (suc n)

abbrev pub plus : ℤ → ℤ → ℤ
plus (pos a) (pos b) = pos (a + b)
plus (pos a) (negsuc b) = difference a (suc b)
plus (negsuc a) (pos b) = difference b (suc a)
plus (negsuc a) (negsuc b) = negsuc (a + b + 1)

abbrev pub times : ℤ → ℤ → ℤ
times (pos a) (pos b) = pos (a * b / 100)
times (pos a) (negsuc b) = difference 0 (a * suc b / 100)
times (negsuc a) (pos b) = difference 0 (suc a * b / 100)
times (negsuc a) (negsuc b) = pos (suc a * suc b / 100)

abbrev pub over : ℤ → ℤ → ℤ
over (pos a) (pos b) = pos (a * 100 / b)
over (pos a) (negsuc b) = difference 0 (a * 100 / suc b)
over (negsuc a) (pos b) = difference 0 (suc a * 100 / b)
over (negsuc a) (negsuc b) = pos (suc a * 100 / suc b)

abbrev pub round_down : ℤ → ℤ
round_down (pos a) = pos (a / 100 * 100)
round_down (negsuc a) = difference 0 ((suc a + 99) / 100 * 100)

abbrev pub at_most : ℤ → ℤ → Bool
at_most (pos a) (pos b) = leb a b
at_most (pos a) (negsuc b) = false
at_most (negsuc a) (pos b) = true
at_most (negsuc a) (negsuc b) = leb b a

pub at_most_refl : (a : ℤ) → at_most a a ≡ true
at_most_refl (pos a) = ground arith
at_most_refl (negsuc a) = ground arith

pub at_most_total : (a b : ℤ) → at_most a b ≡ false → at_most b a ≡ true
at_most_total (pos a) (pos b) h = ground arith
at_most_total (pos a) (negsuc b) h = refl
at_most_total (negsuc a) (pos b) h = cc
at_most_total (negsuc a) (negsuc b) h = ground arith

pub at_most_trans : (a b c : ℤ) → at_most a b ≡ true → at_most b c ≡ true → at_most a c ≡ true
at_most_trans (pos a) (pos b) (pos c) h k = ground arith
at_most_trans (pos a) (pos b) (negsuc c) h k = cc
at_most_trans (pos a) (negsuc b) c h k = absurd (cc)
at_most_trans (negsuc a) b (pos c) h k = refl
at_most_trans (negsuc a) (pos b) (negsuc c) h k = absurd (cc)
at_most_trans (negsuc a) (negsuc b) (negsuc c) h k = ground arith

pub negate_nonpos : (a : ℤ) → at_most (pos 0) a ≡ true → at_most (negate a) (pos 0) ≡ true
negate_nonpos (pos a) h = ground arith
negate_nonpos (negsuc a) h = absurd (cc)

pub times_nonneg :
    (a b : ℤ)
    → at_most (pos 0) a ≡ true
    → at_most (pos 0) b ≡ true
    → at_most (pos 0) (times a b) ≡ true
times_nonneg (pos a) (pos b) h k = ground arith
times_nonneg (pos a) (negsuc b) h k = absurd (cc)
times_nonneg (negsuc a) b h k = absurd (cc)

pub over_nonneg :
    (a b : ℤ)
    → at_most (pos 0) a ≡ true
    → at_most (pos 0) b ≡ true
    → at_most (pos 0) (over a b) ≡ true
over_nonneg (pos a) (pos b) h k = ground arith
over_nonneg (pos a) (negsuc b) h k = absurd (cc)
over_nonneg (negsuc a) b h k = absurd (cc)

pub plus_grows : (a b : ℤ) → at_most (pos 0) b ≡ true → at_most a (plus a b) ≡ true
plus_grows (pos a) (pos b) h = ground arith
plus_grows (negsuc a) (pos b) h = ground arith
plus_grows a (negsuc b) h = absurd (cc)

abbrev pub hundredths : Number
hundredths = record {
  Num = ℤ;
  lit = λ n d. pos (n * 100 / d);
  neg = negate;
  add = plus;
  sub = λ a b. plus a (negate b);
  mul = times;
  div = over;
  floor = round_down;
  ceil = λ a. negate (round_down (negate a));
  le = at_most;
  le_refl = at_most_refl;
  le_total = at_most_total;
  le_trans = at_most_trans;
  neg-nonpos = negate_nonpos;
  mul-nonneg = times_nonneg;
  div-nonneg = over_nonneg;
  le-add = plus_grows;
  lit-nonneg = λ n. ground arith;
}
