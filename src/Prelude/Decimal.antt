-- ===== src/Prelude/Decimal.antt =====
-- `toString` of a natural number and `parseInt` of a text of digits.
use Prim.Native.Nat.{ℕ, zero, suc, ◌+◌, ◌-◌, ◌*◌, ◌/◌, ◌%◌, ◌≤◌, ◌<◌}
use mathlib.Core.Path.{◌≡◌, refl, sym, ap, ◌∙◌}
use mathlib.Core.Bool.{Bool, true, ◌&&◌}
use mathlib.Core.List.{[], ◌∷◌}
use native.Mathlib.Omega.{arith}
use mathlib.Core.Logic.{inl, inr}
use harmotty.Prelude.Tests.{ltb, leb, if◌then◌else◌, Bool-cases, lt→ltb, ltb→lt}
use harmotty.Prelude.Lists.{all}
use harmotty.Prelude.Strings.{Text, codes}

-- The digits of `n` in front of `out`; a number has fewer digits than the fuel `n + 1`.
digits : ℕ → ℕ → Text → Text
digits zero n out = out
digits (suc f) n out =
    let out' = (b'0' + n % 10) ∷ out in
    let rest = digits f (n / 10) out' in if ltb n 10 then out' else rest

unfoldable pub to_text : ℕ → Text
unfolding digits
to_text n = digits (suc n) n []

unfoldable pub is_digit : ℕ → Bool
is_digit c = leb b'0' c && leb c b'9'

-- The value of a text of digits, read from the left.
unfoldable pub digits_value : ℕ → Text → ℕ
digits_value acc [] = acc
digits_value acc (c ∷ s) = digits_value (acc * 10 + (c - b'0')) s

module _ (f n : ℕ) (out : Text) where
  digits-small : n < 10 → digits (suc f) n out ≡ (b'0' + n % 10) ∷ out
  unfolding digits
  digits-small h = rw (lt→ltb n 10 h)

  digits-large : 10 ≤ n → digits (suc f) n out ≡ digits f (n / 10) ((b'0' + n % 10) ∷ out)
  unfolding digits
  digits-large h = ground arith

digits_value-digits :
    (f n : ℕ) (out : Text) → n < f → digits_value 0 (digits f n out) ≡ digits_value n out
unfolding digits_value
digits_value-digits zero n out h = absurd (omega arith)
digits_value-digits (suc f) n out h = elim (Bool-cases (ltb n 10)) [
  | inl small ↦
      rw (digits-small f n out (ltb→lt n 10 small))
        (ap (λ k. digits_value k out) (omega (arith, ltb→lt n 10 small)))
  | inr large ↦ rw (digits-large f n out (ground arith)) (
      digits_value-digits f (n / 10) ((b'0' + n % 10) ∷ out) (ground arith)
      ∙ ap (λ k. digits_value k out) (omega arith))
]

-- `parseInt` of what `toString` wrote is the number.
pub digits_value-to_text : (n : ℕ) → digits_value 0 (to_text n) ≡ n
unfolding to_text digits_value
digits_value-to_text n = digits_value-digits (suc n) n [] (omega arith)

pub to_text_inj : (m n : ℕ) → to_text m ≡ to_text n → m ≡ n
to_text_inj m n e = sym (digits_value-to_text m) ∙ ap (digits_value 0) e ∙ digits_value-to_text n

digits-all : (f n : ℕ) (out : Text) → all is_digit out ≡ true → all is_digit (digits f n out) ≡ true
unfolding digits is_digit
digits-all zero n out h = h
digits-all (suc f) n out h = ground (arith, digits-all f (n / 10) ((b'0' + n % 10) ∷ out))

pub all-to_text : (n : ℕ) → all is_digit (to_text n) ≡ true
unfolding to_text
all-to_text n = digits-all (suc n) n [] refl

to_text_test : to_text 9070 ≡ codes "9070"
unfolding to_text
to_text_test = refl
