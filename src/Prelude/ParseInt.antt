-- ===== src/Prelude/ParseInt.antt =====
-- `parseInt(s, 10)` on any text.
use harmotty.Prelude.{
  ℕ, zero, suc, ◌≡◌, ◌≢◌, refl, sym, ap, ◌∙◌, true, false, Option, none, some, [], ◌∷◌, arith, Text,
  ◌==◌, if◌then◌else◌, is_space, trim_start, index_of, all,
}
use mathlib.Core.Option
use harmotty.Prelude.Int.{ℤ, pos, negsuc}
use harmotty.Prelude.Decimal.{to_text, is_digit, digits_value, digits_value-to_text, all-to_text}

abbrev pub minus : ℕ → ℤ
minus zero = pos 0
minus (suc n) = negsuc n

-- The digits that a text starts with.
unfoldable pub digit_prefix : Text → Text
unfolding is_digit
digit_prefix [] = []
digit_prefix (c ∷ s) = if is_digit c then c ∷ digit_prefix s else []

unfoldable pub unsigned : Text → Option ℕ
unsigned s = elim (digit_prefix s) [ [] ↦ none | c ∷ ds ↦ some (digits_value 0 (c ∷ ds)) ]

unfoldable pub signed : Text → Option ℤ
signed [] = none
signed (c ∷ s) =
    if c == b'-'
    then Option.map minus (unsigned s)
    else if c == b'+'
    then Option.map pos (unsigned s)
    else Option.map pos (unsigned (c ∷ s))

-- `parseInt(s, 10)`, with `none` for NaN.
unfoldable pub parse_int : Text → Option ℤ
parse_int s = signed (trim_start s)

digit_prefix-digits : (s : Text) → all is_digit s ≡ true → digit_prefix s ≡ s
unfolding digit_prefix
digit_prefix-digits [] h = refl
digit_prefix-digits (c ∷ s) h = ground (arith, digit_prefix-digits s)

digit-space : (c : ℕ) → is_digit c ≡ true → is_space c ≡ false
unfolding is_digit is_space
digit-space c h = ground arith

unsigned-digits :
    (c : ℕ) (s : Text)
    → all is_digit (c ∷ s) ≡ true
    → unsigned (c ∷ s) ≡ some (digits_value 0 (c ∷ s))
unfolding unsigned
unsigned-digits c s h = rw (digit_prefix-digits (c ∷ s) h, unsigned) refl

digit-sign : (c : ℕ) → is_digit c ≡ true → ((c == b'-') ≡ false) × ((c == b'+') ≡ false)
unfolding is_digit
digit-sign c h = (ground arith, ground arith)

first_digit : (c : ℕ) (s : Text) → all is_digit (c ∷ s) ≡ true → is_digit c ≡ true
first_digit c s h = ground arith

parse_int-digits :
    (c : ℕ) (s : Text)
    → all is_digit (c ∷ s) ≡ true
    → parse_int (c ∷ s) ≡ some (pos (digits_value 0 (c ∷ s)))
unfolding parse_int signed trim_start
parse_int-digits c s h =
    let digit = first_digit c s h in
    let (no_minus, no_plus) = digit-sign c digit in
    rw (digit-space c digit, signed, no_minus, no_plus, unsigned-digits c s h) refl

no_digits : (n : ℕ) → to_text n ≢ []
unfolding to_text digits_value
no_digits n e =
    let zero_value : n ≡ 0 = sym (digits_value-to_text n) ∙ ap (digits_value 0) e in
    absurd (let f = rw zero_value at e in cc)

numeral : (n : ℕ) (s : Text) → to_text n ≡ s → parse_int s ≡ some (pos n)
numeral n [] e = absurd (no_digits n e)
numeral n (c ∷ s) e =
    parse_int-digits c s (ap (all is_digit) (sym e) ∙ all-to_text n)
    ∙ ap (λ v. some (pos v)) (ap (digits_value 0) (sym e) ∙ digits_value-to_text n)

-- `parseInt` of what `toString` wrote is the number.
pub parse_int-to_text : (n : ℕ) → parse_int (to_text n) ≡ some (pos n)
parse_int-to_text n = numeral n (to_text n) refl

pub index_of-digits :
    (c : ℕ) (s : Text) → is_digit c ≡ false → all is_digit s ≡ true → index_of c s ≡ none
unfolding index_of
index_of-digits c [] no_digit h = refl
index_of-digits c (a ∷ s) no_digit h =
    let digit = first_digit a s h in
    let differs : (a == c) ≡ false = ground arith in
    rw (differs, index_of-digits c s no_digit (ground arith)) refl
