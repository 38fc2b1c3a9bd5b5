-- ===== src/Prelude/Strings.antt =====
-- Text as the program sees it: a JavaScript string is a list of UTF-16 code units.
-- `codes` reads a literal; the literals of the program are ASCII, so code units are code points.
use Prim.Native.Nat.{ℕ, zero, suc, ◌-◌, ◌≤◌, ◌<◌, min, max}
use Prim.Native.Char.{code}
use Prim.Native.String.{String}
use mathlib.Core.Path.{◌≡◌, refl, ap}
use mathlib.Core.Logic.{◌↔◌, inl, inr, ◌≢◌}
use mathlib.Core.Bool.{Bool, true, false, ◌&&◌, ◌||◌}
use mathlib.Core.Option
use mathlib.Core.Option.{Option, none, some}
use mathlib.Core.List.{List, [], ◌∷◌, ◌++◌}
use native.Mathlib.Omega.{arith}
use harmotty.Prelude.Tests.{leb, ◌==◌, if◌then◌else◌, Bool-cases, Option-cases}
use harmotty.Prelude.Lists.{length, take, drop, length-drop}

abbrev pub Text : Type 0
Text = List ℕ

abbrev pub codes : String → Text
codes String.[] = []
codes (String.◌∷◌ c s) = code c ∷ codes s

-- `===` on strings.
abbrev pub eq_text : Text → Text → Bool
eq_text [] [] = true
eq_text [] (b ∷ t) = false
eq_text (a ∷ s) [] = false
eq_text (a ∷ s) (b ∷ t) = a == b && eq_text s t

pub eq_text→eq : (s t : Text) → eq_text s t ≡ true → s ≡ t
eq_text→eq [] [] h = refl
eq_text→eq [] (b ∷ t) h = cc
eq_text→eq (a ∷ s) [] h = cc
eq_text→eq (a ∷ s) (b ∷ t) h = ground (arith, eq_text→eq s t)

pub eq_text_refl : (s : Text) → eq_text s s ≡ true
eq_text_refl [] = refl
eq_text_refl (a ∷ s) = ground (arith, eq_text_refl s)

pub eq_text_iff : (s t : Text) → (eq_text s t ≡ true) ↔ (s ≡ t)
eq_text_iff s t = (eq_text→eq s t, λ e. rw e (eq_text_refl t))

pub eq_text_ne : (s t : Text) → s ≢ t → eq_text s t ≡ false
eq_text_ne s t ne = elim (Bool-cases (eq_text s t)) [
  | inl e ↦ absurd (ne (eq_text→eq s t e))
  | inr e ↦ e
]

-- `indexOf` of one code unit; `none` is -1.
unfoldable pub index_of : ℕ → Text → Option ℕ
index_of c [] = none
index_of c (a ∷ s) = if a == c then some 0 else Option.map suc (index_of c s)

-- `substring(a, b)`, which swaps its bounds when they stand the wrong way round.
unfoldable pub substring : Text → ℕ → ℕ → Text
substring s a b = take (max a b - min a b) (drop (min a b) s)

unfoldable pub starts_with : Text → Text → Bool
starts_with s [] = true
starts_with [] (c ∷ p) = false
starts_with (a ∷ s) (c ∷ p) = a == c && starts_with s p

-- White space, as `trim` and `\s` know it.
unfoldable pub is_space : ℕ → Bool
is_space c =
    leb 9 c && leb c 13
    || c == 32
    || c == 160
    || c == 0x1680
    || leb 0x2000 c && leb c 0x200a
    || c == 0x2028
    || c == 0x2029
    || c == 0x202f
    || c == 0x205f
    || c == 0x3000
    || c == 0xfeff

unfoldable pub trim_start : Text → Text
trim_start [] = []
trim_start (c ∷ s) = if is_space c then trim_start s else c ∷ s

push_front : ℕ → Text → Text
push_front c [] = if is_space c then [] else c ∷ []
push_front c (d ∷ s) = c ∷ d ∷ s

-- Drops the last code units while they are white space.
unfoldable pub trim_end : Text → Text
unfolding push_front
trim_end [] = []
trim_end (c ∷ s) = push_front c (trim_end s)

unfoldable pub trim : Text → Text
unfolding trim_start trim_end is_space
trim s = trim_end (trim_start s)

module _ (c : ℕ) where
  pub index_of-lt : (s : Text) (i : ℕ) → index_of c s ≡ some i → i < length s
  unfolding index_of
  index_of-lt [] i h = cc
  index_of-lt (a ∷ s) i h = elim (Option-cases (index_of c s)) [
    | inl e ↦ ground arith
    | inr (j, e) ↦ ground (arith, index_of-lt s j e)
  ]

  pub index_of-eq-some :
      (s : Text) (i : ℕ) → index_of c s ≡ some i → s ≡ take i s ++ c ∷ drop (suc i) s
  unfolding index_of
  index_of-eq-some [] i h = cc
  index_of-eq-some (a ∷ s) zero h = ground arith
  index_of-eq-some (a ∷ s) (suc i) h = elim (Option-cases (index_of c s)) [
    | inl e ↦ ground arith
    | inr (j, e) ↦ ground (arith, index_of-eq-some s i)
  ]

  -- The text before the first occurrence has none.
  pub index_of-take : (s : Text) (i : ℕ) → index_of c s ≡ some i → index_of c (take i s) ≡ none
  unfolding index_of
  index_of-take [] i h = cc
  index_of-take (a ∷ s) zero h = refl
  index_of-take (a ∷ s) (suc i) h = elim (Option-cases (index_of c s)) [
    | inl e ↦ ground arith
    | inr (j, e) ↦ ground (arith, index_of-take s i)
  ]

  pub index_of-append :
      (t s : Text) → index_of c t ≡ none → index_of c (t ++ c ∷ s) ≡ some (length t)
  unfolding index_of
  index_of-append [] s h = ground arith
  index_of-append (a ∷ t) s h = ground (arith, index_of-append t s)

pub take-length : (n : ℕ) (s : Text) → length s ≤ n → take n s ≡ s
take-length zero [] h = refl
take-length zero (a ∷ s) h = absurd (omega arith)
take-length (suc n) [] h = refl
take-length (suc n) (a ∷ s) h = ap (a ∷◌) (take-length n s (omega arith))

pub substring-prefix : (s : Text) (i : ℕ) → substring s 0 i ≡ take i s
unfolding substring
substring-prefix s i =
    let low : min 0 i ≡ 0 = omega arith in
    let size : max 0 i - 0 ≡ i = omega arith in rw (low, size) refl

pub substring-suffix : (s : Text) (i : ℕ) → i ≤ length s → substring s i (length s) ≡ drop i s
unfolding substring
substring-suffix s i h =
    let low : min i (length s) ≡ i = omega arith in
    rw low (take-length _ (drop i s) (omega (arith, length-drop {0} i s)))
