-- ===== src/Prelude/Splits.antt =====
-- `indexOf` with a start, and what it cuts out of a text.
use Prim.Native.Nat.{ℕ, zero, suc, ◌+◌, ◌-◌, ◌<◌, min, max}
use mathlib.Core.Path.{◌≡◌, refl, sym, ap, ◌∙◌}
use mathlib.Core.Logic.{inl, inr}
use mathlib.Core.Bool.{Bool, true, false}
use mathlib.Core.Option
use mathlib.Core.Option.{Option, none, some}
use mathlib.Core.List.{List, [], ◌∷◌, ◌++◌, append_assoc}
use native.Mathlib.Omega.{arith}
use harmotty.Prelude.Tests.{◌==◌, if◌then◌else◌, Option-cases, Bool-cases}
use harmotty.Prelude.Lists.{
  length, take, drop, length-drop, drop-append, drop-append_cons, take-append,
}
use harmotty.Prelude.Strings.{
  Text, is_space, index_of, substring, index_of-eq-some, index_of-append, index_of-lt,
}

-- `s.indexOf(c, from)`.
unfoldable pub index_from : ℕ → Text → ℕ → Option ℕ
index_from c s from = Option.map (λ k. from + k) (index_of c (drop from s))

drop-nil : (k : ℕ) → drop {A = ℕ} k [] ≡ []
drop-nil zero = refl
drop-nil (suc k) = refl

drop-drop : (a b k : ℕ) (s : Text) → b ≡ a + k → drop k (drop a s) ≡ drop b s
drop-drop zero b k s e = let same : k ≡ b = omega arith in rw same refl
drop-drop (suc a) zero k s e = absurd (omega arith)
drop-drop (suc a) (suc b) k [] e = drop-nil k
drop-drop (suc a) (suc b) k (c ∷ s) e = drop-drop a b k s (omega arith)

pub substring-take : (s : Text) (a k : ℕ) → substring s a (a + k) ≡ take k (drop a s)
unfolding substring
substring-take s a k =
    let low : min a (a + k) ≡ a = omega arith in
    let size : max a (a + k) - a ≡ k = omega arith in rw (low, size) refl

-- Where a separator is found, the rest of the text is a field, the separator and what follows.
pub index_from-cut :
    (c : ℕ) (s : Text) (a b : ℕ)
    → index_from c s a ≡ some b
    → drop a s ≡ substring s a b ++ c ∷ drop (suc b) s
unfolding index_from
index_from-cut c s a b e = elim (Option-cases (index_of c (drop a s))) [
  | inl none_found ↦ absurd (let f = rw none_found at e in cc)
  | inr (k, found) ↦
      let at_b : a + k ≡ b = ap (λ o. Option.get_or o 0) (rw found at e) in
      rw (← at_b, substring-take s a k)
        (index_of-eq-some c (drop a s) k found
          ∙ ap (λ r. take k (drop a s) ++ c ∷ r)
              (drop-drop a (suc (a + k)) (suc k) s (omega arith)))
]

-- A field without the separator ends where the separator stands.
pub index_from-field :
    (c : ℕ) (p m r : Text)
    → index_of c m ≡ none
    → index_from c (p ++ m ++ c ∷ r) (length p) ≡ some (length p + length m)
unfolding index_from
index_from-field c p m r none_found =
    rw (append_assoc p m (c ∷ r), drop-append p (m ++ c ∷ r), index_of-append c m r none_found) refl

pub substring-field : (p m r : Text) → substring (p ++ m ++ r) (length p) (length p + length m) ≡ m
substring-field p m r =
    rw
      (
        substring-take (p ++ m ++ r) (length p) (length m),
        append_assoc p m r,
        drop-append p (m ++ r),
      )
      (take-append m r)

abbrev pub push_unit : ℕ → List Text → List Text
push_unit a [] = (a ∷ []) ∷ []
push_unit a (f ∷ fs) = (a ∷ f) ∷ fs

-- `s.split(c)`.
unfoldable pub split_on : ℕ → Text → List Text
split_on c [] = [] ∷ []
split_on c (a ∷ s) = if a == c then [] ∷ split_on c s else push_unit a (split_on c s)

module _ (c : ℕ) where
  pub index_of-head :
      (a : ℕ) (s : Text) → index_of c (a ∷ s) ≡ none → ((a == c) ≡ false) × (index_of c s ≡ none)
  unfolding index_of
  index_of-head a s h = elim (Bool-cases (a == c)) [
    | inl e ↦ absurd (let g = rw e at h in cc)
    | inr e ↦ elim (Option-cases (index_of c s)) [
      | inl f ↦ (e, f)
      | inr (i, f) ↦ absurd (let g = rw (e, f) at h in cc)
    ]
  ]

  pub split_on-none : (f : Text) → index_of c f ≡ none → split_on c f ≡ f ∷ []
  unfolding split_on
  split_on-none [] h = refl
  split_on-none (a ∷ f) h =
      let (differs, rest) = index_of-head a f h in rw (differs, split_on-none f rest) refl

  pub split_on-append :
      (f r : Text) → index_of c f ≡ none → split_on c (f ++ c ∷ r) ≡ f ∷ split_on c r
  unfolding split_on
  split_on-append [] r h = let same : (c == c) ≡ true = ground arith in rw same refl
  split_on-append (a ∷ f) r h =
      let (differs, rest) = index_of-head a f h in rw (differs, split_on-append f r rest) refl

pub index_from-lt : (c : ℕ) (s : Text) (a b : ℕ) → index_from c s a ≡ some b → b < length s
unfolding index_from
index_from-lt c s a b e = elim (Option-cases (index_of c (drop a s))) [
  | inl none_found ↦ absurd (let f = rw none_found at e in cc)
  | inr (k, found) ↦
      let at_b : a + k ≡ b = ap (λ o. Option.get_or o 0) (rw found at e) in
      omega (arith, index_of-lt c (drop a s) k found, length-drop {0} a s)
]

-- What stands before the first separator and what follows it are determined.
pub separated_inj :
    (c : ℕ) (a b s t : Text)
    → index_of c a ≡ none
    → index_of c b ≡ none
    → a ++ c ∷ s ≡ b ++ c ∷ t
    → (a ≡ b) × (s ≡ t)
separated_inj c a b s t no_a no_b e =
    let size : length a ≡ length b =
      ap (λ o. Option.get_or o 0)
        (sym (index_of-append c a s no_a) ∙ ap (index_of c) e ∙ index_of-append c b t no_b) in
    let before : a ≡ b =
      sym (take-append a (c ∷ s)) ∙ ap (take (length a)) e ∙ rw size (take-append b (c ∷ t)) in
    let after : s ≡ t =
      sym (drop-append_cons a c s)
      ∙ ap (drop (suc (length a))) e
      ∙ rw size (drop-append_cons b c t) in
    (before, after)

-- `s.split(/\s+/)`, after a unit that was white space or not.
unfoldable pub words_of : Bool → Text → List Text
words_of after_space [] = [] ∷ []
words_of after_space (c ∷ s) =
    let rest = words_of (is_space c) s in
    if is_space c then (if after_space then rest else [] ∷ rest) else push_unit c rest

-- `s.lastIndexOf(c)`.
unfoldable pub last_index_of : ℕ → Text → Option ℕ
last_index_of c [] = none
last_index_of c (a ∷ s) = elim (last_index_of c s) [
  | some i ↦ some (suc i)
  | none ↦ if a == c then some 0 else none
]
