-- ===== src/Config/GlobMeaning.antt =====
-- What a pattern of `globMatches` means (entry/src/main/ets/model/ssh/SshConfig.ets).
use harmotty.Prelude.{
  ℕ, ◌≡◌, refl, sym, inl, inr, Bool, true, false, not, ◌&&◌, ◌||◌, [], ◌∷◌, arith, Text,
  if◌then◌else◌, drop, all, Bool-cases,
}
use harmotty.Config.Glob.{is_star, fits, all_stars}

-- A text or one that is left from it later.
abbrev pub any_suffix : (Text → Bool) → Text → Bool
any_suffix f [] = f []
any_suffix f (c ∷ s) = f (c ∷ s) || any_suffix f s

-- What a pattern means: a star is any text, any other unit one unit that fits it.
unfoldable pub matches : Text → Text → Bool
matches [] [] = true
matches [] (c ∷ value) = false
matches (p ∷ pattern) [] = if is_star p then matches pattern [] else false
matches (p ∷ pattern) (c ∷ value) =
    let rest = matches pattern value in
    if is_star p then any_suffix (matches pattern) (c ∷ value) else fits p c && rest

abbrev pub HasNoStar : Text → Type 0
HasNoStar value = all (λ c. not (is_star c)) value ≡ true

pub Bool-ext : (a b : Bool) → (a ≡ true → b ≡ true) → (b ≡ true → a ≡ true) → a ≡ b
Bool-ext true b f g = sym (f refl)
Bool-ext false true f g = g refl
Bool-ext false false f g = refl

pub any_suffix-drop :
    (f : Text → Bool) (s : Text) → any_suffix f (drop 1 s) ≡ true → any_suffix f s ≡ true
any_suffix-drop f [] h = h
any_suffix-drop f (c ∷ s) h = ground arith

pub any_suffix_first : (f : Text → Bool) (s : Text) → f s ≡ true → any_suffix f s ≡ true
any_suffix_first f [] h = h
any_suffix_first f (c ∷ s) h = rw h refl

pub any_suffix_twice :
    (f : Text → Bool) (s : Text) → any_suffix (any_suffix f) s ≡ true → any_suffix f s ≡ true
any_suffix_twice f [] h = h
any_suffix_twice f (c ∷ s) h = elim (Bool-cases (any_suffix f (c ∷ s))) [
  | inl e ↦ e
  | inr e ↦ absurd (let g = any_suffix_twice f s in ground arith)
]

pub matches-star :
    (p : ℕ) (pattern value : Text)
    → is_star p ≡ true
    → matches (p ∷ pattern) value ≡ any_suffix (matches pattern) value
unfolding matches
matches-star p pattern [] h = rw h refl
matches-star p pattern (c ∷ value) h = rw h refl

pub matches-unit :
    (p c : ℕ) (pattern value : Text)
    → is_star p ≡ false
    → matches (p ∷ pattern) (c ∷ value) ≡ (fits p c && matches pattern value)
unfolding matches
matches-unit p c pattern value h = rw h refl

pub matches-none : (p : ℕ) (pattern : Text) → is_star p ≡ false → matches (p ∷ pattern) [] ≡ false
unfolding matches
matches-none p pattern h = rw h refl

pub matches-end : (pattern : Text) → matches pattern [] ≡ all_stars pattern
unfolding matches
matches-end [] = refl
matches-end (p ∷ pattern) = elim (Bool-cases (is_star p)) [
  | inl e ↦ rw e (matches-end pattern)
  | inr e ↦ rw e refl
]

pub any_suffix-pointwise :
    (f g : Text → Bool) → ((s : Text) → f s ≡ g s) → (s : Text) → any_suffix f s ≡ any_suffix g s
any_suffix-pointwise f g e [] = e []
any_suffix-pointwise f g e (c ∷ s) = rw (e (c ∷ s), any_suffix-pointwise f g e s) refl

-- A unit of a pattern takes a unit of the name.
pub any_suffix-unit :
    (p : ℕ) (pattern s : Text)
    → is_star p ≡ false
    → any_suffix (matches (p ∷ pattern)) s ≡ true
    → any_suffix (matches pattern) (drop 1 s) ≡ true
any_suffix-unit p pattern [] e h = absurd (let g = matches-none p pattern e in cc)
any_suffix-unit p pattern (c ∷ s) e h = elim (Bool-cases (matches pattern s)) [
  | inl g ↦ any_suffix_first (matches pattern) s g
  | inr g ↦
      let no_first : matches (p ∷ pattern) (c ∷ s) ≡ false =
        rw (matches-unit p c pattern s e, g) (ground arith) in
      any_suffix-drop (matches pattern) s (any_suffix-unit p pattern s e (rw no_first at h))
]
