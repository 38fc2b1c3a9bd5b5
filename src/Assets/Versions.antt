-- ===== src/Assets/Versions.antt =====
-- The versions that the package check accepts (tools/web-terminal/test-terminal-policy.mjs).
use harmotty.Prelude.{
  ℕ, ◌≤◌, ◌≡◌, ◌↔◌, refl, inl, inr, Bool, true, false, ◌&&◌, List, [], ◌∷◌, ◌++◌, arith, Text,
  split_on, push_unit, ◌∙◌, ap, split_on-none, split_on-append, lt→ltb, ◌==◌, length, all,
  Bool-cases,
}
use harmotty.Prelude.Decimal.{is_digit}
use harmotty.Prelude.ParseInt.{index_of-digits}
use harmotty.Assets.Check.{is_number, is_three_numbers, is_exact_version}

-- A text of one or more digits.
abbrev pub IsNumber : Text → Type 0
IsNumber digits = (1 ≤ length digits) × (all is_digit digits ≡ true)

-- Three numbers with dots between them.
abbrev pub IsExactVersion : Text → Type 0
IsExactVersion version =
    (major : Text) × (minor : Text) × (patch : Text) × IsNumber major
    × IsNumber minor
    × IsNumber patch
    × (version ≡ major ++ (b'.' ∷ (minor ++ (b'.' ∷ patch))))

join : List Text → Text
join [] = []
join (f ∷ []) = f
join (f ∷ g ∷ fs) = f ++ (b'.' ∷ join (g ∷ fs))

join-push_unit : (a : ℕ) (fs : List Text) → join (push_unit a fs) ≡ a ∷ join fs
unfolding join
join-push_unit a [] = refl
join-push_unit a (f ∷ []) = refl
join-push_unit a (f ∷ g ∷ fs) = refl

push_unit_nonempty :
    (a : ℕ) (fs : List Text) → (g : Text) × (gs : List Text) × (push_unit a fs ≡ g ∷ gs)
push_unit_nonempty a [] = (a ∷ [], [], refl)
push_unit_nonempty a (f ∷ fs) = (a ∷ f, fs, refl)

split_on_nonempty : (s : Text) → (g : Text) × (gs : List Text) × (split_on b'.' s ≡ g ∷ gs)
unfolding split_on
split_on_nonempty [] = ([], [], refl)
split_on_nonempty (a ∷ s) = elim (Bool-cases (a == b'.')) [
  | inl e ↦ ([], split_on b'.' s, rw e refl)
  | inr e ↦ rw e (push_unit_nonempty a (split_on b'.' s))
]

join-empty : join ([] ∷ []) ≡ []
unfolding join
join-empty = refl

join-dot : (g : Text) (gs : List Text) → join ([] ∷ g ∷ gs) ≡ b'.' ∷ join (g ∷ gs)
unfolding join
join-dot g gs = refl

join-split_on : (s : Text) → join (split_on b'.' s) ≡ s
unfolding split_on
join-split_on [] = join-empty
join-split_on (a ∷ s) =
    let rest = join-split_on s in
    elim (Bool-cases (a == b'.')) [
      | inl e ↦
          let dot : a ≡ b'.' = ground arith in
          let (g, gs, f) = split_on_nonempty s in
          rw (dot, f) (join-dot g gs ∙ ap (λ t. b'.' ∷ t) (rw f at rest))
      | inr e ↦ rw e (join-push_unit a (split_on b'.' s) ∙ ap (λ t. a ∷ t) rest)
    ]

is_number_sound : (digits : Text) → is_number digits ≡ true → IsNumber digits
is_number_sound digits h = elim (Bool-cases (all is_digit digits)) [
  | inl e ↦ (ground arith, e)
  | inr e ↦ absurd (ground arith)
]

is_number_complete : (digits : Text) → IsNumber digits → is_number digits ≡ true
is_number_complete digits v = rw (lt→ltb 0 (length digits) v.0, v.1) refl

three_parts : (a b c : Bool) → (a && b && c) ≡ true → (a ≡ true) × (b ≡ true) × (c ≡ true)
three_parts true true c h = (refl, refl, h)
three_parts true false c h = cc
three_parts false b c h = cc

three_numbers : (fs : List Text) → is_three_numbers fs ≡ true → IsExactVersion (join fs)
unfolding join
three_numbers [] h = cc
three_numbers (f ∷ []) h = cc
three_numbers (f ∷ g ∷ []) h = cc
three_numbers (f ∷ g ∷ k ∷ []) h =
    let (a, b, c) = three_parts (is_number f) (is_number g) (is_number k) h in
    (f, g, k, is_number_sound f a, is_number_sound g b, is_number_sound k c, refl)
three_numbers (f ∷ g ∷ k ∷ l ∷ fs) h = cc

split_version :
    (major minor patch : Text)
    → IsNumber major
    → IsNumber minor
    → IsNumber patch
    → split_on b'.' (major ++ (b'.' ∷ (minor ++ (b'.' ∷ patch)))) ≡ major ∷ minor ∷ patch ∷ []
unfolding is_digit
split_version major minor patch a b c =
    let whole = λ (s : Text) (n : IsNumber s). index_of-digits b'.' s refl n.1 in
    rw
      (
        split_on-append b'.' major (minor ++ (b'.' ∷ patch)) (whole major a),
        split_on-append b'.' minor patch (whole minor b),
        split_on-none b'.' patch (whole patch c),
      )
      refl

-- A dependency has an exact version just if its version is three numbers with dots between them.
pub is_exact_version_iff :
    (version : Text) → (is_exact_version version ≡ true) ↔ IsExactVersion version
unfolding is_exact_version
is_exact_version_iff version = (
  λ h. rw (join-split_on version) at (three_numbers (split_on b'.' version) h),
  λ (major, minor, patch, a, b, c, e).
      rw (e, split_version major minor patch a b c)
        (rw (is_number_complete major a, is_number_complete minor b, is_number_complete patch c)
          refl),
)
