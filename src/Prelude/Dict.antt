-- ===== src/Prelude/Dict.antt =====
-- A `Map` or an object whose keys are texts, in the order in which its keys were set first.
use mathlib.Core.Path.{◌≡◌, refl}
use mathlib.Core.Logic.{inl, inr}
use mathlib.Core.Bool.{false}
use mathlib.Core.Option.{Option, none, some}
use mathlib.Core.List.{List, [], ◌∷◌}
use harmotty.Prelude.Tests.{if◌then◌else◌, Bool-cases}
use harmotty.Prelude.Strings.{Text, eq_text, eq_text→eq, eq_text_refl, eq_text_ne}

abbrev pub Dict : Type 0 → Type 0
Dict V = List (Text × V)

module _ {V : Type 0} where
  unfoldable pub lookup : Dict V → Text → Option V
  lookup [] key = none
  lookup ((k, value) ∷ dict) key = if eq_text k key then some value else lookup dict key

  unfoldable pub set_key : Text → V → Dict V → Dict V
  set_key key value [] = (key, value) ∷ []
  set_key key value ((k, old) ∷ dict) =
      if eq_text k key then (k, value) ∷ dict else (k, old) ∷ set_key key value dict

  pub lookup-set_key :
      (key other : Text) (value : V) (dict : Dict V)
      → lookup (set_key key value dict) other
        ≡ (if eq_text key other then some value else lookup dict other)
  unfolding lookup set_key
  lookup-set_key key other value [] = refl
  lookup-set_key key other value ((k, old) ∷ dict) = elim (Bool-cases (eq_text k key)) [
    | inl e ↦
        let same : k ≡ key = eq_text→eq k key e in
        rw e (
          rw (← same)
            (elim (Bool-cases (eq_text k other)) [ inl f ↦ rw f refl | inr f ↦ rw f refl ]))
    | inr e ↦ elim (Bool-cases (eq_text k other)) [
      | inl f ↦
          let same : k ≡ other = eq_text→eq k other f in
          let apart : eq_text key k ≡ false =
            eq_text_ne key k (λ n. absurd (let g = rw n at e in let h = eq_text_refl k in cc)) in
          rw (e, f, ← same, apart) refl
      | inr f ↦ rw (e, f) (lookup-set_key key other value dict)
    ]
  ]
