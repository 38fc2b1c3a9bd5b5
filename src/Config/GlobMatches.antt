-- ===== src/Config/GlobMatches.antt =====
-- `globMatches` of entry/src/main/ets/model/ssh/SshConfig.ets decides whether a name matches.
use harmotty.Prelude.{
  ℕ, zero, suc, ◌+◌, ◌*◌, ◌≤◌, ◌<◌, ◌≡◌, refl, sym, ap, ◌∙◌, inl, inr, true, false, none, some, [],
  ◌∷◌, arith, Text, length, drop, Bool-cases,
}
use harmotty.Config.Glob.{is_star, fits, all_stars, Star, glob_turn, glob_loop, glob_matches}
use harmotty.Config.GlobMeaning.{
  any_suffix, matches, HasNoStar, Bool-ext, any_suffix_first, any_suffix_twice, matches-star,
  matches-unit, matches-end, any_suffix-pointwise, any_suffix-unit,
}

-- The loop has taken units from the pattern and the name, one for one.
data Taken (pattern value : Text) : Text → Text → Type 0 where
  here : Taken pattern value pattern value
  more :
      (p c : ℕ) (ps cs : Text)
      → is_star p ≡ false
      → fits p c ≡ true
      → Taken pattern value (p ∷ ps) (c ∷ cs)
      → Taken pattern value ps cs

Taken-matches :
    {pattern value ps cs : Text} → Taken pattern value ps cs → matches pattern value ≡ matches ps cs
Taken-matches here = refl
Taken-matches (more p c ps cs e f t) = Taken-matches t ∙ matches-unit p c ps cs e ∙ rw f refl

Taken-later :
    {pattern value ps cs : Text}
    → Taken pattern value ps cs
    → any_suffix (matches pattern) value ≡ true
    → any_suffix (matches ps) cs ≡ true
Taken-later here h = h
Taken-later (more p c ps cs e f t) h = any_suffix-unit p ps (c ∷ cs) e (Taken-later t h)

-- After a star, the loop tries the pattern at every later place of the name.
module _ (after_star : Text) where
  end_lem :
      (retry pattern : Text)
      → Taken after_star retry pattern []
      → all_stars pattern ≡ any_suffix (matches after_star) retry
  end_lem retry pattern t =
      sym (matches-end pattern)
      ∙ Bool-ext (matches pattern []) (any_suffix (matches after_star) retry)
          (λ h. any_suffix_first (matches after_star) retry (Taken-matches t ∙ h))
          (λ h. Taken-later t h)

  star_lem :
      (retry value : Text) (p : ℕ) (pattern : Text)
      → is_star p ≡ true
      → Taken after_star retry (p ∷ pattern) value
      → any_suffix (matches pattern) value ≡ any_suffix (matches after_star) retry
  star_lem retry value p pattern e t =
      Bool-ext (any_suffix (matches pattern) value) (any_suffix (matches after_star) retry)
        (λ h.
          any_suffix_first (matches after_star) retry
            (Taken-matches t ∙ matches-star p pattern value e ∙ h))
        (λ h. any_suffix_twice (matches pattern) value (
          sym (
            any_suffix-pointwise (matches (p ∷ pattern)) (any_suffix (matches pattern))
              (λ v. matches-star p pattern v e) value)
          ∙ Taken-later t h))

  retry_lem :
      (retry pattern value : Text) (c : ℕ)
      → matches pattern (c ∷ value) ≡ false
      → Taken after_star retry pattern (c ∷ value)
      → any_suffix (matches after_star) (drop 1 retry) ≡ any_suffix (matches after_star) retry
  retry_lem [] pattern value c h t = refl
  retry_lem (d ∷ retry) pattern value c h t = rw (Taken-matches t ∙ h) refl

-- A name without a star, in which `*` is no unit, so a unit that fits is not a star.
unit_is_no_star : (p c : ℕ) → is_star c ≡ false → fits p c ≡ true → is_star p ≡ false
unit_is_no_star p c h f = ground arith

mismatch :
    (p c : ℕ) (pattern value : Text)
    → is_star p ≡ false
    → fits p c ≡ false
    → matches (p ∷ pattern) (c ∷ value) ≡ false
mismatch p c pattern value e f = matches-unit p c pattern value e ∙ rw f refl

no_star-tail : (c : ℕ) (value : Text) → HasNoStar (c ∷ value) → HasNoStar value
no_star-tail c value h = ground arith

no_star-head : (c : ℕ) (value : Text) → HasNoStar (c ∷ value) → is_star c ≡ false
no_star-head c value h = ground arith

module _ (fuel c : ℕ) (value : Text) (star : Star) where
  pub loop-fits :
      (p : ℕ) (rest : Text)
      → fits p c ≡ true
      → glob_loop (suc fuel) (c ∷ value) (p ∷ rest) star ≡ glob_loop fuel value rest star
  unfolding glob_loop glob_turn
  loop-fits p rest f = rw (f, glob_loop) refl

  pub loop-star :
      (p : ℕ) (rest : Text)
      → fits p c ≡ false
      → is_star p ≡ true
      → glob_loop (suc fuel) (c ∷ value) (p ∷ rest) star
        ≡ glob_loop fuel (c ∷ value) rest (some (rest, c ∷ value))
  unfolding glob_loop glob_turn
  loop-star p rest f e = rw (f, e, glob_loop) refl

  pub loop-retry :
      (p : ℕ) (rest : Text)
      → fits p c ≡ false
      → is_star p ≡ false
      → glob_loop (suc fuel) (c ∷ value) (p ∷ rest) star ≡ glob_loop (suc fuel) (c ∷ value) [] star
  unfolding glob_loop glob_turn
  loop-retry p rest f e = rw (f, e, glob_loop) refl

pub product_le : (a b q : ℕ) → a ≤ b → a * q ≤ b * q
product_le zero b q h = omega arith
product_le (suc a) zero q h = absurd (omega arith)
product_le (suc a) (suc b) q h = let less = product_le a b q (omega arith) in grind arith

-- `q` bounds the length of the pattern.
module _ (q : ℕ) where
  loop_starred :
      (fuel : ℕ) (after_star retry pattern value : Text)
      → Taken after_star retry pattern value
      → HasNoStar retry
      → HasNoStar value
      → length after_star < q
      → length pattern < q
      → length value ≤ length retry
      → length retry * q + length pattern < fuel
      → glob_loop fuel value pattern (some (after_star, retry))
        ≡ some (any_suffix (matches after_star) retry)
  unfolding glob_loop glob_turn
  loop_starred zero after_star retry pattern value t nr nv a b c h = absurd (omega arith)
  loop_starred (suc fuel) after_star retry pattern [] t nr nv a b c h =
      rw (end_lem after_star retry pattern t) refl
  loop_starred (suc fuel) after_star [] pattern (d ∷ value) t nr nv a b c h = absurd (omega arith)
  loop_starred (suc fuel) after_star (r ∷ retry) [] (d ∷ value) t nr nv a b c h =
      loop_starred fuel after_star retry after_star retry here (no_star-tail r retry nr)
        (no_star-tail r retry nr) a a (omega arith) (grind arith)
      ∙ ap some (retry_lem after_star (r ∷ retry) [] value d (unfold matches in refl) t)
  loop_starred (suc fuel) after_star (r ∷ retry) (p ∷ pattern) (d ∷ value) t nr nv a b c h =
      elim (Bool-cases (fits p d)) [
        | inl f ↦
            let e = unit_is_no_star p d (no_star-head d value nv) f in
            loop-fits fuel d value (some (after_star, r ∷ retry)) p pattern f
            ∙ (loop_starred fuel after_star (r ∷ retry) pattern value (more p d pattern value e f t)
                nr (no_star-tail d value nv) a (omega arith) (omega arith) (omega arith))
        | inr f ↦ elim (Bool-cases (is_star p)) [
          | inl e ↦
              loop-star fuel d value (some (after_star, r ∷ retry)) p pattern f e
              ∙ (loop_starred fuel pattern (d ∷ value) pattern (d ∷ value) here nv nv (omega arith)
                    (omega arith) (omega arith)
                    (omega (arith, product_le (length (d ∷ value)) (length (r ∷ retry)) q c))
                  ∙ ap some (star_lem after_star (r ∷ retry) (d ∷ value) p pattern e t))
          | inr e ↦
              loop-retry fuel d value (some (after_star, r ∷ retry)) p pattern f e
              ∙ (loop_starred fuel after_star retry after_star retry here (no_star-tail r retry nr)
                    (no_star-tail r retry nr) a a (omega arith) (grind arith)
                  ∙ ap some (
                      retry_lem after_star (r ∷ retry) (p ∷ pattern) value d
                        (mismatch p d pattern value e f) t))
        ]
      ]

  loop_lem :
      (fuel : ℕ) (pattern value : Text)
      → HasNoStar value
      → length pattern < q
      → length value * q + length pattern < fuel
      → glob_loop fuel value pattern none ≡ some (matches pattern value)
  unfolding glob_loop glob_turn
  loop_lem zero pattern value nv b h = absurd (omega arith)
  loop_lem (suc fuel) pattern [] nv b h = ap some (sym (matches-end pattern))
  loop_lem (suc fuel) [] (d ∷ value) nv b h = unfold matches in refl
  loop_lem (suc fuel) (p ∷ pattern) (d ∷ value) nv b h = elim (Bool-cases (fits p d)) [
    | inl f ↦
        let e = unit_is_no_star p d (no_star-head d value nv) f in
        rw (loop-fits fuel d value none p pattern f, matches-unit p d pattern value e, f)
          (loop_lem fuel pattern value (no_star-tail d value nv) (omega arith) (grind arith))
    | inr f ↦ elim (Bool-cases (is_star p)) [
      | inl e ↦
          loop-star fuel d value none p pattern f e
          ∙ (loop_starred fuel pattern (d ∷ value) pattern (d ∷ value) here nv nv (omega arith)
                (omega arith) (omega arith) (omega arith)
              ∙ ap some (sym (matches-star p pattern (d ∷ value) e)))
      | inr e ↦
          loop-retry fuel d value none p pattern f e
          ∙ ap some (sym (mismatch p d pattern value e f))
    ]
  ]

-- For a name in which no `*` stands, let `n` be its length and `m` that of the pattern. With fuel for
-- more than `n * (m + 1) + m` turns the loop returns, and returns whether the pattern means a set of
-- texts that has the name: it goes back to the last star only, and tries enough. So does
-- `globMatches`.
pub glob_matches_lem :
    (value pattern : Text) (fuel : ℕ)
    → HasNoStar value
    → length value * suc (length pattern) + length pattern < fuel
    → (glob_loop fuel value pattern none ≡ some (matches pattern value))
      × (glob_matches value pattern ≡ matches pattern value)
unfolding glob_matches
glob_matches_lem value pattern fuel h enough =
    let returns = loop_lem (suc (length pattern)) in
    (
      returns fuel pattern value h (omega arith) enough,
      rw
          (
            returns (suc (length value * suc (length pattern) + length pattern)) pattern value h
                (omega arith) (omega arith),
            glob_matches,
          )
          refl,
    )
