-- ===== src/Config/GlobEnds.antt =====
-- The loop of `globMatches` (entry/src/main/ets/model/ssh/SshConfig.ets) ends for every name and
-- pattern, also where a `*` stands in the name.
use harmotty.Prelude.{
  ℕ, zero, suc, ◌+◌, ◌*◌, ◌≤◌, ◌<◌, ◌≡◌, refl, ◌∙◌, inl, inr, Bool, false, none, some, [], ◌∷◌,
  arith, Text, length, Bool-cases,
}
use harmotty.Config.Glob.{is_star, fits, all_stars, glob_turn, glob_loop}
use harmotty.Config.GlobMatches.{loop-fits, loop-star, loop-retry, product_le}

-- `q` bounds the length of the pattern.
module _ (q : ℕ) where
  starred_ends :
      (fuel : ℕ) (after_star retry pattern value : Text)
      → length after_star < q
      → length pattern < q
      → length value ≤ length retry
      → length retry * q + length pattern < fuel
      → (b : Bool) × (glob_loop fuel value pattern (some (after_star, retry)) ≡ some b)
  unfolding glob_loop glob_turn
  starred_ends zero after_star retry pattern value a b c h = absurd (omega arith)
  starred_ends (suc fuel) after_star retry pattern [] a b c h = (all_stars pattern, refl)
  starred_ends (suc fuel) after_star [] pattern (d ∷ value) a b c h = absurd (omega arith)
  starred_ends (suc fuel) after_star (r ∷ retry) [] (d ∷ value) a b c h =
      starred_ends fuel after_star retry after_star retry a a (omega arith) (grind arith)
  starred_ends (suc fuel) after_star (r ∷ retry) (p ∷ pattern) (d ∷ value) a b c h =
      elim (Bool-cases (fits p d)) [
        | inl f ↦
            let (matched, rest) =
              starred_ends fuel after_star (r ∷ retry) pattern value a (omega arith) (omega arith)
                (omega arith) in
            (matched, loop-fits fuel d value (some (after_star, r ∷ retry)) p pattern f ∙ rest)
        | inr f ↦ elim (Bool-cases (is_star p)) [
          | inl e ↦
              let (matched, rest) =
                starred_ends fuel pattern (d ∷ value) pattern (d ∷ value) (omega arith)
                  (omega arith) (omega arith)
                  (omega (arith, product_le (length (d ∷ value)) (length (r ∷ retry)) q c)) in
              (matched, loop-star fuel d value (some (after_star, r ∷ retry)) p pattern f e ∙ rest)
          | inr e ↦
              let (matched, rest) =
                starred_ends fuel after_star retry after_star retry a a (omega arith)
                  (grind arith) in
              (matched, loop-retry fuel d value (some (after_star, r ∷ retry)) p pattern f e ∙ rest)
        ]
      ]

  -- With so much fuel the loop does not run out of it.
  loop_ends :
      (fuel : ℕ) (pattern value : Text)
      → length pattern < q
      → length value * q + length pattern < fuel
      → (b : Bool) × (glob_loop fuel value pattern none ≡ some b)
  unfolding glob_loop glob_turn
  loop_ends zero pattern value b h = absurd (omega arith)
  loop_ends (suc fuel) pattern [] b h = (all_stars pattern, refl)
  loop_ends (suc fuel) [] (d ∷ value) b h = (false, refl)
  loop_ends (suc fuel) (p ∷ pattern) (d ∷ value) b h = elim (Bool-cases (fits p d)) [
    | inl f ↦
        let (matched, rest) = loop_ends fuel pattern value (omega arith) (grind arith) in
        (matched, loop-fits fuel d value none p pattern f ∙ rest)
    | inr f ↦ elim (Bool-cases (is_star p)) [
      | inl e ↦
          let (matched, rest) =
            starred_ends fuel pattern (d ∷ value) pattern (d ∷ value) (omega arith) (omega arith)
              (omega arith) (omega arith) in
          (matched, loop-star fuel d value none p pattern f e ∙ rest)
      | inr e ↦ (false, loop-retry fuel d value none p pattern f e)
    ]
  ]
