-- ===== src/Config/Glob.antt =====
-- `globMatches` of entry/src/main/ets/model/ssh/SshConfig.ets: a name against a pattern in which `*`
-- stands for any text and `?` for any unit. An index of the loop is the text that is left from it.
use harmotty.Prelude.{
  ℕ, zero, suc, ◌+◌, ◌*◌, Bool, false, ◌||◌, Option, none, some, [], ◌∷◌, Text, ◌==◌, if◌then◌else◌,
  length, drop, all,
}

abbrev pub is_star : ℕ → Bool
is_star c = c == b'*'

-- The pattern's unit is `?` or the unit of the name.
abbrev pub fits : ℕ → ℕ → Bool
fits p c = p == b'?' || p == c

abbrev pub all_stars : Text → Bool
all_stars pattern = all is_star pattern

-- The pattern after the last star, and the name from `retryIndex`.
abbrev pub Star : Type 0
Star = Option (Text × Text)

-- The name and the pattern of the next turn; without a star there is none.
abbrev pub retry_star : Star → Option (Text × Text × Star)
retry_star none = none
retry_star (some (after_star, retry)) =
    some (drop 1 retry, after_star, some (after_star, drop 1 retry))

-- A turn of the first loop, at a unit of the name.
unfoldable pub glob_turn : ℕ → Text → Text → Star → Option (Text × Text × Star)
glob_turn c value [] star = retry_star star
glob_turn c value (p ∷ rest) star =
    if fits p c
    then some (value, rest, star)
    else if is_star p
    then some (c ∷ value, rest, some (rest, c ∷ value))
    else retry_star star

-- The first loop and the test after it; `none` is that the fuel has run out.
unfoldable pub glob_loop : ℕ → Text → Text → Star → Option Bool
glob_loop zero value pattern star = none
glob_loop (suc fuel) [] pattern star = some (all_stars pattern)
glob_loop (suc fuel) (c ∷ value) pattern star = elim (glob_turn c value pattern star) [
  | none ↦ some false
  | some (next_value, next_pattern, next_star) ↦ glob_loop fuel next_value next_pattern next_star
]

unfoldable pub glob_matches : Text → Text → Bool
glob_matches value pattern =
    elim (glob_loop (suc (length value * suc (length pattern) + length pattern)) value pattern
      none) [ none ↦ false | some matched ↦ matched ]
