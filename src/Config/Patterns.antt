-- ===== src/Config/Patterns.antt =====
-- `matchesHostPatterns` of entry/src/main/ets/model/ssh/SshConfig.ets.
use harmotty.Prelude.{
  suc, ◌+◌, ◌*◌, ◌≡◌, inl, inr, Bool, true, false, not, ◌&&◌, ◌||◌, List, [], ◌∷◌, arith, Text,
  codes, starts_with, substring, length, if◌then◌else◌, Bool-cases,
}
use harmotty.Config.GlobMeaning.{matches, HasNoStar}
use harmotty.Config.GlobMatches.{glob_matches_lem}
use harmotty.Config.Source.{match_patterns, matches_host_patterns}

abbrev pub any_of : (Text → Bool) → List Text → Bool
any_of f [] = false
any_of f (x ∷ xs) = f x || any_of f xs

abbrev pub is_negated : Text → Bool
is_negated pattern = starts_with pattern (codes "!")

-- A pattern without the mark of a negation.
abbrev pub body : Text → Text
body pattern = if is_negated pattern then substring pattern 1 (length pattern) else pattern

module _ (lower : Text → Text) where
  -- A pattern of the host, and a negated pattern that excludes it.
  abbrev pub accepts : Text → Text → Bool
  accepts alias p = not (is_negated (lower p)) && matches (body (lower p)) (lower alias)

  abbrev pub excludes : Text → Text → Bool
  excludes alias p = is_negated (lower p) && matches (body (lower p)) (lower alias)

  match_patterns_lem :
      (alias : Text) (positive : Bool) (patterns : List Text)
      → HasNoStar (lower alias)
      → match_patterns lower (lower alias) positive patterns
        ≡ ((positive || any_of (accepts alias) patterns) && not (any_of (excludes alias) patterns))
  unfolding match_patterns
  match_patterns_lem alias positive [] h = ground arith
  match_patterns_lem alias positive (p ∷ patterns) h =
      let (returns, meaning) =
        glob_matches_lem (lower alias) (body (lower p))
          (suc (length (lower alias) * suc (length (body (lower p))) + length (body (lower p)))) h
          (omega arith) in
      elim (Bool-cases (matches (body (lower p)) (lower alias))) [
        | inl e ↦ rw (meaning, e, match_patterns_lem alias true patterns h) (ground arith)
        | inr e ↦ rw (meaning, e, match_patterns_lem alias positive patterns h) (ground arith)
      ]

  -- A host is meant by patterns when one of them accepts it and no negated one excludes it, in
  -- whatever order they stand, for a name without `*`.
  pub matches_host_patterns_lem :
      (alias : Text) (patterns : List Text)
      → HasNoStar (lower alias)
      → matches_host_patterns lower alias patterns
        ≡ (any_of (accepts alias) patterns && not (any_of (excludes alias) patterns))
  unfolding matches_host_patterns
  matches_host_patterns_lem alias patterns h = match_patterns_lem alias false patterns h
