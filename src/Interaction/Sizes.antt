-- ===== src/Interaction/Sizes.antt =====
-- The bounds of the font size and of the split (entry/src/main/ets/model/ui/InteractionPolicy.ets).
use harmotty.Prelude.{◌≡◌, true}
use harmotty.Prelude.Number.{Number, max, min, clamp_bounds}

module _ (N : Number) where
  open N use {Num, lit, le}

  abbrev pub default_font_size : Num
  default_font_size = lit 16 1

  abbrev pub min_font_size : Num
  min_font_size = lit 8 1

  abbrev pub max_font_size : Num
  max_font_size = lit 48 1

  abbrev pub min_split_ratio : Num
  min_split_ratio = lit 2 10

  abbrev pub max_split_ratio : Num
  max_split_ratio = lit 8 10

  unfoldable pub clamp_font_size : Num → Num
  clamp_font_size value = max N min_font_size (min N max_font_size value)

  unfoldable pub clamp_split_ratio : Num → Num
  clamp_split_ratio value = max N min_split_ratio (min N max_split_ratio value)

  -- Where 8 is at most 48 and 0.2 at most 0.8, every font size is clamped to 8 to 48 and every
  -- ratio to 0.2 to 0.8.
  pub clamp_sizes :
      (font ratio : Num)
      → le min_font_size max_font_size ≡ true
      → le min_split_ratio max_split_ratio ≡ true
      → ((le min_font_size (clamp_font_size font) ≡ true)
          × (le (clamp_font_size font) max_font_size ≡ true))
        × ((le min_split_ratio (clamp_split_ratio ratio) ≡ true)
            × (le (clamp_split_ratio ratio) max_split_ratio ≡ true))
  unfolding clamp_font_size clamp_split_ratio
  clamp_sizes font ratio h k = (
    clamp_bounds N min_font_size max_font_size font h,
    clamp_bounds N min_split_ratio max_split_ratio ratio k,
  )
