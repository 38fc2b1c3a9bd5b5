-- ===== src/Fonts/Check.antt =====
-- The script's check of the two fonts (tools/web-terminal/test-font-cell-width.mjs). `read_file`
-- reads a font.
use harmotty.Prelude.{
  ℕ, ◌+◌, ◌/◌, Bool, true, not, ◌&&◌, List, [], ◌∷◌, Text, codes, ltb, leb, ◌==◌, if◌then◌else◌,
}
use harmotty.Prelude.Int.{ℤ, pos, negsuc}
use harmotty.Fonts.Buffer.{missing_code_point, too_wide, Attempt, done, ◌>>=◌, ◌>>◌, require, Font}
use harmotty.Fonts.Tables.{Tables, read_tables, find_bmp_cmap}
use harmotty.Fonts.Glyphs.{Metrics, glyph_index_for_code_point, glyph_horizontal_metrics}

abbrev pub font_files : List Text
font_files =
    codes "JetBrainsMonoNerdFontMono-Regular.ttf" ∷ codes "JetBrainsMonoNerdFontMono-Bold.ttf" ∷ []

-- The letters of the fixture, with `X` between them.
abbrev pub icon_cell_fixture : Text
icon_cell_fixture =
    b'X' ∷ 0xf1d3 ∷ b'X' ∷ 0xf113 ∷ b'X' ∷ 0xf017 ∷ b'X' ∷ 0xf219 ∷ b'X' ∷ 0xf015 ∷ b'X' ∷ 0xf07c
    ∷ b'X' ∷ 0xf115 ∷ b'X' ∷ 0xf0e4 ∷ b'X' ∷ []

unfoldable pub icon_code_points : Text → List ℕ
icon_code_points [] = []
icon_code_points (character ∷ fixture) =
    let rest = icon_code_points fixture in if character == b'X' then rest else character ∷ rest

-- `Math.ceil(advanceWidth * 0.02)`, at every width of 16 bits.
abbrev pub allowed_overshoot : ℕ → ℕ
allowed_overshoot advance_width = (advance_width + 49) / 50

-- `-n <= z` and `z <= n`.
abbrev pub at_least_minus : ℕ → ℤ → Bool
at_least_minus n (pos z) = true
at_least_minus n (negsuc z) = ltb z n

abbrev pub at_most : ℕ → ℤ → Bool
at_most n (pos z) = leb z n
at_most n (negsuc z) = true

abbrev pub fits_cell : Metrics → Bool
fits_cell m =
    at_least_minus (allowed_overshoot m.advance_width) m.x_min
    && at_most (m.advance_width + allowed_overshoot m.advance_width) m.x_max

unfoldable pub check_icon : Font → Tables → ℕ → ℕ → Attempt (Unit {0})
check_icon font tables cmap_offset code_point = do
  glyph_index ← glyph_index_for_code_point font cmap_offset code_point
  require (not (glyph_index == 0)) (missing_code_point code_point)
  metrics ← glyph_horizontal_metrics font tables glyph_index
  require (fits_cell metrics) (too_wide code_point)

unfoldable pub check_icons : Font → Tables → ℕ → List ℕ → Attempt (Unit {0})
check_icons font tables cmap_offset [] = done tt
check_icons font tables cmap_offset (code_point ∷ rest) = do
  check_icon font tables cmap_offset code_point
  check_icons font tables cmap_offset rest

unfoldable pub check_font : Font → Attempt (Unit {0})
check_font font = do
  tables ← read_tables font
  cmap_offset ← find_bmp_cmap font tables
  check_icons font tables cmap_offset (icon_code_points icon_cell_fixture)

unfoldable pub check_fonts : (Text → Font) → List Text → Attempt (Unit {0})
check_fonts read_file [] = done tt
check_fonts read_file (file ∷ files) = do check_font (read_file file); check_fonts read_file files
