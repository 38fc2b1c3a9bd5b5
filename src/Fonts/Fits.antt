-- ===== src/Fonts/Fits.antt =====
-- What the check of the fonts shows of them (tools/web-terminal/test-font-cell-width.mjs).
use harmotty.Prelude.{
  ℕ, suc, ◌+◌, ◌-◌, ◌*◌, ◌≤◌, ◌<◌, ◌≡◌, refl, Bool, true, false, not, ◌&&◌, List, [], ◌∷◌, arith,
  Text, ◌==◌, All,
}
use harmotty.Prelude.Int.{ℤ, pos, negsuc}
use harmotty.Fonts.Buffer.{Failure, missing_code_point, done, >>=-eq-done, require, Font}
use harmotty.Fonts.Tables.{Tables, read_tables, find_bmp_cmap}
use harmotty.Fonts.Glyphs.{Metrics, glyph_index_for_code_point, glyph_horizontal_metrics}
use harmotty.Fonts.Check.{
  icon_code_points, icon_cell_fixture, allowed_overshoot, at_least_minus, at_most, fits_cell,
  check_icon, check_icons, check_font, check_fonts,
}

-- How far an outline reaches out of its cell, to the left and to the right.
abbrev pub left_overhang : ℤ → ℕ
left_overhang (pos z) = 0
left_overhang (negsuc z) = suc z

abbrev pub right_overhang : ℕ → ℤ → ℕ
right_overhang width (pos z) = z - width
right_overhang width (negsuc z) = 0

-- An overhang of less than one unit more than 2% of the width.
abbrev pub IsSmall : ℕ → ℕ → Type 0
IsSmall width overhang = overhang * 50 < width + 50

abbrev pub FitsCell : Metrics → Type 0
FitsCell m =
    IsSmall m.advance_width (left_overhang m.x_min)
    × IsSmall m.advance_width (right_overhang m.advance_width m.x_max)

-- The font has a glyph for the code point, and the outline of the glyph fits.
abbrev pub HasFittingGlyph : Font → Tables → ℕ → ℕ → Type 0
HasFittingGlyph font tables cmap_offset code_point =
    (glyph_index : ℕ) × (metrics : Metrics) × (glyph_index_for_code_point font cmap_offset
        code_point
      ≡ done glyph_index)
    × (1 ≤ glyph_index)
    × (glyph_horizontal_metrics font tables glyph_index ≡ done metrics)
    × FitsCell metrics

abbrev pub PassesCheck : Font → Type 0
PassesCheck font =
    (tables : Tables) × (cmap_offset : ℕ) × (read_tables font ≡ done tables)
    × (find_bmp_cmap font tables ≡ done cmap_offset)
    × All (HasFittingGlyph font tables cmap_offset) (icon_code_points icon_cell_fixture)

left_fits :
    (width : ℕ) (z : ℤ)
    → at_least_minus (allowed_overshoot width) z ≡ true
    → IsSmall width (left_overhang z)
left_fits width (pos z) h = omega arith
left_fits width (negsuc z) h = ground arith

right_fits :
    (width : ℕ) (z : ℤ)
    → at_most (width + allowed_overshoot width) z ≡ true
    → IsSmall width (right_overhang width z)
right_fits width (pos z) h = ground arith
right_fits width (negsuc z) h = omega arith

&&-parts : (a b : Bool) → (a && b) ≡ true → (a ≡ true) × (b ≡ true)
&&-parts true b h = (refl, h)
&&-parts false b h = cc

fits_cell-FitsCell : (m : Metrics) → fits_cell m ≡ true → FitsCell m
fits_cell-FitsCell m h =
    let (left, right) = &&-parts (at_least_minus (allowed_overshoot m.advance_width) m.x_min) _ h in
    (left_fits m.advance_width m.x_min left, right_fits m.advance_width m.x_max right)

require-eq-done : (b : Bool) (e : Failure) → require b e ≡ done tt → b ≡ true
require-eq-done true e h = refl
require-eq-done false e h = cc

nonzero : (g : ℕ) → not (g == 0) ≡ true → 1 ≤ g
nonzero g h = ground arith

check_icon-fits :
    (font : Font) (tables : Tables) (cmap_offset code_point : ℕ)
    → check_icon font tables cmap_offset code_point ≡ done tt
    → HasFittingGlyph font tables cmap_offset code_point
unfolding check_icon
check_icon-fits font tables cmap_offset code_point h =
    let (g, e, k) = >>=-eq-done (glyph_index_for_code_point font cmap_offset code_point) _ h in
    let (u, there, l) = >>=-eq-done (require (not (g == 0)) (missing_code_point code_point)) _ k in
    let (m, f, fits) = >>=-eq-done (glyph_horizontal_metrics font tables g) _ l in
    (
      g,
      m,
      e,
      nonzero g (require-eq-done (not (g == 0)) (missing_code_point code_point) there),
      f,
      fits_cell-FitsCell m (require-eq-done (fits_cell m) _ fits),
    )

check_icons-fit :
    (font : Font) (tables : Tables) (cmap_offset : ℕ) (code_points : List ℕ)
    → check_icons font tables cmap_offset code_points ≡ done tt
    → All (HasFittingGlyph font tables cmap_offset) code_points
unfolding check_icons
check_icons-fit font tables cmap_offset [] h = tt
check_icons-fit font tables cmap_offset (code_point ∷ rest) h =
    let (u, first, later) = >>=-eq-done (check_icon font tables cmap_offset code_point) _ h in
    (
      check_icon-fits font tables cmap_offset code_point first,
      check_icons-fit font tables cmap_offset rest later,
    )

check_font-PassesCheck : (font : Font) → check_font font ≡ done tt → PassesCheck font
unfolding check_font
check_font-PassesCheck font h =
    let (tables, e, k) = >>=-eq-done (read_tables font) _ h in
    let (cmap_offset, f, l) = >>=-eq-done (find_bmp_cmap font tables) _ k in
    (tables, cmap_offset, e, f, check_icons-fit font tables cmap_offset _ l)

-- If the check of some fonts passes, each of them has a glyph for every icon of the fixture, and no
-- such glyph reaches out of its cell on either side by as much as one unit more than 2% of its width.
pub check_fonts-PassesCheck :
    (read_file : Text → Font) (files : List Text)
    → check_fonts read_file files ≡ done tt
    → All (λ file. PassesCheck (read_file file)) files
unfolding check_fonts
check_fonts-PassesCheck read_file [] h = tt
check_fonts-PassesCheck read_file (file ∷ files) h =
    let (u, first, later) = >>=-eq-done (check_font (read_file file)) _ h in
    (check_font-PassesCheck (read_file file) first, check_fonts-PassesCheck read_file files later)
