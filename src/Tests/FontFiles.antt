-- ===== src/Tests/FontFiles.antt =====
-- Runs of the check of a font, on a small font.
use harmotty.Prelude.{
  ℕ, zero, suc, ◌+◌, ◌*◌, ◌≡◌, refl, some, List, [], ◌∷◌, arith, codes, All, get_elem?, take, map,
}
use harmotty.Prelude.Int.{pos}
use harmotty.Prelude.Dict.{lookup, set_key}
use harmotty.Fonts.Buffer.{
  out_of_range, done, failed, Font, read_uint16_be, read_uint32_be, read_int16_be, read_ascii,
}
use harmotty.Fonts.Tables.{
  read_tables, read_tables_loop, require_table, read_cmap_record, find_bmp_cmap_loop, find_bmp_cmap,
  Tables,
}
use harmotty.Fonts.Glyphs.{
  glyph_in_segment, glyph_index_loop, glyph_index_for_code_point, glyph_offset, read_advance_width,
  glyph_horizontal_metrics,
}
use harmotty.Fonts.Check.{
  font_files, icon_code_points, check_icon, check_icons, check_font, check_fonts,
}
use harmotty.Fonts.Segments.{
  Segment, shifted, listed, IsCmap, IsOrdered, owner_glyph, glyph_index-owner,
}
use harmotty.Fonts.Directory.{read_tables-truncated}
use harmotty.Fonts.Fits.{PassesCheck, check_fonts-PassesCheck}

abbrev small_font : Font
small_font =
    0 ∷ 0 ∷ 0 ∷ 1 ∷ 0 ∷ 6 ∷ 0 ∷ 0 ∷ 0 ∷ 0 ∷ 0 ∷ 0 ∷ 99 ∷ 109 ∷ 97 ∷ 112 ∷ 0 ∷ 0 ∷ 0 ∷ 0 ∷ 0 ∷ 0 ∷ 0
    ∷ 108 ∷ 0 ∷ 0 ∷ 0 ∷ 106 ∷ 103 ∷ 108 ∷ 121 ∷ 102 ∷ 0 ∷ 0 ∷ 0 ∷ 0 ∷ 0 ∷ 0 ∷ 0 ∷ 214 ∷ 0 ∷ 0 ∷ 0
    ∷ 8 ∷ 104 ∷ 101 ∷ 97 ∷ 100 ∷ 0 ∷ 0 ∷ 0 ∷ 0 ∷ 0 ∷ 0 ∷ 0 ∷ 222 ∷ 0 ∷ 0 ∷ 0 ∷ 52 ∷ 104 ∷ 104 ∷ 101
    ∷ 97 ∷ 0 ∷ 0 ∷ 0 ∷ 0 ∷ 0 ∷ 0 ∷ 1 ∷ 18 ∷ 0 ∷ 0 ∷ 0 ∷ 36 ∷ 104 ∷ 109 ∷ 116 ∷ 120 ∷ 0 ∷ 0 ∷ 0 ∷ 0
    ∷ 0 ∷ 0 ∷ 1 ∷ 54 ∷ 0 ∷ 0 ∷ 0 ∷ 4 ∷ 108 ∷ 111 ∷ 99 ∷ 97 ∷ 0 ∷ 0 ∷ 0 ∷ 0 ∷ 0 ∷ 0 ∷ 1 ∷ 58 ∷ 0 ∷ 0
    ∷ 0 ∷ 6 ∷ 0 ∷ 0 ∷ 0 ∷ 2 ∷ 0 ∷ 1 ∷ 0 ∷ 0 ∷ 0 ∷ 0 ∷ 0 ∷ 20 ∷ 0 ∷ 3 ∷ 0 ∷ 1 ∷ 0 ∷ 0 ∷ 0 ∷ 20 ∷ 0
    ∷ 4 ∷ 0 ∷ 0 ∷ 0 ∷ 0 ∷ 0 ∷ 16 ∷ 0 ∷ 0 ∷ 0 ∷ 0 ∷ 0 ∷ 0 ∷ 240 ∷ 21 ∷ 240 ∷ 23 ∷ 240 ∷ 124 ∷ 240
    ∷ 228 ∷ 241 ∷ 21 ∷ 241 ∷ 211 ∷ 242 ∷ 25 ∷ 255 ∷ 255 ∷ 0 ∷ 0 ∷ 240 ∷ 21 ∷ 240 ∷ 23 ∷ 240 ∷ 124
    ∷ 240 ∷ 228 ∷ 241 ∷ 19 ∷ 241 ∷ 211 ∷ 242 ∷ 25 ∷ 255 ∷ 255 ∷ 15 ∷ 236 ∷ 15 ∷ 234 ∷ 15 ∷ 133 ∷ 15
    ∷ 29 ∷ 0 ∷ 0 ∷ 14 ∷ 46 ∷ 13 ∷ 232 ∷ 0 ∷ 1 ∷ 0 ∷ 0 ∷ 0 ∷ 0 ∷ 0 ∷ 0 ∷ 0 ∷ 0 ∷ 0 ∷ 8 ∷ 0 ∷ 0 ∷ 0
    ∷ 0 ∷ 0 ∷ 0 ∷ 0 ∷ 1 ∷ 0 ∷ 0 ∷ 0 ∷ 1 ∷ 0 ∷ 1 ∷ 255 ∷ 251 ∷ 0 ∷ 0 ∷ 2 ∷ 100 ∷ 0 ∷ 0 ∷ 0 ∷ 0 ∷ 0
    ∷ 0 ∷ 0 ∷ 0 ∷ 0 ∷ 0 ∷ 0 ∷ 0 ∷ 0 ∷ 0 ∷ 0 ∷ 0 ∷ 0 ∷ 0 ∷ 0 ∷ 0 ∷ 0 ∷ 0 ∷ 0 ∷ 0 ∷ 0 ∷ 0 ∷ 0 ∷ 0 ∷ 0
    ∷ 0 ∷ 0 ∷ 0 ∷ 0 ∷ 0 ∷ 0 ∷ 0 ∷ 0 ∷ 0 ∷ 0 ∷ 0 ∷ 0 ∷ 0 ∷ 0 ∷ 0 ∷ 0 ∷ 0 ∷ 0 ∷ 0 ∷ 0 ∷ 0 ∷ 0 ∷ 0 ∷ 0
    ∷ 0 ∷ 0 ∷ 0 ∷ 0 ∷ 0 ∷ 0 ∷ 0 ∷ 0 ∷ 0 ∷ 0 ∷ 0 ∷ 0 ∷ 0 ∷ 0 ∷ 0 ∷ 0 ∷ 0 ∷ 0 ∷ 0 ∷ 0 ∷ 0 ∷ 0 ∷ 0 ∷ 0
    ∷ 0 ∷ 0 ∷ 0 ∷ 0 ∷ 0 ∷ 0 ∷ 0 ∷ 0 ∷ 0 ∷ 0 ∷ 1 ∷ 2 ∷ 88 ∷ 0 ∷ 0 ∷ 0 ∷ 0 ∷ 0 ∷ 0 ∷ 0 ∷ 4 ∷ []

abbrev small_segments : List Segment
small_segments =
    record { start_code = 61461; end_code = 61461; mapping = shifted (pos 4076) }
    ∷ record { start_code = 61463; end_code = 61463; mapping = shifted (pos 4074) }
    ∷ record { start_code = 61564; end_code = 61564; mapping = shifted (pos 3973) }
    ∷ record { start_code = 61668; end_code = 61668; mapping = shifted (pos 3869) }
    ∷ record { start_code = 61715; end_code = 61717; mapping = listed (1 ∷ 0 ∷ 1 ∷ []) (pos 0) }
    ∷ record { start_code = 61907; end_code = 61907; mapping = shifted (pos 3630) }
    ∷ record { start_code = 61977; end_code = 61977; mapping = shifted (pos 3560) }
    ∷ record { start_code = 65535; end_code = 65535; mapping = shifted (pos 1) }
    ∷ []

small_fonts_pass : check_fonts (λ file. small_font) font_files ≡ done tt
unfolding check_fonts check_font check_icons check_icon icon_code_points read_tables
    read_tables_loop set_key lookup require_table read_cmap_record find_bmp_cmap_loop find_bmp_cmap
    glyph_in_segment glyph_index_loop glyph_index_for_code_point glyph_offset read_advance_width
    glyph_horizontal_metrics read_uint16_be read_uint32_be read_int16_be read_ascii
small_fonts_pass = refl

check_fonts-PassesCheck_example : All (λ file. PassesCheck small_font) font_files
check_fonts-PassesCheck_example =
    check_fonts-PassesCheck (λ file. small_font) font_files small_fonts_pass

listed_glyphs :
    (k g : ℕ)
    → get_elem? (1 ∷ 0 ∷ 1 ∷ []) k ≡ some g
    → read_uint16_be small_font (208 + k * 2) ≡ done g
unfolding read_uint16_be
listed_glyphs zero g e = cc
listed_glyphs (suc zero) g e = cc
listed_glyphs (suc (suc zero)) g e = cc
listed_glyphs (suc (suc (suc k))) g e = cc

small_font-IsCmap : IsCmap small_font 128 small_segments
unfolding read_uint16_be read_int16_be
small_font-IsCmap = record {
  count_written = refl;
  written = (
    record { end_written = refl; start_written = refl; mapping_written = (refl, refl) },
    (
      record { end_written = refl; start_written = refl; mapping_written = (refl, refl) },
      (
        record { end_written = refl; start_written = refl; mapping_written = (refl, refl) },
        (
          record { end_written = refl; start_written = refl; mapping_written = (refl, refl) },
          (
            record {
              end_written = refl;
              start_written = refl;
              mapping_written = (refl, (8, refl, refl, omega arith, listed_glyphs));
            },
            (
              record { end_written = refl; start_written = refl; mapping_written = (refl, refl) },
              (
                record { end_written = refl; start_written = refl; mapping_written = (refl, refl) },
                (
                  record {
                    end_written = refl;
                    start_written = refl;
                    mapping_written = (refl, refl);
                  },
                  tt,
                ),
              ),
            ),
          ),
        ),
      ),
    ),
  );
}

small_segments-IsOrdered : IsOrdered small_segments
small_segments-IsOrdered = omega arith

glyph_index-owner_example :
    glyph_index_for_code_point small_font 128 0xf115 ≡ done (owner_glyph small_segments 0xf115)
glyph_index-owner_example =
    glyph_index-owner small_font 128 0xf115 small_segments small_font-IsCmap
      small_segments-IsOrdered

owner_run : map (owner_glyph small_segments) (0xf115 ∷ 0xf114 ∷ 0xf116 ∷ []) ≡ 1 ∷ 0 ∷ 0 ∷ []
unfolding owner_glyph
owner_run = refl

six_tables : read_uint16_be (take 100 small_font) 4 ≡ done 6
unfolding read_uint16_be
six_tables = refl

read_tables-truncated_example : read_tables (take 100 small_font) ≡ failed out_of_range
read_tables-truncated_example =
    read_tables-truncated (take 100 small_font) 6 six_tables (omega arith) (omega arith)

abbrev one_table : Tables
one_table = (codes "cmap", record { offset = 108; length = 0 }) ∷ []

cmap_at : require_table one_table (codes "cmap") ≡ done 108
unfolding require_table lookup
cmap_at = refl

two_records : read_uint16_be small_font (108 + 2) ≡ done 2
unfolding read_uint16_be
two_records = refl

cmap_found : find_bmp_cmap small_font one_table ≡ done 128
unfolding check_fonts check_font check_icons check_icon icon_code_points read_tables
    read_tables_loop set_key lookup require_table read_cmap_record find_bmp_cmap_loop find_bmp_cmap
    glyph_in_segment glyph_index_loop glyph_index_for_code_point glyph_offset read_advance_width
    glyph_horizontal_metrics read_uint16_be read_uint32_be read_int16_be read_ascii
cmap_found = refl
