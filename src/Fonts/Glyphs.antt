-- ===== src/Fonts/Glyphs.antt =====
-- A glyph of a code point, and its measures: `glyphIndexForCodePoint`, `glyphOffset` and
-- `glyphHorizontalMetrics` (tools/web-terminal/test-font-cell-width.mjs).
use harmotty.Prelude.{
  ℕ, zero, suc, ◌+◌, ◌-◌, ◌*◌, ◌/◌, ◌%◌, min, Bool, true, false, codes, ltb, ◌==◌, if◌then◌else◌,
}
use harmotty.Prelude.Int.{ℤ, pos, negsuc}
use harmotty.Fonts.Buffer.{
  out_of_range, no_outline, Attempt, done, failed, ◌>>=◌, ◌>>◌, require, Font, read_uint16_be,
  read_int16_be, read_uint32_be,
}
use harmotty.Fonts.Tables.{Tables, require_table}

-- `(code + delta) & 0xFFFF`, on the two's complement of a negative delta.
abbrev pub add_delta : ℕ → ℤ → ℕ
add_delta code (pos delta) = (code + delta) % 65536
add_delta code (negsuc delta) = (code + (65535 - delta % 65536)) % 65536

-- The subtable of a format 4 cmap: where its arrays stand. `twice` is twice the number of segments,
-- as the font has it; the script halves it and doubles it again.
pub record CmapArrays : Type 0 where
  pub twice : ℕ
  pub end_codes_offset : ℕ
  pub start_codes_offset : ℕ
  pub id_deltas_offset : ℕ
  pub id_range_offsets_offset : ℕ

abbrev pub arrays_at : ℕ → ℕ → CmapArrays
arrays_at cmap_offset twice = record {
  twice = twice;
  end_codes_offset = cmap_offset + 14;
  start_codes_offset = cmap_offset + 14 + twice + 2;
  id_deltas_offset = cmap_offset + 14 + twice + 2 + twice;
  id_range_offsets_offset = cmap_offset + 14 + twice + 2 + twice + twice;
}

-- What the loop returns at the segment that it stops at.
unfoldable pub glyph_in_segment : Font → CmapArrays → ℕ → ℕ → Attempt ℕ
glyph_in_segment font a code_point segment = do
  start_code ← read_uint16_be font (a.start_codes_offset + segment * 2)
  let inside : Attempt ℕ = do
    delta ← read_int16_be font (a.id_deltas_offset + segment * 2)
    let range_offset_position = a.id_range_offsets_offset + segment * 2
    range_offset ← read_uint16_be font range_offset_position
    let far : Attempt ℕ = do
      glyph_index ←
          read_uint16_be font (range_offset_position + range_offset + (code_point - start_code) * 2)
      done (if glyph_index == 0 then 0 else add_delta glyph_index delta)
    if range_offset == 0 then done (add_delta code_point delta) else far
  if ltb code_point start_code then done 0 else inside

-- The loop of `glyphIndexForCodePoint`, on the segments left.
unfoldable pub glyph_index_loop : Font → CmapArrays → ℕ → ℕ → ℕ → Attempt ℕ
glyph_index_loop font a code_point zero segment = done 0
glyph_index_loop font a code_point (suc left) segment = do
  end_code ← read_uint16_be font (a.end_codes_offset + segment * 2)
  let rest = glyph_index_loop font a code_point left (segment + 1)
  if ltb end_code code_point then rest else glyph_in_segment font a code_point segment

-- A count of segments that is not whole, where `twice` is odd, is passed by one turn more.
unfoldable pub glyph_index_for_code_point : Font → ℕ → ℕ → Attempt ℕ
glyph_index_for_code_point font cmap_offset code_point = do
  twice ← read_uint16_be font (cmap_offset + 6)
  glyph_index_loop font (arrays_at cmap_offset twice) code_point ((twice + 1) / 2) 0

unfoldable pub glyph_offset : Font → ℕ → ℕ → Bool → Attempt ℕ
glyph_offset font loca_offset glyph_index true = read_uint32_be font (loca_offset + glyph_index * 4)
glyph_offset font loca_offset glyph_index false = do
  half ← read_uint16_be font (loca_offset + glyph_index * 2)
  done (half * 2)

pub record Metrics : Type 0 where
  pub advance_width : ℕ
  pub x_min : ℤ
  pub x_max : ℤ

-- `Math.min(glyphIndex, metricCount - 1)` is -1 if there are no metrics.
unfoldable pub read_advance_width : Font → ℕ → ℕ → ℕ → Attempt ℕ
read_advance_width font hmtx_offset glyph_index zero =
    if ltb hmtx_offset 4 then failed out_of_range else read_uint16_be font (hmtx_offset - 4)
read_advance_width font hmtx_offset glyph_index (suc last) =
    read_uint16_be font (hmtx_offset + min glyph_index last * 4)

abbrev pub is_one : ℤ → Bool
is_one (pos n) = n == 1
is_one (negsuc n) = false

unfoldable pub glyph_horizontal_metrics : Font → Tables → ℕ → Attempt Metrics
glyph_horizontal_metrics font tables glyph_index = do
  head_offset ← require_table tables (codes "head")
  hhea_offset ← require_table tables (codes "hhea")
  hmtx_offset ← require_table tables (codes "hmtx")
  loca_offset ← require_table tables (codes "loca")
  glyf_offset ← require_table tables (codes "glyf")
  metric_count ← read_uint16_be font (hhea_offset + 34)
  advance_width ← read_advance_width font hmtx_offset glyph_index metric_count
  format ← read_int16_be font (head_offset + 50)
  start ← glyph_offset font loca_offset glyph_index (is_one format)
  end ← glyph_offset font loca_offset (glyph_index + 1) (is_one format)
  require (ltb start end) (no_outline glyph_index)
  x_min ← read_int16_be font (glyf_offset + start + 2)
  x_max ← read_int16_be font (glyf_offset + start + 6)
  done (record { advance_width = advance_width; x_min = x_min; x_max = x_max })
