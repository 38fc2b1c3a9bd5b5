-- ===== src/Fonts/Tables.antt =====
-- The directory of a font's tables: `readTables`, `requireTable` and `findBmpCmap`
-- (tools/web-terminal/test-font-cell-width.mjs).
use harmotty.Prelude.{
  ℕ, zero, suc, ◌+◌, ◌*◌, Bool, not, ◌&&◌, Option, none, some, [], Text, codes, ◌==◌, if◌then◌else◌,
}
use harmotty.Prelude.Dict.{Dict, lookup, set_key}
use harmotty.Fonts.Buffer.{
  missing_table, no_bmp_cmap, Attempt, done, failed, ◌>>=◌, ◌>>◌, require, Font, read_uint16_be,
  read_uint32_be, read_ascii,
}

pub record Table : Type 0 where
  pub offset : ℕ
  pub length : ℕ

-- A `Map` from tags to tables.
abbrev pub Tables : Type 0
Tables = Dict Table

abbrev pub set_table : Text → Table → Tables → Tables
set_table tag table tables = set_key tag table tables

abbrev pub get_table : Tables → Text → Option Table
get_table tables tag = lookup tables tag

-- The loop of `readTables`, on the entries left.
unfoldable pub read_tables_loop : Font → ℕ → ℕ → Tables → Attempt Tables
read_tables_loop font zero index tables = done tables
read_tables_loop font (suc left) index tables = do
  let entry_offset = 12 + index * 16
  offset ← read_uint32_be font (entry_offset + 8)
  length ← read_uint32_be font (entry_offset + 12)
  let table : Table = record { offset = offset; length = length }
  read_tables_loop font left (index + 1) (set_table (read_ascii font entry_offset 4) table tables)

unfoldable pub read_tables : Font → Attempt Tables
read_tables font = do table_count ← read_uint16_be font 4; read_tables_loop font table_count 0 []

unfoldable pub require_table : Tables → Text → Attempt ℕ
require_table tables tag = elim (get_table tables tag) [
  | some table ↦ done table.offset
  | none ↦ failed (missing_table tag)
]

-- What the loop of `findBmpCmap` reads of a record.
pub record CmapRecord : Type 0 where
  pub platform_id : ℕ
  pub encoding_id : ℕ
  pub subtable_offset : ℕ
  pub format : ℕ

unfoldable pub read_cmap_record : Font → ℕ → ℕ → Attempt CmapRecord
read_cmap_record font cmap_offset index = do
  let record_offset = cmap_offset + 4 + index * 8
  platform_id ← read_uint16_be font record_offset
  encoding_id ← read_uint16_be font (record_offset + 2)
  subtable ← read_uint32_be font (record_offset + 4)
  format ← read_uint16_be font (cmap_offset + subtable)
  done (record {
    platform_id = platform_id;
    encoding_id = encoding_id;
    subtable_offset = cmap_offset + subtable;
    format = format;
  })

abbrev pub is_windows_bmp : CmapRecord → Bool
is_windows_bmp r = r.format == 4 && r.platform_id == 3 && r.encoding_id == 1

abbrev pub next_fallback : ℕ → CmapRecord → ℕ
next_fallback fallback r = if r.format == 4 && fallback == 0 then r.subtable_offset else fallback

-- The loop of `findBmpCmap`, on the records left.
unfoldable pub find_bmp_cmap_loop : Font → ℕ → ℕ → ℕ → ℕ → Attempt ℕ
find_bmp_cmap_loop font cmap_offset zero index fallback = do
  require (not (fallback == 0)) no_bmp_cmap
  done fallback
find_bmp_cmap_loop font cmap_offset (suc left) index fallback = do
  r ← read_cmap_record font cmap_offset index
  let rest = find_bmp_cmap_loop font cmap_offset left (index + 1) (next_fallback fallback r)
  if is_windows_bmp r then done r.subtable_offset else rest

unfoldable pub find_bmp_cmap : Font → Tables → Attempt ℕ
find_bmp_cmap font tables = do
  cmap_offset ← require_table tables (codes "cmap")
  record_count ← read_uint16_be font (cmap_offset + 2)
  find_bmp_cmap_loop font cmap_offset record_count 0 0
