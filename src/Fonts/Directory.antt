-- ===== src/Fonts/Directory.antt =====
-- The directory of tables and the choice of a cmap: `readTables` and `findBmpCmap`
-- (tools/web-terminal/test-font-cell-width.mjs).
use harmotty.Prelude.{
  ℕ, zero, suc, ◌+◌, ◌*◌, ◌≤◌, ◌<◌, ◌≡◌, ◌⊎◌, inl, inr, refl, true, false, not, ◌&&◌, [], arith,
  codes, ◌==◌, length, Bool-cases,
}
use native.Mathlib.Decide.{dec_lt}
use harmotty.Fonts.Buffer.{
  out_of_range, no_bmp_cmap, done, failed, ◌>>=◌, >>=-eq-done, require, Font, read_uint16_be,
  read_uint32_be,
}
use harmotty.Fonts.Tables.{
  Tables, read_tables_loop, read_tables, require_table, CmapRecord, read_cmap_record,
  is_windows_bmp, next_fallback, find_bmp_cmap_loop, find_bmp_cmap,
}
use harmotty.Fonts.Reads.{read_uint32_be-inside, read_uint32_be-outside}

read_tables_loop-truncated :
    (font : Font) (left index : ℕ) (tables : Tables)
    → 1 ≤ left
    → length font < 12 + (index + left) * 16
    → read_tables_loop font left index tables ≡ failed out_of_range
unfolding read_tables_loop
read_tables_loop-truncated font zero index tables some_left h = absurd (omega arith)
read_tables_loop-truncated font (suc left) index tables some_left h =
    elim (dec_lt (length font) (12 + index * 16 + 12)) [
      | yes p ↦ rw (read_uint32_be-outside font (12 + index * 16 + 8) (omega arith)) refl
      | no p ↦
          let (offset, e) = read_uint32_be-inside font (12 + index * 16 + 8) (omega arith) in
          elim (dec_lt (length font) (12 + index * 16 + 12 + 4)) [
            | yes q ↦ rw (e, read_uint32_be-outside font (12 + index * 16 + 12) (omega arith)) refl
            | no q ↦
                let (size, f) = read_uint32_be-inside font (12 + index * 16 + 12) (omega arith) in
                rw (e, f)
                  (read_tables_loop-truncated font left (index + 1) _ (omega arith) (omega arith))
          ]
    ]

-- A font that ends before its directory of tables does is refused, with a read out of range.
pub read_tables-truncated :
    (font : Font) (count : ℕ)
    → read_uint16_be font 4 ≡ done count
    → 1 ≤ count
    → length font < 12 + count * 16
    → read_tables font ≡ failed out_of_range
unfolding read_tables
read_tables-truncated font count e some_left h =
    rw e (read_tables_loop-truncated font count 0 [] some_left (omega arith))

read_cmap_record-format :
    (font : Font) (cmap_offset index : ℕ) (r : CmapRecord)
    → read_cmap_record font cmap_offset index ≡ done r
    → read_uint16_be font r.subtable_offset ≡ done r.format
unfolding read_cmap_record
read_cmap_record-format font cmap_offset index r h =
    let (platform, e0, h0) = >>=-eq-done (read_uint16_be font (cmap_offset + 4 + index * 8)) _ h in
    let (encoding, e1, h1) =
      >>=-eq-done (read_uint16_be font (cmap_offset + 4 + index * 8 + 2)) _ h0 in
    let (subtable, e2, h2) =
      >>=-eq-done (read_uint32_be font (cmap_offset + 4 + index * 8 + 4)) _ h1 in
    let (format, e3, h3) = >>=-eq-done (read_uint16_be font (cmap_offset + subtable)) _ h2 in
    let same : record {
      platform_id = platform;
      encoding_id = encoding;
      subtable_offset = cmap_offset + subtable;
      format = format;
    }
        ≡ r =
      cc h3 in
    rw (← same) e3

-- The offset is that of a record for Windows and the basic plane.
abbrev pub IsWindows : Font → ℕ → ℕ → ℕ → ℕ → Type 0
IsWindows font cmap_offset low high o =
    (i : ℕ) × (r : CmapRecord) × (low ≤ i)
    × (i < high)
    × (read_cmap_record font cmap_offset i ≡ done r)
    × (is_windows_bmp r ≡ true)
    × (r.subtable_offset ≡ o)

-- No record is one for Windows and the basic plane.
abbrev pub NoWindows : Font → ℕ → ℕ → ℕ → Type 0
NoWindows font cmap_offset low high =
    (i : ℕ)
    → low ≤ i
    → i < high
    → (r : CmapRecord) × (read_cmap_record font cmap_offset i ≡ done r) × (is_windows_bmp r ≡ false)

abbrev pub IsChosen : Font → ℕ → ℕ → ℕ → ℕ → Type 0
IsChosen font cmap_offset low high o =
    (read_uint16_be font o ≡ done 4)
    × (IsWindows font cmap_offset low high o ⊎ NoWindows font cmap_offset low high)

abbrev IsFallback : Font → ℕ → Type 0
IsFallback font fallback = (fallback ≡ 0) ⊎ (read_uint16_be font fallback ≡ done 4)

next_fallback-IsFallback :
    (font : Font) (fallback : ℕ) (r : CmapRecord)
    → IsFallback font fallback
    → read_uint16_be font r.subtable_offset ≡ done r.format
    → IsFallback font (next_fallback fallback r)
next_fallback-IsFallback font fallback r v f = elim (Bool-cases (r.format == 4 && fallback == 0)) [
  | inl e ↦ simp e (inr (let four : r.format ≡ 4 = ground arith in rw four at f))
  | inr e ↦ simp e v
]

wider :
    (font : Font) (cmap_offset index high o : ℕ) (r : CmapRecord)
    → read_cmap_record font cmap_offset index ≡ done r
    → is_windows_bmp r ≡ false
    → IsWindows font cmap_offset (index + 1) high o ⊎ NoWindows font cmap_offset (index + 1) high
    → IsWindows font cmap_offset index high o ⊎ NoWindows font cmap_offset index high
wider font cmap_offset index high o r e w (inl (i, s, low, high_i, f, x, at)) =
    inl (i, s, omega arith, high_i, f, x, at)
wider font cmap_offset index high o r e w (inr none_later) = inr (λ i low below.
    elim (dec_lt index i) [
      | yes p ↦ none_later i (omega arith) below
      | no p ↦ let same : index ≡ i = omega arith in rw (← same) (r, e, w)
    ])

windows_here :
    (font : Font) (cmap_offset index high o : ℕ) (r : CmapRecord)
    → index < high
    → read_cmap_record font cmap_offset index ≡ done r
    → is_windows_bmp r ≡ true
    → done r.subtable_offset ≡ done o
    → IsChosen font cmap_offset index high o
windows_here font cmap_offset index high o r below e w k =
    let four : r.format ≡ 4 = ground arith in
    let at : r.subtable_offset ≡ o = cc k in
    (
      rw (at, four) at (read_cmap_record-format font cmap_offset index r e),
      inl (index, r, omega arith, below, e, w, at),
    )

fallback_taken :
    (font : Font) (cmap_offset index fallback o : ℕ)
    → IsFallback font fallback
    → (require (not (fallback == 0)) no_bmp_cmap >>= λ _. done fallback) ≡ done o
    → IsChosen font cmap_offset index (index + 0) o
fallback_taken font cmap_offset index fallback o v h = elim (Bool-cases (fallback == 0)) [
  | inl e ↦ absurd (let g = rw e at h in cc)
  | inr e ↦
      let at : fallback ≡ o = let g = rw e at h in cc in
      let four : read_uint16_be font fallback ≡ done 4 = elim v [
        | inl z ↦ absurd (ground arith)
        | inr f ↦ f
      ] in
      (rw at at four, inr (λ i low high. absurd (omega arith)))
]

find_bmp_cmap_loop-IsChosen :
    (font : Font) (cmap_offset left index fallback o : ℕ)
    → IsFallback font fallback
    → find_bmp_cmap_loop font cmap_offset left index fallback ≡ done o
    → IsChosen font cmap_offset index (index + left) o
unfolding find_bmp_cmap_loop
find_bmp_cmap_loop-IsChosen font cmap_offset zero index fallback o v h =
    fallback_taken font cmap_offset index fallback o v h
find_bmp_cmap_loop-IsChosen font cmap_offset (suc left) index fallback o v h =
    let (r, e, k) = >>=-eq-done (read_cmap_record font cmap_offset index) _ h in
    let kept =
      next_fallback-IsFallback font fallback r v
        (read_cmap_record-format font cmap_offset index r e) in
    elim (Bool-cases (is_windows_bmp r)) [
      | inl w ↦
          windows_here font cmap_offset index (index + suc left) o r (omega arith) e w (rw w at k)
      | inr w ↦
          let later =
            find_bmp_cmap_loop-IsChosen font cmap_offset left (index + 1) (next_fallback fallback r)
              o kept (rw w at k) in
          let same : index + 1 + left ≡ index + suc left = omega arith in
          (later.0, wider font cmap_offset index (index + suc left) o r e w (rw same at (later.1)))
    ]

-- What is found is a subtable of format 4. It is that of a record for Windows and the basic plane,
-- unless every record was read and none is such.
find_bmp_cmap-IsChosen :
    (font : Font) (tables : Tables) (cmap_offset count o : ℕ)
    → require_table tables (codes "cmap") ≡ done cmap_offset
    → read_uint16_be font (cmap_offset + 2) ≡ done count
    → find_bmp_cmap font tables ≡ done o
    → IsChosen font cmap_offset 0 count o
unfolding find_bmp_cmap
find_bmp_cmap-IsChosen font tables cmap_offset count o c n h =
    let all_read : 0 + count ≡ count = omega arith in
    rw all_read at
      (find_bmp_cmap_loop-IsChosen font cmap_offset count 0 0 o (inl refl) (rw (c, n) at h))
