-- ===== src/Fonts/Segments.antt =====
-- The segments that a format 4 cmap stands for, and the glyphs that `glyphIndexForCodePoint` finds
-- in it (tools/web-terminal/test-font-cell-width.mjs).
use harmotty.Prelude.{
  ℕ, zero, suc, ◌+◌, ◌-◌, ◌*◌, ◌/◌, ◌≤◌, ◌<◌, ◌≡◌, refl, inl, inr, true, false, Option, none, some,
  List, [], ◌∷◌, arith, ltb, leb, ◌&&◌, ◌==◌, if◌then◌else◌, length, get_elem?, All, Bool-cases,
}
use harmotty.Prelude.Int.{ℤ}
use harmotty.Fonts.Buffer.{done, Font, read_uint16_be, read_int16_be}
use harmotty.Fonts.Glyphs.{
  add_delta, CmapArrays, arrays_at, glyph_in_segment, glyph_index_loop, glyph_index_for_code_point,
}

-- A segment maps its code points by a shift, or by a list of glyphs that are then shifted.
pub data Mapping : Type 0 where
  shifted : ℤ → Mapping
  listed : List ℕ → ℤ → Mapping

pub record Segment : Type 0 where
  pub start_code : ℕ
  pub end_code : ℕ
  pub mapping : Mapping

abbrev pub listed_glyph : Option ℕ → ℤ → ℕ
listed_glyph none delta = 0
listed_glyph (some glyph) delta = if glyph == 0 then 0 else add_delta glyph delta

abbrev pub mapped : Mapping → ℕ → ℕ → ℕ
mapped (shifted delta) start_code code_point = add_delta code_point delta
mapped (listed glyphs delta) start_code code_point =
    listed_glyph (get_elem? glyphs (code_point - start_code)) delta

abbrev pub glyph_of : Segment → ℕ → ℕ
glyph_of s code_point = mapped s.mapping s.start_code code_point

abbrev pub Contains : Segment → ℕ → Type 0
Contains s code_point = (s.start_code ≤ code_point) × (code_point ≤ s.end_code)

-- How the bytes at one index of the arrays write a mapping of so many code points.
abbrev pub Writes : Font → CmapArrays → ℕ → ℕ → Mapping → Type 0
Writes font a i size (shifted delta) =
    (read_int16_be font (a.id_deltas_offset + i * 2) ≡ done delta)
    × (read_uint16_be font (a.id_range_offsets_offset + i * 2) ≡ done 0)
Writes font a i size (listed glyphs delta) =
    (read_int16_be font (a.id_deltas_offset + i * 2) ≡ done delta)
    × ((r : ℕ) × (read_uint16_be font (a.id_range_offsets_offset + i * 2) ≡ done r)
        × ((r == 0) ≡ false)
        × (size ≤ length glyphs)
        × ((k g : ℕ)
            → get_elem? glyphs k ≡ some g
            → read_uint16_be font (a.id_range_offsets_offset + i * 2 + r + k * 2) ≡ done g))

pub record HasSegment (font : Font) (a : CmapArrays) (i : ℕ) (s : Segment) : Type 0 where
  pub end_written : read_uint16_be font (a.end_codes_offset + i * 2) ≡ done s.end_code
  pub start_written : read_uint16_be font (a.start_codes_offset + i * 2) ≡ done s.start_code
  pub mapping_written : Writes font a i (s.end_code + 1 - s.start_code) s.mapping

abbrev pub HasSegments : Font → CmapArrays → ℕ → List Segment → Type 0
HasSegments font a i [] = Unit
HasSegments font a i (s ∷ segments) = HasSegment font a i s × HasSegments font a (i + 1) segments

-- The bytes at an offset of the font are a format 4 cmap of these segments.
pub record IsCmap (font : Font) (cmap_offset : ℕ) (segments : List Segment) : Type 0 where
  pub count_written : read_uint16_be font (cmap_offset + 6) ≡ done (length segments * 2)
  pub written : HasSegments font (arrays_at cmap_offset (length segments * 2)) 0 segments

-- The segments stand in the order of their code points and do not meet.
abbrev pub IsOrdered : List Segment → Type 0
IsOrdered [] = Unit
IsOrdered (s ∷ segments) = All (λ t. s.end_code < t.start_code) segments × IsOrdered segments

-- The first segment that does not end before the code point decides.
find_glyph : List Segment → ℕ → ℕ
find_glyph [] code_point = 0
find_glyph (s ∷ segments) code_point =
    if ltb s.end_code code_point
    then find_glyph segments code_point
    else if ltb code_point s.start_code
    then 0
    else glyph_of s code_point

whole : (n : ℕ) → (n * 2 + 1) / 2 ≡ n
whole n = omega arith

le→not-ltb : (a b : ℕ) → a ≤ b → ltb b a ≡ false
le→not-ltb a b h = ground arith

some_at : (gs : List ℕ) (k : ℕ) → k < length gs → (g : ℕ) × (get_elem? gs k ≡ some g)
some_at [] k h = absurd (omega arith)
some_at (g ∷ gs) zero h = (g, refl)
some_at (g ∷ gs) (suc k) h = some_at gs k (omega arith)

glyph_in_segment-mapped :
    (font : Font) (a : CmapArrays) (code_point i : ℕ) (start_code size : ℕ) (m : Mapping)
    → read_uint16_be font (a.start_codes_offset + i * 2) ≡ done start_code
    → Writes font a i size m
    → start_code ≤ code_point
    → code_point - start_code < size
    → glyph_in_segment font a code_point i ≡ done (mapped m start_code code_point)
unfolding glyph_in_segment
glyph_in_segment-mapped font a code_point i start_code size (shifted delta) st w low high =
    rw (st, le→not-ltb start_code code_point low, w.0, w.1) refl
glyph_in_segment-mapped font a code_point i start_code size (listed glyphs delta) st
      (d, (r, e, ne, long, each)) low high =
    let (g, at) = some_at glyphs (code_point - start_code) (omega arith) in
    rw (st, le→not-ltb start_code code_point low, d, e, ne, each (code_point - start_code) g at, at)
      refl

glyph_in_segment-outside :
    (font : Font) (a : CmapArrays) (code_point i start_code : ℕ)
    → read_uint16_be font (a.start_codes_offset + i * 2) ≡ done start_code
    → ltb code_point start_code ≡ true
    → glyph_in_segment font a code_point i ≡ done 0
unfolding glyph_in_segment
glyph_in_segment-outside font a code_point i start_code st low = rw (st, low) refl

-- The loop, from a segment on, finds what the segments from there on say.
glyph_index_loop-find :
    (font : Font) (a : CmapArrays) (code_point : ℕ) (segments : List Segment) (from : ℕ)
    → HasSegments font a from segments
    → glyph_index_loop font a code_point (length segments) from
      ≡ done (find_glyph segments code_point)
unfolding glyph_index_loop find_glyph
glyph_index_loop-find font a code_point [] from h = refl
glyph_index_loop-find font a code_point (s ∷ segments) from (here, later) =
    let rest = glyph_index_loop-find font a code_point segments (from + 1) later in
    elim (Bool-cases (ltb s.end_code code_point)) [
      | inl past ↦ rw (here.end_written, past) rest
      | inr reached ↦ elim (Bool-cases (ltb code_point s.start_code)) [
        | inl low ↦
            rw (here.end_written, reached, low)
              (glyph_in_segment-outside font a code_point from s.start_code here.start_written low)
        | inr high ↦
            rw (here.end_written, reached, high)
              (glyph_in_segment-mapped font a code_point from s.start_code
                (s.end_code + 1 - s.start_code) s.mapping here.start_written here.mapping_written
                (ground arith) (ground arith))
      ]
    ]

-- The glyph of the segment that has the code point, and 0 if none has it.
unfoldable pub owner_glyph : List Segment → ℕ → ℕ
owner_glyph [] code_point = 0
owner_glyph (s ∷ segments) code_point =
    if leb s.start_code code_point && leb code_point s.end_code
    then glyph_of s code_point
    else owner_glyph segments code_point

owner_glyph-above :
    (segments : List Segment) (s : Segment) (code_point : ℕ)
    → All (λ t. s.end_code < t.start_code) segments
    → ltb s.end_code code_point ≡ false
    → owner_glyph segments code_point ≡ 0
unfolding owner_glyph
owner_glyph-above [] s code_point h reached = refl
owner_glyph-above (t ∷ segments) s code_point (low, h) reached =
    let rest = owner_glyph-above segments s code_point h reached in ground arith

find_glyph-owner :
    (segments : List Segment) (code_point : ℕ)
    → IsOrdered segments
    → find_glyph segments code_point ≡ owner_glyph segments code_point
unfolding find_glyph owner_glyph
find_glyph-owner [] code_point o = refl
find_glyph-owner (s ∷ segments) code_point (first, o) =
    let rest = find_glyph-owner segments code_point o in
    elim (Bool-cases (ltb s.end_code code_point)) [
      | inl past ↦ ground arith
      | inr reached ↦
          let later = owner_glyph-above segments s code_point first reached in ground arith
    ]

-- In a font whose bytes are a format 4 cmap of segments that stand in order, the glyph of a code
-- point is that of the segment that has it, by its shift or its list of glyphs, and 0 if none has it.
pub glyph_index-owner :
    (font : Font) (cmap_offset code_point : ℕ) (segments : List Segment)
    → IsCmap font cmap_offset segments
    → IsOrdered segments
    → glyph_index_for_code_point font cmap_offset code_point
      ≡ done (owner_glyph segments code_point)
unfolding glyph_index_for_code_point
glyph_index-owner font cmap_offset code_point segments c o =
    rw (c.count_written, whole (length segments), ← find_glyph-owner segments code_point o)
      (glyph_index_loop-find font (arrays_at cmap_offset (length segments * 2)) code_point segments
        0 c.written)
