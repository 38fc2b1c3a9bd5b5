-- ===== src/Fonts/Reads.antt =====
-- Where a read of the font succeeds (tools/web-terminal/test-font-cell-width.mjs).
use harmotty.Prelude.{ℕ, zero, suc, ◌+◌, ◌*◌, ◌≤◌, ◌<◌, ◌≡◌, refl, [], ◌∷◌, arith, length}
use native.Mathlib.Decide.{dec_lt}
use harmotty.Fonts.Buffer.{
  out_of_range, done, failed, Font, read_byte, read_uint16_be, read_uint32_be,
}

read_byte-inside : (font : Font) (o : ℕ) → o < length font → (b : ℕ) × (read_byte font o ≡ done b)
read_byte-inside [] o h = absurd (omega arith)
read_byte-inside (b ∷ font) zero h = (b, refl)
read_byte-inside (b ∷ font) (suc o) h = read_byte-inside font o (omega arith)

read_byte-outside : (font : Font) (o : ℕ) → length font ≤ o → read_byte font o ≡ failed out_of_range
read_byte-outside [] o h = refl
read_byte-outside (b ∷ font) zero h = absurd (omega arith)
read_byte-outside (b ∷ font) (suc o) h = read_byte-outside font o (omega arith)

pub read_uint16_be-inside :
    (font : Font) (o : ℕ) → o + 2 ≤ length font → (w : ℕ) × (read_uint16_be font o ≡ done w)
unfolding read_uint16_be
read_uint16_be-inside font o h =
    let (high, e) = read_byte-inside font o (omega arith) in
    let (low, f) = read_byte-inside font (o + 1) (omega arith) in (high * 256 + low, rw (e, f) refl)

pub read_uint16_be-outside :
    (font : Font) (o : ℕ) → length font < o + 2 → read_uint16_be font o ≡ failed out_of_range
unfolding read_uint16_be
read_uint16_be-outside font o h = elim (dec_lt o (length font)) [
  | yes p ↦
      let (high, e) = read_byte-inside font o p in
      rw (e, read_byte-outside font (o + 1) (omega arith)) refl
  | no p ↦ rw (read_byte-outside font o (omega arith)) refl
]

pub read_uint32_be-inside :
    (font : Font) (o : ℕ) → o + 4 ≤ length font → (w : ℕ) × (read_uint32_be font o ≡ done w)
unfolding read_uint32_be
read_uint32_be-inside font o h =
    let (high, e) = read_uint16_be-inside font o (omega arith) in
    let (low, f) = read_uint16_be-inside font (o + 2) (omega arith) in
    (high * 65536 + low, rw (e, f) refl)

pub read_uint32_be-outside :
    (font : Font) (o : ℕ) → length font < o + 4 → read_uint32_be font o ≡ failed out_of_range
unfolding read_uint32_be
read_uint32_be-outside font o h = elim (dec_lt (o + 1) (length font)) [
  | yes p ↦
      let (high, e) = read_uint16_be-inside font o (omega arith) in
      rw (e, read_uint16_be-outside font (o + 2) (omega arith)) refl
  | no p ↦ rw (read_uint16_be-outside font o (omega arith)) refl
]
