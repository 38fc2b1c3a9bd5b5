-- ===== src/Durable/Utf8.antt =====
-- `encodeText` and `decodeText` of `DurableAssetFormat`
-- (entry/src/main/ets/model/persistence/DurableAssetFormat.ets). Bits are written out as arithmetic:
-- `>> 6` is `/ 64`, `& 0x3F` is `% 64`, `& 0xE0` of a byte is `/ 32 * 32`, and `|` of disjoint bits
-- is a sum.
use harmotty.Prelude.{
  ℕ, zero, suc, ◌+◌, ◌-◌, ◌*◌, ◌/◌, ◌%◌, Bool, ◌&&◌, ◌||◌, Option, none, some, List, [], ◌∷◌, ◌++◌,
  Text, leb, ltb, ◌==◌, if◌then◌else◌, length,
}

abbrev pub Bytes : Type 0
Bytes = List ℕ

pub data DecodeError : Type 0 where
  invalid_leading_byte incomplete_sequence invalid_continuation_byte invalid_code_point :
      DecodeError

pub data Decoded (A : Type 0) : Type 0 where
  decoded : A → Decoded A
  refused : DecodeError → Decoded A

abbrev pub is_high : ℕ → Bool
is_high unit = leb 0xD800 unit && leb unit 0xDBFF

abbrev pub is_low : ℕ → Bool
is_low unit = leb 0xDC00 unit && leb unit 0xDFFF

abbrev pub join_pair : ℕ → ℕ → ℕ
join_pair high low = 0x10000 + (high - 0xD800) * 1024 + (low - 0xDC00)

-- The code point at the start of a text, a surrogate alone standing for itself, and the rest.
unfoldable pub next_point : Text → Option (ℕ × Text)
next_point [] = none
next_point (unit ∷ []) = some (unit, [])
next_point (unit ∷ low ∷ rest) =
    if is_high unit && is_low low then some (join_pair unit low, rest) else some (unit, low ∷ rest)

unfoldable pub encode_point : ℕ → Bytes
encode_point p =
    if leb p 0x7F
    then p ∷ []
    else if leb p 0x7FF
    then (0xC0 + p / 64) ∷ (0x80 + p % 64) ∷ []
    else if leb p 0xFFFF
    then (0xE0 + p / 4096) ∷ (0x80 + p / 64 % 64) ∷ (0x80 + p % 64) ∷ []
    else (0xF0 + p / 262144) ∷ (0x80 + p / 4096 % 64) ∷ (0x80 + p / 64 % 64) ∷ (0x80 + p % 64) ∷ []

unfoldable pub encode_loop : ℕ → Text → Bytes
encode_loop zero text = []
encode_loop (suc fuel) text = elim (next_point text) [
  | none ↦ []
  | some (p, rest) ↦ encode_point p ++ encode_loop fuel rest
]

-- The fuel is the length of the text; a turn takes at least one unit.
unfoldable pub encode_text : Text → Bytes
encode_text text = encode_loop (length text) text

-- The bits of the code point that a leading byte has, and how many bytes follow it.
unfoldable pub lead : ℕ → Option (ℕ × ℕ)
lead first =
    if leb first 0x7F
    then some (first, 0)
    else if first / 32 * 32 == 0xC0
    then some (first % 32, 1)
    else if first / 16 * 16 == 0xE0
    then some (first % 16, 2)
    else if first / 8 * 8 == 0xF0
    then some (first % 8, 3)
    else none

unfoldable pub continue_point : ℕ → ℕ → Bytes → Decoded (ℕ × Bytes)
continue_point zero p rest = decoded (p, rest)
continue_point (suc extra) p [] = refused invalid_continuation_byte
continue_point (suc extra) p (next ∷ rest) =
    let more = continue_point extra (p * 64 + next % 64) rest in
    if next / 64 * 64 == 0x80 then more else refused invalid_continuation_byte

abbrev pub is_invalid_point : ℕ → ℕ → Bool
is_invalid_point extra p =
    ((extra == 1) && ltb p 0x80)
    || ((extra == 2) && ltb p 0x800)
    || ((extra == 3) && ltb p 0x10000)
    || ltb 0x10FFFF p
    || (leb 0xD800 p && leb p 0xDFFF)

unfoldable pub check_point : ℕ → Decoded (ℕ × Bytes) → Decoded (ℕ × Bytes)
check_point extra (refused e) = refused e
check_point extra (decoded (p, rest)) =
    if is_invalid_point extra p then refused invalid_code_point else decoded (p, rest)

unfoldable pub finish_point : Option (ℕ × ℕ) → Bytes → Decoded (ℕ × Bytes)
finish_point none rest = refused invalid_leading_byte
finish_point (some (p, extra)) rest =
    if ltb (length rest) extra
    then refused incomplete_sequence
    else check_point extra (continue_point extra p rest)

-- The code point that starts with a byte, and the bytes after it.
unfoldable pub decode_point : ℕ → Bytes → Decoded (ℕ × Bytes)
decode_point first rest = finish_point (lead first) rest

unfoldable pub units_of : ℕ → Text
units_of p =
    if leb p 0xFFFF
    then p ∷ []
    else (0xD800 + (p - 0x10000) / 1024) ∷ (0xDC00 + (p - 0x10000) % 1024) ∷ []

unfoldable pub prepend : Text → Decoded Text → Decoded Text
prepend units (decoded text) = decoded (units ++ text)
prepend units (refused e) = refused e

unfoldable pub decode_loop : ℕ → Bytes → Decoded Text
decode_loop fuel [] = decoded []
decode_loop zero (first ∷ rest) = decoded []
decode_loop (suc fuel) (first ∷ rest) = elim (decode_point first rest) [
  | refused e ↦ refused e
  | decoded (p, more) ↦ prepend (units_of p) (decode_loop fuel more)
]

unfoldable pub decode_text : Bytes → Decoded Text
decode_text bytes = decode_loop (length bytes) bytes
