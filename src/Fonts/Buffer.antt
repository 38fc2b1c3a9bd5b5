-- ===== src/Fonts/Buffer.antt =====
-- A font as a buffer of bytes, read the way the script reads it
-- (tools/web-terminal/test-font-cell-width.mjs). A read outside the buffer is an exception.
use harmotty.Prelude.{
  ℕ, ◌+◌, ◌-◌, ◌*◌, ◌%◌, ◌≡◌, refl, Bool, true, false, none, some, List, map, Text, ltb,
  if◌then◌else◌, get_elem?, take, drop,
}
use harmotty.Prelude.Int.{ℤ, pos, negsuc}

-- Why the script fails: `RangeError`, or an assertion that does not hold.
pub data Failure : Type 0 where
  out_of_range : Failure
  missing_table : Text → Failure
  no_bmp_cmap : Failure
  no_outline : ℕ → Failure
  missing_code_point : ℕ → Failure
  too_wide : ℕ → Failure

-- What a step of the script comes to: a value, or the exception that ends the script.
pub data Attempt (A : Type 0) : Type 0 where
  failed : Failure → Attempt A
  done : A → Attempt A

-- `assert.ok`.
abbrev pub require : Bool → Failure → Attempt (Unit {0})
require false failure = failed failure
require true failure = done tt

module _ {A : Type 0} where
  infixl 5 ◌>>=◌ ◌>>◌
  abbrev pub ◌>>=◌ : {B : Type 0} → Attempt B → (B → Attempt A) → Attempt A
  failed failure >>= next = failed failure
  done value >>= next = next value

  abbrev pub ◌>>◌ : Attempt (Unit {0}) → Attempt A → Attempt A
  first >> next = first >>= λ _. next

  -- A script that ends well has passed its first step.
  pub >>=-eq-done :
      {B : Type 0} (first : Attempt B) (next : B → Attempt A) {a : A}
      → (first >>= next) ≡ done a
      → (b : B) × (first ≡ done b) × (next b ≡ done a)
  >>=-eq-done (failed failure) next h = cc
  >>=-eq-done (done b) next h = (b, refl, h)

abbrev pub Font : Type 0
Font = List ℕ

abbrev pub read_byte : Font → ℕ → Attempt ℕ
read_byte font offset = elim (get_elem? font offset) [
  | some byte ↦ done byte
  | none ↦ failed out_of_range
]

-- `readUInt16BE`.
unfoldable pub read_uint16_be : Font → ℕ → Attempt ℕ
read_uint16_be font offset = do
  high ← read_byte font offset
  low ← read_byte font (offset + 1)
  done (high * 256 + low)

-- `readUInt32BE`.
unfoldable pub read_uint32_be : Font → ℕ → Attempt ℕ
read_uint32_be font offset = do
  high ← read_uint16_be font offset
  low ← read_uint16_be font (offset + 2)
  done (high * 65536 + low)

abbrev pub signed_16 : ℕ → ℤ
signed_16 word = if ltb word 32768 then pos word else negsuc (65535 - word)

-- `readInt16BE`.
unfoldable pub read_int16_be : Font → ℕ → Attempt ℤ
read_int16_be font offset = do word ← read_uint16_be font offset; done (signed_16 word)

-- `toString('ascii', from, from + size)`, which stops at the end and drops the high bit.
unfoldable pub read_ascii : Font → ℕ → ℕ → Text
read_ascii font from size = map (λ byte. byte % 128) (take size (drop from font))
