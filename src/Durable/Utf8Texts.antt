-- ===== src/Durable/Utf8Texts.antt =====
-- What `decodeText` makes of the bytes that `encodeText` wrote.
use harmotty.Prelude.{
  ℕ, zero, suc, ◌≤◌, ◌≡◌, refl, ap, ◌∙◌, List, [], ◌∷◌, ◌++◌, arith, Text, length, length-append,
  All,
}
use harmotty.Durable.Utf8.{
  Bytes, decoded, next_point, encode_point, encode_loop, encode_text, units_of, prepend,
  decode_loop, decode_text,
}
use harmotty.Durable.Utf8Points.{IsScalar, decode-encode_point, next_point-units_of}

-- The UTF-16 text of a list of code points.
unfoldable pub text_of : List ℕ → Text
text_of [] = []
text_of (p ∷ ps) = units_of p ++ text_of ps

unfoldable pub bytes_of : List ℕ → Bytes
bytes_of [] = []
bytes_of (p ∷ ps) = encode_point p ++ bytes_of ps

length-units_of : (p : ℕ) → 1 ≤ length (units_of p)
unfolding units_of
length-units_of p = ground arith

length-encode_point : (p : ℕ) → 1 ≤ length (encode_point p)
unfolding encode_point
length-encode_point p = ground arith

encode_loop-text_of :
    (fuel : ℕ) (ps : List ℕ)
    → All IsScalar ps
    → length (text_of ps) ≤ fuel
    → encode_loop fuel (text_of ps) ≡ bytes_of ps
unfolding text_of bytes_of encode_loop next_point
encode_loop-text_of zero [] s h = refl
encode_loop-text_of (suc fuel) [] s h = refl
encode_loop-text_of zero (p ∷ ps) s h =
    absurd (omega (arith, length-units_of p, length-append {0} (units_of p) (text_of ps)))
encode_loop-text_of (suc fuel) (p ∷ ps) s h =
    rw (encode_loop, next_point-units_of p (text_of ps) s.0)
      (ap (λ bytes. encode_point p ++ bytes)
        (encode_loop-text_of fuel ps s.1
          (omega (arith, length-units_of p, length-append {0} (units_of p) (text_of ps)))))

decode_loop-bytes_of :
    (fuel : ℕ) (ps : List ℕ)
    → All IsScalar ps
    → length (bytes_of ps) ≤ fuel
    → decode_loop fuel (bytes_of ps) ≡ decoded (text_of ps)
unfolding text_of bytes_of decode_loop prepend
decode_loop-bytes_of fuel [] s h = refl
decode_loop-bytes_of zero (p ∷ ps) s h =
    absurd (omega (arith, length-encode_point p, length-append {0} (encode_point p) (bytes_of ps)))
decode_loop-bytes_of (suc fuel) (p ∷ ps) s h =
    decode-encode_point fuel p (bytes_of ps) s.0
    ∙ ap (prepend (units_of p)) (
        decode_loop-bytes_of fuel ps s.1
          (omega (arith, length-encode_point p, length-append {0} (encode_point p) (bytes_of ps))))

-- A text of whole code points is encoded point by point, each in its UTF-8 form.
pub encode_text-text_of : (ps : List ℕ) → All IsScalar ps → encode_text (text_of ps) ≡ bytes_of ps
unfolding encode_text
encode_text-text_of ps s = encode_loop-text_of (length (text_of ps)) ps s (omega arith)

-- Decoding gives back every text of whole code points that was encoded.
pub decode_text-encode_text :
    (ps : List ℕ) → All IsScalar ps → decode_text (encode_text (text_of ps)) ≡ decoded (text_of ps)
unfolding decode_text
decode_text-encode_text ps s =
    rw (encode_text-text_of ps s) (decode_loop-bytes_of (length (bytes_of ps)) ps s (omega arith))
