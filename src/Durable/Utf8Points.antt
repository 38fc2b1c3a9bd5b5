-- ===== src/Durable/Utf8Points.antt =====
-- What `decodeText` makes of the bytes of one code point.
use harmotty.Prelude.{
  ℕ, suc, ◌+◌, ◌-◌, ◌*◌, ◌/◌, ◌%◌, ◌≤◌, ◌<◌, ◌≡◌, ◌⊎◌, inl, inr, refl, ap, ◌∙◌, true, false, some,
  [], ◌∷◌, ◌++◌, arith, Text, leb, ltb, ◌==◌, length, Bool-cases,
}
use harmotty.Durable.Utf8.{
  Bytes, decoded, is_high, is_low, join_pair, next_point, encode_point, lead, continue_point,
  is_invalid_point, check_point, finish_point, decode_point, units_of, prepend, decode_loop,
}

-- A Unicode scalar value.
abbrev pub IsScalar : ℕ → Type 0
IsScalar p = (p < 0xD800) ⊎ ((0xE000 ≤ p) × (p ≤ 0x10FFFF))

lead-two : (x : ℕ) → x < 32 → lead (0xC0 + x) ≡ some (x, 1)
unfolding lead
lead-two x h = ground arith

lead-three : (x : ℕ) → x < 16 → lead (0xE0 + x) ≡ some (x, 2)
unfolding lead
lead-three x h = ground arith

lead-four : (x : ℕ) → x < 8 → lead (0xF0 + x) ≡ some (x, 3)
unfolding lead
lead-four x h = ground arith

continue-next :
    (n q y : ℕ) (rest : Bytes)
    → y < 64
    → continue_point (suc n) q ((0x80 + y) ∷ rest) ≡ continue_point n (q * 64 + y) rest
unfolding continue_point
continue-next n q y rest h =
    let marked : ((0x80 + y) / 64 * 64 == 0x80) ≡ true = ground arith in
    let bits : (0x80 + y) % 64 ≡ y = omega arith in rw (marked, bits) refl

checked :
    (extra p : ℕ) (rest : Bytes)
    → is_invalid_point extra p ≡ false
    → check_point extra (decoded (p, rest)) ≡ decoded (p, rest)
unfolding check_point
checked extra p rest h = rw h refl

finish :
    (extra q p : ℕ) (tail rest : Bytes)
    → extra ≤ length tail
    → continue_point extra q tail ≡ decoded (p, rest)
    → is_invalid_point extra p ≡ false
    → finish_point (some (q, extra)) tail ≡ decoded (p, rest)
unfolding finish_point
finish extra q p tail rest h e valid =
    let enough : ltb (length tail) extra ≡ false = ground arith in
    rw (enough, e) (checked extra p rest valid)

module _ (p : ℕ) (s : IsScalar p) (rest : Bytes) where
  decode-one : p ≤ 0x7F → decode_point p rest ≡ decoded (p, rest)
  unfolding decode_point finish_point lead continue_point check_point
  decode-one h = ground arith

  decode-two :
      0x7F < p
      → p ≤ 0x7FF
      → decode_point (0xC0 + p / 64) ((0x80 + p % 64) ∷ rest) ≡ decoded (p, rest)
  unfolding decode_point continue_point
  decode-two h k =
      let whole : p / 64 * 64 + p % 64 ≡ p = omega arith in
      rw (lead-two (p / 64) (omega arith)) (
        finish 1 (p / 64) p _ rest (omega arith)
          (continue-next 0 (p / 64) (p % 64) rest (omega arith) ∙ ap (λ q. decoded (q, rest)) whole)
          (ground arith))

  decode-three :
      0x7FF < p
      → p ≤ 0xFFFF
      → decode_point (0xE0 + p / 4096) ((0x80 + p / 64 % 64) ∷ (0x80 + p % 64) ∷ rest)
        ≡ decoded (p, rest)
  unfolding decode_point continue_point
  decode-three h k =
      let whole : (p / 4096 * 64 + p / 64 % 64) * 64 + p % 64 ≡ p = omega arith in
      rw (lead-three (p / 4096) (omega arith)) (
        finish 2 (p / 4096) p _ rest (omega arith)
          (continue-next 1 (p / 4096) (p / 64 % 64) ((0x80 + p % 64) ∷ rest) (omega arith)
            ∙ continue-next 0 (p / 4096 * 64 + p / 64 % 64) (p % 64) rest (omega arith)
            ∙ ap (λ q. decoded (q, rest)) whole)
          (ground arith))

  decode-four :
      0xFFFF < p
      → decode_point
          (0xF0 + p / 262144)
          ((0x80 + p / 4096 % 64) ∷ (0x80 + p / 64 % 64) ∷ (0x80 + p % 64) ∷ rest)
        ≡ decoded (p, rest)
  unfolding decode_point continue_point
  decode-four h =
      let whole : ((p / 262144 * 64 + p / 4096 % 64) * 64 + p / 64 % 64) * 64 + p % 64 ≡ p =
        omega arith in
      rw (lead-four (p / 262144) (omega arith)) (
        finish 3 (p / 262144) p _ rest (omega arith)
          (continue-next 2 (p / 262144) (p / 4096 % 64)
              ((0x80 + p / 64 % 64) ∷ (0x80 + p % 64) ∷ rest) (omega arith)
            ∙ continue-next 1 (p / 262144 * 64 + p / 4096 % 64) (p / 64 % 64)
                ((0x80 + p % 64) ∷ rest) (omega arith)
            ∙ continue-next 0 ((p / 262144 * 64 + p / 4096 % 64) * 64 + p / 64 % 64) (p % 64) rest
                (omega arith)
            ∙ ap (λ q. decoded (q, rest)) whole)
          (ground arith))

decode_loop-point :
    (fuel first p : ℕ) (tail rest : Bytes)
    → decode_point first tail ≡ decoded (p, rest)
    → decode_loop (suc fuel) (first ∷ tail) ≡ prepend (units_of p) (decode_loop fuel rest)
unfolding decode_loop
decode_loop-point fuel first p tail rest e = rw (decode_loop, e) refl

pub decode-encode_point :
    (fuel p : ℕ) (rest : Bytes)
    → IsScalar p
    → decode_loop (suc fuel) (encode_point p ++ rest) ≡ prepend (units_of p) (decode_loop fuel rest)
unfolding encode_point
decode-encode_point fuel p rest s = elim (Bool-cases (leb p 0x7F)) [
  | inl one ↦ rw one (decode_loop-point fuel _ p _ rest (decode-one p s rest (ground arith)))
  | inr e ↦ elim (Bool-cases (leb p 0x7FF)) [
    | inl two ↦
        rw (e, two)
          (decode_loop-point fuel _ p _ rest (decode-two p s rest (ground arith) (ground arith)))
    | inr f ↦ elim (Bool-cases (leb p 0xFFFF)) [
      | inl three ↦
          rw (e, f, three)
            (decode_loop-point fuel _ p _ rest
              (decode-three p s rest (ground arith) (ground arith)))
      | inr g ↦
          rw (e, f, g) (decode_loop-point fuel _ p _ rest (decode-four p s rest (ground arith)))
    ]
  ]
]

single_point : (p : ℕ) (rest : Text) → is_high p ≡ false → next_point (p ∷ rest) ≡ some (p, rest)
unfolding next_point
single_point p [] h = refl
single_point p (unit ∷ rest) h = rw h refl

pair_point :
    (high low : ℕ) (rest : Text)
    → is_high high ≡ true
    → is_low low ≡ true
    → next_point (high ∷ low ∷ rest) ≡ some (join_pair high low, rest)
unfolding next_point
pair_point high low rest h k = rw (h, k) refl

pub next_point-units_of :
    (p : ℕ) (rest : Text) → IsScalar p → next_point (units_of p ++ rest) ≡ some (p, rest)
unfolding units_of
next_point-units_of p rest s = elim (Bool-cases (leb p 0xFFFF)) [
  | inl small ↦ rw small (single_point p rest (ground arith))
  | inr large ↦
      let whole : join_pair (0xD800 + (p - 0x10000) / 1024) (0xDC00 + (p - 0x10000) % 1024) ≡ p =
        ground arith in
      rw large (pair_point _ _ rest (ground arith) (ground arith) ∙ ap (λ q. some (q, rest)) whole)
]
