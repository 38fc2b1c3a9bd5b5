-- ===== src/TerminalPolicy/Base64.antt =====
-- The base64 that terminal-policy.js tests by a regular expression and decodes by `atob`, and the
-- encoding by which the decoder is judged (that of `btoa`).
use harmotty.Prelude.{
  ℕ, ◌++◌, ◌+◌, ◌-◌, ◌*◌, ◌/◌, ◌%◌, ◌<◌, ◌≡◌, refl, Bool, true, false, ◌&&◌, ◌||◌, [], ◌∷◌, arith,
  Text, leb, ◌==◌, if◌then◌else◌, length, All,
}

-- The class `[A-Za-z0-9+/]`.
is_base64_char : ℕ → Bool
is_base64_char c =
    leb b'A' c && leb c b'Z'
    || leb b'a' c && leb c b'z'
    || leb b'0' c && leb c b'9'
    || c == b'+'
    || c == b'/'

-- `/^(?:[A-Za-z0-9+/]{4})*(?:[A-Za-z0-9+/]{2}==|[A-Za-z0-9+/]{3}=)?$/`
unfoldable pub is_base64 : Text → Bool
unfolding is_base64_char
is_base64 [] = true
is_base64 (a ∷ b ∷ c ∷ d ∷ []) =
    is_base64_char a
    && is_base64_char b
    && (is_base64_char c && (is_base64_char d || d == b'=') || c == b'=' && d == b'=')
is_base64 (a ∷ b ∷ c ∷ d ∷ rest) =
    is_base64_char a && is_base64_char b && is_base64_char c && is_base64_char d && is_base64 rest
is_base64 _ = false

sextet : ℕ → ℕ
sextet c =
    if leb b'a' c
    then c - b'a' + 26
    else if leb b'A' c
    then c - b'A'
    else if leb b'0' c
    then c - b'0' + 52
    else if c == b'+'
    then 62
    else 63

-- The bytes of one group of four characters; its padding says how many there are.
group_bytes : ℕ → ℕ → ℕ → ℕ → Text
group_bytes a b c d =
    let first = sextet a * 4 + sextet b / 16 in
    let second = sextet b % 16 * 16 + sextet c / 4 in
    let third = sextet c % 4 * 64 + sextet d in
    if c == b'='
    then first ∷ []
    else if d == b'='
    then first ∷ second ∷ []
    else first ∷ second ∷ third ∷ []

-- `atob` on a text that the regular expression accepts: the code units of its result are bytes.
unfoldable pub atob : Text → Text
unfolding group_bytes sextet
atob (a ∷ b ∷ c ∷ d ∷ rest) = group_bytes a b c d ++ atob rest
atob _ = []

char_of : ℕ → ℕ
char_of n =
    if leb n 25
    then b'A' + n
    else if leb n 51
    then b'a' + (n - 26)
    else if leb n 61
    then b'0' + (n - 52)
    else if n == 62
    then b'+'
    else b'/'

-- The encoding of the base64 standard, written independently of the decoder.
unfoldable pub btoa : Text → Text
unfolding char_of
btoa [] = []
btoa (x ∷ []) = char_of (x / 4) ∷ char_of (x % 4 * 16) ∷ b'=' ∷ b'=' ∷ []
btoa (x ∷ y ∷ []) =
    char_of (x / 4) ∷ char_of (x % 4 * 16 + y / 16) ∷ char_of (y % 16 * 4) ∷ b'=' ∷ []
btoa (x ∷ y ∷ z ∷ rest) =
    char_of (x / 4)
    ∷ char_of (x % 4 * 16 + y / 16)
    ∷ char_of (y % 16 * 4 + z / 64)
    ∷ char_of (z % 64)
    ∷ btoa rest

abbrev pub Bytes : Text → Type 0
Bytes = All (λ b. b < 256)

module _ (n : ℕ) (h : n < 64) where
  sextet-char_of : sextet (char_of n) ≡ n
  unfolding sextet char_of
  sextet-char_of = ground arith

  is_base64_char-char_of : is_base64_char (char_of n) ≡ true
  unfolding is_base64_char char_of
  is_base64_char-char_of = ground arith

  char_of-ne-pad : (char_of n == b'=') ≡ false
  unfolding char_of
  char_of-ne-pad = ground arith

is_base64-cons :
    (a b c d : ℕ) (rest : Text)
    → is_base64_char a ≡ true
    → is_base64_char b ≡ true
    → is_base64_char c ≡ true
    → is_base64_char d ≡ true
    → is_base64 rest ≡ true
    → is_base64 (a ∷ b ∷ c ∷ d ∷ rest) ≡ true
unfolding is_base64
is_base64-cons a b c d [] p q r s h = rw (p, q, r, s) refl
is_base64-cons a b c d (e ∷ rest) p q r s h = rw (p, q, r, s) h

-- What the encoder writes passes the test of the regular expression.
pub is_base64-btoa : (bytes : Text) → Bytes bytes → is_base64 (btoa bytes) ≡ true
unfolding is_base64 btoa
is_base64-btoa [] h = refl
is_base64-btoa (x ∷ []) h =
    rw
      (
        is_base64_char-char_of (x / 4) (omega arith),
        is_base64_char-char_of (x % 4 * 16) (omega arith),
      )
      (ground arith)
is_base64-btoa (x ∷ y ∷ []) h =
    rw
      (
        is_base64_char-char_of (x / 4) (omega arith),
        is_base64_char-char_of (x % 4 * 16 + y / 16) (omega arith),
        is_base64_char-char_of (y % 16 * 4) (omega arith),
      )
      refl
is_base64-btoa (x ∷ y ∷ z ∷ rest) h =
    is_base64-cons (char_of (x / 4)) (char_of (x % 4 * 16 + y / 16)) (char_of (y % 16 * 4 + z / 64))
      (char_of (z % 64)) (btoa rest) (is_base64_char-char_of (x / 4) (omega arith))
      (is_base64_char-char_of (x % 4 * 16 + y / 16) (omega arith))
      (is_base64_char-char_of (y % 16 * 4 + z / 64) (omega arith))
      (is_base64_char-char_of (z % 64) (omega arith)) (is_base64-btoa rest h.1.1.1)

group_bytes-two :
    (x y : ℕ)
    → x < 256
    → y < 256
    → group_bytes (char_of (x / 4)) (char_of (x % 4 * 16 + y / 16)) (char_of (y % 16 * 4)) b'='
      ≡ x ∷ y ∷ []
unfolding group_bytes
group_bytes-two x y p q =
    rw
      (
        char_of-ne-pad (y % 16 * 4) (omega arith),
        sextet-char_of (x / 4) (omega arith),
        sextet-char_of (x % 4 * 16 + y / 16) (omega arith),
        sextet-char_of (y % 16 * 4) (omega arith),
      )
      (ground arith)

group_bytes-three :
    (x y z : ℕ)
    → x < 256
    → y < 256
    → z < 256
    → group_bytes
        (char_of (x / 4))
        (char_of (x % 4 * 16 + y / 16))
        (char_of (y % 16 * 4 + z / 64))
        (char_of (z % 64))
      ≡ x ∷ y ∷ z ∷ []
unfolding group_bytes
group_bytes-three x y z p q r =
    rw
      (
        char_of-ne-pad (y % 16 * 4 + z / 64) (omega arith),
        char_of-ne-pad (z % 64) (omega arith),
        sextet-char_of (x / 4) (omega arith),
        sextet-char_of (x % 4 * 16 + y / 16) (omega arith),
        sextet-char_of (y % 16 * 4 + z / 64) (omega arith),
        sextet-char_of (z % 64) (omega arith),
      )
      (ground arith)

-- Decoding inverts encoding.
pub atob-btoa : (bytes : Text) → Bytes bytes → atob (btoa bytes) ≡ bytes
unfolding atob btoa
atob-btoa [] h = refl
atob-btoa (x ∷ []) h =
    rw (sextet-char_of (x / 4) (omega arith), sextet-char_of (x % 4 * 16) (omega arith))
      (ground arith)
atob-btoa (x ∷ y ∷ []) h = rw (group_bytes-two x y (omega arith) (omega arith)) refl
atob-btoa (x ∷ y ∷ z ∷ rest) h =
    rw (group_bytes-three x y z (omega arith) (omega arith) (omega arith), atob-btoa rest h.1.1.1)
      refl

pub length-btoa : (bytes : Text) → length (btoa bytes) ≡ (length bytes + 2) / 3 * 4
unfolding btoa
length-btoa [] = refl
length-btoa (x ∷ []) = refl
length-btoa (x ∷ y ∷ []) = refl
length-btoa (x ∷ y ∷ z ∷ rest) = omega (arith, length-btoa rest)
