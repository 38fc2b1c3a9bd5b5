-- ===== src/TerminalPolicy/Metrics.antt =====
-- The counters and measures of terminal-policy.js: the bytes of a performance payload, and the
-- padding that centres the grid.
use harmotty.Prelude.{
  ℕ, ◌+◌, ◌≡◌, refl, ◌∙◌, true, Option, none, some, [], ◌∷◌, ◌++◌, arith, Text, ◌==◌, if◌then◌else◌,
}
use harmotty.Prelude.Number.{Number, max, le-max_left, le-max_right}

-- The loop of `countPerfPayloadBytes`; 88 is the letter X.
count_marks : ℕ → Text → ℕ
count_marks count [] = count
count_marks count (c ∷ s) = count_marks (if c == 88 then count + 1 else count) s

-- `none` is a payload that is not a string.
unfoldable pub count_perf_payload_bytes : Option Text → ℕ
unfolding count_marks
count_perf_payload_bytes none = 0
count_perf_payload_bytes (some payload) = count_marks 0 payload

count_marks_add : (n : ℕ) (t : Text) → count_marks n t ≡ n + count_marks 0 t
unfolding count_marks
count_marks_add n [] = omega arith
count_marks_add n (c ∷ t) =
    ground (arith, count_marks_add n t, count_marks_add 1 t, count_marks_add (n + 1) t)

count_marks-append : (n : ℕ) (s t : Text) → count_marks n (s ++ t) ≡ count_marks (count_marks n s) t
unfolding count_marks
count_marks-append n [] t = refl
count_marks-append n (c ∷ s) t = count_marks-append (if c == 88 then n + 1 else n) s t

-- The count of two payloads in a row is the sum of their counts.
pub count_perf_payload_bytes-append :
    (s t : Text)
    → count_perf_payload_bytes (some (s ++ t))
      ≡ count_perf_payload_bytes (some s) + count_perf_payload_bytes (some t)
unfolding count_perf_payload_bytes
count_perf_payload_bytes-append s t = count_marks-append 0 s t ∙ count_marks_add (count_marks 0 s) t

module _ (N : Number) where
  open N use {Num, lit, add, sub, div, le, le_trans, div-nonneg, le-add, lit-nonneg}

  -- A padding that is no finite number is 0.
  padding_of : Option Num → Num
  padding_of none = lit 0 1
  padding_of (some a) = max N (lit 0 1) a

  -- `none` is an argument that is not a finite number.
  unfoldable pub center_grid_leading_padding :
      Option Num → Option Num → Option Num → Option Num → Num
  unfolding padding_of
  center_grid_leading_padding base_leading base_trailing (some container) (some grid) =
      let leading = padding_of base_leading in
      let unused =
        sub (sub (sub container leading) (padding_of base_trailing)) (max N (lit 0 1) grid) in
      add leading (div (max N (lit 0 1) unused) (lit 2 1))
  center_grid_leading_padding base_leading base_trailing _ _ = padding_of base_leading

  half-nonneg : (a : Num) → le (lit 0 1) (div (max N (lit 0 1) a) (lit 2 1)) ≡ true
  half-nonneg a = div-nonneg _ _ (le-max_left N (lit 0 1) a) (lit-nonneg 2)

  padding_of-nonneg : (base : Option Num) → le (lit 0 1) (padding_of base) ≡ true
  unfolding padding_of
  padding_of-nonneg none = lit-nonneg 0
  padding_of-nonneg (some a) = le-max_left N (lit 0 1) a

  le-centered :
      (base_leading base_trailing container grid : Option Num)
      → le
          (padding_of base_leading)
          (center_grid_leading_padding base_leading base_trailing container grid)
        ≡ true
  unfolding center_grid_leading_padding
  le-centered base_leading base_trailing (some container) (some grid) = le-add _ _ (half-nonneg _)
  le-centered base_leading base_trailing none grid = N.le_refl _
  le-centered base_leading base_trailing (some container) none = N.le_refl _

  -- Centring never makes the padding negative, nor smaller than a base padding that is given.
  pub center_grid_leading_padding_bounds :
      (base : Num) (base_trailing container grid : Option Num)
      → (le (lit 0 1) (center_grid_leading_padding (some base) base_trailing container grid) ≡ true)
        × (le base (center_grid_leading_padding (some base) base_trailing container grid) ≡ true)
  unfolding padding_of
  center_grid_leading_padding_bounds base base_trailing container grid =
      let grown = le-centered (some base) base_trailing container grid in
      (
        le_trans _ _ _ (padding_of-nonneg (some base)) grown,
        le_trans _ _ _ (le-max_right N (lit 0 1) base) grown,
      )
