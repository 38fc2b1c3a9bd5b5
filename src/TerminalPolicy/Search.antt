-- ===== src/TerminalPolicy/Search.antt =====
-- The search bar of terminal-policy.js: the label of the current match, and the order in which
-- the keyboard goes round the controls.
use harmotty.Prelude.{
  ℕ, zero, suc, ◌+◌, ◌-◌, ◌%◌, ◌<◌, ◌≡◌, refl, sym, ap, ◌∙◌, Bool, not, true, false, [], ◌∷◌, ◌++◌,
  arith, Text, codes, ltb, lt→ltb, leb, Bool-cases, inl, inr, ◌==◌, if◌then◌else◌, length, index_of,
  index_of-append, none, some, Option, all, take, take-append, drop, drop-append_cons,
}
use harmotty.Prelude.Int.{ℤ, pos, negsuc, minus_one}
use native.Mathlib.Nat.{mod-lt, mod-eq_of_lt, mod-add-mod, mod_self, add-mod_right}
use harmotty.Prelude.Decimal.{to_text, to_text_inj, is_digit, all-to_text}

-- `none` is a query that is not a string.
unfoldable pub search_result_label : Option Text → ℤ → ℤ → ℕ → Text
search_result_label none result_index result_count highlight_limit = codes "0/0"
search_result_label (some []) result_index result_count highlight_limit = codes "0/0"
search_result_label (some (c ∷ q)) result_index (negsuc n) highlight_limit = codes "0/0"
search_result_label (some (c ∷ q)) result_index (pos zero) highlight_limit = codes "0/0"
search_result_label (some (c ∷ q)) (negsuc i) (pos (suc n)) highlight_limit =
    if leb highlight_limit (suc n)
    then to_text highlight_limit ++ codes "+"
    else codes "0/" ++ to_text (suc n)
search_result_label (some (c ∷ q)) (pos i) (pos (suc n)) highlight_limit =
    to_text (i + 1) ++ b'/' ∷ to_text (suc n)

safe_index : ℤ → ℕ → ℕ
safe_index (negsuc i) control_count = 0
safe_index (pos i) control_count = if ltb i control_count then i else 0

-- `(safeIndex + direction + controlCount) % controlCount`, where the sum is at least 0.
unfoldable pub wrapped_control_index : ℤ → ℤ → Bool → ℤ
unfolding safe_index
wrapped_control_index current (negsuc n) backwards = minus_one
wrapped_control_index current (pos zero) backwards = minus_one
wrapped_control_index current (pos (suc n)) backwards =
    let safe = safe_index current (suc n) in
    pos ((if backwards then safe + suc n - 1 else safe + 1 + suc n) % suc n)

no_slash : (s rest : Text) → all is_digit s ≡ true → index_of b'/' s ≡ none
unfolding is_digit index_of
no_slash [] rest h = refl
no_slash (c ∷ s) rest h = ground (arith, no_slash s rest)

slash_at : (i : ℕ) (t : Text) → index_of b'/' (to_text i ++ b'/' ∷ t) ≡ some (length (to_text i))
slash_at i t = index_of-append b'/' (to_text i) t (no_slash (to_text i) [] (all-to_text i))

slashed_inj :
    (a b : ℕ) (s t : Text) → to_text a ++ b'/' ∷ s ≡ to_text b ++ b'/' ∷ t → (a ≡ b) × (s ≡ t)
slashed_inj a b s t e =
    let size : length (to_text a) ≡ length (to_text b) =
      cc (slash_at a s, slash_at b t, ap (index_of b'/') e) in
    let before : to_text a ≡ to_text b =
      sym (take-append (to_text a) (b'/' ∷ s))
      ∙ ap (take (length (to_text a))) e
      ∙ rw size (take-append (to_text b) (b'/' ∷ t)) in
    let after : s ≡ t =
      sym (drop-append_cons (to_text a) b'/' s)
      ∙ ap (drop (suc (length (to_text a)))) e
      ∙ rw size (drop-append_cons (to_text b) b'/' t) in
    (to_text_inj a b before, after)

-- Two labels `i/n` that read alike show the same match of the same number of matches.
pub search_result_label_inj :
    (q q' : Text) (c c' i i' n n' limit limit' : ℕ)
    → search_result_label (some (c ∷ q)) (pos i) (pos (suc n)) limit
      ≡ search_result_label (some (c' ∷ q')) (pos i') (pos (suc n')) limit'
    → (i ≡ i') × (n ≡ n')
unfolding search_result_label
search_result_label_inj q q' c c' i i' n n' limit limit' e =
    let (index, count) = slashed_inj (i + 1) (i' + 1) (to_text (suc n)) (to_text (suc n')) e in
    (omega arith, omega (arith, to_text_inj (suc n) (suc n') count))

-- From any control, one step in either direction stays on a control.
pub wrapped_control_index_bounds :
    (current : ℤ) (n : ℕ) (backwards : Bool)
    → (k : ℕ) × (wrapped_control_index current (pos (suc n)) backwards ≡ pos k) × (k < suc n)
unfolding wrapped_control_index
wrapped_control_index_bounds current n backwards = (_, refl, grind arith)

module _ (i n : ℕ) (h : i < suc n) where
  step_forward : (i + 1 + suc n) % suc n ≡ (if i == n then 0 else i + 1)
  step_forward = rw add-mod_right (elim (Bool-cases (i == n)) [
    | inl e ↦ rw e (let full : i + 1 ≡ suc n = ground arith in rw full (mod_self (suc n)))
    | inr e ↦ rw e (mod-eq_of_lt (ground arith))
  ])

  step_backward : (i + suc n - 1) % suc n ≡ (if i == 0 then n else i - 1)
  step_backward = elim (Bool-cases (i == 0)) [
    | inl e ↦
        rw e (let small : i + suc n - 1 ≡ n = ground arith in rw small (mod-eq_of_lt (omega arith)))
    | inr e ↦ rw e (
        let shift : i + suc n - 1 ≡ i - 1 + suc n = ground arith in
        rw (shift, add-mod_right) (mod-eq_of_lt (omega arith)))
  ]

  forward_lem :
      wrapped_control_index (pos i) (pos (suc n)) false ≡ pos (if i == n then 0 else i + 1)
  unfolding wrapped_control_index
  forward_lem = rw (lt→ltb i (suc n) h) (ap pos step_forward)

  forward_mod : wrapped_control_index (pos i) (pos (suc n)) false ≡ pos ((i + 1) % suc n)
  unfolding wrapped_control_index
  forward_mod = rw (lt→ltb i (suc n) h) (ap pos (add-mod_right (i + 1) (suc n)))

  backward_lem :
      wrapped_control_index (pos i) (pos (suc n)) true ≡ pos (if i == 0 then n else i - 1)
  unfolding wrapped_control_index
  backward_lem = rw (lt→ltb i (suc n) h) (ap pos step_backward)

-- Stepping back undoes a step forward, and the other way round.
pub wrapped_control_index_inverse :
    (i n : ℕ) (backwards : Bool)
    → i < suc n
    → wrapped_control_index
        (wrapped_control_index (pos i) (pos (suc n)) backwards)
        (pos (suc n))
        (not backwards)
      ≡ pos i
wrapped_control_index_inverse i n true h =
    rw (backward_lem i n h) (ground (arith, forward_lem n n, forward_lem (i - 1) n))
wrapped_control_index_inverse i n false h =
    rw (forward_lem i n h) (ground (arith, backward_lem 0 n, backward_lem (i + 1) n))

-- `k` steps forward.
abbrev pub tab_forward : ℕ → ℤ → ℕ → ℤ
tab_forward zero current n = current
tab_forward (suc k) current n = tab_forward k (wrapped_control_index current (pos n) false) n

-- After `k` steps forward from control `i` of `n` the focus is on control `(i + k) % n`; so every
-- control is reached.
pub tab_forward_lem :
    (k i n : ℕ) → i < suc n → tab_forward k (pos i) (suc n) ≡ pos ((i + k) % suc n)
tab_forward_lem zero i n h =
    ap pos (sym (mod-eq_of_lt (omega arith)) ∙ ap (λ t. t % suc n) (omega arith))
tab_forward_lem (suc k) i n h = rw (forward_mod i n h) (
    tab_forward_lem k ((i + 1) % suc n) n (mod-lt (i + 1) (omega arith))
    ∙ ap pos (mod-add-mod (i + 1) (suc n) k ∙ ap (λ t. t % suc n) (omega arith)))
