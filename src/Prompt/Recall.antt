-- ===== src/Prompt/Recall.antt =====
-- What the history of `CommandBarViewModel` keeps and what it recalls.
use harmotty.Prelude.{
  ℕ, zero, suc, ◌+◌, ◌-◌, ◌≤◌, ◌<◌, ◌≡◌, refl, ap, ◌∙◌, true, false, List, [], ◌∷◌, arith, Text,
  trim, ltb, leb, ◌==◌, length, min, take, length-take, All, Bool-cases, inl, inr,
}
use harmotty.Prelude.Int.{ℤ, pos, negsuc, minus_one}
use harmotty.Prompt.CommandBar.{
  CommandBar, new, max_history, set_input_text, try_tab_complete, apply_completion, older,
  clamp_index, recalled, navigate_history, repeats, pop, add_to_history, BarOperation, input,
  complete, apply, navigate, remember, perform, run,
}

-- The index is -1 or that of an entry.
abbrev pub IsIndex : ℤ → ℕ → Type 0
IsIndex (negsuc n) size = n ≡ 0
IsIndex (pos i) size = i < size

-- A command that is not blank.
abbrev pub IsCommand : Text → Type 0
IsCommand command = (length (trim command) == 0) ≡ false

-- No command stands twice in a row.
abbrev pub IsVaried : List Text → Type 0
IsVaried [] = Unit
IsVaried (c ∷ cs) = (repeats cs c ≡ false) × IsVaried cs

pub record IsValid (s : CommandBar) : Type 0 where
  pub bounded : length s.history ≤ max_history
  pub indexed : IsIndex s.history_index (length s.history)
  pub commands : All IsCommand s.history
  pub varied : IsVaried s.history

All-take : (P : Text → Type 0) (n : ℕ) (xs : List Text) → All P xs → All P (take n xs)
All-take P zero xs h = tt
All-take P (suc n) [] h = tt
All-take P (suc n) (x ∷ xs) h = (h.0, All-take P n xs h.1)

take-IsVaried : (n : ℕ) (xs : List Text) → IsVaried xs → IsVaried (take n xs)
take-IsVaried zero xs h = tt
take-IsVaried (suc n) [] h = tt
take-IsVaried (suc zero) (x ∷ xs) h = (refl, tt)
take-IsVaried (suc (suc n)) (x ∷ []) h = (refl, tt)
take-IsVaried (suc (suc n)) (x ∷ y ∷ xs) h = (h.0, take-IsVaried (suc n) (y ∷ xs) h.1)

length-pop : (xs : List Text) → length xs ≤ suc max_history → length (pop xs) ≤ max_history
length-pop xs h = elim (Bool-cases (ltb max_history (length xs))) [
  | inl e ↦ rw e (omega (arith, length-take {0} (length xs - 1) xs))
  | inr e ↦ rw e (ground arith)
]

pop-kept :
    (xs : List Text) → All IsCommand xs → IsVaried xs → All IsCommand (pop xs) × IsVaried (pop xs)
pop-kept xs c v = elim (Bool-cases (ltb max_history (length xs))) [
  | inl e ↦ rw e (All-take IsCommand (length xs - 1) xs c, take-IsVaried (length xs - 1) xs v)
  | inr e ↦ rw e (c, v)
]

add-IsValid : (s : CommandBar) (command : Text) → IsValid s → IsValid (add_to_history s command)
unfolding add_to_history
add-IsValid s command v = elim (Bool-cases (length (trim command) == 0)) [
  | inl e ↦ simp e v
  | inr e ↦ elim (Bool-cases (repeats s.history command)) [
    | inl f ↦ simp (e, f) v
    | inr f ↦
        let kept = pop-kept (command ∷ s.history) (e, v.commands) (f, v.varied) in
        simp (e, f)
          (record {
            bounded = length-pop (command ∷ s.history) (omega (arith, v.bounded));
            indexed = refl;
            commands = kept.0;
            varied = kept.1;
          })
  ]
]

clamp-IsIndex : (index : ℤ) (size : ℕ) → IsIndex (clamp_index index (suc size)) (suc size)
clamp-IsIndex (negsuc n) size = refl
clamp-IsIndex (pos i) size = elim (Bool-cases (leb (suc size) i)) [
  | inl e ↦ rw e (omega arith)
  | inr e ↦ rw e (ground arith)
]

navigate_fields-IsValid :
    (text : Text) (h : List Text) (i : ℤ) (found : List Text) (direction : ℤ)
    → IsValid (record { input_text = text; history = h; history_index = i; completions = found })
    → IsValid
        (navigate_history
          (record { input_text = text; history = h; history_index = i; completions = found })
          direction).1
unfolding navigate_history
navigate_fields-IsValid text [] i found direction v = v
navigate_fields-IsValid text (c ∷ h) i found direction v = record {
  bounded = v.bounded;
  indexed = clamp-IsIndex _ (length h);
  commands = v.commands;
  varied = v.varied;
}

navigate-IsValid :
    (s : CommandBar) (direction : ℤ) → IsValid s → IsValid (navigate_history s direction).1
navigate-IsValid s direction v =
    navigate_fields-IsValid s.input_text s.history s.history_index s.completions direction v

perform-IsValid : (s : CommandBar) (o : BarOperation) → IsValid s → IsValid (perform s o)
unfolding perform set_input_text try_tab_complete apply_completion
perform-IsValid s (input text) v = record {
  bounded = v.bounded;
  indexed = v.indexed;
  commands = v.commands;
  varied = v.varied;
}
perform-IsValid s (complete aliases) v = record {
  bounded = v.bounded;
  indexed = v.indexed;
  commands = v.commands;
  varied = v.varied;
}
perform-IsValid s (apply completion) v = record {
  bounded = v.bounded;
  indexed = v.indexed;
  commands = v.commands;
  varied = v.varied;
}
perform-IsValid s (navigate direction) v = navigate-IsValid s direction v
perform-IsValid s (remember command) v = add-IsValid s command v

kept-IsValid : (os : List BarOperation) (s : CommandBar) → IsValid s → IsValid (run s os)
unfolding run
kept-IsValid [] s v = v
kept-IsValid (o ∷ os) s v = kept-IsValid os (perform s o) (perform-IsValid s o v)

-- After any sequence of operations of a new command bar the history has at most 100 commands, none
-- of them blank and none twice in a row, and the index is -1 or that of one of them.
pub history-IsValid : (os : List BarOperation) → IsValid (run new os)
history-IsValid os =
    kept-IsValid os new
      (record { bounded = omega arith; indexed = refl; commands = tt; varied = tt })

-- Pressing the up arrow so often.
unfoldable pub go_up : ℕ → CommandBar → CommandBar
go_up zero s = s
go_up (suc k) s = (navigate_history (go_up k s) minus_one).1

abbrev at : Text → List Text → ℤ → List Text → CommandBar
at text h i found = record {
  input_text = text;
  history = h;
  history_index = i;
  completions = found;
}

up_from :
    (text : Text) (h : List Text) (i : ℤ) (found : List Text) (k : ℕ)
    → older i ≡ pos k
    → k < length h
    → (navigate_history (at text h i found) minus_one).1 ≡ at (recalled h (pos k)) h (pos k) found
unfolding navigate_history
up_from text [] i found k e h = absurd (omega arith)
up_from text (c ∷ hs) i found k e h =
    let inside : leb (suc (length hs)) k ≡ false = ground arith in rw (e, inside) refl

go_up_lem :
    (text : Text) (h : List Text) (found : List Text) (k : ℕ)
    → k < length h
    → go_up (suc k) (at text h minus_one found) ≡ at (recalled h (pos k)) h (pos k) found
unfolding go_up
go_up_lem text h found zero lt = up_from text h minus_one found 0 refl lt
go_up_lem text h found (suc k) lt =
    ap (λ s. (navigate_history s minus_one).1) (go_up_lem text h found k (omega arith))
    ∙ up_from (recalled h (pos k)) h (pos k) found (suc k) refl lt

add_fresh :
    (s : CommandBar) (command : Text)
    → IsCommand command
    → repeats s.history command ≡ false
    → add_to_history s command ≡ at s.input_text (pop (command ∷ s.history)) minus_one s.completions
unfolding add_to_history
add_fresh s command c r = simp (c, r) refl

-- After a command that is neither blank nor the last one again is remembered, `k + 1` presses of the
-- up arrow show entry `k` of the new history, whatever was being recalled before.
pub go_up-add_to_history :
    (s : CommandBar) (command : Text) (k : ℕ)
    → (length (trim command) == 0) ≡ false
    → repeats s.history command ≡ false
    → k < length (add_to_history s command).history
    → (go_up (suc k) (add_to_history s command)).input_text
      ≡ recalled (add_to_history s command).history (pos k)
go_up-add_to_history s command k c r lt =
    let fresh = add_fresh s command c r in
    let bound : k < length (pop (command ∷ s.history)) = rw fresh at lt in
    rw fresh (
      ap (λ t. t.input_text)
        (go_up_lem s.input_text (pop (command ∷ s.history)) s.completions k bound))

add_repeated :
    (s : CommandBar) (command : Text)
    → repeats s.history command ≡ true
    → add_to_history s command ≡ s
unfolding add_to_history
add_repeated s command r = elim (Bool-cases (length (trim command) == 0)) [
  | inl e ↦ simp e refl
  | inr e ↦ simp (e, r) refl
]

-- The entry that is next older than the one at an index; none is recalled at -1.
abbrev pub next_older : ℤ → ℕ
next_older (negsuc n) = 0
next_older (pos i) = suc i

up_clamped :
    (text : Text) (h : List Text) (i : ℤ) (found : List Text) (k : ℕ)
    → IsIndex i (length h)
    → 1 ≤ length h
    → k ≡ min (next_older i) (length h - 1)
    → (navigate_history (at text h i found) minus_one).1 ≡ at (recalled h (pos k)) h (pos k) found
unfolding navigate_history
up_clamped text [] i found k inside full e = absurd (omega arith)
up_clamped text (c ∷ h) (negsuc zero) found k inside full e =
    up_from text (c ∷ h) minus_one found k (ap pos (omega (arith, e))) (omega (arith, e))
up_clamped text (c ∷ h) (negsuc (suc n)) found k inside full e = absurd (omega (arith, inside))
up_clamped text (c ∷ h) (pos i) found k inside full e =
    elim (Bool-cases (leb (suc (length h)) (suc i))) [
      | inl over ↦
          let last : suc (length h) - 1 ≡ k = ground (arith, e, inside) in rw (over, last) refl
      | inr within ↦
          let same : suc i ≡ k = ground (arith, e) in
          up_from text (c ∷ h) (pos i) found k (ap pos same) (ground arith)
    ]

go_up_clamped :
    (s : CommandBar) (k : ℕ)
    → IsIndex s.history_index (length s.history)
    → 1 ≤ length s.history
    → let entry = min (next_older s.history_index + k) (length s.history - 1) in
      go_up (suc k) s ≡ at (recalled s.history (pos entry)) s.history (pos entry) s.completions
unfolding go_up
go_up_clamped s zero inside full =
    up_clamped s.input_text s.history s.history_index s.completions _ inside full (omega arith)
go_up_clamped s (suc k) inside full =
    let entry = min (next_older s.history_index + k) (length s.history - 1) in
    ap (λ t. (navigate_history t minus_one).1) (go_up_clamped s k inside full)
    ∙ up_clamped (recalled s.history (pos entry)) s.history (pos entry) s.completions _
        (omega arith) full (omega arith)

-- A command that repeats the last one leaves the index where it was, for each index that there can
-- be. So `k + 1` presses of the up arrow show the entry that is `k + 1` older than the one that was
-- recalled (entry `k` when none was), or the oldest one when there are not so many.
pub go_up-repeated :
    (s : CommandBar) (command : Text) (k : ℕ)
    → IsIndex s.history_index (length s.history)
    → repeats s.history command ≡ true
    → ((add_to_history s command).history_index ≡ s.history_index)
      × ((go_up (suc k) (add_to_history s command)).input_text
          ≡ recalled s.history (pos (min (next_older s.history_index + k) (length s.history - 1))))
go_up-repeated s command k inside r =
    let kept = add_repeated s command r in
    (
      ap (λ t. t.history_index) kept,
      rw kept (ap (λ t. t.input_text) (go_up_clamped s k inside (full s.history r))),
    )
  where
    full : (h : List Text) → repeats h command ≡ true → 1 ≤ length h
    full [] e = absurd (cc)
    full (c ∷ h) e = omega arith
