-- ===== src/Terminal/InputActions.antt =====
-- What the actions of `TerminalInputParser.parse` may be.
use harmotty.Prelude.{
  ℕ, ◌≤◌, ◌≡◌, refl, ap, ◌∙◌, Bool, true, false, ◌||◌, [], ◌∷◌, ◌++◌, map, arith, Text, ◌==◌, leb,
  if◌then◌else◌, Bool-cases, inl, inr, All, All-append, ◌≢◌, leb→le,
}
use harmotty.Terminal.InputParser.{
  TerminalInputAction, TerminalInputActionKind, action, text_action, esc, is_final, arrow, plain,
  parse, parse_loop, step, opens_csi,
}
use harmotty.Terminal.InputMachine.{
  Mode, outside, escaped, sequence, turn, feed, parse-feed, parse-append,
}

-- A text action has one printable unit; a history action occurs only where history is allowed; no
-- other action has a text.
abbrev pub IsProper : Bool → TerminalInputAction → Type 0
IsProper allow_history a = elim a.kind [
  | TerminalInputActionKind.text ↦ (c : ℕ) × (a.text ≡ c ∷ []) × (32 ≤ c) × (c ≢ 127)
  | TerminalInputActionKind.history_previous ↦ (allow_history ≡ true) × (a.text ≡ [])
  | TerminalInputActionKind.history_next ↦ (allow_history ≡ true) × (a.text ≡ [])
  | _ ↦ a.text ≡ []
]

left_or_right-IsProper :
    (h : Bool) (final : ℕ)
    → All (IsProper h) (
        if final == 68
        then action TerminalInputActionKind.cursor_left ∷ []
        else if final == 67
        then action TerminalInputActionKind.cursor_right ∷ []
        else [])
left_or_right-IsProper h final = elim (Bool-cases (final == 68)) [
  | inl e ↦ rw e (refl, tt)
  | inr e ↦ rw e (elim (Bool-cases (final == 67)) [ inl f ↦ rw f (refl, tt) | inr f ↦ rw f tt ])
]

arrow-IsProper : (h is_simple : Bool) (final : ℕ) → All (IsProper h) (arrow h is_simple final)
unfolding arrow
arrow-IsProper true false final = tt
arrow-IsProper false false final = tt
arrow-IsProper false true final = left_or_right-IsProper false final
arrow-IsProper true true final = elim (Bool-cases (final == 65)) [
  | inl e ↦ rw e ((refl, refl), tt)
  | inr e ↦ rw e (elim (Bool-cases (final == 66)) [
    | inl f ↦ rw f ((refl, refl), tt)
    | inr f ↦ rw f (left_or_right-IsProper true final)
  ])
]

text-IsProper :
    (h : Bool) (c : ℕ)
    → (((c == 127) || (c == 8)) ≡ false)
    → All (IsProper h) (if leb 32 c then text_action c ∷ [] else [])
text-IsProper h c e = elim (Bool-cases (leb 32 c)) [
  | inl f ↦ rw f ((c, refl, leb→le 32 c f, ground arith), tt)
  | inr f ↦ rw f tt
]

erase_or_text-IsProper :
    (h : Bool) (c : ℕ)
    → All (IsProper h) (
        if (c == 127) || (c == 8)
        then action TerminalInputActionKind.backspace ∷ []
        else if c == 9
        then action TerminalInputActionKind.tab ∷ []
        else if leb 32 c
        then text_action c ∷ []
        else [])
erase_or_text-IsProper h c = elim (Bool-cases ((c == 127) || (c == 8))) [
  | inl e ↦ rw e (refl, tt)
  | inr e ↦
      rw e (elim (Bool-cases (c == 9)) [
        | inl f ↦ rw f (refl, tt)
        | inr f ↦ rw f (text-IsProper h c e)
      ])
]

plain-IsProper : (h : Bool) (c : ℕ) → All (IsProper h) (plain c)
unfolding plain
plain-IsProper h c = elim (Bool-cases (c == 13)) [
  | inl e ↦ rw e (refl, tt)
  | inr e ↦ rw e (elim (Bool-cases (c == 10)) [
    | inl f ↦ rw f tt
    | inr f ↦ rw f (elim (Bool-cases (c == 3)) [
      | inl g ↦ rw g (refl, tt)
      | inr g ↦ rw g (erase_or_text-IsProper h c)
    ])
  ])
]

turn-IsProper : (h : Bool) (mode : Mode) (c : ℕ) → All (IsProper h) (turn h mode c).0
unfolding turn
turn-IsProper h outside c = elim (Bool-cases (c == esc)) [
  | inl e ↦ rw e tt
  | inr e ↦ rw e (plain-IsProper h c)
]
turn-IsProper h escaped c = elim (Bool-cases (c == 91)) [
  | inl e ↦ rw e tt
  | inr e ↦
      rw e (elim (Bool-cases (c == esc)) [ inl f ↦ rw f tt | inr f ↦ rw f (plain-IsProper h c) ])
]
turn-IsProper h (sequence k) c = elim (Bool-cases (is_final c)) [
  | inl e ↦ rw e (arrow-IsProper h (k == 0) c)
  | inr e ↦ rw e tt
]

feed-IsProper : (h : Bool) (mode : Mode) (input : Text) → All (IsProper h) (feed h mode input).0
unfolding feed
feed-IsProper h mode [] = tt
feed-IsProper h mode (c ∷ rest) =
    All-append (IsProper h) (turn h mode c).0 (feed h (turn h mode c).1 rest).0
      (turn-IsProper h mode c) (feed-IsProper h (turn h mode c).1 rest)

-- Whatever the input, every action is proper: a text action has one unit, which is at least 32 and
-- not DEL, a history action occurs only where history is allowed, and the other actions have no text.
pub parse-IsProper :
    (input : Text) (allow_history : Bool) → All (IsProper allow_history) (parse input allow_history)
parse-IsProper input h = rw (parse-feed input h) (feed-IsProper h outside input)

abbrev pub IsPrintable : ℕ → Type 0
IsPrintable c = (32 ≤ c) × (c ≢ 127)

plain-printable : (c : ℕ) → IsPrintable c → plain c ≡ text_action c ∷ []
unfolding plain
plain-printable c p = ground arith

feed-typed :
    (h : Bool) (line : Text)
    → All IsPrintable line
    → feed h outside line ≡ (map text_action line, outside)
unfolding feed turn
feed-typed h [] p = refl
feed-typed h (c ∷ line) p =
    let other : (c == esc) ≡ false = ground arith in
    rw (other, feed-typed h line p.1, plain-printable c p.0) refl

parse-enter : (h : Bool) → parse (13 ∷ []) h ≡ action TerminalInputActionKind.submit ∷ []
unfolding parse parse_loop step opens_csi plain
parse-enter h = refl

-- A line of printable units and then Enter gives one text action a unit, in order, and then submit.
pub parse-typed :
    (line : Text) (allow_history : Bool)
    → All IsPrintable line
    → parse (line ++ 13 ∷ []) allow_history
      ≡ map text_action line ++ action TerminalInputActionKind.submit ∷ []
parse-typed line h p =
    let typed = feed-typed h line p in
    parse-append line (13 ∷ []) h (ap (λ x. x.1) typed)
    ∙ ap (λ x. x ++ parse (13 ∷ []) h) (parse-feed line h ∙ ap (λ x. x.0) typed)
    ∙ ap (λ x. map text_action line ++ x) (parse-enter h)
