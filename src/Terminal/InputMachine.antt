-- ===== src/Terminal/InputMachine.antt =====
-- `TerminalInputParser.parse` as an automaton that reads its input unit by unit, so that a chunk can
-- be cut anywhere outside a control sequence.
use harmotty.Prelude.{
  ℕ, zero, suc, ◌≤◌, ◌≡◌, refl, ap, sym, Bool, false, ◌&&◌, none, some, List, [], ◌∷◌, ◌++◌,
  append_assoc, arith, Text, ◌==◌, length, if◌then◌else◌, Bool-cases, inl, inr, ==_iff,
  Option-cases,
}
use harmotty.Terminal.InputParser.{
  TerminalInputAction, esc, is_final, find_final, arrow, opens_csi, csi, after_bracket, plain, step,
  parse_loop, parse,
}

-- Outside any sequence, just after ESC, and inside a sequence after so many parameter bytes.
pub data Mode : Type 0 where
  outside escaped : Mode
  sequence : ℕ → Mode

unfoldable pub turn : Bool → Mode → ℕ → List TerminalInputAction × Mode
turn allow_history outside code = if (code == esc) then ([], escaped) else (plain code, outside)
turn allow_history escaped code =
    if (code == 91)
    then ([], sequence 0)
    else if (code == esc)
    then ([], escaped)
    else (plain code, outside)
turn allow_history (sequence k) code =
    if is_final code then (arrow allow_history ((k == 0)) code, outside) else ([], sequence (suc k))

unfoldable pub feed : Bool → Mode → Text → List TerminalInputAction × Mode
feed allow_history mode [] = ([], mode)
feed allow_history mode (code ∷ rest) =
    let (actions, next) = turn allow_history mode code in
    let (more, last) = feed allow_history next rest in (actions ++ more, last)

first_of : (j k : ℕ) → ((j == 0) && (suc k == 0)) ≡ ((suc j == 0) && (k == 0))
first_of j k = ground arith

-- What a scan for the final byte means for the automaton.
feed-sequence :
    (h : Bool) (k : ℕ) (input : Text)
    → (feed h (sequence k) input).0 ≡ elim (find_final input) [
      | none ↦ []
      | some (j, final, after) ↦ arrow h ((j == 0) && (k == 0)) final ++ (feed h outside after).0
    ]
unfolding feed turn find_final
feed-sequence h k [] = refl
feed-sequence h k (c ∷ rest) = elim (Bool-cases (is_final c)) [
  | inl e ↦ rw e refl
  | inr e ↦ elim (Option-cases (find_final rest)) [
    | inl none_found ↦ rw (e, none_found) (rw none_found at (feed-sequence h (suc k) rest))
    | inr ((j, final, after), found) ↦
        rw (e, found, ← first_of j k) (rw found at (feed-sequence h (suc k) rest))
  ]
]

feed-escaped :
    (h : Bool) (input : Text)
    → opens_csi input ≡ false
    → (feed h escaped input).0 ≡ (feed h outside input).0
unfolding feed turn opens_csi
feed-escaped h [] e = refl
feed-escaped h (c ∷ rest) e = rw e refl

length-find_final :
    (input : Text) (j final : ℕ) (after : Text)
    → find_final input ≡ some (j, final, after)
    → length after ≤ length input
unfolding find_final
length-find_final [] j final after e = absurd (cc)
length-find_final (c ∷ rest) j final after e = elim (Bool-cases (is_final c)) [
  | inl f ↦
      let same : rest ≡ after =
        ap (λ o. elim o [ none ↦ [] | some (k, last_one, tail) ↦ tail ]) (rw f at e) in
      rw (← same) (omega arith)
  | inr f ↦ elim (Option-cases (find_final rest)) [
    | inl none_found ↦ absurd (let g = rw (f, none_found) at e in cc)
    | inr ((i, last, more), found) ↦
        let same : more ≡ after =
          ap (λ o. elim o [ none ↦ [] | some (k, last_one, tail) ↦ tail ]) (rw (f, found) at e) in
        omega (arith, rw same at (length-find_final rest i last more found))
  ]
]

plain-esc : (c : ℕ) → c ≡ esc → plain c ≡ []
unfolding plain
plain-esc c e = rw e refl

and-first : (j : ℕ) → ((j == 0) && (0 == 0)) ≡ (j == 0)
and-first j = ground arith

-- After ESC the loop looks at the next unit, which the automaton has not seen.
feed-after_esc :
    (h : Bool) (c : ℕ) (rest : Text)
    → c ≡ esc
    → let turned =
        if opens_csi rest then csi h (find_final (after_bracket rest)) else (plain c, rest) in
      (feed h escaped rest).0 ≡ turned.0 ++ (feed h outside turned.1).0
unfolding feed turn opens_csi after_bracket csi
feed-after_esc h c [] e = rw (plain-esc c e) refl
feed-after_esc h c (d ∷ more) e = elim (Bool-cases (d == 91)) [
  | inr f ↦ rw (f, plain-esc c e) refl
  | inl f ↦ elim (Option-cases (find_final more)) [
    | inl none_found ↦ rw (f, none_found) (rw none_found at (feed-sequence h 0 more))
    | inr ((j, final, after), found) ↦
        rw (f, found, ← and-first j) (rw found at (feed-sequence h 0 more))
  ]
]

-- One turn of the loop does what the automaton does up to where the loop goes on.
feed-step :
    (h : Bool) (c : ℕ) (rest : Text)
    → (feed h outside (c ∷ rest)).0 ≡ (step h c rest).0 ++ (feed h outside (step h c rest).1).0
unfolding feed turn step
feed-step h c rest = elim (Bool-cases (c == esc)) [
  | inr e ↦ rw e refl
  | inl e ↦ rw e (feed-after_esc h c rest ((==_iff c esc).0 e))
]

length-step : (h : Bool) (c : ℕ) (rest : Text) → length (step h c rest).1 ≤ length rest
unfolding step opens_csi after_bracket csi
length-step h c [] = elim (Bool-cases (c == esc)) [
  | inl e ↦ rw e (omega arith)
  | inr e ↦ rw e (omega arith)
]
length-step h c (d ∷ more) = elim (Bool-cases ((c == esc) && (d == 91))) [
  | inr e ↦ rw e (omega arith)
  | inl e ↦ elim (Option-cases (find_final more)) [
    | inl none_found ↦ rw (e, none_found) (omega arith)
    | inr ((j, final, after), found) ↦
        rw (e, found) (omega (arith, length-find_final more j final after found))
  ]
]

loop-feed :
    (h : Bool) (fuel : ℕ) (input : Text)
    → length input ≤ fuel
    → parse_loop fuel h input ≡ (feed h outside input).0
unfolding parse_loop feed
loop-feed h zero [] le = refl
loop-feed h zero (c ∷ rest) le = absurd (omega arith)
loop-feed h (suc fuel) [] le = refl
loop-feed h (suc fuel) (c ∷ rest) le =
    rw (loop-feed h fuel (step h c rest).1 (omega (arith, length-step h c rest)))
      (sym (feed-step h c rest))

-- The loop over indices and the automaton have the same actions, on every input.
pub parse-feed :
    (input : Text) (allow_history : Bool)
    → parse input allow_history ≡ (feed allow_history outside input).0
unfolding parse
parse-feed input h = loop-feed h (length input) input (omega arith)

feed-append :
    (h : Bool) (mode : Mode) (a b : Text)
    → (feed h mode (a ++ b)).0 ≡ (feed h mode a).0 ++ (feed h (feed h mode a).1 b).0
unfolding feed
feed-append h mode [] b = refl
feed-append h mode (c ∷ a) b =
    rw (feed-append h (turn h mode c).1 a b) (sym (append_assoc (turn h mode c).0 _ _))

-- Input that is cut where no sequence is open gives the actions of the two parts, in order.
pub parse-append :
    (a b : Text) (allow_history : Bool)
    → (feed allow_history outside a).1 ≡ outside
    → parse (a ++ b) allow_history ≡ parse a allow_history ++ parse b allow_history
parse-append a b h closed =
    rw (parse-feed (a ++ b) h, parse-feed a h, parse-feed b h, feed-append h outside a b, closed)
      refl
