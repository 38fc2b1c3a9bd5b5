-- ===== src/Terminal/InputParser.antt =====
-- `TerminalInputParser` (entry/src/main/ets/model/terminal/TerminalInputParser.ets): the actions of
-- a chunk of keyboard input at the local prompt.
use harmotty.Prelude.{
  ℕ, zero, suc, Bool, false, ◌&&◌, ◌||◌, Option, none, some, List, [], ◌∷◌, ◌++◌, Text, ◌==◌, leb,
  length, if◌then◌else◌,
}

pub data TerminalInputActionKind : Type 0 where
  text submit backspace tab history_previous history_next : TerminalInputActionKind
  cursor_left cursor_right interrupt : TerminalInputActionKind

pub record TerminalInputAction : Type 0 where
  pub kind : TerminalInputActionKind
  pub text : Text

abbrev pub action : TerminalInputActionKind → TerminalInputAction
action kind = record { kind = kind; text = [] }

abbrev pub text_action : ℕ → TerminalInputAction
text_action code = record { kind = TerminalInputActionKind.text; text = code ∷ [] }

abbrev pub esc : ℕ
esc = 27

abbrev pub is_final : ℕ → Bool
is_final code = leb 64 code && leb code 126

-- The inner loop: how many parameter bytes come before the final byte, that byte and what follows.
unfoldable pub find_final : Text → Option (ℕ × ℕ × Text)
find_final [] = none
find_final (code ∷ rest) = if is_final code then some (0, code, rest) else elim (find_final rest) [
  | none ↦ none
  | some (k, final, after) ↦ some (suc k, final, after)
]

-- What a finished control sequence stands for.
unfoldable pub arrow : Bool → Bool → ℕ → List TerminalInputAction
arrow allow_history is_simple final =
    if allow_history && (is_simple && (final == 65))
    then action TerminalInputActionKind.history_previous ∷ []
    else if allow_history && (is_simple && (final == 66))
    then action TerminalInputActionKind.history_next ∷ []
    else if is_simple && (final == 68)
    then action TerminalInputActionKind.cursor_left ∷ []
    else if is_simple && (final == 67)
    then action TerminalInputActionKind.cursor_right ∷ []
    else []

unfoldable pub opens_csi : Text → Bool
opens_csi [] = false
opens_csi (code ∷ rest) = (code == 91)

unfoldable pub csi : Bool → Option (ℕ × ℕ × Text) → List TerminalInputAction × Text
csi allow_history none = ([], [])
csi allow_history (some (k, final, after)) = (arrow allow_history ((k == 0)) final, after)

unfoldable pub after_bracket : Text → Text
after_bracket [] = []
after_bracket (code ∷ rest) = rest

-- A unit outside control sequences.
unfoldable pub plain : ℕ → List TerminalInputAction
plain code =
    if (code == 13)
    then action TerminalInputActionKind.submit ∷ []
    else if (code == 10)
    then []
    else if (code == 3)
    then action TerminalInputActionKind.interrupt ∷ []
    else if (code == 127) || (code == 8)
    then action TerminalInputActionKind.backspace ∷ []
    else if (code == 9)
    then action TerminalInputActionKind.tab ∷ []
    else if leb 32 code
    then text_action code ∷ []
    else []

-- One turn of the loop: its actions and the input that it leaves.
unfoldable pub step : Bool → ℕ → Text → List TerminalInputAction × Text
step allow_history code rest =
    if (code == esc) && opens_csi rest
    then csi allow_history (find_final (after_bracket rest))
    else (plain code, rest)

unfoldable pub parse_loop : ℕ → Bool → Text → List TerminalInputAction
parse_loop zero allow_history input = []
parse_loop (suc fuel) allow_history [] = []
parse_loop (suc fuel) allow_history (code ∷ rest) =
    let (actions, more) = step allow_history code rest in
    actions ++ parse_loop fuel allow_history more

-- The fuel is the length of the input; a turn takes at least one unit.
unfoldable pub parse : Text → Bool → List TerminalInputAction
parse input allow_history = parse_loop (length input) allow_history input
