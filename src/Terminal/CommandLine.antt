-- ===== src/Terminal/CommandLine.antt =====
-- `LocalCommandLine` (entry/src/main/ets/model/terminal/LocalCommandLine.ets): the line being edited
-- at the local prompt.
use harmotty.Prelude.{
  ℕ, ◌+◌, ◌-◌, Bool, true, false, Option, none, some, List, [], ◌∷◌, ◌++◌, Text, codes, ◌==◌,
  if◌then◌else◌, length, substring,
}

pub record LocalCommandLine : Type 0 where
  pub text : Text
  pub cursor : ℕ

abbrev pub new : LocalCommandLine
new = record { text = []; cursor = 0 }

unfoldable pub set_text : LocalCommandLine → Text → LocalCommandLine
set_text line text = record { text = text; cursor = length text }

unfoldable pub clear : LocalCommandLine → LocalCommandLine
clear line = record { text = []; cursor = 0 }

-- `substring` with one bound goes to the end.
abbrev pub suffix_of : LocalCommandLine → Text
suffix_of line = substring line.text line.cursor (length line.text)

unfoldable pub insert : LocalCommandLine → Text → Text × LocalCommandLine
insert line text =
    let suffix = suffix_of line in
    (
      suffix,
      record {
        text = substring line.text 0 line.cursor ++ text ++ suffix;
        cursor = line.cursor + length text;
      },
    )

unfoldable pub backspace : LocalCommandLine → Option Text × LocalCommandLine
backspace line =
    if line.cursor == 0
    then (none, line)
    else let suffix = suffix_of line in
      (
        some suffix,
        record {
          text = substring line.text 0 (line.cursor - 1) ++ suffix;
          cursor = line.cursor - 1;
        },
      )

unfoldable pub move_left : LocalCommandLine → Bool × LocalCommandLine
move_left line =
    if line.cursor == 0 then (false, line) else (true, record line { cursor = line.cursor - 1 })

unfoldable pub move_right : LocalCommandLine → Bool × LocalCommandLine
move_right line =
    if line.cursor == length line.text
    then (false, line)
    else (true, record line { cursor = line.cursor + 1 })

abbrev pub erase_line : Text
erase_line = 13 ∷ 27 ∷ codes "[2K"

unfoldable pub render_for_terminal : LocalCommandLine → Text → Text
render_for_terminal line prompt =
    let prefix = substring line.text 0 line.cursor in
    erase_line ++ prompt ++ line.text ++ (13 ∷ []) ++ prompt ++ prefix

-- The keys that edit the line.
pub data EditOperation : Type 0 where
  put : Text → EditOperation
  assign : Text → EditOperation
  erase left right reset : EditOperation

unfoldable pub perform : LocalCommandLine → EditOperation → LocalCommandLine
perform line (put text) = (insert line text).1
perform line (assign text) = set_text line text
perform line erase = (backspace line).1
perform line left = (move_left line).1
perform line right = (move_right line).1
perform line reset = clear line

unfoldable pub run : LocalCommandLine → List EditOperation → LocalCommandLine
run line [] = line
run line (o ∷ os) = run (perform line o) os
