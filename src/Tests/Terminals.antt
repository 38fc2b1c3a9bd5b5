-- ===== src/Tests/Terminals.antt =====
-- Runs of the terminal's input, output and line editor.
use harmotty.Prelude.{
  ◌≡◌, ◌≤◌, ◌++◌, refl, true, false, List, [], ◌∷◌, map, arith, Text, codes, length, substring, All,
}
use harmotty.Terminal.InputParser.{
  TerminalInputActionKind, action, text_action, parse, parse_loop, step, opens_csi, after_bracket,
  find_final, csi, arrow, plain,
}
use harmotty.Terminal.InputMachine.{outside, feed, turn, parse-feed, parse-append}
use harmotty.Terminal.InputActions.{IsProper, IsPrintable, parse-IsProper, parse-typed}
use harmotty.Terminal.OutputBuffer.{
  Bytes, TerminalOutputBuffer, BufferOperation, receive, attach, detach, take_chunks, release,
  set_bridge, keep_snapshot, concat, received, is_attach, is_release, IsCounted, run-IsCounted,
}
use harmotty.Terminal.OutputBuffer
use harmotty.Terminal.Delivery.{run-delivers}
use harmotty.Terminal.CommandLine.{
  LocalCommandLine, EditOperation, put, erase, left, right, render_for_terminal, insert, backspace,
  move_left, move_right,
}
use harmotty.Terminal.CommandLine
use harmotty.Terminal.LineEditing.{line_of, edit_all, empty, run-refines, run-cursor_bounds}

-- `a`, the up arrow, Ctrl+Left, which is no simple arrow, and Enter.
abbrev typed : Text
typed = codes "a" ++ (27 ∷ codes "[A") ++ (27 ∷ codes "[1;5D") ++ 13 ∷ []

typed_actions :
    parse typed true
    ≡ text_action 97
      ∷ action TerminalInputActionKind.history_previous
      ∷ action TerminalInputActionKind.submit
      ∷ []
unfolding parse parse_loop step opens_csi after_bracket find_final csi arrow plain
typed_actions = refl

parse-feed_example : parse typed true ≡ (feed true outside typed).0
parse-feed_example = parse-feed typed true

typed_closes : (feed true outside typed).1 ≡ outside
unfolding feed turn
typed_closes = refl

parse-append_example :
    parse (typed ++ codes "ls") true ≡ parse typed true ++ parse (codes "ls") true
parse-append_example = parse-append typed (codes "ls") true typed_closes

parse-IsProper_example : All (IsProper false) (parse typed false)
parse-IsProper_example = parse-IsProper typed false

ls-IsPrintable : All IsPrintable (codes "ls")
ls-IsPrintable = ((omega arith, omega arith), ((omega arith, omega arith), tt))

parse-typed_example :
    parse (codes "ls" ++ 13 ∷ []) true
    ≡ map text_action (codes "ls") ++ action TerminalInputActionKind.submit ∷ []
parse-typed_example = parse-typed (codes "ls") true ls-IsPrintable

abbrev hidden : List BufferOperation
hidden = receive (1 ∷ 2 ∷ []) ∷ take_chunks ∷ receive (3 ∷ []) ∷ receive [] ∷ set_bridge true ∷ []

counted_new :
    false ≡ false
    → (OutputBuffer.new 3).detached_bytes ≡ length (concat (OutputBuffer.new 3).detached_chunks)
unfolding concat
counted_new e = refl

run-IsCounted_example :
    IsCounted (OutputBuffer.run (OutputBuffer.new 3) (hidden ++ attach ∷ detach ∷ [])).1
run-IsCounted_example =
    run-IsCounted (hidden ++ attach ∷ detach ∷ []) (OutputBuffer.new 3)
      (record { counted = counted_new; shown = λ e. absurd (cc) })

run-delivers_example :
    concat (OutputBuffer.run (OutputBuffer.new 3) hidden).0
      ++ concat (OutputBuffer.run (OutputBuffer.new 3) hidden).1.detached_chunks
    ≡ concat [] ++ received hidden
run-delivers_example =
    run-delivers hidden (OutputBuffer.new 3) (refl, (refl, (refl, (refl, (refl, tt))))) refl

abbrev edits : List EditOperation
edits = put (codes "sl") ∷ left ∷ erase ∷ right ∷ put (codes "s") ∷ []

edited : CommandLine.run CommandLine.new edits ≡ record { text = codes "ls"; cursor = 2 }
unfolding CommandLine.run CommandLine.perform insert backspace move_left move_right substring
edited = refl

run-refines_example : CommandLine.run CommandLine.new edits ≡ line_of (edit_all empty edits)
run-refines_example = run-refines edits

run-cursor_bounds_example :
    (CommandLine.run CommandLine.new edits).cursor
    ≤ length (CommandLine.run CommandLine.new edits).text
run-cursor_bounds_example = run-cursor_bounds edits

rendered :
    render_for_terminal (record { text = codes "ls"; cursor = 1 }) (codes "> ")
    ≡ (13 ∷ 27 ∷ codes "[2K> ls") ++ 13 ∷ codes "> l"
unfolding render_for_terminal substring
rendered = refl
