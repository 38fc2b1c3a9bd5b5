-- ===== src/Tests/Scripts.antt =====
-- Runs of the test scripts of the terminal.
use harmotty.Prelude.{
  ℕ, ◌+◌, ◌*◌, ◌<◌, ◌≡◌, refl, Bool, true, false, Option, some, List, [], ◌∷◌, ◌++◌, map, arith,
  Text, codes, ◌==◌, eq_text, if◌then◌else◌,
}
use harmotty.Prelude.Int.{pos, negsuc}
use harmotty.Prelude.Number.{lt, max, min, abs, eq}
use harmotty.Prelude.Decimal.{to_text}
use harmotty.Tests.Hundredths.{hundredths}
use harmotty.TerminalPolicy.Wheel.{
  create_wheel_state, enqueue_wheel, has_pending_wheel_steps, pending_wheel_lines,
  consume_wheel_frame, accept_wheel, push_lines, turn, elapsed, settle, event_gap, delta_pixels,
  wheel_gain, whole_lines, max_steps,
}
use harmotty.TerminalPolicy.Pointer.{
  is_link_modifier_active, should_activate_link, should_run_terminal_secondary_action,
}
use harmotty.TerminalPolicy.Search.{search_result_label, wrapped_control_index}
use harmotty.TerminalPolicy.Metrics.{count_perf_payload_bytes, center_grid_leading_padding}
use harmotty.Script.Policies.{
  check_clipboard, check_bell, check_perf, check_wheel, drain, check_padding, check_links,
  check_mouse_mode, check_search, repeat,
}
use harmotty.Script.Holds.{check_bell_lem, check_clipboard_lem}
use harmotty.Script.Harness.{
  Effect, select, clear_selection, change_results, SearchLibrary, selection_at, selection_at-end,
  create_harness, restart_search, search_options,
}
use harmotty.Script.SearchTests.{
  ordinary_script, test_ordinary_text_and_navigation, line, lines_from, pad_four,
}
use harmotty.Script.Restart.{Ends, wait_for-Ends, restart_search-selection}

check_bell_example : check_bell 61271 ≡ true
check_bell_example = check_bell_lem 61270

perf_run : check_perf ≡ true
unfolding check_perf count_perf_payload_bytes
perf_run = refl

links_run : check_links ≡ true
unfolding check_links check_mouse_mode is_link_modifier_active should_activate_link
    should_run_terminal_secondary_action
links_run = refl

search_run : check_search ≡ true
unfolding check_search search_result_label wrapped_control_index to_text
search_run = refl

padding_run : check_padding hundredths ≡ true
unfolding check_padding center_grid_leading_padding eq max
padding_run = refl

wheel_run : check_wheel hundredths ≡ true
unfolding check_wheel drain create_wheel_state enqueue_wheel has_pending_wheel_steps
    pending_wheel_lines consume_wheel_frame accept_wheel push_lines turn elapsed settle event_gap
    delta_pixels wheel_gain whole_lines max_steps lt max min abs eq
wheel_run = refl

selection_at-end_example :
    ((selection_at 12 10 2 4).end.y * 12 + (selection_at 12 10 2 4).end.x ≡ 2 * 12 + 10 + 4)
    × ((selection_at 12 10 2 4).end.x < 12)
selection_at-end_example = selection_at-end 12 10 2 4 (omega arith)

-- A library that answers from a list, with a wait that changes nothing.
abbrev Answer : Type 0
Answer = List Effect × Bool

abbrev answer : List Answer → List Answer × List Effect × Bool
answer [] = ([], [], false)
answer ((effects, found) ∷ rest) = (rest, effects, found)

abbrev scripted : List Answer → SearchLibrary
scripted answers = record {
  Terminal = List Answer;
  create = λ cols rows scrollback. answers;
  write = λ text rest. (rest, []);
  wait = λ rest. (3, rest, []);
  clear_decorations =
      λ rest. (rest, change_results (record { result_index = negsuc 0; result_count = 0 }) ∷ []);
  find_next = λ query options rest. answer rest;
  find_previous = λ query options rest. answer rest;
  is_alternate = λ rest. false;
  base_y = λ rest. 0;
}

abbrev hit : ℕ → ℕ → ℕ → ℕ → Answer
hit column row index count = (
  select column row 5
      ∷ change_results (record { result_index = pos index; result_count = count })
      ∷ [],
  true,
)

abbrev miss : Answer
miss = (clear_selection ∷ [], false)

abbrev good_answers : List Answer
good_answers =
    hit 0 0 0 3
    ∷ hit 0 1 1 3
    ∷ hit 5 2 2 3
    ∷ hit 0 0 0 3
    ∷ hit 5 2 2 3
    ∷ hit 0 0 0 1
    ∷ miss
    ∷ miss
    ∷ []

-- The matches come in the wrong order.
abbrev bad_answers : List Answer
bad_answers =
    hit 0 0 0 3
    ∷ hit 5 2 1 3
    ∷ hit 0 1 2 3
    ∷ hit 0 0 0 3
    ∷ hit 5 2 2 3
    ∷ hit 0 0 0 1
    ∷ miss
    ∷ miss
    ∷ []

ordinary_runs :
    map
      (λ answers. test_ordinary_text_and_navigation (scripted answers))
      (good_answers ∷ bad_answers ∷ [])
    ≡ true ∷ false ∷ []
unfolding test_ordinary_text_and_navigation ordinary_script create_harness restart_search
    selection_at
ordinary_runs = refl

wait_for-Ends_example :
    Ends
      (scripted [])
      (λ h. h.results.result_count == 2)
      200
      (create_harness (scripted []) 32 6 100)
wait_for-Ends_example =
    wait_for-Ends (scripted []) (λ h. h.results.result_count == 2) 200
      (create_harness (scripted []) 32 6 100) (omega arith)

restart_search-selection_example :
    restart_search
      (scripted good_answers)
      (codes "alpha")
      search_options
      (record (create_harness (scripted good_answers) 24 4 100) {
        selection = some (selection_at 24 3 1 2);
      })
    ≡ restart_search
        (scripted good_answers)
        (codes "alpha")
        search_options
        (create_harness (scripted good_answers) 24 4 100)
restart_search-selection_example =
    restart_search-selection (scripted good_answers) (codes "alpha") search_options
      (create_harness (scripted good_answers) 24 4 100) (some (selection_at 24 3 1 2))

last_lines : lines_from 2 7 ≡ codes "line-0007 scrollback-target" ++ (13 ∷ 10 ∷ codes "line-0008")
unfolding lines_from line pad_four to_text repeat
last_lines = refl

-- A codec for the texts of the script: their bytes in UTF-8.
abbrev chinese_bytes : Text
chinese_bytes =
    228 ∷ 184 ∷ 173 ∷ 230 ∷ 150 ∷ 135 ∷ 32 ∷ 240 ∷ 159 ∷ 154 ∷ 128 ∷ 10 ∷ 115 ∷ 101 ∷ 99 ∷ 111 ∷ 110
    ∷ 100 ∷ 32 ∷ 108 ∷ 105 ∷ 110 ∷ 101 ∷ []

abbrev chinese_text : Text
chinese_text =
    20013 ∷ 25991 ∷ 32 ∷ 55357 ∷ 56960 ∷ 10 ∷ 115 ∷ 101 ∷ 99 ∷ 111 ∷ 110 ∷ 100 ∷ 32 ∷ 108 ∷ 105
    ∷ 110 ∷ 101 ∷ []

abbrev encode_script : Text → Text
encode_script text = if eq_text text chinese_text then chinese_bytes else text

abbrev decode_script : Text → Option Text
decode_script bytes = some (if eq_text bytes chinese_bytes then chinese_text else bytes)

check_clipboard_example : check_clipboard encode_script decode_script ≡ true
check_clipboard_example =
    check_clipboard_lem encode_script decode_script
      (
        (refl, ground arith, omega arith),
        ((refl, ground arith, omega arith), ((refl, ground arith, omega arith), tt)),
      )
      (refl, ground arith, omega arith)
