-- ===== src/Tests/Panes.antt =====
-- Runs of the interaction policy, the command bar and the session of a pane.
use harmotty.Prelude.{
  ℕ, ◌≡◌, ◌≢◌, ◌↔◌, ◌≤◌, ◌<◌, ◌==◌, refl, true, false, not, List, [], ◌∷◌, arith, codes, length,
  index_of, trim, trim_start, trim_end, is_space, substring, starts_with,
}
use harmotty.Prelude.Int.{pos, minus_one}
use harmotty.Tests.Hundredths.{hundredths, at_most}
use harmotty.Workspace.State.{TerminalMode}
use harmotty.Interaction.Keys.{
  KeyEvent, wrapped_tab_index, workspace_pane_index, focus_left_pane, opposite,
  wrapped_tab_index_bounds, wrapped_tab_index_inverse,
}
use harmotty.Interaction.Panels.{
  evicted_warm_tab, mounted_after, should_detach_tab_on_eviction, should_confirm_application_close,
  should_persist_bell_attention, bell_pulse_count, evicted_warm_tab_sound,
}
use harmotty.Interaction.Sizes.{clamp_font_size, clamp_split_ratio, clamp_sizes}
use harmotty.Prompt.CommandBar.{
  CommandBar, BarOperation, remember, navigate, input, complete, add_to_history, repeats, recalled,
  host_prefix, matches, find_completions,
}
use harmotty.Prompt.CommandBar
use harmotty.Prompt.Recall.{IsValid, history-IsValid, go_up, go_up-add_to_history, go_up-repeated}
use harmotty.Session.State.{
  SshSession, get_display_title, get_connection_title, is_active, is_connected, reset, titles_lem,
  reset_lem,
}
use harmotty.Session.State
use harmotty.Session.Control.{
  should_interrupt, is_pending, interrupt_key, describe_close, IsBare, should_interrupt_iff,
  format_target_inj,
}

-- Ctrl+Alt+-.
abbrev dim : KeyEvent
dim = record { key_code = 2057; ctrl_key = true; alt_key = true; shift_key = false }

left_pane : workspace_pane_index focus_left_pane 2 ≡ pos 0
unfolding workspace_pane_index
left_pane = refl

wrapped_tab_index_bounds_example :
    (k : ℕ) × (wrapped_tab_index (pos 7) (pos 3) minus_one ≡ pos k) × (k < 3)
wrapped_tab_index_bounds_example = wrapped_tab_index_bounds (pos 7) minus_one 2

wrapped_tab_index_inverse_example :
    wrapped_tab_index (wrapped_tab_index (pos 2) (pos 3) (pos 1)) (pos 3) (opposite (pos 1)) ≡ pos 2
wrapped_tab_index_inverse_example = wrapped_tab_index_inverse 2 2 (pos 1) (omega arith)

tab_one_evicted : evicted_warm_tab (codes "tab-2") (codes "tab-3") (codes "tab-1") ≡ codes "tab-1"
unfolding evicted_warm_tab
tab_one_evicted = refl

not_nil : codes "tab-1" ≢ []
not_nil e = cc

evicted_warm_tab_sound_example :
    (codes "tab-1" ≡ codes "tab-1")
    × (mounted_after (codes "tab-2") (codes "tab-3") (codes "tab-1") true true
        ≡ not (should_detach_tab_on_eviction true))
evicted_warm_tab_sound_example =
    evicted_warm_tab_sound (codes "tab-2") (codes "tab-3") (codes "tab-1") (codes "tab-1") true true
      tab_one_evicted not_nil

close_asks : should_confirm_application_close true false ≡ true
unfolding should_confirm_application_close
close_asks = refl

hidden_bell_pulses : bell_pulse_count (should_persist_bell_attention true true false false) ≡ 2
unfolding bell_pulse_count should_persist_bell_attention
hidden_bell_pulses = refl

clamp_sizes_example :
    ((at_most (pos 800) (clamp_font_size hundredths (pos 100)) ≡ true)
      × (at_most (clamp_font_size hundredths (pos 100)) (pos 4800) ≡ true))
    × ((at_most (pos 20) (clamp_split_ratio hundredths (pos 95)) ≡ true)
        × (at_most (clamp_split_ratio hundredths (pos 95)) (pos 80) ≡ true))
clamp_sizes_example = clamp_sizes hundredths (pos 100) (pos 95) refl refl

abbrev bar_use : List BarOperation
bar_use =
    remember (codes "ls")
    ∷ remember (codes "ssh a")
    ∷ navigate minus_one
    ∷ remember (codes "  ")
    ∷ []

history-IsValid_example : IsValid (CommandBar.run CommandBar.new bar_use)
history-IsValid_example = history-IsValid bar_use

abbrev used : CommandBar.CommandBar
used = record {
  input_text = [];
  history = codes "ls" ∷ [];
  history_index = pos 0;
  completions = [];
}

exit_is_command : (length (trim (codes "exit")) == 0) ≡ false
unfolding trim trim_start trim_end is_space
exit_is_command = refl

exit_is_new : repeats used.history (codes "exit") ≡ false
exit_is_new = refl

two_entries : 1 < length (add_to_history used (codes "exit")).history
unfolding add_to_history trim trim_start trim_end is_space
two_entries = omega arith

go_up-add_to_history_example :
    (go_up 2 (add_to_history used (codes "exit"))).input_text
    ≡ recalled (add_to_history used (codes "exit")).history (pos 1)
go_up-add_to_history_example =
    go_up-add_to_history used (codes "exit") 1 exit_is_command exit_is_new two_entries

-- The second of three commands was recalled, and the first one is run again.
abbrev recalling : CommandBar
recalling = record {
  input_text = codes "exit";
  history = codes "ls" ∷ codes "exit" ∷ codes "help" ∷ [];
  history_index = pos 1;
  completions = [];
}

go_up-repeated_example :
    ((add_to_history recalling (codes "ls")).history_index ≡ pos 1)
    × ((go_up 1 (add_to_history recalling (codes "ls"))).input_text ≡ codes "help")
go_up-repeated_example = go_up-repeated recalling (codes "ls") 0 (omega arith) refl

host_completed :
    find_completions (codes "prod" ∷ codes "test" ∷ []) (codes "ssh te") ≡ codes "ssh test" ∷ []
unfolding find_completions host_prefix matches starts_with substring trim trim_start trim_end
    is_space
host_completed = refl

titles_lem_example :
    (1 ≤ length (get_display_title State.new))
    × (1 ≤ length (get_connection_title State.new))
    × (State.new.host_alias ≡ [] → get_display_title State.new ≡ get_connection_title State.new)
titles_lem_example = titles_lem State.new

reset_lem_example :
    (is_active (reset State.new) ≡ false)
    × (is_connected (reset State.new) ≡ false)
    × (get_connection_title (reset State.new) ≡ get_connection_title State.new)
reset_lem_example = reset_lem State.new

should_interrupt_iff_example :
    (should_interrupt TerminalMode.connecting interrupt_key ≡ true)
    ↔ ((is_pending TerminalMode.connecting ≡ true) × (interrupt_key ≡ interrupt_key))
should_interrupt_iff_example = should_interrupt_iff TerminalMode.connecting interrupt_key

h-IsBare : IsBare (codes "h")
unfolding index_of
h-IsBare = (refl, refl)

format_target_inj_example : (codes "h" ≡ codes "h") × (◌≡◌ {A = ℕ} 2222 2222)
format_target_inj_example =
    format_target_inj (codes "h") (codes "h") 2222 2222 h-IsBare h-IsBare refl

close_described :
    describe_close minus_one
    ≡ codes "Connection lost unexpectedly. Check the network, then run the SSH command again."
unfolding describe_close
close_described = refl
