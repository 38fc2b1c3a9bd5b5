-- ===== src/Interaction/Panels.antt =====
-- Which tabs `InteractionPolicy` keeps mounted, and how it asks for attention
-- (entry/src/main/ets/model/ui/InteractionPolicy.ets).
use harmotty.Prelude.{
  ℕ, ◌≡◌, ◌≢◌, Bool, false, not, ◌&&◌, ◌||◌, [], Text, eq_text, length, ltb, arith, if◌then◌else◌,
}

unfoldable pub warm_tab_after_switch : Text → Text
warm_tab_after_switch current_tab_id = current_tab_id

unfoldable pub evicted_warm_tab : Text → Text → Text → Text
evicted_warm_tab current_tab_id target_tab_id previous_warm_tab_id =
    if ltb 0 (length previous_warm_tab_id)
      && not (eq_text previous_warm_tab_id target_tab_id)
      && not (eq_text previous_warm_tab_id current_tab_id)
    then previous_warm_tab_id
    else []

unfoldable pub should_mount_tab : Bool → Bool → Bool → Bool → Bool
should_mount_tab is_active_tab is_warm_tab has_active_session is_window_visible =
    has_active_session || is_active_tab || (is_window_visible && is_warm_tab)

unfoldable pub should_detach_tab_on_eviction : Bool → Bool
should_detach_tab_on_eviction has_active_session = not has_active_session

unfoldable pub should_confirm_application_close : Bool → Bool → Bool
should_confirm_application_close has_active_session confirmation_suppressed =
    has_active_session && not confirmation_suppressed

unfoldable pub should_persist_bell_attention : Bool → Bool → Bool → Bool → Bool
should_persist_bell_attention is_active_tab is_focused_pane is_window_visible is_overlay_open =
    not is_active_tab || not is_focused_pane || not is_window_visible || is_overlay_open

unfoldable pub bell_pulse_count : Bool → ℕ
bell_pulse_count persist_attention = if persist_attention then 2 else 1

-- Whether a tab is mounted after a switch from one tab to another.
abbrev pub mounted_after : Text → Text → Text → Bool → Bool → Bool
mounted_after current target id has_active_session is_window_visible =
    should_mount_tab (eq_text id target) (eq_text id (warm_tab_after_switch current))
      has_active_session is_window_visible

-- A text that is evicted was warm before, and is neither the tab shown nor the one kept warm now.
evicted_cases :
    (current target previous id : Text)
    → evicted_warm_tab current target previous ≡ id
    → id ≢ []
    → (id ≡ previous) × (eq_text previous target ≡ false) × (eq_text previous current ≡ false)
unfolding evicted_warm_tab
evicted_cases current target previous id e ne = ground arith

-- A tab that a switch evicts is the tab that was kept warm, and it stays mounted only for its
-- session; and only then is it not detached.
pub evicted_warm_tab_sound :
    (current target previous id : Text) (has_active_session is_window_visible : Bool)
    → evicted_warm_tab current target previous ≡ id
    → id ≢ []
    → (id ≡ previous)
      × (mounted_after current target id has_active_session is_window_visible
          ≡ not (should_detach_tab_on_eviction has_active_session))
unfolding should_mount_tab warm_tab_after_switch should_detach_tab_on_eviction
evicted_warm_tab_sound current target previous id session visible e ne =
    let (same, not_target, not_current) = evicted_cases current target previous id e ne in
    (same, rw (same, not_target, not_current) (ground arith))
