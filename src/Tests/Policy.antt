-- ===== src/Tests/Policy.antt =====
-- Runs of terminal-policy.js.
use harmotty.Prelude.{
  ℕ, ◌≡◌, ◌≤◌, ◌<◌, ◌+◌, ◌%◌, ◌⊎◌, ◌↔◌, refl, inr, true, false, not, ◌&&◌, Option, some, List, [],
  ◌∷◌, ◌++◌, arith, Text, codes, index_of, substring,
}
use harmotty.Prelude.Int.{pos, negsuc}
use harmotty.TerminalPolicy.Base64.{btoa, atob, is_base64}
use harmotty.TerminalPolicy.Osc52.{
  decode_osc52, ok, read_not_supported, reject_osc52, IsClipboardWrite, decode_osc52_sound,
  decode_osc52-btoa,
}
use harmotty.TerminalPolicy.Bell.{
  BellEvent, ring, acknowledged, create_bell_attention_gate, trigger, acknowledge, call, deliveries,
  releases, deliveries-le-releases, trigger-acknowledge,
}
use harmotty.TerminalPolicy.Pointer.{
  PointerEvent, off, drag, reports_mouse, is_link_modifier_active, should_activate_link,
  should_activate_link_iff, link_modes_apart,
}
use harmotty.TerminalPolicy.Search.{
  search_result_label, wrapped_control_index, search_result_label_inj, wrapped_control_index_bounds,
  wrapped_control_index_inverse, tab_forward, tab_forward_lem,
}
use harmotty.TerminalPolicy.Metrics.{count_perf_payload_bytes, count_perf_payload_bytes-append}

-- A decoder that knows ASCII.
abbrev decode_ascii : Text → Option Text
decode_ascii text = some text

abbrev copied : Text
copied = codes "c;aGk="

copied_accepted : (decode_osc52 decode_ascii (some copied)).accepted ≡ true
unfolding decode_osc52 index_of substring atob is_base64
copied_accepted = refl

decode_osc52_sound_example :
    IsClipboardWrite decode_ascii copied (decode_osc52 decode_ascii (some copied))
decode_osc52_sound_example = decode_osc52_sound decode_ascii copied copied_accepted

decode_osc52-btoa_example :
    decode_osc52 decode_ascii (some (codes "c" ++ b';' ∷ btoa (codes "hi")))
    ≡ record { accepted = true; text = codes "hi"; reason = ok; byte_length = 2 }
decode_osc52-btoa_example =
    decode_osc52-btoa decode_ascii (codes "c") (codes "hi") (codes "hi") (inr refl)
      (omega arith, (omega arith, tt)) (omega arith) refl

abbrev bells : List BellEvent
bells = ring ∷ ring ∷ acknowledged ∷ ring ∷ []

deliveries-le-releases_example :
    deliveries create_bell_attention_gate bells ≤ releases create_bell_attention_gate bells + 1
deliveries-le-releases_example = deliveries-le-releases bells

trigger-acknowledge_example : (trigger (acknowledge create_bell_attention_gate).0).1 ≡ true
trigger-acknowledge_example =
    trigger-acknowledge create_bell_attention_gate (record { waits = λ e. e })

read_refused : decode_osc52 decode_ascii (some (codes "c;?")) ≡ reject_osc52 read_not_supported
unfolding decode_osc52 index_of substring
read_refused = refl

third_bell_waits : deliveries create_bell_attention_gate bells ≡ 2
unfolding deliveries call trigger acknowledge
third_bell_waits = refl

abbrev click : PointerEvent
click = record { button = 0; ctrl_key = true; alt_key = false; meta_key = false; shift_key = false }

should_activate_link_iff_example : (should_activate_link (some click) off true false ≡ true) ↔ (
    (click.button ≡ 0)
    × (true ≡ true)
    × (false ≡ false)
    × (click.ctrl_key ≡ true)
    × (click.alt_key ≡ false)
    × (click.meta_key ≡ false)
    × (((off ≡ off) × (click.shift_key ≡ false))
        ⊎ ((reports_mouse off ≡ true) × (click.shift_key ≡ true))))
should_activate_link_iff_example = should_activate_link_iff click off true false

drag_reports : reports_mouse drag ≡ true
unfolding reports_mouse
drag_reports = refl

link_modes_apart_example :
    (is_link_modifier_active (some click) off && is_link_modifier_active (some click) drag) ≡ false
link_modes_apart_example = link_modes_apart (some click) drag drag_reports

-- The second of three matches, for two queries.
labels_alike :
    search_result_label (some (97 ∷ [])) (pos 1) (pos 3) 1000
    ≡ search_result_label (some (98 ∷ [])) (pos 1) (pos 3) 5000
unfolding search_result_label
labels_alike = refl

search_result_label_inj_example : (◌≡◌ {A = ℕ} 1 1) × (◌≡◌ {A = ℕ} 2 2)
search_result_label_inj_example = search_result_label_inj [] [] 97 98 1 1 2 2 1000 5000 labels_alike

wrapped_control_index_bounds_example :
    (k : ℕ) × (wrapped_control_index (negsuc 0) (pos 3) true ≡ pos k) × (k < 3)
wrapped_control_index_bounds_example = wrapped_control_index_bounds (negsuc 0) 2 true

wrapped_control_index_inverse_example :
    wrapped_control_index (wrapped_control_index (pos 2) (pos 3) false) (pos 3) (not false) ≡ pos 2
wrapped_control_index_inverse_example = wrapped_control_index_inverse 2 2 false (omega arith)

tab_forward_lem_example : tab_forward 5 (pos 1) 3 ≡ pos ((1 + 5) % 3)
tab_forward_lem_example = tab_forward_lem 5 1 2 (omega arith)

count_perf_payload_bytes-append_example :
    count_perf_payload_bytes (some (codes "aXX" ++ codes "Xb"))
    ≡ count_perf_payload_bytes (some (codes "aXX")) + count_perf_payload_bytes (some (codes "Xb"))
count_perf_payload_bytes-append_example = count_perf_payload_bytes-append (codes "aXX") (codes "Xb")
