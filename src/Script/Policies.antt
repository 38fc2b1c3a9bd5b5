-- ===== src/Script/Policies.antt =====
-- The assertions of tools/web-terminal/test-terminal-policy.mjs on the functions of
-- terminal-policy.js; a group of assertions is whether all of them hold.
use harmotty.Prelude.{
  ℕ, zero, suc, ◌+◌, Bool, true, false, not, ◌&&◌, Option, none, some, List, [], ◌∷◌, ◌++◌, Text,
  codes, eq_text, ltb, ◌==◌, if◌then◌else◌, all,
}
use harmotty.Prelude.Int.{ℤ, pos, negsuc}
use harmotty.Prelude.Number.{Number, lt, eq}
use harmotty.TerminalPolicy.Base64.{btoa}
use harmotty.TerminalPolicy.Osc52.{
  Reason, read_not_supported, unsupported_target, invalid_base64, encoded_too_large, decode_osc52,
  max_clipboard_base64_length,
}
use harmotty.TerminalPolicy.Bell.{
  BellGate, create_bell_attention_gate, trigger, acknowledge, rearm_delivery, is_pending,
}
use harmotty.TerminalPolicy.Wheel.{
  WheelState, create_wheel_state, enqueue_wheel, has_pending_wheel_steps, pending_wheel_lines,
  consume_wheel_frame,
}
use harmotty.TerminalPolicy.Pointer.{
  TrackingMode, off, x10, vt200, drag, any, other, PointerEvent, is_link_modifier_active,
  should_activate_link, should_run_terminal_secondary_action,
}
use harmotty.TerminalPolicy.Search.{search_result_label, wrapped_control_index}
use harmotty.TerminalPolicy.Metrics.{count_perf_payload_bytes, center_grid_leading_padding}

abbrev pub same_reason : Reason → Reason → Bool
same_reason read_not_supported read_not_supported = true
same_reason unsupported_target unsupported_target = true
same_reason invalid_base64 invalid_base64 = true
same_reason encoded_too_large encoded_too_large = true
same_reason _ _ = false

-- `character.repeat(n)`.
unfoldable pub repeat : ℕ → ℕ → Text
repeat zero character = []
repeat (suc n) character = character ∷ repeat n character

-- The texts of the first loop, in code units.
abbrev pub clipboard_texts : List Text
clipboard_texts =
    []
    ∷ codes "plain text"
    ∷ (0x4e2d ∷ 0x6587 ∷ b' ' ∷ 0xd83d ∷ 0xde80 ∷ 10 ∷ codes "second line")
    ∷ []

-- `encode_utf8` is `Buffer.from(text, 'utf8')`, and `decode_utf8` the `TextDecoder` of the policy.
module _ (encode_utf8 : Text → Text) (decode_utf8 : Text → Option Text) where
  abbrev pub is_accepted : Text → Text → Bool
  is_accepted payload text =
      let decoded = decode_osc52 decode_utf8 (some payload) in
      decoded.accepted && eq_text decoded.text text

  abbrev pub is_refused : Text → Reason → Bool
  is_refused payload reason = same_reason (decode_osc52 decode_utf8 (some payload)).reason reason

  unfoldable pub check_clipboard : Bool
  check_clipboard =
      all (λ text. is_accepted (codes "c" ++ b';' ∷ btoa (encode_utf8 text)) text) clipboard_texts
      && is_accepted (b';' ∷ btoa (encode_utf8 (codes "copied by tmux"))) (codes "copied by tmux")
      && is_refused (codes "c;?") read_not_supported
      && is_refused (codes "p;YQ==") unsupported_target
      && is_refused (codes "c;%%%") invalid_base64
      && is_refused (codes "c" ++ b';' ∷ repeat (max_clipboard_base64_length + 4) b'A')
          encoded_too_large

-- The flood: how many of so many bells are delivered, and the gate after them.
unfoldable pub ring_bells : ℕ → BellGate → ℕ → ℕ × BellGate
ring_bells zero gate count = (count, gate)
ring_bells (suc left) gate count =
    let (next, delivered) = trigger gate in
    ring_bells left next (if delivered then count + 1 else count)

-- The assertions after the flood, each on the gate that the last one leaves.
unfoldable pub check_bell : ℕ → Bool
check_bell bells =
    let (count, flooded) = ring_bells bells create_bell_attention_gate 0 in
    let (rearmed, was_rearmed) = rearm_delivery flooded in
    let (rung, delivered) = trigger rearmed in
    let (acknowledged, first) = acknowledge rung in
    let (again, second) = acknowledge acknowledged in
    let (rung_again, delivered_again) = trigger again in
    count == 1
    && is_pending flooded
    && was_rearmed
    && is_pending rearmed
    && delivered
    && first
    && not second
    && not (is_pending again)
    && delivered_again

unfoldable pub check_perf : Bool
check_perf =
    count_perf_payload_bytes (some (codes "XXX")) == 3
    && count_perf_payload_bytes (some (codes "XX" ++ 0x1b ∷ codes "[6nX" ++ 13 ∷ 10 ∷ [])) == 3
    && count_perf_payload_bytes (some (0x4e2d ∷ 0x6587 ∷ b' ' ∷ 0xd83d ∷ 0xde80 ∷ [])) == 0

module _ (N : Number) where
  open N use {Num, lit, neg, add}

  -- An event of so many pixels or lines, with cells of 16 pixels and 40 rows.
  abbrev pub enqueue : Num → ℕ → ℕ → Option (WheelState N) → Option (WheelState N)
  enqueue delta mode time state =
      enqueue_wheel N state delta mode (lit 16 1) (lit 40 1) (some (lit time 1))

  abbrev pub pending : Option (WheelState N) → Num
  pending state = pending_wheel_lines N state

  abbrev pub scrolled : Option (WheelState N) → Num
  scrolled state = (consume_wheel_frame N state (lit 40 1)).0

  abbrev pub is_slow : Option (WheelState N) → Bool
  is_slow state = lt N (pending state) (lit 1 1) && eq N (scrolled state) (lit 0 1)

  -- The loop over the frames of the fast wheel, which may take fewer than 5: the lines and the
  -- frames, or `none` if it takes more.
  unfoldable pub drain : ℕ → Option (WheelState N) → Num → ℕ → Option (Num × ℕ)
  drain zero state total frames =
      if has_pending_wheel_steps N state then none else some (total, frames)
  drain (suc left) state total frames =
      let (steps, next) = consume_wheel_frame N state (lit 40 1) in
      let rest = drain left next (add total steps) (frames + 1) in
      if has_pending_wheel_steps N state then rest else some (total, frames)

  abbrev pub is_fast : Option (Num × ℕ) → Bool
  is_fast none = false
  is_fast (some (total, frames)) = lt N (lit 100 1) total && ltb 1 frames

  unfoldable pub check_wheel : Bool
  check_wheel =
      let wheel = some (create_wheel_state N) in
      let fast = enqueue (lit 160 1) 0 16 (enqueue (lit 80 1) 0 0 wheel) in
      let reversed = enqueue (neg (lit 32 1)) 0 16 (enqueue (lit 320 1) 0 0 wheel) in
      is_slow (enqueue (lit 12 1) 0 16 (enqueue (lit 4 1) 0 0 wheel))
      && is_slow (enqueue (lit 4 1) 0 120 (enqueue (lit 12 1) 0 0 wheel))
      && lt N (lit 100 1) (pending fast)
      && is_fast (drain 4 fast (lit 0 1) 0)
      && lt N (pending reversed) (lit 0 1)
      && lt N (scrolled reversed) (lit 0 1)
      && eq N (pending (enqueue (lit 3 1) 1 0 wheel)) (lit 3 1)

  abbrev pub padding : ℕ → ℕ → Num
  padding container grid =
      center_grid_leading_padding N (some (lit 4 1)) (some (lit 4 1)) (some (lit container 1))
        (some (lit grid 1))

  unfoldable pub check_padding : Bool
  check_padding =
      eq N (padding 942 926) (lit 8 1)
      && eq N (padding 934 926) (lit 4 1)
      && eq N (padding 930 926) (lit 4 1)

abbrev pub exact_ctrl : PointerEvent
exact_ctrl = record {
  button = 0;
  ctrl_key = true;
  alt_key = false;
  meta_key = false;
  shift_key = false;
}

abbrev pub exact_ctrl_shift : PointerEvent
exact_ctrl_shift = record exact_ctrl { shift_key = true }

abbrev pub mouse_modes : List TrackingMode
mouse_modes = x10 ∷ vt200 ∷ drag ∷ any ∷ []

-- The body of the loop over the modes of mouse reports.
unfoldable pub check_mouse_mode : TrackingMode → Bool
check_mouse_mode mode =
    not (is_link_modifier_active (some exact_ctrl) mode)
    && is_link_modifier_active (some exact_ctrl_shift) mode
    && not (is_link_modifier_active (some (record exact_ctrl_shift { alt_key = true })) mode)
    && not (is_link_modifier_active (some (record exact_ctrl_shift { meta_key = true })) mode)
    && should_activate_link (some exact_ctrl_shift) mode true false
    && not (should_activate_link (some exact_ctrl_shift) mode true true)

-- `'sgr'` is none of the modes.
unfoldable pub check_links : Bool
check_links =
    is_link_modifier_active (some exact_ctrl) off
    && not (is_link_modifier_active (some exact_ctrl_shift) off)
    && not (is_link_modifier_active (some (record exact_ctrl { meta_key = true })) off)
    && not (is_link_modifier_active (some exact_ctrl_shift) other)
    && all check_mouse_mode mouse_modes
    && should_activate_link (some exact_ctrl) off true false
    && not (should_activate_link (some (record exact_ctrl { button = 1 })) off true false)
    && not (should_activate_link (some exact_ctrl) off false false)
    && not (should_activate_link (some exact_ctrl) off true true)
    && should_run_terminal_secondary_action false
    && not (should_run_terminal_secondary_action true)

abbrev pub has_label : Text → ℤ → ℕ → Text → Bool
has_label query index count label =
    eq_text (search_result_label (some query) index (pos count) 1000) label

abbrev pub goes_to : ℕ → Bool → ℕ → Bool
goes_to index backwards target = elim (wrapped_control_index (pos index) (pos 4) backwards) [
  | pos n ↦ n == target
  | negsuc n ↦ false
]

unfoldable pub check_search : Bool
check_search =
    has_label [] (negsuc 0) 0 (codes "0/0")
    && has_label (codes "missing") (negsuc 0) 0 (codes "0/0")
    && has_label (codes "match") (pos 0) 2 (codes "1/2")
    && has_label (codes "match") (pos 1) 2 (codes "2/2")
    && has_label (codes "match") (negsuc 0) 7 (codes "0/7")
    && has_label (codes "match") (negsuc 0) 1000 (codes "1000+")
    && goes_to 0 false 1
    && goes_to 3 false 0
    && goes_to 0 true 3
