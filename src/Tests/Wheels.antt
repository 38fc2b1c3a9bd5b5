-- ===== src/Tests/Wheels.antt =====
-- Runs of the wheel and the padding of terminal-policy.js, in hundredths.
use harmotty.Prelude.{◌≡◌, refl, true, false, some}
use harmotty.Prelude.Int.{pos, negsuc}
use harmotty.Prelude.Number.{eq, lt, max, min, abs}
use harmotty.Tests.Hundredths.{hundredths, at_most, negate}
use harmotty.TerminalPolicy.Wheel.{
  WheelState, create_wheel_state, enqueue_wheel, consume_wheel_frame, max_steps, max_pending_lines,
  enqueue_wheel_bounds, consume_wheel_frame_bounds, Reverses, accept_wheel, settle, turn,
  push_lines, elapsed, event_gap, delta_pixels, wheel_gain, whole_lines, has_pending_wheel_steps,
  pending_wheel_lines, down,
}
use harmotty.TerminalPolicy.Metrics.{
  center_grid_leading_padding, center_grid_leading_padding_bounds,
}

-- Five lines down, pending since 10 ms.
abbrev rolling : WheelState hundredths
rolling = record {
  pending_lines = pos 500;
  velocity_pixels_per_ms = pos 100;
  last_event_time = pos 1000;
  direction = down;
}

consume_wheel_frame_bounds_example :
    (at_most
        (negate (max_steps hundredths (pos 2400)))
        (consume_wheel_frame hundredths (some rolling) (pos 2400)).0
      ≡ true)
    × (at_most
          (consume_wheel_frame hundredths (some rolling) (pos 2400)).0
          (max_steps hundredths (pos 2400))
        ≡ true)
consume_wheel_frame_bounds_example = consume_wheel_frame_bounds hundredths rolling (pos 2400)

five_lines :
    consume_wheel_frame hundredths (some rolling) (pos 2400)
    ≡ (pos 500, some (record rolling { pending_lines = pos 0 }))
unfolding consume_wheel_frame max_steps whole_lines lt abs max min
five_lines = refl

center_grid_leading_padding_bounds_example :
    (at_most (pos 0) (
        center_grid_leading_padding hundredths
          (some (pos 400))
          (some (pos 400))
          (some (pos 100000))
          (some (pos 99000)))
      ≡ true)
    × (at_most (pos 400) (
          center_grid_leading_padding hundredths
            (some (pos 400))
            (some (pos 400))
            (some (pos 100000))
            (some (pos 99000)))
        ≡ true)
center_grid_leading_padding_bounds_example =
    center_grid_leading_padding_bounds hundredths (pos 400) (some (pos 400)) (some (pos 100000))
      (some (pos 99000))

not_empty : eq hundredths (negsuc 29999) (pos 0) ≡ false
unfolding eq
not_empty = refl

turns_back :
    Reverses hundredths rolling (delta_pixels hundredths (negsuc 29999) 0 (pos 2000) (pos 2400))
unfolding delta_pixels lt
turns_back = (λ e. absurd (cc), λ e. absurd (cc))

-- A notch down, half a second later.
abbrev after_notch : WheelState hundredths
after_notch = record {
  pending_lines = pos 200;
  velocity_pixels_per_ms = pos 35;
  last_event_time = pos 51000;
  direction = down;
}

notch_accepted :
    enqueue_wheel hundredths (some rolling) (pos 10000) 0 (pos 2000) (pos 2400) (some (pos 51000))
    ≡ some after_notch
unfolding enqueue_wheel accept_wheel settle turn push_lines elapsed event_gap delta_pixels
    wheel_gain eq lt abs max min
notch_accepted = refl

notch_not_empty : eq hundredths (pos 10000) (pos 0) ≡ false
unfolding eq
notch_not_empty = refl

new_wheel_waits : has_pending_wheel_steps hundredths (some (create_wheel_state hundredths)) ≡ false
unfolding has_pending_wheel_steps create_wheel_state abs
new_wheel_waits = refl

rolling_lines : pending_wheel_lines hundredths (some rolling) ≡ pos 500
unfolding pending_wheel_lines
rolling_lines = refl

enqueue_wheel_bounds_example :
    (at_most (negate (max_pending_lines hundredths (pos 2400))) (pos 200) ≡ true)
    × (at_most (pos 200) (max_pending_lines hundredths (pos 2400)) ≡ true)
enqueue_wheel_bounds_example =
    enqueue_wheel_bounds hundredths rolling after_notch (pos 10000) 0 (pos 2000) (pos 2400)
      (some (pos 51000)) notch_not_empty notch_accepted
