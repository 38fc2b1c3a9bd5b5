-- ===== src/TerminalPolicy/Wheel.antt =====
-- The wheel of terminal-policy.js: wheel events become a backlog of lines that each frame scrolls
-- by a bounded number of steps.
use harmotty.Prelude.{
  ℕ, ◌≡◌, ◌≢◌, refl, Bool, true, false, not, ◌&&◌, Option, none, some, arith, ◌⊎◌, inl, inr,
  Bool-cases, ◌==◌, if◌then◌else◌,
}
use mathlib.Core.Option
use harmotty.Prelude.Number.{Number, lt, max, min, abs, eq, neg-le, le-max_left, clamp_bounds}

-- `direction`: 0, -1 or 1.
pub data Direction : Type 0 where
  still up down : Direction

abbrev same_direction : Direction → Direction → Bool
same_direction still still = true
same_direction up up = true
same_direction down down = true
same_direction _ _ = false

module _ (N : Number) where
  open N use {
    Num, lit, neg, add, sub, mul, div, floor, ceil, le, le_trans, neg-nonpos, mul-nonneg,
    lit-nonneg,
  }

  pub record WheelState : Type 0 where
    pub pending_lines : Num
    pub velocity_pixels_per_ms : Num
    pub last_event_time : Num
    pub direction : Direction

  unfoldable pub create_wheel_state : WheelState
  create_wheel_state = record {
    pending_lines = lit 0 1;
    velocity_pixels_per_ms = lit 0 1;
    last_event_time = neg (lit 1 1);
    direction = still;
  }

  unfoldable pub wheel_gain : Num → Num
  wheel_gain speed_pixels_per_ms =
      let speed = abs N speed_pixels_per_ms in
      if le speed (lit 5 10)
      then lit 4 10
      else if le speed (lit 15 10)
      then add (lit 4 10) (mul (sub speed (lit 5 10)) (lit 16 10))
      else if le (lit 4 1) speed
      then lit 8 1
      else add (lit 2 1) (mul (div (sub speed (lit 15 10)) (lit 25 10)) (lit 6 1))

  abbrev pub at_least_one : Num → Num
  at_least_one a = max N (lit 1 1) a

  unfoldable pub delta_pixels : Num → ℕ → Num → Num → Num
  delta_pixels delta_y delta_mode cell_height rows =
      if delta_mode == 1
      then mul delta_y (at_least_one cell_height)
      else if delta_mode == 2
      then mul (mul delta_y (at_least_one cell_height)) (at_least_one rows)
      else delta_y

  abbrev pub direction_of : Num → Direction
  direction_of pixels = if lt N pixels (lit 0 1) then up else down

  unfoldable pub event_gap : WheelState → Num → Num
  event_gap s time = if le (lit 0 1) s.last_event_time then sub time s.last_event_time else lit 0 1

  -- A pause of more than 80 ms drops the backlog.
  unfoldable pub settle : WheelState → Num → WheelState
  settle s gap =
      if lt N (lit 80 1) gap
      then record s { pending_lines = lit 0 1; velocity_pixels_per_ms = lit 0 1; direction = still }
      else s

  unfoldable pub elapsed : WheelState → Num → Num
  elapsed s gap =
      if le (lit 0 1) s.last_event_time then max N (lit 1 1) (min N (lit 100 1) gap) else lit 16 1

  -- The velocity after an event; a change of direction drops the backlog.
  unfoldable pub turn : WheelState → Direction → Num → WheelState
  turn s direction instant =
      if not (same_direction s.direction still) && not (same_direction s.direction direction)
      then record s { pending_lines = lit 0 1; velocity_pixels_per_ms = instant }
      else if lt N s.last_event_time (lit 0 1)
      then record s { velocity_pixels_per_ms = instant }
      else record s {
        velocity_pixels_per_ms =
            add (mul s.velocity_pixels_per_ms (lit 65 100)) (mul instant (lit 35 100));
      }

  abbrev pub max_pending_lines : Num → Num
  max_pending_lines rows = mul (at_least_one rows) (lit 8 1)

  -- The lines that an event adds, kept within the bounds.
  unfoldable pub push_lines : WheelState → Num → ℕ → Num → Num → Num
  push_lines s pixels delta_mode cell_height rows =
      let gain = if delta_mode == 0 then wheel_gain s.velocity_pixels_per_ms else lit 1 1 in
      let lines = add s.pending_lines (mul (div pixels (at_least_one cell_height)) gain) in
      max N (neg (max_pending_lines rows)) (min N (max_pending_lines rows) lines)

  unfoldable pub accept_wheel : WheelState → Num → ℕ → Num → Num → Num → WheelState
  accept_wheel s pixels delta_mode cell_height rows time =
      let gap = event_gap s time in
      let turned = turn (settle s gap) (direction_of pixels) (div pixels (elapsed s gap)) in
      record {
        pending_lines = push_lines turned pixels delta_mode cell_height rows;
        velocity_pixels_per_ms = turned.velocity_pixels_per_ms;
        last_event_time = time;
        direction = direction_of pixels;
      }

  -- `none` is a missing state, or a timestamp that is not a number.
  unfoldable pub enqueue_wheel :
      Option WheelState → Num → ℕ → Num → Num → Option Num → Option WheelState
  enqueue_wheel none delta_y delta_mode cell_height rows timestamp = none
  enqueue_wheel (some s) delta_y delta_mode cell_height rows timestamp =
      if eq N delta_y (lit 0 1)
      then some s
      else some (
          accept_wheel s (delta_pixels delta_y delta_mode cell_height rows) delta_mode cell_height
            rows (Option.get_or timestamp (lit 0 1)))

  unfoldable pub has_pending_wheel_steps : Option WheelState → Bool
  has_pending_wheel_steps none = false
  has_pending_wheel_steps (some s) = le (lit 1 1) (abs N s.pending_lines)

  unfoldable pub pending_wheel_lines : Option WheelState → Num
  pending_wheel_lines none = lit 0 1
  pending_wheel_lines (some s) = s.pending_lines

  unfoldable pub whole_lines : Num → Num
  whole_lines pending = if lt N pending (lit 0 1) then ceil pending else floor pending

  unfoldable pub max_steps : Num → Num
  max_steps rows = max N (lit 8 1) (floor (mul (at_least_one rows) (lit 125 100)))

  -- The steps of a frame, and the state that it leaves.
  unfoldable pub consume_wheel_frame : Option WheelState → Num → Num × Option WheelState
  consume_wheel_frame none rows = (lit 0 1, none)
  consume_wheel_frame (some s) rows =
      if lt N (abs N s.pending_lines) (lit 1 1)
      then (lit 0 1, some s)
      else (let steps =
            max N (neg (max_steps rows)) (min N (max_steps rows) (whole_lines s.pending_lines)) in
          (steps, some (record s { pending_lines = sub s.pending_lines steps })))

  max_steps-nonneg : (rows : Num) → le (lit 0 1) (max_steps rows) ≡ true
  unfolding max_steps
  max_steps-nonneg rows = le_trans _ _ _ (lit-nonneg 8) (le-max_left N (lit 8 1) _)

  max_pending_lines-nonneg : (rows : Num) → le (lit 0 1) (max_pending_lines rows) ≡ true
  max_pending_lines-nonneg rows =
      mul-nonneg _ _ (le_trans _ _ _ (lit-nonneg 1) (le-max_left N (lit 1 1) rows)) (lit-nonneg 8)

  push_lines_bounds :
      (s : WheelState) (pixels : Num) (delta_mode : ℕ) (cell_height rows : Num)
      → (le (neg (max_pending_lines rows)) (push_lines s pixels delta_mode cell_height rows) ≡ true)
        × (le (push_lines s pixels delta_mode cell_height rows) (max_pending_lines rows) ≡ true)
  unfolding push_lines
  push_lines_bounds s pixels delta_mode cell_height rows =
      clamp_bounds N (neg (max_pending_lines rows)) (max_pending_lines rows) _
        (neg-le N (max_pending_lines rows) (max_pending_lines-nonneg rows))

  -- What an event that is not empty makes of a state.
  enqueue_wheel_lem :
      (s : WheelState) (delta_y : Num) (delta_mode : ℕ) (cell_height rows : Num)
      (timestamp : Option Num)
      → eq N delta_y (lit 0 1) ≡ false
      → enqueue_wheel (some s) delta_y delta_mode cell_height rows timestamp
        ≡ some (
            accept_wheel s
              (delta_pixels delta_y delta_mode cell_height rows)
              delta_mode
              cell_height
              rows
              (Option.get_or timestamp (lit 0 1)))
  unfolding enqueue_wheel
  enqueue_wheel_lem s delta_y delta_mode cell_height rows timestamp e = rw e refl

  -- An event that is not empty leaves a backlog of at most eight screens in either direction,
  -- whatever the state was before.
  pub enqueue_wheel_bounds :
      (s s' : WheelState) (delta_y : Num) (delta_mode : ℕ) (cell_height rows : Num)
      (timestamp : Option Num)
      → eq N delta_y (lit 0 1) ≡ false
      → enqueue_wheel (some s) delta_y delta_mode cell_height rows timestamp ≡ some s'
      → (le (neg (max_pending_lines rows)) s'.pending_lines ≡ true)
        × (le s'.pending_lines (max_pending_lines rows) ≡ true)
  unfolding accept_wheel
  enqueue_wheel_bounds s s' delta_y delta_mode cell_height rows timestamp e h =
      let lem = enqueue_wheel_lem s delta_y delta_mode cell_height rows timestamp e in
      let same : accept_wheel s (delta_pixels delta_y delta_mode cell_height rows) delta_mode
            cell_height rows (Option.get_or timestamp (lit 0 1))
          ≡ s' =
        cc in
      rw (← same) (push_lines_bounds _ _ delta_mode cell_height rows)

  -- A frame scrolls at most `max_steps` lines in either direction.
  pub consume_wheel_frame_bounds :
      (s : WheelState) (rows : Num)
      → (le (neg (max_steps rows)) (consume_wheel_frame (some s) rows).0 ≡ true)
        × (le (consume_wheel_frame (some s) rows).0 (max_steps rows) ≡ true)
  unfolding consume_wheel_frame
  consume_wheel_frame_bounds s rows = elim (Bool-cases (lt N (abs N s.pending_lines) (lit 1 1))) [
    | inl e ↦ rw e (neg-nonpos (max_steps rows) (max_steps-nonneg rows), max_steps-nonneg rows)
    | inr e ↦ rw e (
        clamp_bounds N (neg (max_steps rows)) (max_steps rows) _
          (neg-le N (max_steps rows) (max_steps-nonneg rows)))
  ]

  same_direction_iff : (a b : Direction) → same_direction a b ≡ true → a ≡ b
  same_direction_iff still still h = refl
  same_direction_iff up up h = refl
  same_direction_iff down down h = refl
  same_direction_iff still up h = cc
  same_direction_iff still down h = cc
  same_direction_iff up still h = cc
  same_direction_iff up down h = cc
  same_direction_iff down still h = cc
  same_direction_iff down up h = cc

  abbrev pub Reverses : WheelState → Num → Type 0
  Reverses s pixels = (s.direction ≢ still) × (s.direction ≢ direction_of pixels)

  abbrev pub Pauses : WheelState → Num → Type 0
  Pauses s time = lt N (lit 80 1) (event_gap s time) ≡ true

  turn_forgets :
      (s : WheelState) (pending velocity gap instant : Num) (direction : Direction)
      → ((s.direction ≢ still) × (s.direction ≢ direction)) ⊎ (lt N (lit 80 1) gap ≡ true)
      → turn (settle s gap) direction instant
        ≡ turn
            (settle (record s { pending_lines = pending; velocity_pixels_per_ms = velocity }) gap)
            direction
            instant
  unfolding turn settle
  turn_forgets s pending velocity gap instant direction h =
      ground (arith, same_direction_iff s.direction still, same_direction_iff s.direction direction)

  -- An event against the direction of the backlog, or more than 80 ms after the last one, has the
  -- same result for every backlog and every velocity: what was pending is dropped.
  enqueue_wheel_forgets :
      (s : WheelState) (pending velocity delta_y : Num) (delta_mode : ℕ)
      (cell_height rows time : Num)
      → eq N delta_y (lit 0 1) ≡ false
      → Reverses s (delta_pixels delta_y delta_mode cell_height rows) ⊎ Pauses s time
      → enqueue_wheel (some s) delta_y delta_mode cell_height rows (some time)
        ≡ enqueue_wheel
            (some (record s { pending_lines = pending; velocity_pixels_per_ms = velocity }))
            delta_y
            delta_mode
            cell_height
            rows
            (some time)
  unfolding accept_wheel elapsed event_gap
  enqueue_wheel_forgets s pending velocity delta_y delta_mode cell_height rows time e h =
      rw
        (
          enqueue_wheel_lem s delta_y delta_mode cell_height rows (some time) e,
          enqueue_wheel_lem
              (record s { pending_lines = pending; velocity_pixels_per_ms = velocity }) delta_y
              delta_mode cell_height rows (some time) e,
          turn_forgets s pending velocity (event_gap s time) _ _ h,
        )
        refl
