-- ===== src/TerminalPolicy/Pointer.antt =====
-- The click policy of terminal-policy.js: when a click on a link opens it, beside a program that
-- may have asked for mouse reports.
use harmotty.Prelude.{
  ℕ, ◌≡◌, refl, Bool, true, false, not, ◌&&◌, ◌||◌, ◌⊎◌, ◌↔◌, Option, none, some, arith, ◌==◌,
  if◌then◌else◌,
}

-- `terminal.modes.mouseTrackingMode`; `other` is any other text.
pub data TrackingMode : Type 0 where
  off x10 vt200 drag any other : TrackingMode

-- What a pointer event says; each key is `=== true` or not.
pub record PointerEvent : Type 0 where
  pub button : ℕ
  pub ctrl_key : Bool
  pub alt_key : Bool
  pub meta_key : Bool
  pub shift_key : Bool

unfoldable pub reports_mouse : TrackingMode → Bool
reports_mouse off = false
reports_mouse other = false
reports_mouse _ = true

-- `none` is a missing event.
unfoldable pub is_link_modifier_active : Option PointerEvent → TrackingMode → Bool
unfolding reports_mouse
is_link_modifier_active none mode = false
is_link_modifier_active (some event) mode =
    if not event.ctrl_key || event.alt_key || event.meta_key then false else elim mode [
      | off ↦ not event.shift_key
      | other_mode ↦ reports_mouse other_mode && event.shift_key
    ]

unfoldable pub should_activate_link : Option PointerEvent → TrackingMode → Bool → Bool → Bool
unfolding is_link_modifier_active
should_activate_link none mode same_link dragged = false
should_activate_link (some event) mode same_link dragged =
    event.button == 0 && same_link && not dragged && is_link_modifier_active (some event) mode

unfoldable pub should_run_terminal_secondary_action : Bool → Bool
should_run_terminal_secondary_action search_open = not search_open

-- A link opens by the primary button alone, pressed and released on that link with Ctrl and
-- without Alt or Meta; Shift is held exactly when the program takes mouse reports.
pub should_activate_link_iff :
    (event : PointerEvent) (mode : TrackingMode) (same_link dragged : Bool)
    → (should_activate_link (some event) mode same_link dragged ≡ true) ↔ (
        (event.button ≡ 0)
        × (same_link ≡ true)
        × (dragged ≡ false)
        × (event.ctrl_key ≡ true)
        × (event.alt_key ≡ false)
        × (event.meta_key ≡ false)
        × (((mode ≡ off) × (event.shift_key ≡ false))
            ⊎ ((reports_mouse mode ≡ true) × (event.shift_key ≡ true))))
unfolding should_activate_link
should_activate_link_iff event off same_link dragged = ground arith
should_activate_link_iff event x10 same_link dragged = ground arith
should_activate_link_iff event vt200 same_link dragged = ground arith
should_activate_link_iff event drag same_link dragged = ground arith
should_activate_link_iff event any same_link dragged = ground arith
should_activate_link_iff event other same_link dragged = ground arith

-- One click never opens a link both with mouse reports off and with them on, so a click that a
-- program would receive is not the one that opens links outside it.
pub link_modes_apart :
    (event : Option PointerEvent) (mode : TrackingMode)
    → reports_mouse mode ≡ true
    → (is_link_modifier_active event off && is_link_modifier_active event mode) ≡ false
unfolding is_link_modifier_active
link_modes_apart none mode h = refl
link_modes_apart (some event) mode h = ground arith
