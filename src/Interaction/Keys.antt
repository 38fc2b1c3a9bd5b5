-- ===== src/Interaction/Keys.antt =====
-- The keyboard shortcuts of `InteractionPolicy`
-- (entry/src/main/ets/model/ui/InteractionPolicy.ets) and the tab or pane that they go to.
use harmotty.Prelude.{
  ℕ, zero, suc, ◌+◌, ◌-◌, ◌%◌, ◌≤◌, ◌<◌, ◌≡◌, refl, sym, ◌∙◌, Bool, not, ◌&&◌, ◌||◌, arith, ltb,
  lt→ltb, Bool-cases, inl, inr, ◌==◌, if◌then◌else◌,
}
use harmotty.Prelude.Int.{ℤ, pos, negsuc, minus_one, is_negative}
use native.Mathlib.Nat.{mod-lt}
use harmotty.TerminalPolicy.Search.{wrapped_control_index, wrapped_control_index_inverse}

pub data WorkspaceNavigationAction : Type 0 where
  nothing next_tab previous_tab focus_left_pane focus_right_pane : WorkspaceNavigationAction

-- The keys that are held with a key code.
pub record KeyEvent : Type 0 where
  pub key_code : ℕ
  pub ctrl_key : Bool
  pub alt_key : Bool
  pub shift_key : Bool

unfoldable pub is_terminal_search_shortcut : KeyEvent → Bool
is_terminal_search_shortcut e = e.key_code == 2022 && e.ctrl_key && e.alt_key && not e.shift_key

unfoldable pub transparency_shortcut_direction : KeyEvent → ℤ
transparency_shortcut_direction e =
    if not e.ctrl_key || not e.alt_key
    then pos 0
    else if e.key_code == 2057
    then minus_one
    else if e.key_code == 2058
    then pos 1
    else pos 0

unfoldable pub font_size_shortcut_direction : KeyEvent → ℤ
font_size_shortcut_direction e =
    if not e.ctrl_key || e.alt_key
    then pos 0
    else if e.key_code == 2057
    then minus_one
    else if e.key_code == 2058
    then pos 1
    else pos 0

unfoldable pub workspace_navigation_action : KeyEvent → WorkspaceNavigationAction
workspace_navigation_action e =
    if not e.ctrl_key
    then nothing
    else if e.key_code == 2049 && not e.alt_key
    then (if e.shift_key then previous_tab else next_tab)
    else if e.alt_key && not e.shift_key && e.key_code == 2014
    then focus_left_pane
    else if e.alt_key && not e.shift_key && e.key_code == 2015
    then focus_right_pane
    else nothing

-- The tab that a direction leads to from outside the tabs.
abbrev pub entry_tab : ℕ → ℤ → ℤ
entry_tab n direction = if is_negative direction then pos n else pos 0

unfoldable pub wrapped_tab_index : ℤ → ℤ → ℤ → ℤ
wrapped_tab_index current (negsuc n) direction = minus_one
wrapped_tab_index current (pos zero) direction = minus_one
wrapped_tab_index (negsuc i) (pos (suc n)) direction = entry_tab n direction
wrapped_tab_index (pos i) (pos (suc n)) direction =
    if ltb i (suc n)
    then pos ((if is_negative direction then i + suc n - 1 else i + 1 + suc n) % suc n)
    else entry_tab n direction

unfoldable pub workspace_pane_index : WorkspaceNavigationAction → ℕ → ℤ
workspace_pane_index action pane_count =
    if not (pane_count == 2)
    then minus_one
    else elim action [ focus_left_pane ↦ pos 0 | focus_right_pane ↦ pos 1 | _ ↦ minus_one ]

abbrev pub moves : ℤ → ℕ
moves (pos zero) = 0
moves _ = 1

abbrev pub acts : WorkspaceNavigationAction → ℕ
acts nothing = 0
acts _ = 1

-- One key event fires at most one of the search, transparency, font size and navigation shortcuts.
shortcuts_apart :
    (e : KeyEvent)
    → (if is_terminal_search_shortcut e then 1 else 0)
        + moves (transparency_shortcut_direction e)
        + moves (font_size_shortcut_direction e)
        + acts (workspace_navigation_action e)
      ≤ 1
unfolding is_terminal_search_shortcut transparency_shortcut_direction font_size_shortcut_direction
    workspace_navigation_action
shortcuts_apart e = ground arith

-- Among the tabs, the next and the previous tab wrap as the focus of the search box does.
pub wrapped_tab_index-control :
    (i n : ℕ) (direction : ℤ)
    → i < suc n
    → wrapped_tab_index (pos i) (pos (suc n)) direction
      ≡ wrapped_control_index (pos i) (pos (suc n)) (is_negative direction)
unfolding wrapped_tab_index wrapped_control_index
wrapped_tab_index-control i n (pos d) h = rw (lt→ltb i (suc n) h) refl
wrapped_tab_index-control i n (negsuc d) h = rw (lt→ltb i (suc n) h) refl

entry_tab_bounds : (n : ℕ) (direction : ℤ) → (k : ℕ) × (entry_tab n direction ≡ pos k) × (k < suc n)
entry_tab_bounds n (pos d) = (0, refl, omega arith)
entry_tab_bounds n (negsuc d) = (n, refl, omega arith)

-- From any index, inside the tabs or not, either direction leads to a tab.
pub wrapped_tab_index_bounds :
    (current direction : ℤ) (n : ℕ)
    → (k : ℕ) × (wrapped_tab_index current (pos (suc n)) direction ≡ pos k) × (k < suc n)
unfolding wrapped_tab_index
wrapped_tab_index_bounds (negsuc i) direction n = entry_tab_bounds n direction
wrapped_tab_index_bounds (pos i) direction n = elim (Bool-cases (ltb i (suc n))) [
  | inl e ↦ rw e (_, refl, mod-lt _ (omega arith))
  | inr e ↦ rw e (entry_tab_bounds n direction)
]

abbrev pub opposite : ℤ → ℤ
opposite direction = if is_negative direction then pos 1 else minus_one

opposite_negative : (direction : ℤ) → is_negative (opposite direction) ≡ not (is_negative direction)
opposite_negative (pos d) = refl
opposite_negative (negsuc d) = refl

-- The previous tab of the next tab is the tab, and the other way round.
pub wrapped_tab_index_inverse :
    (i n : ℕ) (direction : ℤ)
    → i < suc n
    → wrapped_tab_index
        (wrapped_tab_index (pos i) (pos (suc n)) direction)
        (pos (suc n))
        (opposite direction)
      ≡ pos i
wrapped_tab_index_inverse i n direction h =
    let (k, at_k, inside) = wrapped_tab_index_bounds (pos i) direction n in
    let as_control = wrapped_tab_index-control i n direction h in
    let k_control : wrapped_control_index (pos i) (pos (suc n)) (is_negative direction) ≡ pos k =
      sym as_control ∙ at_k in
    rw
      (
        at_k,
        wrapped_tab_index-control k n (opposite direction) inside,
        opposite_negative direction,
        ← k_control,
      )
      (wrapped_control_index_inverse i n (is_negative direction) h)
