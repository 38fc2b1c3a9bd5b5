-- ===== src/Workspace/Tabs.antt =====
-- The operations of `AppViewModel` on tabs (entry/src/main/ets/viewmodel/AppViewModel.ets).
use harmotty.Prelude.{
  ℕ, suc, ◌+◌, ◌-◌, false, List, [], ◌∷◌, ◌++◌, Text, ltb, ◌==◌, if◌then◌else◌, length, erase_idx,
  modify, min,
}
use harmotty.Prelude.Int.{ℤ, pos, negsuc, minus_one}
use harmotty.Workspace.State.{TabInfo, AppViewModel, pane_id, tab_id, new_pane}

-- `tabs[i].isFocused = (i === index)` for every `i`, from position `k` on.
unfoldable pub focus_from : ℕ → ℕ → List TabInfo → List TabInfo
focus_from k index [] = []
focus_from k index (t ∷ ts) = record t { is_focused = k == index } ∷ focus_from (suc k) index ts

unfoldable pub set_active_tab : AppViewModel → ℤ → AppViewModel
unfolding focus_from
set_active_tab s (negsuc n) = s
set_active_tab s (pos index) =
    if ltb index (length s.tabs)
    then record s { tabs = focus_from 0 index s.tabs; active_tab_index = pos index }
    else s

abbrev pub new_tab : AppViewModel → Text → TabInfo
new_tab s title = record {
  id = tab_id s.next_tab_id;
  title = title;
  is_focused = false;
  panes = new_pane (pane_id s.next_pane_id) title ∷ [];
  active_pane_id = pane_id s.next_pane_id;
}

-- The state with one more tab, before it becomes active.
unfoldable pub push_tab : AppViewModel → Text → AppViewModel
push_tab s title = record s {
  tabs = s.tabs ++ new_tab s title ∷ [];
  next_tab_id = s.next_tab_id + 1;
  next_pane_id = s.next_pane_id + 1;
}

unfoldable pub add_tab : AppViewModel → Text → AppViewModel
add_tab s title = set_active_tab (push_tab s title) (pos (length (push_tab s title).tabs - 1))

-- What `removeTab` makes active when the tab at `index` is gone.
unfoldable pub refocus : ℕ → ℤ → AppViewModel → AppViewModel
refocus index previous s = elim s.tabs [
  | [] ↦ record s { active_tab_index = minus_one }
  | _ ↦ elim previous [
    | negsuc n ↦ s
    | pos active ↦
        if ltb index active
        then set_active_tab s (pos (active - 1))
        else if index == active
        then set_active_tab s (pos (min index (length s.tabs - 1)))
        else set_active_tab s (pos active)
  ]
]

unfoldable pub remove_tab : AppViewModel → ℤ → AppViewModel
remove_tab s (negsuc n) = s
remove_tab s (pos index) =
    if ltb index (length s.tabs)
    then refocus index s.active_tab_index (record s { tabs = erase_idx s.tabs index })
    else s

unfoldable pub update_tab_title : AppViewModel → ℤ → Text → AppViewModel
update_tab_title s (negsuc n) title = s
update_tab_title s (pos index) title = record s {
  tabs = modify s.tabs index (λ tab. record tab { title = title });
}
