-- ===== src/Workspace/Panes.antt =====
-- The operations of `AppViewModel` on panes (entry/src/main/ets/viewmodel/AppViewModel.ets).
use harmotty.Prelude.{
  ℕ, ◌+◌, ◌-◌, true, false, not, Option, none, some, List, [], ◌∷◌, ◌++◌, Text, codes, eq_text, ltb,
  leb, if◌then◌else◌, length, get_elem?, erase_idx, modify, min,
}
use harmotty.Workspace.State.{
  PaneInfo, TabInfo, AppViewModel, SshSessionState, TerminalMode, pane_id, new_pane, find_in_tabs,
  get_pane, find_tab_index, find_pane_index, update_in_tabs,
}

unfoldable pub add_pane : PaneInfo → TabInfo → TabInfo
add_pane pane tab = record tab { panes = tab.panes ++ pane ∷ []; active_pane_id = pane.id }

-- An operation with the pane that it returns.
unfoldable pub split_pane : AppViewModel → Text → AppViewModel × Option PaneInfo
unfolding find_tab_index add_pane
split_pane s id = elim (find_tab_index id s.tabs) [
  | none ↦ (s, none)
  | some i ↦ elim (get_elem? s.tabs i) [
    | none ↦ (s, none)
    | some tab ↦
        if ltb 1 (length tab.panes)
        then (s, none)
        else (let pane = new_pane (pane_id s.next_pane_id) (codes "ltty") in
            (
              record s {
                tabs = modify s.tabs i (add_pane pane);
                next_pane_id = s.next_pane_id + 1;
              },
              some pane,
            ))
  ]
]

unfoldable pub id_of : Option PaneInfo → Text
id_of none = []
id_of (some p) = p.id

-- `panes.splice(paneIndex, 1)`, and the pane that becomes active if the active one is removed.
unfoldable pub drop_pane : Text → ℕ → TabInfo → TabInfo
unfolding id_of
drop_pane removed_id i tab =
    let panes = erase_idx tab.panes i in
    record tab {
      panes = panes;
      active_pane_id =
          if eq_text tab.active_pane_id removed_id
          then id_of (get_elem? panes (min i (length panes - 1)))
          else tab.active_pane_id;
    }

unfoldable pub retitle : Option PaneInfo → TabInfo → TabInfo
retitle none tab = tab
retitle (some p) tab = record tab { title = p.title }

unfoldable pub remove_pane : AppViewModel → Text → Text → AppViewModel × Option PaneInfo
unfolding find_tab_index find_pane_index find_in_tabs drop_pane retitle
remove_pane s target removed_id = elim (find_tab_index target s.tabs) [
  | none ↦ (s, none)
  | some i ↦ elim (get_elem? s.tabs i) [
    | none ↦ (s, none)
    | some tab ↦
        if leb (length tab.panes) 1
        then (s, none)
        else elim (find_pane_index removed_id tab.panes) [
          | none ↦ (s, none)
          | some j ↦ (
            record s {
              tabs = modify s.tabs i (λ old.
                  retitle
                    (find_in_tabs (drop_pane removed_id j tab).active_pane_id
                      (modify s.tabs i (drop_pane removed_id j)))
                    (drop_pane removed_id j old));
            },
            get_elem? tab.panes j,
          )
        ]
  ]
]

unfoldable pub set_active_pane : AppViewModel → Text → Text → AppViewModel
unfolding find_tab_index find_pane_index get_pane
set_active_pane s target id = elim (find_tab_index target s.tabs) [
  | none ↦ s
  | some i ↦ elim (get_pane s id) [
    | none ↦ s
    | some pane ↦ elim (get_elem? s.tabs i) [
      | none ↦ s
      | some tab ↦ elim (find_pane_index id tab.panes) [
        | none ↦ s
        | some j ↦ record s {
          tabs = modify s.tabs i (λ old. record old { active_pane_id = id; title = pane.title });
        }
      ]
    ]
  ]
]

unfoldable pub update_pane_state : AppViewModel → Text → SshSessionState → AppViewModel
unfolding update_in_tabs
update_pane_state s id state = record s {
  tabs = update_in_tabs id (λ pane. record pane { state = state }) s.tabs;
}

unfoldable pub update_pane_mode : AppViewModel → Text → TerminalMode → AppViewModel
unfolding update_in_tabs
update_pane_mode s id mode = record s {
  tabs = update_in_tabs id (λ pane. record pane { mode = mode }) s.tabs;
}

-- Every tab whose active pane has the id takes its title.
unfoldable pub title_tabs : Text → Text → List TabInfo → List TabInfo
title_tabs id title [] = []
title_tabs id title (t ∷ ts) =
    (if eq_text t.active_pane_id id then record t { title = title } else t) ∷ title_tabs id title ts

unfoldable pub update_pane_title : AppViewModel → Text → Text → AppViewModel
unfolding get_pane update_in_tabs title_tabs
update_pane_title s id title = elim (get_pane s id) [
  | none ↦ s
  | some pane ↦ record s {
    tabs = title_tabs id title (update_in_tabs id (λ old. record old { title = title }) s.tabs);
  }
]

unfoldable pub mark_pane_attention : AppViewModel → Text → AppViewModel
unfolding get_pane update_in_tabs
mark_pane_attention s id = elim (get_pane s id) [
  | none ↦ s
  | some pane ↦ if pane.needs_attention then s else record s {
    tabs = update_in_tabs id (λ old. record old { needs_attention = true }) s.tabs;
  }
]

unfoldable pub clear_pane_attention : AppViewModel → Text → AppViewModel
unfolding get_pane update_in_tabs
clear_pane_attention s id = elim (get_pane s id) [
  | none ↦ s
  | some pane ↦ if not pane.needs_attention then s else record s {
    tabs = update_in_tabs id (λ old. record old { needs_attention = false }) s.tabs;
  }
]
