-- ===== src/Tests/Windows.antt =====
-- Runs of the workspace.
use mathlib.Core.Option
use harmotty.Prelude.{◌≡◌, ◌≢◌, refl, sym, ap, ◌∙◌, map, some, List, [], ◌∷◌, codes}
use harmotty.Prelude.Int.{pos}
use harmotty.Prelude.Decimal.{to_text}
use harmotty.Workspace.State.{
  TabInfo, PaneInfo, new, get_active_tab, get_active_pane, get_pane, find_in_tabs, find_pane,
  or_else, find_tab_index, find_pane_index, pane_id, tab_id,
}
use harmotty.Workspace.Tabs.{add_tab, push_tab, set_active_tab, focus_from}
use harmotty.Workspace.Panes.{split_pane, add_pane, remove_pane, drop_pane, retitle, id_of}
use harmotty.Workspace.Valid.{IsValid}
use harmotty.Workspace.Session.{
  Operation, add, split, remove_one, activate, run, perform, run-IsValid, get_active_pane-some,
}

-- Two tabs, the first one split, a pane closed and the first tab shown again.
abbrev working : List Operation
working =
    add (codes "one")
    ∷ split (tab_id 1)
    ∷ add (codes "two")
    ∷ remove_one (tab_id 1) (pane_id 1)
    ∷ activate (pos 0)
    ∷ []

run-IsValid_example : IsValid (run new working)
run-IsValid_example = run-IsValid working

-- The ids of the tabs, and the id and the pane that the window ends with.
working_tabs : map (λ t. t.id) (run new working).tabs ≡ tab_id 1 ∷ tab_id 2 ∷ []
unfolding run perform add_tab push_tab set_active_tab focus_from split_pane add_pane remove_pane
    drop_pane retitle id_of find_tab_index find_pane_index or_else find_pane to_text
working_tabs = refl

working_pane : Option.map (λ p. p.id) (get_active_pane (run new working)) ≡ some (pane_id 2)
unfolding run perform add_tab push_tab set_active_tab focus_from split_pane add_pane remove_pane
    drop_pane retitle id_of find_tab_index find_pane_index get_active_pane get_active_tab get_pane
    find_in_tabs find_pane or_else to_text
working_pane = refl

has_tabs : (run new working).tabs ≢ []
has_tabs e = absurd (no_tabs (ap (map (λ t. t.id)) (sym e) ∙ working_tabs))
  where
    no_tabs : [] ≡ tab_id 1 ∷ tab_id 2 ∷ [] → ⊥
    no_tabs f = cc

get_active_pane-some_example :
    (tab : TabInfo) × (pane : PaneInfo) × (get_active_tab (run new working) ≡ some tab)
    × (get_active_pane (run new working) ≡ some pane)
    × (pane.id ≡ tab.active_pane_id)
get_active_pane-some_example = get_active_pane-some working has_tabs
