-- ===== src/Workspace/State.antt =====
-- The state of `AppViewModel` (entry/src/main/ets/viewmodel/AppViewModel.ets) and its lookups.
-- A pane is held by its tab alone, so the shared objects of the source are values here; logging is
-- left out.
use harmotty.Prelude.{
  ℕ, suc, Bool, false, Option, none, some, List, [], ◌∷◌, ◌++◌, Text, codes, eq_text, if◌then◌else◌,
  get_elem?,
}
use harmotty.Prelude.Int.{ℤ, pos, negsuc, minus_one}
use harmotty.Prelude.Decimal.{to_text}
use mathlib.Core.Option

pub data TerminalMode : Type 0 where
  idle password_input connecting connected host_key_input : TerminalMode
  key_passphrase_input key_passphrase_change_input auth_challenge_input : TerminalMode

pub data SshSessionState : Type 0 where
  idle connecting host_verification_required authenticating : SshSessionState
  connected failed disconnected reconnecting : SshSessionState

pub record PaneInfo : Type 0 where
  pub id : Text
  pub title : Text
  pub state : SshSessionState
  pub mode : TerminalMode
  pub needs_attention : Bool

pub record TabInfo : Type 0 where
  pub id : Text
  pub title : Text
  pub is_focused : Bool
  pub panes : List PaneInfo
  pub active_pane_id : Text

pub record AppViewModel : Type 0 where
  pub tabs : List TabInfo
  pub active_tab_index : ℤ
  pub next_tab_id : ℕ
  pub next_pane_id : ℕ

abbrev pub new : AppViewModel
new = record { tabs = []; active_tab_index = minus_one; next_tab_id = 1; next_pane_id = 1 }

abbrev pub pane_id : ℕ → Text
pane_id n = codes "pane-" ++ to_text n

abbrev pub tab_id : ℕ → Text
tab_id n = codes "tab-" ++ to_text n

abbrev pub new_pane : Text → Text → PaneInfo
new_pane id title = record {
  id = id;
  title = title;
  state = SshSessionState.idle;
  mode = TerminalMode.idle;
  needs_attention = false;
}

-- `getPane`: the first pane with the id, in the order of tabs and panes.
unfoldable pub find_pane : Text → List PaneInfo → Option PaneInfo
find_pane id [] = none
find_pane id (p ∷ ps) = if eq_text p.id id then some p else find_pane id ps

unfoldable pub or_else : Option PaneInfo → Option PaneInfo → Option PaneInfo
or_else (some p) q = some p
or_else none q = q

unfoldable pub find_in_tabs : Text → List TabInfo → Option PaneInfo
find_in_tabs id [] = none
find_in_tabs id (t ∷ ts) = or_else (find_pane id t.panes) (find_in_tabs id ts)

unfoldable pub get_pane : AppViewModel → Text → Option PaneInfo
unfolding find_in_tabs find_pane or_else
get_pane s id = find_in_tabs id s.tabs

unfoldable pub find_tab_index : Text → List TabInfo → Option ℕ
find_tab_index id [] = none
find_tab_index id (t ∷ ts) =
    if eq_text t.id id then some 0 else Option.map suc (find_tab_index id ts)

unfoldable pub find_pane_index : Text → List PaneInfo → Option ℕ
find_pane_index id [] = none
find_pane_index id (p ∷ ps) =
    if eq_text p.id id then some 0 else Option.map suc (find_pane_index id ps)

-- The assignments to the first pane with the id.
unfoldable pub update_panes : Text → (PaneInfo → PaneInfo) → List PaneInfo → List PaneInfo
update_panes id f [] = []
update_panes id f (p ∷ ps) = if eq_text p.id id then f p ∷ ps else p ∷ update_panes id f ps

unfoldable pub update_in_tabs : Text → (PaneInfo → PaneInfo) → List TabInfo → List TabInfo
update_in_tabs id f [] = []
update_in_tabs id f (t ∷ ts) = elim (find_pane id t.panes) [
  | some p ↦ record t { panes = update_panes id f t.panes } ∷ ts
  | none ↦ t ∷ update_in_tabs id f ts
]

unfoldable pub get_active_tab : AppViewModel → Option TabInfo
get_active_tab s = elim s.active_tab_index [ pos i ↦ get_elem? s.tabs i | negsuc n ↦ none ]

unfoldable pub get_active_pane : AppViewModel → Option PaneInfo
get_active_pane s = elim (get_active_tab s) [
  | none ↦ none
  | some tab ↦ get_pane s tab.active_pane_id
]
