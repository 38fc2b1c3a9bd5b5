-- ===== src/Workspace/Session.antt =====
-- A session of the window: any sequence of the operations of `AppViewModel`, from an empty window.
use harmotty.Prelude.{
  ℕ, suc, zero, ◌≡◌, ◌≢◌, ◌≤◌, refl, ◌∙◌, some, List, [], ◌∷◌, arith, Text, eq_text, eq_text→eq,
  length, get_elem?, get_elem?-lt, Bool-cases, Option-cases, inl, inr,
}
use harmotty.Prelude.Int.{ℤ, pos, negsuc}
use harmotty.Workspace.State.{
  PaneInfo, TabInfo, AppViewModel, SshSessionState, TerminalMode, new, get_pane, find_pane,
  find_in_tabs, or_else, get_active_tab, get_active_pane,
}
use harmotty.Workspace.Tabs.{add_tab, remove_tab, set_active_tab, update_tab_title}
use harmotty.Workspace.Panes.{
  split_pane, remove_pane, set_active_pane, update_pane_state, update_pane_mode, update_pane_title,
  mark_pane_attention, clear_pane_attention,
}
use harmotty.Workspace.Valid.{
  IsValid, new-IsValid, pane_ids, count_id, IsValidShape, All-get_elem?, length-map-shape,
}
use harmotty.Workspace.Keeps.TabOps.{
  add_tab-IsValid, remove_tab-IsValid, set_active_tab-IsValid, update_tab_title-IsValid,
}
use harmotty.Workspace.Keeps.PaneOps.{
  update_pane_state-IsValid, update_pane_mode-IsValid, update_pane_title-IsValid,
  mark_pane_attention-IsValid, clear_pane_attention-IsValid,
}
use harmotty.Workspace.Keeps.PaneSets.{split_pane-IsValid}
use harmotty.Workspace.Keeps.PaneRemoval.{remove_pane-IsValid, set_active_pane-IsValid}

-- The public methods that change the state.
pub data Operation : Type 0 where
  add : Text → Operation
  split : Text → Operation
  remove_one : Text → Text → Operation
  choose : Text → Text → Operation
  set_state : Text → SshSessionState → Operation
  set_mode : Text → TerminalMode → Operation
  set_title : Text → Text → Operation
  mark clear : Text → Operation
  close : ℤ → Operation
  activate : ℤ → Operation
  rename : ℤ → Text → Operation

unfoldable pub perform : AppViewModel → Operation → AppViewModel
perform s (add title) = add_tab s title
perform s (split id) = (split_pane s id).0
perform s (remove_one target id) = (remove_pane s target id).0
perform s (choose target id) = set_active_pane s target id
perform s (set_state id state) = update_pane_state s id state
perform s (set_mode id mode) = update_pane_mode s id mode
perform s (set_title id title) = update_pane_title s id title
perform s (mark id) = mark_pane_attention s id
perform s (clear id) = clear_pane_attention s id
perform s (close index) = remove_tab s index
perform s (activate index) = set_active_tab s index
perform s (rename index title) = update_tab_title s index title

unfoldable pub run : AppViewModel → List Operation → AppViewModel
run s [] = s
run s (o ∷ os) = run (perform s o) os

pub perform-IsValid : (s : AppViewModel) (o : Operation) → IsValid s → IsValid (perform s o)
unfolding perform
perform-IsValid s (add title) v = add_tab-IsValid s title v
perform-IsValid s (split id) v = split_pane-IsValid s id v
perform-IsValid s (remove_one target id) v = remove_pane-IsValid s target id v
perform-IsValid s (choose target id) v = set_active_pane-IsValid s target id v
perform-IsValid s (set_state id state) v = update_pane_state-IsValid s id v state
perform-IsValid s (set_mode id mode) v = update_pane_mode-IsValid s id v mode
perform-IsValid s (set_title id title) v = update_pane_title-IsValid s id v title
perform-IsValid s (mark id) v = mark_pane_attention-IsValid s id v
perform-IsValid s (clear id) v = clear_pane_attention-IsValid s id v
perform-IsValid s (close index) v = remove_tab-IsValid s index v
perform-IsValid s (activate index) v = set_active_tab-IsValid s index v
perform-IsValid s (rename index title) v = update_tab_title-IsValid s index title v

kept-IsValid : (os : List Operation) (s : AppViewModel) → IsValid s → IsValid (run s os)
unfolding run
kept-IsValid [] s v = v
kept-IsValid (o ∷ os) s v = kept-IsValid os (perform s o) (perform-IsValid s o v)

-- After any sequence of operations on a new window the tabs are well formed: the active index is
-- that of a tab or -1 if there is none, that tab alone is focused, each tab has one or two panes
-- with its active pane among them, no tab id or pane id is used twice, and the next ids are unused.
pub run-IsValid : (os : List Operation) → IsValid (run new os)
run-IsValid os = kept-IsValid os new new-IsValid

nil_of_length : (ts : List TabInfo) → length ts ≡ 0 → ts ≡ []
nil_of_length [] h = refl
nil_of_length (t ∷ ts) h = absurd (omega arith)

find_pane-some :
    (id : Text) (ps : List PaneInfo)
    → 1 ≤ count_id id (pane_ids ps)
    → (p : PaneInfo) × (find_pane id ps ≡ some p) × (p.id ≡ id)
unfolding find_pane
find_pane-some id [] h = absurd (omega arith)
find_pane-some id (p ∷ ps) h = elim (Bool-cases (eq_text p.id id)) [
  | inl e ↦ (p, rw e refl, eq_text→eq p.id id e)
  | inr e ↦ rw e (find_pane-some id ps (omega (arith, (rw e at h))))
]

find_pane-id :
    (id : Text) (ps : List PaneInfo) (p : PaneInfo) → find_pane id ps ≡ some p → p.id ≡ id
unfolding find_pane
find_pane-id id [] p h = absurd (cc)
find_pane-id id (q ∷ ps) p h = elim (Bool-cases (eq_text q.id id)) [
  | inl e ↦ let same : q ≡ p = ground arith in rw (← same) (eq_text→eq q.id id e)
  | inr e ↦ find_pane-id id ps p (rw e at h)
]

find_in_tabs-some :
    (id : Text) (ts : List TabInfo) (i : ℕ) (t : TabInfo)
    → get_elem? ts i ≡ some t
    → 1 ≤ count_id id (pane_ids t.panes)
    → (p : PaneInfo) × (find_in_tabs id ts ≡ some p) × (p.id ≡ id)
unfolding find_in_tabs or_else
find_in_tabs-some id [] i t at h = absurd (cc)
find_in_tabs-some id (u ∷ ts) zero t at h =
    let same : u ≡ t = cc in
    let (p, found, named) = find_pane-some id u.panes (rw same h) in (p, rw found refl, named)
find_in_tabs-some id (u ∷ ts) (suc i) t at h = elim (Option-cases (find_pane id u.panes)) [
  | inl e ↦ let (p, found, named) = find_in_tabs-some id ts i t at h in (p, rw e found, named)
  | inr (p, e) ↦ (p, rw e refl, find_pane-id id u.panes p e)
]

get_active_tab-at :
    (s : AppViewModel) (i : ℕ) (tab : TabInfo)
    → s.active_tab_index ≡ pos i
    → get_elem? s.tabs i ≡ some tab
    → get_active_tab s ≡ some tab
unfolding get_active_tab
get_active_tab-at s i tab e at = rw e at

get_active_pane-at :
    (s : AppViewModel) (tab : TabInfo)
    → get_active_tab s ≡ some tab
    → get_active_pane s ≡ find_in_tabs tab.active_pane_id s.tabs
unfolding get_active_pane get_pane
get_active_pane-at s tab e = rw (e, get_active_pane) refl

active_pane_at :
    (s : AppViewModel) (a : ℤ)
    → s.active_tab_index ≡ a
    → IsValid s
    → s.tabs ≢ []
    → (tab : TabInfo) × (pane : PaneInfo) × (get_active_tab s ≡ some tab)
      × (get_active_pane s ≡ some pane)
      × (pane.id ≡ tab.active_pane_id)
active_pane_at s (negsuc n) e v h =
    absurd
      (h (nil_of_length s.tabs (omega (arith, (rw e at v.is_active).1, length-map-shape s.tabs))))
active_pane_at s (pos i) e v h =
    let (tab, at) =
      get_elem?-lt s.tabs i (omega (arith, (rw e at v.is_active), length-map-shape s.tabs)) in
    let valid = All-get_elem? IsValidShape s.tabs i tab at v.each in
    let (pane, found, named) =
      find_in_tabs-some tab.active_pane_id s.tabs i tab at valid.active_there in
    let active = get_active_tab-at s i tab e at in
    (tab, pane, active, get_active_pane-at s tab active ∙ found, named)

-- While there is a tab, there is an active pane, and it has the id that the active tab names.
pub get_active_pane-some :
    (os : List Operation)
    → (run new os).tabs ≢ []
    → (tab : TabInfo) × (pane : PaneInfo) × (get_active_tab (run new os) ≡ some tab)
      × (get_active_pane (run new os) ≡ some pane)
      × (pane.id ≡ tab.active_pane_id)
get_active_pane-some os h =
    active_pane_at (run new os) (run new os).active_tab_index refl (run-IsValid os) h
