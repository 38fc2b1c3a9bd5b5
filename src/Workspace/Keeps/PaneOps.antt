-- ===== src/Workspace/Keeps/PaneOps.antt =====
-- The assignments to a pane keep the invariant.
use harmotty.Prelude.{
  ◌≡◌, refl, ap, List, [], ◌∷◌, map, Text, eq_text, Bool-cases, Option-cases, inl, inr,
}
use harmotty.Workspace.State.{
  PaneInfo, TabInfo, AppViewModel, SshSessionState, TerminalMode, find_pane, get_pane, update_panes,
  update_in_tabs,
}
use harmotty.Workspace.Panes.{
  update_pane_state, update_pane_mode, title_tabs, update_pane_title, mark_pane_attention,
  clear_pane_attention,
}
use harmotty.Workspace.Valid.{shape, pane_ids, IsValid}

module _ (id : Text) (f : PaneInfo → PaneInfo) (keep : (p : PaneInfo) → (f p).id ≡ p.id) where
  pane_ids-update_panes : (ps : List PaneInfo) → pane_ids (update_panes id f ps) ≡ pane_ids ps
  unfolding update_panes
  pane_ids-update_panes [] = refl
  pane_ids-update_panes (p ∷ ps) = elim (Bool-cases (eq_text p.id id)) [
    | inl e ↦ rw e (ap (◌∷ pane_ids ps) (keep p))
    | inr e ↦ rw e (ap (p.id ∷◌) (pane_ids-update_panes ps))
  ]

  shapes-update_in_tabs : (ts : List TabInfo) → map shape (update_in_tabs id f ts) ≡ map shape ts
  unfolding update_in_tabs
  shapes-update_in_tabs [] = refl
  shapes-update_in_tabs (t ∷ ts) = elim (Option-cases (find_pane id t.panes)) [
    | inl e ↦ rw (e, update_in_tabs) (ap (shape t ∷◌) (shapes-update_in_tabs ts))
    | inr (p, e) ↦ rw (e, update_in_tabs) (rw (pane_ids-update_panes t.panes) refl)
  ]

  -- A change of a pane that keeps its id keeps the invariant.
  update_in_tabs-IsValid :
      (s : AppViewModel) → IsValid s → IsValid (record s { tabs = update_in_tabs id f s.tabs })
  update_in_tabs-IsValid s v = rw (shapes-update_in_tabs s.tabs) v

shapes-title_tabs :
    (id title : Text) (ts : List TabInfo) → map shape (title_tabs id title ts) ≡ map shape ts
unfolding title_tabs
shapes-title_tabs id title [] = refl
shapes-title_tabs id title (t ∷ ts) = elim (Bool-cases (eq_text t.active_pane_id id)) [
  | inl e ↦ rw e (ap (shape t ∷◌) (shapes-title_tabs id title ts))
  | inr e ↦ rw e (ap (shape t ∷◌) (shapes-title_tabs id title ts))
]

module _ (s : AppViewModel) (id : Text) (v : IsValid s) where
  pub update_pane_state-IsValid : (state : SshSessionState) → IsValid (update_pane_state s id state)
  unfolding update_pane_state
  update_pane_state-IsValid state = update_in_tabs-IsValid id _ (λ p. refl) s v

  pub update_pane_mode-IsValid : (mode : TerminalMode) → IsValid (update_pane_mode s id mode)
  unfolding update_pane_mode
  update_pane_mode-IsValid mode = update_in_tabs-IsValid id _ (λ p. refl) s v

  pub update_pane_title-IsValid : (title : Text) → IsValid (update_pane_title s id title)
  unfolding update_pane_title
  update_pane_title-IsValid title = elim (Option-cases (get_pane s id)) [
    | inl e ↦ rw (e, update_pane_title) v
    | inr (p, e) ↦
        rw (e, update_pane_title, shapes-title_tabs id title)
          (update_in_tabs-IsValid id _ (λ q. refl) s v)
  ]

  pub mark_pane_attention-IsValid : IsValid (mark_pane_attention s id)
  unfolding mark_pane_attention
  mark_pane_attention-IsValid = elim (Option-cases (get_pane s id)) [
    | inl e ↦ rw (e, mark_pane_attention) v
    | inr (p, e) ↦ elim (Bool-cases p.needs_attention) [
      | inl marked ↦ rw (e, mark_pane_attention, marked) v
      | inr unmarked ↦
          rw (e, mark_pane_attention, unmarked) (update_in_tabs-IsValid id _ (λ q. refl) s v)
    ]
  ]

  pub clear_pane_attention-IsValid : IsValid (clear_pane_attention s id)
  unfolding clear_pane_attention
  clear_pane_attention-IsValid = elim (Option-cases (get_pane s id)) [
    | inl e ↦ rw (e, clear_pane_attention) v
    | inr (p, e) ↦ elim (Bool-cases p.needs_attention) [
      | inl marked ↦
          rw (e, clear_pane_attention, marked) (update_in_tabs-IsValid id _ (λ q. refl) s v)
      | inr unmarked ↦ rw (e, clear_pane_attention, unmarked) v
    ]
  ]
