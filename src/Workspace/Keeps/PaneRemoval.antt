-- ===== src/Workspace/Keeps/PaneRemoval.antt =====
-- Removing and choosing a pane keep the invariant.
use harmotty.Prelude.{
  ℕ, zero, suc, ◌+◌, ◌-◌, ◌≤◌, min, ◌≡◌, refl, ap, Option, none, some, List, [], ◌∷◌, arith, Text,
  eq_text, eq_text_refl, eq_text→eq, ◌≢◌, leb, length, get_elem?, erase_idx, modify, Bool-cases,
  Option-cases, inl, inr, length-erase_idx, get_elem?-lt, lt-length_of_get_elem?,
}
use harmotty.Workspace.State.{
  PaneInfo, TabInfo, AppViewModel, get_pane, find_tab_index, find_pane_index,
}
use harmotty.Workspace.Panes.{drop_pane, retitle, remove_pane, set_active_pane}
use harmotty.Workspace.Valid.{shape, hit, pane_ids, count_id, IsValidShape, IsValid, All-get_elem?}
use harmotty.Workspace.Keeps.TabOps.{hit_ne, hit_self}
use harmotty.Workspace.Keeps.PaneSets.{length-pane_ids, shrink-IsValid}

-- The index of a pane is in range, and the pane there has the id.
find_pane_index-eq-some :
    (id : Text) (ps : List PaneInfo) (j : ℕ)
    → find_pane_index id ps ≡ some j
    → (p : PaneInfo) × (get_elem? ps j ≡ some p) × (p.id ≡ id)
unfolding find_pane_index
find_pane_index-eq-some id [] j h = absurd (cc)
find_pane_index-eq-some id (p ∷ ps) j h = elim (Bool-cases (eq_text p.id id)) [
  | inl e ↦ (p, ground arith, eq_text→eq p.id id e)
  | inr e ↦ elim (Option-cases (find_pane_index id ps)) [
    | inl no_index ↦ absurd (ground arith)
    | inr (k, at) ↦
        let (q, there, same) = find_pane_index-eq-some id ps k at in
        (q, let next : j ≡ suc k = ground arith in rw next there, same)
  ]
]

module _ (id : Text) where
  count_id-get_elem? :
      (ps : List PaneInfo) (j : ℕ) (p : PaneInfo)
      → get_elem? ps j ≡ some p
      → p.id ≡ id
      → 1 ≤ count_id id (pane_ids ps)
  count_id-get_elem? [] j p h e = absurd (cc)
  count_id-get_elem? (q ∷ ps) zero p h e =
      let same : q.id ≡ id = cc in rw same (omega (arith, hit_self id))
  count_id-get_elem? (q ∷ ps) (suc j) p h e = omega (arith, count_id-get_elem? ps j p h e)

  count_id-erase_idx :
      (ps : List PaneInfo) (j : ℕ) (p : PaneInfo)
      → get_elem? ps j ≡ some p
      → count_id id (pane_ids (erase_idx ps j)) + hit p.id id ≡ count_id id (pane_ids ps)
  count_id-erase_idx [] j p h = absurd (cc)
  count_id-erase_idx (q ∷ ps) zero p h = let same : q ≡ p = cc in rw same (omega arith)
  count_id-erase_idx (q ∷ ps) (suc j) p h = omega (arith, count_id-erase_idx ps j p h)

-- The tab without one of its two panes.
module _ (removed_id : Text) (j : ℕ) (t : TabInfo) (p : PaneInfo)
    (at : get_elem? t.panes j ≡ some p) (named : p.id ≡ removed_id) (two : 2 ≤ length t.panes)
    (valid : IsValidShape (shape t)) where
  length-rest : suc (length (erase_idx t.panes j)) ≡ length t.panes
  length-rest = length-erase_idx t.panes j (lt-length_of_get_elem? t.panes j at)

  length-drop_pane : suc (length (pane_ids (drop_pane removed_id j t).panes)) ≡ length t.panes
  unfolding drop_pane
  length-drop_pane = omega (arith, length-rest, length-pane_ids (erase_idx t.panes j))

  count_id-drop_pane :
      (id : Text)
      → count_id id (pane_ids (drop_pane removed_id j t).panes) ≤ count_id id (pane_ids t.panes)
  unfolding drop_pane
  count_id-drop_pane id = omega (arith, count_id-erase_idx id t.panes j p at)

  drop_pane-active :
      1
      ≤ count_id
          (drop_pane removed_id j t).active_pane_id
          (pane_ids (drop_pane removed_id j t).panes)
  unfolding drop_pane
  drop_pane-active = elim (Bool-cases (eq_text t.active_pane_id removed_id)) [
    | inl e ↦
        let k = min j (length (erase_idx t.panes j) - 1) in
        let (q, there) = get_elem?-lt (erase_idx t.panes j) k (omega (arith, length-rest)) in
        rw (e, there) (count_id-get_elem? q.id (erase_idx t.panes j) k q there refl)
    | inr e ↦
        let other : p.id ≢ t.active_pane_id = λ same. cc (eq_text_refl removed_id) in
        rw e (
          omega (
            arith,
            count_id-erase_idx t.active_pane_id t.panes j p at,
            hit_ne p.id t.active_pane_id other,
            valid.active_there,
          ))
  ]

  drop_pane-IsValidShape : IsValidShape (shape (drop_pane removed_id j t))
  drop_pane-IsValidShape = record {
    some_pane = omega (arith, length-drop_pane);
    two_panes = omega (arith, length-drop_pane, length-pane_ids t.panes, valid.two_panes);
    active_there = drop_pane-active;
  }

shape-retitle : (o : Option PaneInfo) (t : TabInfo) → shape (retitle o t) ≡ shape t
unfolding retitle
shape-retitle none t = refl
shape-retitle (some p) t = refl

module _ (removed_id : Text) (j : ℕ) (o : Option PaneInfo) (u : TabInfo) where
  id-retitle : (retitle o (drop_pane removed_id j u)).id ≡ u.id
  unfolding drop_pane
  id-retitle = ap (λ x. x.id) (shape-retitle o (drop_pane removed_id j u))

  is_focused-retitle : (retitle o (drop_pane removed_id j u)).is_focused ≡ u.is_focused
  unfolding drop_pane
  is_focused-retitle = ap (λ x. x.is_focused) (shape-retitle o (drop_pane removed_id j u))

  pane_ids-retitle :
      pane_ids (retitle o (drop_pane removed_id j u)).panes
      ≡ pane_ids (drop_pane removed_id j u).panes
  pane_ids-retitle = ap (λ x. x.panes) (shape-retitle o (drop_pane removed_id j u))

remove_at-IsValid :
    (s : AppViewModel) (i : ℕ) (t : TabInfo) (removed_id : Text) (j : ℕ) (o : Option PaneInfo)
    → get_elem? s.tabs i ≡ some t
    → 2 ≤ length t.panes
    → find_pane_index removed_id t.panes ≡ some j
    → IsValid s
    → IsValid (record s { tabs = modify s.tabs i (λ old. retitle o (drop_pane removed_id j old)) })
remove_at-IsValid s i t removed_id j o at two found v =
    let (p, there, named) = find_pane_index-eq-some removed_id t.panes j found in
    let valid = All-get_elem? IsValidShape s.tabs i t at v.each in
    shrink-IsValid s i (λ old. retitle o (drop_pane removed_id j old)) t at
      (id-retitle removed_id j o) (is_focused-retitle removed_id j o)
      (rw (shape-retitle o (drop_pane removed_id j t))
        (drop_pane-IsValidShape removed_id j t p there named two valid))
      v
      (λ id.
        rw (pane_ids-retitle removed_id j o t)
          (count_id-drop_pane removed_id j t p there named two valid id))

pub remove_pane-IsValid :
    (s : AppViewModel) (target removed_id : Text)
    → IsValid s
    → IsValid (remove_pane s target removed_id).0
unfolding remove_pane
remove_pane-IsValid s target removed_id v = elim (Option-cases (find_tab_index target s.tabs)) [
  | inl e ↦ rw (e, remove_pane) v
  | inr (i, e) ↦ elim (Option-cases (get_elem? s.tabs i)) [
    | inl out ↦ rw (e, out, remove_pane) v
    | inr (t, at) ↦ elim (Bool-cases (leb (length t.panes) 1)) [
      | inl single ↦ rw (e, at, single, remove_pane) v
      | inr two ↦ elim (Option-cases (find_pane_index removed_id t.panes)) [
        | inl missing ↦ rw (e, at, two, missing, remove_pane) v
        | inr (j, found) ↦
            rw (e, at, two, found, remove_pane)
              (remove_at-IsValid s i t removed_id j _ at (ground arith) found v)
      ]
    ]
  ]
]

-- Choosing a pane of the tab.
set_active_pane_at-IsValid :
    (s : AppViewModel) (i : ℕ) (t : TabInfo) (id title : Text) (j : ℕ)
    → get_elem? s.tabs i ≡ some t
    → find_pane_index id t.panes ≡ some j
    → IsValid s
    → IsValid (record s {
      tabs = modify s.tabs i (λ old. record old { active_pane_id = id; title = title });
    })
set_active_pane_at-IsValid s i t id title j at found v =
    let (p, there, named) = find_pane_index-eq-some id t.panes j found in
    let valid = All-get_elem? IsValidShape s.tabs i t at v.each in
    shrink-IsValid s i (λ old. record old { active_pane_id = id; title = title }) t at (λ u. refl)
      (λ u. refl)
      (record {
        some_pane = valid.some_pane;
        two_panes = valid.two_panes;
        active_there = count_id-get_elem? id t.panes j p there named;
      })
      v (λ k. omega arith)

pub set_active_pane-IsValid :
    (s : AppViewModel) (target id : Text) → IsValid s → IsValid (set_active_pane s target id)
unfolding set_active_pane
set_active_pane-IsValid s target id v = elim (Option-cases (find_tab_index target s.tabs)) [
  | inl e ↦ rw (e, set_active_pane) v
  | inr (i, e) ↦ elim (Option-cases (get_pane s id)) [
    | inl no_pane ↦ rw (e, no_pane, set_active_pane) v
    | inr (pane, found) ↦ elim (Option-cases (get_elem? s.tabs i)) [
      | inl out ↦ rw (e, found, out, set_active_pane) v
      | inr (t, at) ↦ elim (Option-cases (find_pane_index id t.panes)) [
        | inl missing ↦ rw (e, found, at, missing, set_active_pane) v
        | inr (j, there) ↦
            rw (e, found, at, there, set_active_pane)
              (set_active_pane_at-IsValid s i t id pane.title j at there v)
      ]
    ]
  ]
]
