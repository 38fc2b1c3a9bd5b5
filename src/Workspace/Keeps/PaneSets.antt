-- ===== src/Workspace/Keeps/PaneSets.antt =====
-- Splitting a tab keeps the invariant.
use harmotty.Prelude.{
  ℕ, suc, ◌+◌, ◌≤◌, ◌≡◌, refl, sym, ap, ◌∙◌, some, List, [], ◌∷◌, ◌++◌, map, arith, Text, codes,
  ltb, length, get_elem?, modify, Bool-cases, Option-cases, inl, inr, length-append, length-modify,
}
use harmotty.Prelude.Int.{ℤ, pos, negsuc}
use mathlib.Core.List.{map-append}
use harmotty.Workspace.State.{
  PaneInfo, TabInfo, AppViewModel, pane_id, tab_id, new_pane, find_tab_index,
}
use harmotty.Workspace.Panes.{add_pane, split_pane}
use harmotty.Workspace.Valid.{
  Shape, shape, hit, pane_ids, count_id, count_panes, IsValidShape, IsValid, IsActive,
  count_id-append, count_panes-modify, count_tabs-modify, FocusFrom-modify, All-modify,
  length-map-shape,
}
use harmotty.Workspace.Keeps.TabOps.{pane_id_inj, used_once, hit_ne, hit_self}

pub length-pane_ids : (ps : List PaneInfo) → length (pane_ids ps) ≡ length ps
length-pane_ids [] = refl
length-pane_ids (p ∷ ps) = ap suc (length-pane_ids ps)

IsActive-length :
    (a : ℤ) (ts us : List Shape) → length ts ≡ length us → IsActive a ts → IsActive a us
IsActive-length (pos i) ts us e h = omega arith
IsActive-length (negsuc n) ts us e h = (h.0, omega arith)

length-shapes-modify :
    (ts : List TabInfo) (i : ℕ) (f : TabInfo → TabInfo)
    → length (map shape ts) ≡ length (map shape (modify ts i f))
length-shapes-modify ts i f =
    length-map-shape ts ∙ sym (length-modify ts i f) ∙ sym (length-map-shape (modify ts i f))

-- A change of one tab that keeps its id and focus and leaves it well formed.
module _ (s : AppViewModel) (i : ℕ) (f : TabInfo → TabInfo) (t : TabInfo)
    (at : get_elem? s.tabs i ≡ some t) (keep_id : (u : TabInfo) → (f u).id ≡ u.id)
    (keep_focus : (u : TabInfo) → (f u).is_focused ≡ u.is_focused)
    (valid : IsValidShape (shape (f t))) (v : IsValid s) where
  modify-IsValid :
      (next_pane : ℕ)
      → ((id : Text) → count_panes id (map shape (modify s.tabs i f)) ≤ 1)
      → ((n : ℕ) → next_pane ≤ n → count_panes (pane_id n) (map shape (modify s.tabs i f)) ≡ 0)
      → IsValid (record s { tabs = modify s.tabs i f; next_pane_id = next_pane })
  modify-IsValid next_pane once fresh = record {
    is_active =
        IsActive-length s.active_tab_index _ _ (length-shapes-modify s.tabs i f) v.is_active;
    focus = FocusFrom-modify s.tabs i 0 s.active_tab_index f keep_focus v.focus;
    sound = record {
      each = All-modify IsValidShape s.tabs i f t at valid v.each;
      pane_once = once;
      pane_fresh = fresh;
      tab_once = λ id. rw (count_tabs-modify id s.tabs i f keep_id) (v.tab_once id);
      tab_fresh = λ n h. rw (count_tabs-modify (tab_id n) s.tabs i f keep_id) (v.tab_fresh n h);
    };
  }

  -- No pane is added.
  pub shrink-IsValid :
      ((id : Text) → count_id id (pane_ids (f t).panes) ≤ count_id id (pane_ids t.panes))
      → IsValid (record s { tabs = modify s.tabs i f })
  shrink-IsValid fewer =
      modify-IsValid s.next_pane_id
        (λ id. omega (arith, count_panes-modify id s.tabs i f t at, fewer id, v.pane_once id))
        (λ n h. omega (
          arith,
          count_panes-modify (pane_id n) s.tabs i f t at,
          fewer (pane_id n),
          v.pane_fresh n h,
        ))

  -- One pane is added, with the next id.
  grow-IsValid :
      ((id : Text)
        → count_id id (pane_ids (f t).panes)
          ≡ count_id id (pane_ids t.panes) + hit (pane_id s.next_pane_id) id)
      → IsValid (record s { tabs = modify s.tabs i f; next_pane_id = s.next_pane_id + 1 })
  grow-IsValid more =
      modify-IsValid (s.next_pane_id + 1)
        (λ id. omega (
          arith,
          count_panes-modify id s.tabs i f t at,
          more id,
          used_once (pane_id s.next_pane_id) id (λ k. count_panes k (map shape s.tabs))
              (v.pane_once id) (v.pane_fresh s.next_pane_id (omega arith)),
        ))
        (λ n h. omega (
          arith,
          count_panes-modify (pane_id n) s.tabs i f t at,
          more (pane_id n),
          v.pane_fresh n (omega arith),
          hit_ne (pane_id s.next_pane_id) (pane_id n)
              (λ e. omega (arith, pane_id_inj s.next_pane_id n e)),
        ))

-- The tab with one more pane.
module _ (pane : PaneInfo) (t : TabInfo) where
  pane_ids-add_pane : pane_ids (add_pane pane t).panes ≡ pane_ids t.panes ++ pane.id ∷ []
  unfolding add_pane
  pane_ids-add_pane = map-append (λ p. p.id) t.panes (pane ∷ [])

  count_id-add_pane :
      (id : Text)
      → count_id id (pane_ids (add_pane pane t).panes)
        ≡ count_id id (pane_ids t.panes) + hit pane.id id
  count_id-add_pane id =
      rw pane_ids-add_pane (omega (arith, count_id-append id (pane_ids t.panes) (pane.id ∷ [])))

  length-add_pane : length (pane_ids (add_pane pane t).panes) ≡ length t.panes + 1
  length-add_pane =
      rw pane_ids-add_pane (
        omega (arith, length-append {0} (pane_ids t.panes) (pane.id ∷ []), length-pane_ids t.panes))

  add_pane-active : (add_pane pane t).active_pane_id ≡ pane.id
  unfolding add_pane
  add_pane-active = refl

  add_pane-IsValidShape : length t.panes ≤ 1 → IsValidShape (shape (add_pane pane t))
  add_pane-IsValidShape h = record {
    some_pane = omega (arith, length-add_pane);
    two_panes = omega (arith, length-add_pane);
    active_there = rw add_pane-active (omega (arith, count_id-add_pane pane.id, hit_self pane.id));
  }

split_at-IsValid :
    (s : AppViewModel) (i : ℕ) (t : TabInfo) (title : Text)
    → get_elem? s.tabs i ≡ some t
    → length t.panes ≤ 1
    → IsValid s
    → IsValid (record s {
      tabs = modify s.tabs i (add_pane (new_pane (pane_id s.next_pane_id) title));
      next_pane_id = s.next_pane_id + 1;
    })
split_at-IsValid s i t title at room v =
    let pane = new_pane (pane_id s.next_pane_id) title in
    grow-IsValid s i (add_pane pane) t at (λ u. unfold add_pane in refl)
      (λ u. unfold add_pane in refl) (add_pane-IsValidShape pane t room) v
      (count_id-add_pane pane t)

pub split_pane-IsValid : (s : AppViewModel) (id : Text) → IsValid s → IsValid (split_pane s id).0
unfolding split_pane
split_pane-IsValid s id v = elim (Option-cases (find_tab_index id s.tabs)) [
  | inl e ↦ rw (e, split_pane) v
  | inr (i, e) ↦ elim (Option-cases (get_elem? s.tabs i)) [
    | inl out ↦ rw (e, out, split_pane) v
    | inr (t, at) ↦ elim (Bool-cases (ltb 1 (length t.panes))) [
      | inl full ↦ rw (e, at, full, split_pane) v
      | inr room ↦
          rw (e, at, room, split_pane) (split_at-IsValid s i t (codes "ltty") at (ground arith) v)
    ]
  ]
]
