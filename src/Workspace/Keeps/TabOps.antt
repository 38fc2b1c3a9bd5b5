-- ===== src/Workspace/Keeps/TabOps.antt =====
-- The operations on tabs keep the invariant.
use harmotty.Prelude.{
  ℕ, zero, suc, ◌+◌, ◌-◌, ◌≤◌, ◌<◌, min, ◌≡◌, refl, ap, List, [], ◌∷◌, map, arith, Text, eq_text,
  eq_text_ne, eq_text_refl, eq_text→eq, ◌≢◌, ltb, lt→ltb, ltb→lt, ◌==◌, length, erase_idx, modify,
  All-append, Bool-cases, inl, inr, length-append, length-erase_idx, drop,
}
use harmotty.Prelude.Int.{ℤ, pos, negsuc}
use harmotty.Prelude.Decimal.{to_text_inj}
use mathlib.Core.List.{map-append}
use harmotty.Workspace.State.{TabInfo, AppViewModel, pane_id, tab_id}
use harmotty.Workspace.Tabs.{
  focus_from, set_active_tab, new_tab, push_tab, add_tab, refocus, remove_tab, update_tab_title,
}
use harmotty.Workspace.Valid.{
  shape, hit, count_panes, count_tabs, IsValidShape, IsSound, IsSoundState, IsValid, IsActive,
  count_panes-append, count_tabs-append, count_panes-erase_idx, count_tabs-erase_idx, All-erase_idx,
  focus_from-FocusFrom, All-focus_from, count_panes-focus_from, count_tabs-focus_from,
  length-focus_from, length-map-shape,
}

pub pane_id_inj : (m n : ℕ) → pane_id m ≡ pane_id n → m ≡ n
pane_id_inj m n e = to_text_inj m n (ap (drop 5) e)

pub tab_id_inj : (m n : ℕ) → tab_id m ≡ tab_id n → m ≡ n
tab_id_inj m n e = to_text_inj m n (ap (drop 4) e)

focus_from-IsSound :
    (index : ℕ) (ts : List TabInfo) {next_tab next_pane : ℕ}
    → IsSound (map shape ts) next_tab next_pane
    → IsSound (map shape (focus_from 0 index ts)) next_tab next_pane
focus_from-IsSound index ts v = record {
  each = All-focus_from index ts 0 v.each;
  pane_once = λ id. rw (count_panes-focus_from index id ts 0) (v.pane_once id);
  pane_fresh = λ n h. rw (count_panes-focus_from index (pane_id n) ts 0) (v.pane_fresh n h);
  tab_once = λ id. rw (count_tabs-focus_from index id ts 0) (v.tab_once id);
  tab_fresh = λ n h. rw (count_tabs-focus_from index (tab_id n) ts 0) (v.tab_fresh n h);
}

-- Focusing a tab that is there makes any sound state well formed.
set_active_tab-there :
    (s : AppViewModel) (index : ℕ)
    → index < length s.tabs
    → IsSoundState s
    → IsValid (set_active_tab s (pos index))
unfolding set_active_tab
set_active_tab-there s index h v = rw (lt→ltb index (length s.tabs) h) record {
  is_active = omega (arith, length-focus_from index s.tabs 0, length-map-shape s.tabs);
  focus = focus_from-FocusFrom index s.tabs 0;
  sound = focus_from-IsSound index s.tabs v;
}

pub set_active_tab-IsValid :
    (s : AppViewModel) (index : ℤ) → IsValid s → IsValid (set_active_tab s index)
unfolding set_active_tab
set_active_tab-IsValid s (negsuc n) v = v
set_active_tab-IsValid s (pos index) v = elim (Bool-cases (ltb index (length s.tabs))) [
  | inl e ↦
      unfold set_active_tab in set_active_tab-there s index (ltb→lt index (length s.tabs) e) v.sound
  | inr e ↦ rw e v
]

-- One more use of an id that was unused.
pub used_once : (k id : Text) (c : Text → ℕ) → c id ≤ 1 → c k ≡ 0 → c id + hit k id ≤ 1
used_once k id c once fresh = elim (Bool-cases (eq_text k id)) [
  | inl e ↦ let same : c id ≡ 0 = rw (← eq_text→eq k id e) fresh in rw e (omega arith)
  | inr e ↦ rw e (omega arith)
]

pub hit_self : (id : Text) → ◌≡◌ {A = ℕ} (hit id id) 1
hit_self id = rw (eq_text_refl id) refl

pub hit_ne : (k id : Text) → k ≢ id → ◌≡◌ {A = ℕ} (hit k id) 0
hit_ne k id ne = rw (eq_text_ne k id ne) refl

length-push_tab : (s : AppViewModel) (title : Text) → 1 ≤ length (push_tab s title).tabs
unfolding push_tab
length-push_tab s title = omega (arith, length-append {0} s.tabs (new_tab s title ∷ []))

module _ (s : AppViewModel) (title : Text) (v : IsSoundState s) where
  new_tab-IsValidShape : IsValidShape (shape (new_tab s title))
  new_tab-IsValidShape = record {
    some_pane = omega arith;
    two_panes = omega arith;
    active_there = omega (arith, hit_self (pane_id s.next_pane_id));
  }

  push_tab-IsSound : IsSoundState (push_tab s title)
  unfolding push_tab
  push_tab-IsSound = rw (map-append shape s.tabs (new_tab s title ∷ [])) record {
    each =
        All-append IsValidShape (map shape s.tabs) (shape (new_tab s title) ∷ []) v.each
          (new_tab-IsValidShape, tt);
    pane_once = λ id. omega (
      arith,
      count_panes-append id (map shape s.tabs) (shape (new_tab s title) ∷ []),
      used_once (pane_id s.next_pane_id) id (λ i. count_panes i (map shape s.tabs)) (v.pane_once id)
          (v.pane_fresh s.next_pane_id (omega arith)),
    );
    pane_fresh = λ n h. omega (
      arith,
      count_panes-append (pane_id n) (map shape s.tabs) (shape (new_tab s title) ∷ []),
      v.pane_fresh n (omega arith),
      hit_ne (pane_id s.next_pane_id) (pane_id n)
          (λ e. omega (arith, pane_id_inj s.next_pane_id n e)),
    );
    tab_once = λ id. omega (
      arith,
      count_tabs-append id (map shape s.tabs) (shape (new_tab s title) ∷ []),
      used_once (tab_id s.next_tab_id) id (λ i. count_tabs i (map shape s.tabs)) (v.tab_once id)
          (v.tab_fresh s.next_tab_id (omega arith)),
    );
    tab_fresh = λ n h. omega (
      arith,
      count_tabs-append (tab_id n) (map shape s.tabs) (shape (new_tab s title) ∷ []),
      v.tab_fresh n (omega arith),
      hit_ne (tab_id s.next_tab_id) (tab_id n) (λ e. omega (arith, tab_id_inj s.next_tab_id n e)),
    );
  }

pub add_tab-IsValid : (s : AppViewModel) (title : Text) → IsValid s → IsValid (add_tab s title)
unfolding add_tab
add_tab-IsValid s title v =
    set_active_tab-there (push_tab s title) (length (push_tab s title).tabs - 1)
      (omega (arith, length-push_tab s title)) (push_tab-IsSound s title v.sound)

erase_idx-IsSound :
    (ts : List TabInfo) (i : ℕ) {next_tab next_pane : ℕ}
    → IsSound (map shape ts) next_tab next_pane
    → IsSound (map shape (erase_idx ts i)) next_tab next_pane
erase_idx-IsSound ts i v = record {
  each = All-erase_idx IsValidShape ts i v.each;
  pane_once = λ id. omega (arith, count_panes-erase_idx id ts i, v.pane_once id);
  pane_fresh = λ n h. omega (arith, count_panes-erase_idx (pane_id n) ts i, v.pane_fresh n h);
  tab_once = λ id. omega (arith, count_tabs-erase_idx id ts i, v.tab_once id);
  tab_fresh = λ n h. omega (arith, count_tabs-erase_idx (tab_id n) ts i, v.tab_fresh n h);
}

-- The tab that becomes active when one is gone is there.
refocus-IsValid :
    (index a : ℕ) (s : AppViewModel) (ts : List TabInfo)
    → IsSoundState (record s { tabs = ts })
    → index ≤ length ts
    → a ≤ length ts
    → IsValid (refocus index (pos a) (record s { tabs = ts }))
unfolding refocus
refocus-IsValid index a s [] v h k = record { is_active = (refl, refl); focus = tt; sound = v }
refocus-IsValid index a s (t ∷ ts) v h k = elim (Bool-cases (ltb index a)) [
  | inl before ↦
      rw before (set_active_tab-there (record s { tabs = t ∷ ts }) (a - 1) (ground arith) v)
  | inr later ↦ elim (Bool-cases (index == a)) [
    | inl same ↦
        rw (later, same)
          (set_active_tab-there (record s { tabs = t ∷ ts }) (min index (length (t ∷ ts) - 1))
            (omega arith) v)
    | inr other ↦
        rw (later, other) (set_active_tab-there (record s { tabs = t ∷ ts }) a (ground arith) v)
  ]
]

erased-IsValid :
    (index : ℕ) (active : ℤ) (s : AppViewModel)
    → IsSoundState s
    → IsActive active (map shape s.tabs)
    → index < length s.tabs
    → IsValid (refocus index active (record s { tabs = erase_idx s.tabs index }))
erased-IsValid index (pos a) s v k h =
    let size = length-erase_idx s.tabs index h in
    refocus-IsValid index a s (erase_idx s.tabs index) (erase_idx-IsSound s.tabs index v)
      (omega (arith, size)) (omega (arith, size, length-map-shape s.tabs))
erased-IsValid index (negsuc n) s v k h = absurd (omega (arith, length-map-shape s.tabs))

pub remove_tab-IsValid : (s : AppViewModel) (index : ℤ) → IsValid s → IsValid (remove_tab s index)
unfolding remove_tab
remove_tab-IsValid s (negsuc n) v = v
remove_tab-IsValid s (pos index) v = elim (Bool-cases (ltb index (length s.tabs))) [
  | inl e ↦ rw e (
      erased-IsValid index s.active_tab_index s v.sound v.is_active
        (ltb→lt index (length s.tabs) e))
  | inr e ↦ rw e v
]

shapes-modify :
    (ts : List TabInfo) (i : ℕ) (f : TabInfo → TabInfo)
    → ((t : TabInfo) → shape (f t) ≡ shape t)
    → map shape (modify ts i f) ≡ map shape ts
shapes-modify [] i f h = refl
shapes-modify (t ∷ ts) zero f h = ap (◌∷ map shape ts) (h t)
shapes-modify (t ∷ ts) (suc i) f h = ap (shape t ∷◌) (shapes-modify ts i f h)

pub update_tab_title-IsValid :
    (s : AppViewModel) (index : ℤ) (title : Text)
    → IsValid s
    → IsValid (update_tab_title s index title)
unfolding update_tab_title
update_tab_title-IsValid s (negsuc n) title v = v
update_tab_title-IsValid s (pos index) title v =
    rw (shapes-modify s.tabs index (λ tab. record tab { title = title }) (λ t. refl)) v
