-- ===== src/Workspace/Valid.antt =====
-- When the tabs of `AppViewModel` are well formed: the invariant looks only at the shape of a tab,
-- that is its id, its focus and the ids of its panes.
use harmotty.Prelude.{
  ℕ, zero, suc, ◌+◌, ◌≤◌, ◌<◌, ◌≡◌, refl, ap, Bool, false, some, List, [], ◌∷◌, ◌++◌, map, arith,
  Text, eq_text, ◌==◌, if◌then◌else◌, length, get_elem?, erase_idx, modify, All,
}
use harmotty.Prelude.Int.{ℤ, pos, negsuc}
use harmotty.Workspace.State.{PaneInfo, TabInfo, AppViewModel, new, pane_id, tab_id}
use harmotty.Workspace.Tabs.{focus_from}

pub record Shape : Type 0 where
  pub id : Text
  pub is_focused : Bool
  pub active : Text
  pub panes : List Text

abbrev pub pane_ids : List PaneInfo → List Text
pane_ids = map (λ p. p.id)

abbrev pub shape : TabInfo → Shape
shape t = record {
  id = t.id;
  is_focused = t.is_focused;
  active = t.active_pane_id;
  panes = pane_ids t.panes;
}

abbrev pub hit : Text → Text → ℕ
hit k id = if eq_text k id then 1 else 0

abbrev pub count_id : Text → List Text → ℕ
count_id id [] = 0
count_id id (x ∷ xs) = hit x id + count_id id xs

abbrev pub count_panes : Text → List Shape → ℕ
count_panes id [] = 0
count_panes id (t ∷ ts) = count_id id t.panes + count_panes id ts

abbrev pub count_tabs : Text → List Shape → ℕ
count_tabs id [] = 0
count_tabs id (t ∷ ts) = hit t.id id + count_tabs id ts

-- One or two panes, the active one among them.
pub record IsValidShape (t : Shape) : Type 0 where
  pub some_pane : 1 ≤ length t.panes
  pub two_panes : length t.panes ≤ 2
  pub active_there : 1 ≤ count_id t.active t.panes

abbrev pub is_index : ℕ → ℤ → Bool
is_index k (pos i) = k == i
is_index k (negsuc n) = false

abbrev pub FocusFrom : ℕ → ℤ → List Shape → Type 0
FocusFrom k active [] = Unit
FocusFrom k active (t ∷ ts) = (t.is_focused ≡ is_index k active) × FocusFrom (suc k) active ts

-- The active index is that of a tab, or -1 if there is none.
abbrev pub IsActive : ℤ → List Shape → Type 0
IsActive (pos i) ts = i < length ts
IsActive (negsuc n) ts = (n ≡ 0) × (length ts ≡ 0)

-- Every tab is well formed, no id is used twice, and the next ids are unused.
pub record IsSound (ts : List Shape) (next_tab next_pane : ℕ) : Type 0 where
  pub each : All IsValidShape ts
  pub pane_once : (id : Text) → count_panes id ts ≤ 1
  pub pane_fresh : (n : ℕ) → next_pane ≤ n → count_panes (pane_id n) ts ≡ 0
  pub tab_once : (id : Text) → count_tabs id ts ≤ 1
  pub tab_fresh : (n : ℕ) → next_tab ≤ n → count_tabs (tab_id n) ts ≡ 0

pub record IsValidShapes (ts : List Shape) (active : ℤ) (next_tab next_pane : ℕ) : Type 0 where
  pub is_active : IsActive active ts
  pub focus : FocusFrom 0 active ts
  pub sound : IsSound ts next_tab next_pane
  pub open sound use *

abbrev pub IsSoundState : AppViewModel → Type 0
IsSoundState s = IsSound (map shape s.tabs) s.next_tab_id s.next_pane_id

abbrev pub IsValid : AppViewModel → Type 0
IsValid s = IsValidShapes (map shape s.tabs) s.active_tab_index s.next_tab_id s.next_pane_id

pub new-IsValid : IsValid new
new-IsValid = record {
  is_active = (refl, refl);
  focus = tt;
  sound = record {
    each = tt;
    pane_once = λ id. omega arith;
    pane_fresh = λ n h. refl;
    tab_once = λ id. omega arith;
    tab_fresh = λ n h. refl;
  };
}

module _ (id : Text) where
  pub count_id-append :
      (xs ys : List Text) → count_id id (xs ++ ys) ≡ count_id id xs + count_id id ys
  count_id-append [] ys = omega arith
  count_id-append (x ∷ xs) ys = omega (arith, count_id-append xs ys)

  pub count_panes-append :
      (ts us : List Shape) → count_panes id (ts ++ us) ≡ count_panes id ts + count_panes id us
  count_panes-append [] us = omega arith
  count_panes-append (t ∷ ts) us = omega (arith, count_panes-append ts us)

  pub count_tabs-append :
      (ts us : List Shape) → count_tabs id (ts ++ us) ≡ count_tabs id ts + count_tabs id us
  count_tabs-append [] us = omega arith
  count_tabs-append (t ∷ ts) us = omega (arith, count_tabs-append ts us)

  pub count_panes-erase_idx :
      (ts : List TabInfo) (i : ℕ)
      → count_panes id (map shape (erase_idx ts i)) ≤ count_panes id (map shape ts)
  count_panes-erase_idx [] i = omega arith
  count_panes-erase_idx (t ∷ ts) zero = omega arith
  count_panes-erase_idx (t ∷ ts) (suc i) = omega (arith, count_panes-erase_idx ts i)

  pub count_tabs-erase_idx :
      (ts : List TabInfo) (i : ℕ)
      → count_tabs id (map shape (erase_idx ts i)) ≤ count_tabs id (map shape ts)
  count_tabs-erase_idx [] i = omega arith
  count_tabs-erase_idx (t ∷ ts) zero = omega arith
  count_tabs-erase_idx (t ∷ ts) (suc i) = omega (arith, count_tabs-erase_idx ts i)

  -- What a change of the tab at an index does to a count.
  pub count_panes-modify :
      (ts : List TabInfo) (i : ℕ) (f : TabInfo → TabInfo) (t : TabInfo)
      → get_elem? ts i ≡ some t
      → count_panes id (map shape (modify ts i f)) + count_id id (pane_ids t.panes)
        ≡ count_panes id (map shape ts) + count_id id (pane_ids (f t).panes)
  count_panes-modify [] i f t h = cc
  count_panes-modify (u ∷ ts) zero f t h = let e : u ≡ t = cc in rw e (omega arith)
  count_panes-modify (u ∷ ts) (suc i) f t h = omega (arith, count_panes-modify ts i f t h)

  pub count_tabs-modify :
      (ts : List TabInfo) (i : ℕ) (f : TabInfo → TabInfo)
      → ((t : TabInfo) → (f t).id ≡ t.id)
      → count_tabs id (map shape (modify ts i f)) ≡ count_tabs id (map shape ts)
  count_tabs-modify [] i f h = refl
  count_tabs-modify (u ∷ ts) zero f h = rw (h u) refl
  count_tabs-modify (u ∷ ts) (suc i) f h = omega (arith, count_tabs-modify ts i f h)

pub FocusFrom-modify :
    (ts : List TabInfo) (i k : ℕ) (a : ℤ) (f : TabInfo → TabInfo)
    → ((t : TabInfo) → (f t).is_focused ≡ t.is_focused)
    → FocusFrom k a (map shape ts)
    → FocusFrom k a (map shape (modify ts i f))
FocusFrom-modify [] i k a f h v = tt
FocusFrom-modify (t ∷ ts) zero k a f h v = (rw (h t) v.0, v.1)
FocusFrom-modify (t ∷ ts) (suc i) k a f h v = (v.0, FocusFrom-modify ts i (suc k) a f h v.1)

pub All-modify :
    (P : Shape → Type 0) (ts : List TabInfo) (i : ℕ) (f : TabInfo → TabInfo) (t : TabInfo)
    → get_elem? ts i ≡ some t
    → P (shape (f t))
    → All P (map shape ts)
    → All P (map shape (modify ts i f))
All-modify P [] i f t h p v = tt
All-modify P (u ∷ ts) zero f t h p v = (let e : u ≡ t = cc in rw e p, v.1)
All-modify P (u ∷ ts) (suc i) f t h p v = (v.0, All-modify P ts i f t h p v.1)

pub All-get_elem? :
    (P : Shape → Type 0) (ts : List TabInfo) (i : ℕ) (t : TabInfo)
    → get_elem? ts i ≡ some t
    → All P (map shape ts)
    → P (shape t)
All-get_elem? P [] i t h v = absurd (cc)
All-get_elem? P (u ∷ ts) zero t h v = let e : t ≡ u = cc in rw e v.0
All-get_elem? P (u ∷ ts) (suc i) t h v = All-get_elem? P ts i t h v.1

pub All-erase_idx :
    (P : Shape → Type 0) (ts : List TabInfo) (i : ℕ)
    → All P (map shape ts)
    → All P (map shape (erase_idx ts i))
All-erase_idx P [] i v = tt
All-erase_idx P (t ∷ ts) zero v = v.1
All-erase_idx P (t ∷ ts) (suc i) v = (v.0, All-erase_idx P ts i v.1)

module _ (index : ℕ) where
  pub focus_from-FocusFrom :
      (ts : List TabInfo) (k : ℕ) → FocusFrom k (pos index) (map shape (focus_from k index ts))
  unfolding focus_from
  focus_from-FocusFrom [] k = tt
  focus_from-FocusFrom (t ∷ ts) k = (refl, focus_from-FocusFrom ts (suc k))

  pub All-focus_from :
      (ts : List TabInfo) (k : ℕ)
      → All IsValidShape (map shape ts)
      → All IsValidShape (map shape (focus_from k index ts))
  unfolding focus_from
  All-focus_from [] k v = tt
  All-focus_from (t ∷ ts) k v = (
    record {
      some_pane = v.0.some_pane;
      two_panes = v.0.two_panes;
      active_there = v.0.active_there;
    },
    All-focus_from ts (suc k) v.1,
  )

  pub count_panes-focus_from :
      (id : Text) (ts : List TabInfo) (k : ℕ)
      → count_panes id (map shape (focus_from k index ts)) ≡ count_panes id (map shape ts)
  unfolding focus_from
  count_panes-focus_from id [] k = refl
  count_panes-focus_from id (t ∷ ts) k = omega (arith, count_panes-focus_from id ts (suc k))

  pub count_tabs-focus_from :
      (id : Text) (ts : List TabInfo) (k : ℕ)
      → count_tabs id (map shape (focus_from k index ts)) ≡ count_tabs id (map shape ts)
  unfolding focus_from
  count_tabs-focus_from id [] k = refl
  count_tabs-focus_from id (t ∷ ts) k = omega (arith, count_tabs-focus_from id ts (suc k))

  pub length-focus_from :
      (ts : List TabInfo) (k : ℕ)
      → length (map shape (focus_from k index ts)) ≡ length (map shape ts)
  unfolding focus_from
  length-focus_from [] k = refl
  length-focus_from (t ∷ ts) k = ap suc (length-focus_from ts (suc k))

pub length-map-shape : (ts : List TabInfo) → length (map shape ts) ≡ length ts
length-map-shape [] = refl
length-map-shape (t ∷ ts) = ap suc (length-map-shape ts)
