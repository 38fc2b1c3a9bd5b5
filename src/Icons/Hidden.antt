-- ===== src/Icons/Hidden.antt =====
-- What a layer of the icon leaves out (tools/generate_icons.cjs).
use harmotty.Prelude.{
  ◌≡◌, refl, inl, inr, Option, none, some, List, [], ◌∷◌, ◌++◌, Text, codes, if◌then◌else◌, All,
  Bool-cases,
}
use harmotty.Prelude.Dict.{lookup-set_key}
use harmotty.Icons.Generate.{
  Attributes, Element, Nodes, element, end, child, text, get_attribute, set_attribute, is_group,
  hide, hide_group, hide_groups, Layer, background, foreground, full, prepare_svg,
}

-- The attributes of the groups with an id, and the names and attributes of all other elements, in
-- the order of the document.
unfoldable mutual
  pub groups_of : Text → Element → List Attributes
  groups_of id (element name attributes nodes) =
      (if is_group name attributes id then attributes ∷ [] else []) ++ groups_in id nodes

  pub groups_in : Text → Nodes → List Attributes
  groups_in id end = []
  groups_in id (child e nodes) = groups_of id e ++ groups_in id nodes
  groups_in id (text t nodes) = groups_in id nodes

unfoldable mutual
  pub others_of : Text → Element → List (Text × Attributes)
  others_of id (element name attributes nodes) =
      (if is_group name attributes id then [] else (name, attributes) ∷ []) ++ others_in id nodes

  pub others_in : Text → Nodes → List (Text × Attributes)
  others_in id end = []
  others_in id (child e nodes) = others_of id e ++ others_in id nodes
  others_in id (text t nodes) = others_in id nodes

abbrev pub IsHidden : Attributes → Type 0
IsHidden attributes = get_attribute attributes (codes "style") ≡ some (codes "display:none")

-- A style does not change which group an element is.
is_group-set_style :
    (name id value : Text) (attributes : Attributes)
    → is_group name (set_attribute (codes "style") value attributes) id
      ≡ is_group name attributes id
is_group-set_style name id value attributes =
    rw (lookup-set_key (codes "style") (codes "id") value attributes) refl

All-append :
    (P : Attributes → Type 0) (xs ys : List Attributes) → All P xs → All P ys → All P (xs ++ ys)
All-append P [] ys h k = k
All-append P (x ∷ xs) ys (p, h) k = (p, All-append P xs ys h k)

module _ (id : Text) where
  hide-groups :
      (name : Text) (attributes : Attributes)
      → All IsHidden
          (if is_group name (hide id name attributes) id then hide id name attributes ∷ [] else [])
  unfolding hide
  hide-groups name attributes = elim (Bool-cases (is_group name attributes id)) [
    | inl e ↦
        rw (e, is_group-set_style name id (codes "display:none") attributes, e)
          (lookup-set_key (codes "style") (codes "style") (codes "display:none") attributes, tt)
    | inr e ↦ rw (e, e) tt
  ]

  mutual
    unfolding hide_group hide_groups groups_of groups_in

    hide_group-groups : (e : Element) → All IsHidden (groups_of id (hide_group id e))
    hide_group-groups (element name attributes nodes) =
        All-append IsHidden
          (if is_group name (hide id name attributes) id then hide id name attributes ∷ [] else [])
          _ (hide-groups name attributes) (hide_groups-groups nodes)

    hide_groups-groups : (nodes : Nodes) → All IsHidden (groups_in id (hide_groups id nodes))
    hide_groups-groups end = tt
    hide_groups-groups (child e nodes) =
        All-append IsHidden (groups_of id (hide_group id e)) _ (hide_group-groups e)
          (hide_groups-groups nodes)
    hide_groups-groups (text t nodes) = hide_groups-groups nodes

  hide-others :
      (name : Text) (attributes : Attributes) (rest : List (Text × Attributes))
      → (if is_group name (hide id name attributes) id
            then []
            else (name, hide id name attributes) ∷ [])
          ++ rest
        ≡ (if is_group name attributes id then [] else (name, attributes) ∷ []) ++ rest
  unfolding hide
  hide-others name attributes rest = elim (Bool-cases (is_group name attributes id)) [
    | inl e ↦ rw (e, is_group-set_style name id (codes "display:none") attributes, e) refl
    | inr e ↦ rw (e, e) refl
  ]

  mutual
    unfolding hide_group hide_groups others_of others_in

    hide_group-others : (e : Element) → others_of id (hide_group id e) ≡ others_of id e
    hide_group-others (element name attributes nodes) =
        rw (hide_groups-others nodes) (hide-others name attributes (others_in id nodes))

    hide_groups-others : (nodes : Nodes) → others_in id (hide_groups id nodes) ≡ others_in id nodes
    hide_groups-others end = refl
    hide_groups-others (child e nodes) = rw (hide_group-others e, hide_groups-others nodes) refl
    hide_groups-others (text t nodes) = hide_groups-others nodes

-- The group that a layer leaves out.
abbrev pub left_out : Layer → Option Text
left_out background = some (codes "foreground")
left_out foreground = some (codes "background")
left_out full = none

abbrev pub content_of : Element → Nodes
content_of (element name attributes nodes) = nodes

-- Below the root, a layer hides every group that it leaves out, and keeps the name and the
-- attributes of every other element.
pub prepare_svg-IsHidden :
    (layer : Layer) (root : Element) (id : Text)
    → left_out layer ≡ some id
    → All IsHidden (groups_in id (content_of (prepare_svg layer root)))
      × (others_in id (content_of (prepare_svg layer root)) ≡ others_in id (content_of root))
unfolding prepare_svg
prepare_svg-IsHidden background (element name attributes nodes) id e =
    let at : codes "foreground" ≡ id = cc e in
    rw (← at)
      (hide_groups-groups (codes "foreground") nodes, hide_groups-others (codes "foreground") nodes)
prepare_svg-IsHidden foreground (element name attributes nodes) id e =
    let at : codes "background" ≡ id = cc e in
    rw (← at)
      (hide_groups-groups (codes "background") nodes, hide_groups-others (codes "background") nodes)
prepare_svg-IsHidden full root id e = cc
