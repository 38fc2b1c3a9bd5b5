-- ===== src/Tests/Icons.antt =====
-- Runs of the script that draws the icons.
use harmotty.Prelude.{◌≡◌, refl, [], ◌∷◌, codes, All, length}
use harmotty.Prelude.Dict.{lookup, set_key}
use harmotty.Icons.Generate.{
  Element, element, end, child, text, hide, hide_groups, background, prepare_svg, targets,
  generate_icons,
}
use harmotty.Icons.Hidden.{IsHidden, groups_in, others_in, content_of, prepare_svg-IsHidden}

abbrev small_svg : Element
small_svg = element (codes "svg") [] (
    child
      (element (codes "g") ((codes "id", codes "background") ∷ [])
        (child (element (codes "rect") [] end) end))
      (text (codes "-") (
        child
          (element (codes "g") ((codes "style", codes "x") ∷ (codes "id", codes "foreground") ∷ [])
            end)
          end)))

prepare_svg-IsHidden_example :
    All IsHidden (groups_in (codes "foreground") (content_of (prepare_svg background small_svg)))
    × (others_in (codes "foreground") (content_of (prepare_svg background small_svg))
        ≡ others_in (codes "foreground") (content_of small_svg))
prepare_svg-IsHidden_example = prepare_svg-IsHidden background small_svg (codes "foreground") refl

foreground_hidden :
    groups_in (codes "foreground") (content_of (prepare_svg background small_svg))
    ≡ ((codes "style", codes "display:none") ∷ (codes "id", codes "foreground") ∷ []) ∷ []
unfolding groups_in prepare_svg hide_groups hide lookup set_key
foreground_hidden = refl

seven_files : length (generate_icons (λ t. small_svg) (λ e. []) (λ t size. []) [] targets) ≡ 7
unfolding generate_icons
seven_files = refl
