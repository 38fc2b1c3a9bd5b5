-- ===== src/Icons/Generate.antt =====
-- tools/generate_icons.cjs: a layer of an SVG is drawn by hiding the groups of the other layer.
use harmotty.Prelude.{
  ℕ, Bool, false, ◌&&◌, Option, none, some, List, [], ◌∷◌, Text, codes, eq_text, if◌then◌else◌,
}
use harmotty.Prelude.Dict.{Dict, lookup, set_key}

abbrev pub Attributes : Type 0
Attributes = Dict Text

-- A document: an element has a name, attributes and content, and a text stands between elements.
mutual
  pub data Element : Type 0 where
    element : Text → Attributes → Nodes → Element

  pub data Nodes : Type 0 where
    end : Nodes
    child : Element → Nodes → Nodes
    text : Text → Nodes → Nodes

abbrev pub get_attribute : Attributes → Text → Option Text
get_attribute attributes name = lookup attributes name

abbrev pub set_attribute : Text → Text → Attributes → Attributes
set_attribute name value attributes = set_key name value attributes

abbrev pub is_group : Text → Attributes → Text → Bool
is_group name attributes id =
    eq_text name (codes "g")
    && elim (get_attribute attributes (codes "id")) [ none ↦ false | some value ↦ eq_text value id ]

unfoldable pub hide : Text → Text → Attributes → Attributes
hide id name attributes =
    if is_group name attributes id
    then set_attribute (codes "style") (codes "display:none") attributes
    else attributes

-- The loop over `getElementsByTagName('g')`, which are the groups below the root in the order of the
-- document.
unfoldable mutual
  pub hide_group : Text → Element → Element
  hide_group id (element name attributes nodes) =
      element name (hide id name attributes) (hide_groups id nodes)

  pub hide_groups : Text → Nodes → Nodes
  hide_groups id end = end
  hide_groups id (child e nodes) = child (hide_group id e) (hide_groups id nodes)
  hide_groups id (text t nodes) = text t (hide_groups id nodes)

abbrev pub hide_below : Text → Element → Element
hide_below id (element name attributes nodes) = element name attributes (hide_groups id nodes)

pub data Layer : Type 0 where
  background foreground full : Layer

-- The name of the group that a layer leaves out.
unfoldable pub prepare_svg : Layer → Element → Element
prepare_svg background root = hide_below (codes "foreground") root
prepare_svg foreground root = hide_below (codes "background") root
prepare_svg full root = root

pub record Target : Type 0 where
  pub out : Text
  pub layer : Layer
  pub size : ℕ

-- The paths under the root of the repository.
abbrev pub targets : List Target
targets =
    record {
      out = codes "AppScope/resources/base/media/background.png";
      layer = background;
      size = 1024;
    }
    ∷ record {
      out = codes "AppScope/resources/base/media/foreground.png";
      layer = foreground;
      size = 1024;
    }
    ∷ record {
      out = codes "AppScope/resources/base/media/leantty_icon.png";
      layer = full;
      size = 1024;
    }
    ∷ record {
      out = codes "entry/src/main/resources/base/media/background.png";
      layer = background;
      size = 1024;
    }
    ∷ record {
      out = codes "entry/src/main/resources/base/media/foreground.png";
      layer = foreground;
      size = 1024;
    }
    ∷ record {
      out = codes "entry/src/main/resources/base/media/leantty_icon.png";
      layer = full;
      size = 1024;
    }
    ∷ record {
      out = codes "entry/src/main/resources/base/media/startIcon.png";
      layer = full;
      size = 144;
    }
    ∷ []

-- `parse` and `print` are the XML library, and `draw` makes a PNG of a size of an SVG.
module _ (parse : Text → Element) (print : Element → Text) (draw : Text → ℕ → List ℕ) where
  unfoldable pub generate_icon : Text → Target → Text × List ℕ
  generate_icon svg_text target =
      (target.out, draw (print (prepare_svg target.layer (parse svg_text))) target.size)

  -- The files that are written, in order.
  unfoldable pub generate_icons : Text → List Target → List (Text × List ℕ)
  generate_icons svg_text [] = []
  generate_icons svg_text (target ∷ rest) =
      generate_icon svg_text target ∷ generate_icons svg_text rest
