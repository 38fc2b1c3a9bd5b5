-- ===== src/Guide/Policy.antt =====
-- `UserGuidePolicy` (entry/src/main/ets/model/guide/UserGuidePolicy.ets). A regular expression is
-- written out as a test of each unit, and `throw` is an error value.
use harmotty.Prelude.{
  ℕ, zero, suc, ◌+◌, ◌-◌, Bool, true, false, not, ◌&&◌, ◌||◌, Option, none, some, [], ◌∷◌, ◌++◌,
  map, Text, codes, eq_text, starts_with, trim, index_of, ltb, leb, ◌==◌, if◌then◌else◌, length,
  drop, all, min,
}

pub data UserGuideFileDecision : Type 0 where
  create current replace_owned conflict : UserGuideFileDecision

pub data GuideError : Type 0 where
  invalid_bundle_name downloads_unavailable : GuideError

pub data Located : Type 0 where
  located : Text → Located
  failed : GuideError → Located

abbrev pub file_name : Text
file_name = codes "LeanTTY-User-Guide.html"

abbrev pub temp_file_name : Text
temp_file_name = codes ".LeanTTY-User-Guide.html.tmp"

abbrev pub ownership_marker : Text
ownership_marker = codes "<!-- leantty-owned-user-guide -->"

abbrev pub max_uri_length : ℕ
max_uri_length = 4096

abbrev pub is_alphanumeric : ℕ → Bool
is_alphanumeric c =
    (leb b'A' c && leb c b'Z') || (leb b'a' c && leb c b'z') || (leb b'0' c && leb c b'9')

abbrev pub is_name_unit : ℕ → Bool
is_name_unit c = is_alphanumeric c || c == b'.' || c == b'_' || c == b'-'

-- `/^[A-Za-z0-9][A-Za-z0-9._-]*$/`
unfoldable pub is_bundle_name : Text → Bool
is_bundle_name [] = false
is_bundle_name (c ∷ rest) = is_alphanumeric c && all is_name_unit rest

unfoldable pub validate_bundle_name : Text → Bool
validate_bundle_name name =
    ltb 0 (length name)
    && leb (length name) 255
    && is_bundle_name name
    && not (eq_text name (codes "."))
    && not (eq_text name (codes ".."))

abbrev pub is_slash : ℕ → Bool
is_slash c = c == b'/' || c == 92

-- A unit in front of what the loop leaves of the units after it.
unfoldable pub keep_unit : ℕ → Text → Text
keep_unit c [] = if is_slash c then [] else c ∷ []
keep_unit c (d ∷ s) = c ∷ d ∷ s

unfoldable pub trim_trailing_slashes : Text → Text
trim_trailing_slashes [] = []
trim_trailing_slashes (c ∷ s) = keep_unit c (trim_trailing_slashes s)

unfoldable pub guide_directory : Text → Text → Located
guide_directory download_directory bundle_name =
    let root = trim_trailing_slashes download_directory in
    if not (validate_bundle_name bundle_name)
    then failed invalid_bundle_name
    else if length root == 0
    then failed downloads_unavailable
    else located (root ++ codes "/" ++ bundle_name)

abbrev pub in_directory : Located → Text → Located
in_directory (located directory) name = located (directory ++ codes "/" ++ name)
in_directory (failed e) name = failed e

unfoldable pub guide_path : Text → Text → Located
guide_path download_directory bundle_name =
    in_directory (guide_directory download_directory bundle_name) file_name

unfoldable pub temp_path : Text → Text → Located
temp_path download_directory bundle_name =
    in_directory (guide_directory download_directory bundle_name) temp_file_name

-- The marker at one of the first so many positions.
unfoldable pub find_marker : ℕ → Text → Bool
find_marker zero content = false
find_marker (suc positions) content =
    let later = find_marker positions (drop 1 content) in
    if starts_with content ownership_marker then true else later

unfoldable pub has_ownership_marker : Text → Bool
has_ownership_marker content =
    if ltb (length content) (length ownership_marker)
    then false
    else find_marker (suc (min (length content - length ownership_marker) 4096)) content

-- The bytes of the file that is there, if any, and of the packaged guide.
unfoldable pub decide : Option Text → Text → UserGuideFileDecision
decide none packaged = create
decide (some existing) packaged =
    if eq_text existing packaged
    then current
    else if has_ownership_marker existing
    then replace_owned
    else conflict

unfoldable pub contains : Text → Text → Bool
contains [] part = starts_with [] part
contains (c ∷ s) part = starts_with (c ∷ s) part || contains s part

-- `toLowerCase` of ASCII; no other unit becomes one of `%2e`.
abbrev pub to_lower : ℕ → ℕ
to_lower c = if leb b'A' c && leb c b'Z' then c + 32 else c

abbrev pub is_visible : ℕ → Bool
is_visible code = ltb 32 code && not (code == 127)

abbrev pub has_unit : ℕ → Text → Bool
has_unit c s = elim (index_of c s) [ none ↦ false | some i ↦ true ]

unfoldable pub is_allowed_guide_uri : Text → Text → Bool
is_allowed_guide_uri raw expected =
    if length raw == 0
      || ltb max_uri_length (length raw)
      || not (eq_text raw expected)
      || not (eq_text (trim raw) raw)
      || not (starts_with raw (codes "file://"))
    then false
    else if not (all is_visible raw)
    then false
    else not (has_unit b'?' raw)
      && not (has_unit b'#' raw)
      && not (has_unit 92 raw)
      && not (contains (map to_lower raw) (codes "%2e%2e"))
      && not (contains raw (codes "/../"))

unfoldable pub osc8_link : Text → Text
osc8_link uri =
    (27 ∷ codes "]8;;") ++ uri ++ (27 ∷ 92 ∷ []) ++ file_name ++ (27 ∷ codes "]8;;") ++ 27 ∷ 92 ∷ []
