-- ===== src/Guide/Paths.antt =====
-- Where the guide is put, and which link to it is opened.
use harmotty.Prelude.{
  ℕ, ◌≤◌, ◌≡◌, ◌≢◌, refl, ap, sym, inl, inr, Bool, true, false, ◌&&◌, ◌||◌, none, [], ◌∷◌, ◌++◌,
  arith, Text, codes, eq_text→eq, starts_with, index_of, ◌==◌, length, all, Bool-cases,
}
use harmotty.Guide.Policy.{
  located, is_alphanumeric, is_name_unit, is_bundle_name, validate_bundle_name, keep_unit,
  trim_trailing_slashes, guide_directory, is_visible, is_allowed_guide_uri,
}

-- A slash or a backslash.
abbrev pub separates : ℕ → Bool
separates c = c == b'/' || c == 92

name_unit_separates : (c : ℕ) → is_name_unit c ≡ true → separates c ≡ false
name_unit_separates c h = ground arith

&&-parts : (a b : Bool) → (a && b) ≡ true → (a ≡ true) × (b ≡ true)
&&-parts true b h = (refl, h)
&&-parts false b h = absurd (cc)

-- Whether a unit of a text is a separator.
unfoldable pub has_separator : Text → Bool
has_separator [] = false
has_separator (c ∷ s) = separates c || has_separator s

names_flat : (s : Text) → all is_name_unit s ≡ true → has_separator s ≡ false
unfolding has_separator
names_flat [] h = refl
names_flat (c ∷ s) h =
    let (first, rest) = &&-parts (is_name_unit c) (all is_name_unit s) h in
    rw (name_unit_separates c first, names_flat s rest) refl

-- The name is no way up and no way down: it begins with a letter or a digit, so it is neither `.`
-- nor `..`, and has no separator.
pub record IsPlainName (name : Text) : Type 0 where
  pub first : ℕ
  pub rest : Text
  pub begins : name ≡ first ∷ rest
  pub alphanumeric : is_alphanumeric first ≡ true
  pub flat : has_separator name ≡ false
  pub no_self : name ≢ codes "."
  pub no_parent : name ≢ codes ".."
  pub short : length name ≤ 255

plain : (name : Text) → is_bundle_name name ≡ true → length name ≤ 255 → IsPlainName name
unfolding is_bundle_name has_separator
plain [] h short = absurd (cc)
plain (c ∷ rest) h short =
    let (first, names) = &&-parts (is_alphanumeric c) (all is_name_unit rest) h in
    let unit : is_name_unit c ≡ true = ground arith in
    record {
      first = c;
      rest = rest;
      begins = refl;
      alphanumeric = first;
      flat = rw (name_unit_separates c unit, names_flat rest names) refl;
      no_self = λ e. dot c rest [] first e;
      no_parent = λ e. dot c rest (codes ".") first e;
      short = short;
    }
  where
    dot : (c : ℕ) (rest more : Text) → is_alphanumeric c ≡ true → c ∷ rest ≢ b'.' ∷ more
    dot c rest more h e =
        let same : c ≡ b'.' = ap (λ s. elim s [ [] ↦ 0 | d ∷ t ↦ d ]) e in absurd (ground arith)

-- Whether the last unit is a separator.
unfoldable pub ends_in_separator : Text → Bool
ends_in_separator [] = false
ends_in_separator (c ∷ []) = separates c
ends_in_separator (c ∷ d ∷ s) = ends_in_separator (d ∷ s)

-- `root` is the path without the separators at its end.
pub record IsTrimmed (path root : Text) : Type 0 where
  pub separators : Text
  pub cut : path ≡ root ++ separators
  pub only : all separates separators ≡ true
  pub bare : ends_in_separator root ≡ false

trim-IsTrimmed : (path : Text) → IsTrimmed path (trim_trailing_slashes path)
unfolding trim_trailing_slashes keep_unit ends_in_separator
trim-IsTrimmed [] = record { separators = []; cut = refl; only = refl; bare = refl }
trim-IsTrimmed (c ∷ path) = keep c path (trim_trailing_slashes path) (trim-IsTrimmed path)
  where
    keep :
        (c : ℕ) (path root : Text) → IsTrimmed path root → IsTrimmed (c ∷ path) (keep_unit c root)
    keep c path (d ∷ root) t = record {
      separators = t.separators;
      cut = ap (λ s. c ∷ s) t.cut;
      only = t.only;
      bare = t.bare;
    }
    keep c path [] t = elim (Bool-cases (separates c)) [
      | inl e ↦ rw e (record {
        separators = c ∷ t.separators;
        cut = ap (λ s. c ∷ s) t.cut;
        only = rw (e, t.only) refl;
        bare = refl;
      })
      | inr e ↦ rw e (record {
        separators = t.separators;
        cut = ap (λ s. c ∷ s) t.cut;
        only = t.only;
        bare = e;
      })
    ]

name_parts :
    (name : Text)
    → validate_bundle_name name ≡ true
    → (is_bundle_name name ≡ true) × (length name ≤ 255)
unfolding validate_bundle_name
name_parts name h = ground arith

given :
    (download_directory bundle_name path : Text)
    → guide_directory download_directory bundle_name ≡ located path
    → (validate_bundle_name bundle_name ≡ true)
      × (1 ≤ length (trim_trailing_slashes download_directory))
      × (trim_trailing_slashes download_directory ++ codes "/" ++ bundle_name ≡ path)
unfolding guide_directory
given download_directory bundle_name path h = ground arith

-- The path is that of the downloads, without the separators at its end but not empty, then one slash
-- and then a plain name.
pub record IsChild (download_directory bundle_name path : Text) : Type 0 where
  pub root : Text
  pub trimmed : IsTrimmed download_directory root
  pub rooted : 1 ≤ length root
  pub placed : path ≡ root ++ codes "/" ++ bundle_name
  pub named : IsPlainName bundle_name

-- Where a directory for the guide is given, it is a child of the downloads: its path is that of the
-- downloads, from which only slashes and backslashes at the end are cut, all of them, and something
-- is left; then a slash; and then the name of the bundle, which has no slash and no backslash, is
-- not `.` or `..`, begins with a letter or a digit and has at most 255 units.
pub guide_directory_sound :
    (download_directory bundle_name path : Text)
    → guide_directory download_directory bundle_name ≡ located path
    → IsChild download_directory bundle_name path
guide_directory_sound download_directory bundle_name path h =
    let (valid, rooted, placed) = given download_directory bundle_name path h in
    let (units, short) = name_parts bundle_name valid in
    record {
      root = trim_trailing_slashes download_directory;
      trimmed = trim-IsTrimmed download_directory;
      rooted = rooted;
      placed = sym placed;
      named = plain bundle_name units short;
    }

-- A link is opened only if it is the expected one, and then it is a visible `file:` address without
-- a query or a fragment.
is_allowed_guide_uri_sound :
    (raw expected : Text)
    → is_allowed_guide_uri raw expected ≡ true
    → (raw ≡ expected)
      × (starts_with raw (codes "file://") ≡ true)
      × (all is_visible raw ≡ true)
      × (index_of b'?' raw ≡ none)
      × (index_of b'#' raw ≡ none)
unfolding is_allowed_guide_uri
is_allowed_guide_uri_sound raw expected h = ground (arith, eq_text→eq raw expected)
