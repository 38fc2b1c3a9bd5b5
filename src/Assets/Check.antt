-- ===== src/Assets/Check.antt =====
-- The checks of the packages and of the packaged files
-- (tools/web-terminal/test-terminal-policy.mjs). What a JSON file holds is a value; each check is
-- whether its assertions hold.
use harmotty.Prelude.{
  ℕ, ◌-◌, Bool, true, false, ◌&&◌, Option, none, some, List, [], ◌∷◌, ◌++◌, map, Text, codes,
  eq_text, starts_with, split_on, ltb, leb, ◌==◌, if◌then◌else◌, length, all,
}
use harmotty.Prelude.Decimal.{is_digit}
use harmotty.Guide.Policy.{contains}
use harmotty.Prelude.Dict.{Dict, lookup}
use harmotty.Assets.Build.{Bytes, Folder, read_file, ManifestEntry}

-- An object whose values are texts.
abbrev pub Object : Type 0
Object = Dict Text

abbrev pub get : Object → Text → Option Text
get object key = lookup object key

abbrev pub is_value : Option Text → Text → Bool
is_value none text = false
is_value (some value) text = eq_text value text

-- `deepEqual` of two objects, in whichever order their keys stand.
unfoldable pub deep_equal : Object → Object → Bool
deep_equal actual expected =
    length actual == length expected && all (λ (k, value). is_value (get actual k) value) expected

pub record LockedPackage : Type 0 where
  pub version : Text
  pub license : Text
  pub integrity : Text

pub record PackageLock : Type 0 where
  pub lockfile_version : ℕ
  pub root_dependencies : Object
  pub packages : Dict LockedPackage

abbrev pub is_number : Text → Bool
is_number digits = ltb 0 (length digits) && all is_digit digits

abbrev pub is_three_numbers : List Text → Bool
is_three_numbers (major ∷ minor ∷ patch ∷ []) =
    is_number major && is_number minor && is_number patch
is_three_numbers _ = false

-- `/^\d+\.\d+\.\d+$/`.
unfoldable pub is_exact_version : Text → Bool
is_exact_version version = is_three_numbers (split_on b'.' version)

abbrev pub find_package : Dict LockedPackage → Text → Option LockedPackage
find_package packages name = lookup packages name

abbrev pub is_locked : Option LockedPackage → Text → Bool
is_locked none version = false
is_locked (some p) version =
    eq_text p.version version
    && eq_text p.license (codes "MIT")
    && starts_with p.integrity (codes "sha512-")

unfoldable pub check_packages : Object → PackageLock → Bool
check_packages dependencies lock =
    lock.lockfile_version == 3
    && deep_equal lock.root_dependencies dependencies
    && all
        (λ (name, version).
          is_exact_version version
          && is_locked (find_package lock.packages (codes "node_modules/" ++ name)) version)
        dependencies

abbrev pub asset_packages : Object
asset_packages =
    (codes "xterm.js", codes "@xterm/xterm")
    ∷ (codes "xterm.css", codes "@xterm/xterm")
    ∷ (codes "addon-fit.js", codes "@xterm/addon-fit")
    ∷ (codes "addon-search.js", codes "@xterm/addon-search")
    ∷ (codes "addon-serialize.js", codes "@xterm/addon-serialize")
    ∷ (codes "addon-web-links.js", codes "@xterm/addon-web-links")
    ∷ (codes "addon-webgl.js", codes "@xterm/addon-webgl")
    ∷ []

-- The order of `sort()`: by code units.
unfoldable pub text_le : Text → Text → Bool
text_le [] t = true
text_le (a ∷ s) [] = false
text_le (a ∷ s) (b ∷ t) = if a == b then text_le s t else ltb a b

unfoldable pub insert_sorted : Text → List Text → List Text
insert_sorted x [] = x ∷ []
insert_sorted x (y ∷ ys) = if text_le x y then x ∷ y ∷ ys else y ∷ insert_sorted x ys

unfoldable pub sort : List Text → List Text
sort [] = []
sort (x ∷ xs) = insert_sorted x (sort xs)

unfoldable pub equal_texts : List Text → List Text → Bool
equal_texts [] [] = true
equal_texts (x ∷ xs) (y ∷ ys) = eq_text x y && equal_texts xs ys
equal_texts _ _ = false

unfoldable pub lists_every_asset : List ManifestEntry → Bool
lists_every_asset manifest =
    equal_texts (sort (map (λ (entry : ManifestEntry). entry.file) manifest))
      (sort (map (λ (file, name). file) asset_packages))

-- `replace(/\r\n/g, '\n')`.
unfoldable pub unix_lines : Text → Text
unix_lines [] = []
unix_lines (c ∷ []) = c ∷ []
unix_lines (c ∷ d ∷ s) =
    let after = unix_lines s in
    let rest = unix_lines (d ∷ s) in if c == 13 && d == 10 then 10 ∷ after else c ∷ rest

abbrev pub to_upper : ℕ → ℕ
to_upper c = if leb b'a' c && leb c b'z' then c - 32 else c

abbrev pub quoted : Text → Text
quoted text = codes "`" ++ text ++ codes "`"

-- An interpolated `undefined`.
abbrev pub shown : Option Text → Text
shown none = codes "undefined"
shown (some text) = text

unfoldable pub is_noticed : Text → Object → ManifestEntry → Bool
is_noticed notices dependencies entry =
    let package_name = get asset_packages entry.file in
    contains notices (quoted entry.file)
    && contains notices
        (quoted (shown package_name ++ codes " " ++ shown (get dependencies (shown package_name))))
    && contains notices (quoted (map to_upper entry.sha256))

module _ (decode : Bytes → Text) (encode : Text → Bytes) (hash : Bytes → Text) where
  -- The size and the hash of a file, with its line ends as on Unix.
  unfoldable pub matches_file : Folder → ManifestEntry → Bool
  matches_file folder entry =
      let bytes = encode (unix_lines (decode (read_file folder entry.file))) in
      length bytes == entry.bytes && eq_text (hash bytes) entry.sha256

  unfoldable pub check_assets : Folder → List ManifestEntry → Text → Object → Bool
  check_assets folder manifest notices dependencies =
      lists_every_asset manifest
      && all (λ entry. matches_file folder entry && is_noticed notices dependencies entry) manifest
