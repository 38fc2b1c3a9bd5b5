-- ===== src/Tests/AssetFiles.antt =====
-- Runs of the build of the packaged files and of their checks.
use harmotty.Prelude.{
  ◌≡◌, ◌↔◌, refl, true, false, [], ◌∷◌, ◌++◌, map, Text, codes, all, split_on, starts_with,
  is_space,
}
use harmotty.Prelude.Decimal.{is_digit}
use harmotty.Guide.Policy.{contains}
use harmotty.Prelude.Dict.{lookup}
use harmotty.Assets.Build.{Bytes, strip_source_map, is_last_line, matches_here, build}
use harmotty.Assets.Check.{
  deep_equal, PackageLock, check_packages, is_exact_version, lists_every_asset, unix_lines,
  matches_file, is_noticed,
}
use harmotty.Assets.Files.{windows_lines, has_crlf}
use harmotty.Assets.Published.{build-matches}
use harmotty.Assets.Versions.{IsExactVersion, is_exact_version_iff}

-- Files of ASCII with a hash that is no hash, and a source whose text names its map.
abbrev same : Bytes → Bytes
same bytes = bytes

abbrev first_units : Bytes → Text
first_units (c ∷ bytes) = c ∷ codes "0f"
first_units [] = []

abbrev source_file : Text → Bytes
source_file path = codes "a();" ++ 10 ∷ codes "//# sourceMappingURL=x.map" ++ 10 ∷ []

stripped : strip_source_map (source_file []) ≡ codes "a();" ++ 10 ∷ []
unfolding strip_source_map matches_here is_last_line starts_with is_space
stripped = refl

build-matches_example :
    (lists_every_asset (build same same first_units source_file []).manifest ≡ true)
    × (all
          (matches_file same same first_units (build same same first_units source_file []).folder)
          (build same same first_units source_file []).manifest
        ≡ true)
unfolding strip_source_map matches_here is_last_line starts_with is_space has_crlf
build-matches_example =
    build-matches same same first_units source_file false []
      (build same same first_units source_file []).folder
      (
        (refl, refl),
        (
          (refl, refl),
          ((refl, refl), ((refl, refl), ((refl, refl), ((refl, refl), ((refl, refl), tt))))),
        ),
      )
      (λ name. refl)

is_exact_version_example :
    (is_exact_version (codes "5.5.0") ≡ true) ↔ IsExactVersion (codes "5.5.0")
is_exact_version_example = is_exact_version_iff (codes "5.5.0")

ranges_refused :
    map is_exact_version (codes "5.5.0" ∷ codes "^5.5.0" ∷ codes "5.5" ∷ codes "5..0" ∷ [])
    ≡ true ∷ false ∷ false ∷ false ∷ []
unfolding is_exact_version split_on is_digit
ranges_refused = refl

abbrev locked : PackageLock
locked = record {
  lockfile_version = 3;
  root_dependencies = (codes "b", codes "2.0.0") ∷ (codes "a", codes "1.0.0") ∷ [];
  packages =
      (
        codes "node_modules/a",
        record { version = codes "1.0.0"; license = codes "MIT"; integrity = codes "sha512-x" },
      )
      ∷ (
        codes "node_modules/b",
        record { version = codes "2.0.0"; license = codes "MIT"; integrity = codes "sha512-y" },
      )
      ∷ [];
}

locked_run :
    check_packages ((codes "a", codes "1.0.0") ∷ (codes "b", codes "2.0.0") ∷ []) locked ≡ true
unfolding check_packages deep_equal lookup is_exact_version split_on is_digit starts_with
locked_run = refl

unlocked_run :
    check_packages ((codes "a", codes "1.0.1") ∷ (codes "b", codes "2.0.0") ∷ []) locked ≡ false
unfolding check_packages deep_equal lookup is_exact_version split_on is_digit starts_with
unlocked_run = refl

windows_run :
    unix_lines (windows_lines (codes "a" ++ 10 ∷ 10 ∷ codes "b")) ≡ codes "a" ++ 10 ∷ 10 ∷ codes "b"
unfolding unix_lines windows_lines
windows_run = refl

noticed_run :
    is_noticed
      (codes "`xterm.js` `@xterm/xterm 5.5.0` `0AF`")
      ((codes "@xterm/xterm", codes "5.5.0") ∷ [])
      (record { file = codes "xterm.js"; bytes = 1; sha256 = codes "0af" })
    ≡ true
unfolding is_noticed lookup contains starts_with
noticed_run = refl
