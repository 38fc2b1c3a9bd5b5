-- ===== src/Tests/Guides.antt =====
-- Runs of the policy of the user guide.
use harmotty.Prelude.{
  ◌≡◌, ◌≢◌, ◌↔◌, refl, true, some, [], ◌∷◌, ◌++◌, codes, index_of, starts_with, trim, trim_start,
  trim_end, is_space,
}
use harmotty.Guide.Policy.{
  located, decide, replace_owned, guide_directory, guide_path, temp_path, trim_trailing_slashes,
  keep_unit, validate_bundle_name, is_bundle_name, is_allowed_guide_uri, contains, osc8_link,
  has_ownership_marker, conflict,
}
use harmotty.Guide.Marker.{Marked, decide_replace_iff}
use harmotty.Guide.Paths.{IsChild, guide_directory_sound}

decide_replace_iff_example :
    (decide (some (codes "<html>")) (codes "<p>") ≡ replace_owned)
    ↔ ((codes "<html>" ≢ codes "<p>") × Marked (codes "<html>") 4096)
decide_replace_iff_example = decide_replace_iff (codes "<html>") (codes "<p>")

foreign_conflicts : decide (some (codes "<html>")) (codes "<p>") ≡ conflict
unfolding decide has_ownership_marker
foreign_conflicts = refl

directory_given :
    guide_directory (codes "/dl/") (codes "com.lean.tty") ≡ located (codes "/dl/com.lean.tty")
unfolding guide_directory trim_trailing_slashes keep_unit validate_bundle_name is_bundle_name
directory_given = refl

path_given : guide_path (codes "/dl") (codes "a") ≡ located (codes "/dl/a/LeanTTY-User-Guide.html")
unfolding guide_path guide_directory trim_trailing_slashes keep_unit validate_bundle_name
    is_bundle_name
path_given = refl

temp_given :
    temp_path (codes "/dl") (codes "a") ≡ located (codes "/dl/a/.LeanTTY-User-Guide.html.tmp")
unfolding temp_path guide_directory trim_trailing_slashes keep_unit validate_bundle_name
    is_bundle_name
temp_given = refl

guide_directory_sound_example :
    IsChild (codes "/dl/") (codes "com.lean.tty") (codes "/dl/com.lean.tty")
guide_directory_sound_example =
    guide_directory_sound (codes "/dl/") (codes "com.lean.tty") (codes "/dl/com.lean.tty")
      directory_given

uri_allowed : is_allowed_guide_uri (codes "file://d/g") (codes "file://d/g") ≡ true
unfolding is_allowed_guide_uri contains starts_with index_of trim trim_start trim_end is_space
uri_allowed = refl

link_written :
    osc8_link (codes "f")
    ≡ (27 ∷ codes "]8;;f")
      ++ (27 ∷ 92 ∷ codes "LeanTTY-User-Guide.html")
      ++ (27 ∷ codes "]8;;")
      ++ 27 ∷ 92 ∷ []
unfolding osc8_link
link_written = refl
