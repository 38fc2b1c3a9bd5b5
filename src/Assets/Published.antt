-- ===== src/Assets/Published.antt =====
-- The files that tools/web-terminal/build.mjs writes, and the check of them in
-- tools/web-terminal/test-terminal-policy.mjs.
use harmotty.Prelude.{
  ◌≡◌, refl, sym, ◌∙◌, inl, inr, Bool, true, false, List, [], ◌∷◌, ◌++◌, map, append_assoc,
  append-nil, Text, eq_text, eq_text_refl, ==_refl, if◌then◌else◌, length, all, All, Bool-cases,
}
use harmotty.Assets.Build.{
  Bytes, assets, strip_source_map, Folder, read_file, ManifestEntry, BuildState, build_asset,
  build_loop, build,
}
use harmotty.Assets.Check.{
  lists_every_asset, equal_texts, sort, insert_sorted, text_le, matches_file,
}
use harmotty.Assets.Files.{read_file-write_file, checked_out, has_crlf, unix_lines-checked_out}

-- No two outputs have one name.
abbrev IsDistinct : List (Text × Text) → Type 0
IsDistinct [] = Unit
IsDistinct ((source, name) ∷ rest) =
    All (λ (s, other). eq_text other name ≡ false) rest × IsDistinct rest

assets-IsDistinct : IsDistinct assets
assets-IsDistinct = (
  (refl, (refl, (refl, (refl, (refl, (refl, tt)))))),
  (
    (refl, (refl, (refl, (refl, (refl, tt))))),
    (
      (refl, (refl, (refl, (refl, tt)))),
      ((refl, (refl, (refl, tt))), ((refl, (refl, tt)), ((refl, tt), (tt, tt)))),
    ),
  ),
)

module _ (decode : Bytes → Text) (encode : Text → Bytes) (hash : Bytes → Text)
    (source : Text → Bytes) where
  -- What the build makes of a source.
  abbrev pub published : Text → Text
  published source_relative = strip_source_map (decode (source source_relative))

  -- A source whose text UTF-8 gives back, and that has line ends as on Unix.
  abbrev pub IsPlain : Text × Text → Type 0
  IsPlain (source_relative, name) =
      (decode (encode (published source_relative)) ≡ published source_relative)
      × (has_crlf (published source_relative) ≡ false)

  abbrev entry_of : Text × Text → ManifestEntry
  entry_of (source_relative, name) = record {
    file = name;
    bytes = length (encode (published source_relative));
    sha256 = hash (encode (published source_relative));
  }

  build_asset-read :
      (source_relative name other : Text) (s : BuildState)
      → read_file (build_asset decode encode hash source source_relative name s).folder other ≡ (
          if eq_text name other
          then encode (published source_relative)
          else read_file s.folder other)
  unfolding build_asset
  build_asset-read source_relative name other s =
      let copied = read_file-write_file name name (source source_relative) s.folder in
      rw (copied, eq_text_refl name, read_file-write_file name other _ _)
        (elim (Bool-cases (eq_text name other)) [
          | inl e ↦ rw e refl
          | inr e ↦
              rw (e, read_file-write_file name other (source source_relative) s.folder, e) refl
        ])

  build_asset_lem :
      (source_relative name : Text) (s : BuildState)
      → (build_asset decode encode hash source source_relative name s).manifest
        ≡ s.manifest ++ entry_of (source_relative, name) ∷ []
  unfolding build_asset
  build_asset_lem source_relative name s =
      let copied = read_file-write_file name name (source source_relative) s.folder in
      rw (copied, eq_text_refl name, read_file-write_file name name _ _, eq_text_refl name) refl

  build_loop_lem :
      (rest : List (Text × Text)) (s : BuildState)
      → (build_loop decode encode hash source rest s).manifest ≡ s.manifest ++ map entry_of rest
  unfolding build_loop
  build_loop_lem [] s = sym (append-nil s.manifest)
  build_loop_lem ((source_relative, name) ∷ rest) s =
      build_loop_lem rest (build_asset decode encode hash source source_relative name s)
      ∙ rw (build_asset_lem source_relative name s) (append_assoc s.manifest _ _)

  -- A file that no later asset is named after stays as it is.
  build_loop-kept :
      (rest : List (Text × Text)) (s : BuildState) (name : Text)
      → All (λ (t, other). eq_text other name ≡ false) rest
      → read_file (build_loop decode encode hash source rest s).folder name
        ≡ read_file s.folder name
  unfolding build_loop
  build_loop-kept [] s name h = refl
  build_loop-kept ((source_relative, other) ∷ rest) s name (apart, h) =
      build_loop-kept rest (build_asset decode encode hash source source_relative other s) name h
      ∙ (build_asset-read source_relative other name s ∙ rw apart refl)

  build_loop-published :
      (rest : List (Text × Text)) (s : BuildState)
      → IsDistinct rest
      → All
          (λ (source_relative, name).
            read_file (build_loop decode encode hash source rest s).folder name
            ≡ encode (published source_relative))
          rest
  unfolding build_loop
  build_loop-published [] s d = tt
  build_loop-published ((source_relative, name) ∷ rest) s (apart, d) =
      let next = build_asset decode encode hash source source_relative name s in
      (
        build_loop-kept rest next name apart
            ∙ (build_asset-read source_relative name name s ∙ rw (eq_text_refl name) refl),
        build_loop-published rest next d,
      )

  matches_file-published :
      (windows : Bool) (built checkout : Folder) (source_relative name : Text)
      → IsPlain (source_relative, name)
      → read_file built name ≡ encode (published source_relative)
      → decode (read_file checkout name) ≡ checked_out windows (decode (read_file built name))
      → matches_file decode encode hash checkout (entry_of (source_relative, name)) ≡ true
  unfolding matches_file
  matches_file-published windows built checkout source_relative name (kept, plain) made taken =
      rw
        (
          taken,
          made,
          kept,
          unix_lines-checked_out windows (published source_relative) plain,
          ==_refl (length (encode (published source_relative))),
          eq_text_refl (hash (encode (published source_relative))),
        )
        refl

  all_match :
      (windows : Bool) (built checkout : Folder) (rest : List (Text × Text))
      → All IsPlain rest
      → All
          (λ (source_relative, name). read_file built name ≡ encode (published source_relative))
          rest
      → ((name : Text)
          → decode (read_file checkout name) ≡ checked_out windows (decode (read_file built name)))
      → all (matches_file decode encode hash checkout) (map entry_of rest) ≡ true
  all_match windows built checkout [] plain made taken = refl
  all_match windows built checkout ((source_relative, name) ∷ rest) (p, plain) (m, made) taken =
      rw (matches_file-published windows built checkout source_relative name p m (taken name))
        (all_match windows built checkout rest plain made taken)

  assets_listed : lists_every_asset (map entry_of assets) ≡ true
  unfolding lists_every_asset sort insert_sorted text_le equal_texts
  assets_listed = refl

  -- If the published texts are plain, the files of a checkout, with line ends as on Unix or as on
  -- Windows, match the manifest of the build in size and hash, and the manifest lists every asset.
  pub build-matches :
      (windows : Bool) (folder checkout : Folder)
      → All IsPlain assets
      → ((name : Text)
          → decode (read_file checkout name)
            ≡ checked_out windows
                (decode (read_file (build decode encode hash source folder).folder name)))
      → (lists_every_asset (build decode encode hash source folder).manifest ≡ true)
        × (all
              (matches_file decode encode hash checkout)
              (build decode encode hash source folder).manifest
            ≡ true)
  unfolding build
  build-matches windows folder checkout plain taken =
      let start : BuildState = record { folder = folder; manifest = [] } in
      let listed = build_loop_lem assets start in
      rw listed (
        assets_listed,
        all_match windows (build_loop decode encode hash source assets start).folder checkout assets
            plain (build_loop-published assets start assets-IsDistinct) taken,
      )
