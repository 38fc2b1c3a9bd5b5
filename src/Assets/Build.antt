-- ===== src/Assets/Build.antt =====
-- tools/web-terminal/build.mjs: the files of xterm are copied, lose the address of their source map,
-- and are listed in a manifest.
use harmotty.Prelude.{
  ℕ, Bool, true, false, ◌&&◌, ◌||◌, none, some, List, [], ◌∷◌, ◌++◌, Text, codes, starts_with,
  is_space, drop, ◌==◌, if◌then◌else◌, length, all,
}
use harmotty.Prelude.Dict.{Dict, lookup, set_key}

abbrev pub Bytes : Type 0
Bytes = List ℕ

-- The path of a source under the script's folder, and the name of the output.
abbrev pub assets : List (Text × Text)
assets =
    (codes "node_modules/@xterm/xterm/lib/xterm.js", codes "xterm.js")
    ∷ (codes "node_modules/@xterm/xterm/css/xterm.css", codes "xterm.css")
    ∷ (codes "node_modules/@xterm/addon-fit/lib/addon-fit.js", codes "addon-fit.js")
    ∷ (codes "node_modules/@xterm/addon-search/lib/addon-search.js", codes "addon-search.js")
    ∷ (
      codes "node_modules/@xterm/addon-web-links/lib/addon-web-links.js",
      codes "addon-web-links.js",
    )
    ∷ (
      codes "node_modules/@xterm/addon-serialize/lib/addon-serialize.js",
      codes "addon-serialize.js",
    )
    ∷ (codes "node_modules/@xterm/addon-webgl/lib/addon-webgl.js", codes "addon-webgl.js")
    ∷ []

abbrev pub ends_line : ℕ → Bool
ends_line c = c == 10 || c == 13 || c == 0x2028 || c == 0x2029

-- `.*\s*$`: the rest of the line, then white space to the end.
unfoldable pub is_last_line : Text → Bool
is_last_line [] = true
is_last_line (c ∷ s) =
    let more = is_last_line s in if ends_line c then all is_space (c ∷ s) else more

abbrev pub source_map_mark : Text
source_map_mark = codes "//# sourceMappingURL="

abbrev pub is_source_map : Text → Bool
is_source_map s = starts_with s source_map_mark && is_last_line (drop (length source_map_mark) s)

-- `/\n?\/\/# sourceMappingURL=.*\s*$/` at the start of a text.
unfoldable pub matches_here : Text → Bool
matches_here [] = false
matches_here (c ∷ s) = c == 10 && is_source_map s || is_source_map (c ∷ s)

-- The replacement of the first match, which ends with the text, by a line break.
unfoldable pub strip_source_map : Text → Text
strip_source_map [] = []
strip_source_map (c ∷ s) =
    let rest = strip_source_map s in if matches_here (c ∷ s) then 10 ∷ [] else c ∷ rest

-- The folder of the outputs: the last file written under a name is the one there.
abbrev pub Folder : Type 0
Folder = Dict Bytes

abbrev pub read_file : Folder → Text → Bytes
read_file folder name = elim (lookup folder name) [ none ↦ [] | some bytes ↦ bytes ]

abbrev pub write_file : Text → Bytes → Folder → Folder
write_file name bytes folder = set_key name bytes folder

pub record ManifestEntry : Type 0 where
  pub file : Text
  pub bytes : ℕ
  pub sha256 : Text

pub record BuildState : Type 0 where
  pub folder : Folder
  pub manifest : List ManifestEntry

-- `decode` and `encode` are UTF-8, `hash` is SHA-256 in hexadecimal, and `source` reads a file of
-- node_modules.
module _ (decode : Bytes → Text) (encode : Text → Bytes) (hash : Bytes → Text)
    (source : Text → Bytes) where
  -- One turn of the loop: copy, read, replace, write, read again, list.
  unfoldable pub build_asset : Text → Text → BuildState → BuildState
  build_asset source_relative output_name s =
      let copied = write_file output_name (source source_relative) s.folder in
      let content = strip_source_map (decode (read_file copied output_name)) in
      let written = write_file output_name (encode content) copied in
      let bytes = read_file written output_name in
      let entry : ManifestEntry = record {
        file = output_name;
        bytes = length bytes;
        sha256 = hash bytes;
      } in
      record { folder = written; manifest = s.manifest ++ entry ∷ [] }

  unfoldable pub build_loop : List (Text × Text) → BuildState → BuildState
  build_loop [] s = s
  build_loop ((source_relative, output_name) ∷ rest) s =
      build_loop rest (build_asset source_relative output_name s)

  unfoldable pub build : Folder → BuildState
  build folder = build_loop assets (record { folder = folder; manifest = [] })
