-- ===== src/Config/Names.antt =====
-- The names and the managed region of a configuration, of
-- entry/src/main/ets/model/ssh/SshConfig.ets.
use harmotty.Prelude.{
  ◌-◌, Bool, true, false, not, ◌&&◌, ◌||◌, List, [], ◌∷◌, ◌++◌, Text, codes, eq_text, starts_with,
  substring, trim, words_of, leb, ◌==◌, if◌then◌else◌, length, drop,
}
use harmotty.Prelude.Decimal.{to_text}
use harmotty.Guide.Policy.{contains}
use harmotty.Command.Ssh.{SshConfigHost}
use harmotty.Config.Source.{split_lines, strip_inline_comment}

abbrev pub managed_begin : Text
managed_begin = codes "# >>> LeanTTY managed hosts >>>"

abbrev pub managed_end : Text
managed_end = codes "# <<< LeanTTY managed hosts <<<"

-- `items.indexOf(alias) >= 0`.
unfoldable pub has : List Text → Text → Bool
has [] alias = false
has (item ∷ items) alias = eq_text item alias || has items alias

unfoldable pub add_pending : List Text → Text → List Text
add_pending items alias = if has items alias then items else items ++ alias ∷ []

unfoldable pub remove_pending : List Text → Text → List Text
remove_pending [] alias = []
remove_pending (item ∷ items) alias =
    if eq_text item alias then items else item ∷ remove_pending items alias

-- A pattern or a negated one, which names no host.
abbrev pub is_pattern : Text → Bool
is_pattern name =
    contains name (codes "*") || contains name (codes "?") || starts_with name (codes "!")

abbrev pub newline_of : Text → Text
newline_of content = if contains content (13 ∷ 10 ∷ []) then 13 ∷ 10 ∷ [] else 10 ∷ []

unfoldable pub ends_with : Text → Text → Bool
ends_with text part =
    leb (length part) (length text) && eq_text (drop (length text - length part) text) part

unfoldable pub join : Text → List Text → Text
join separator [] = []
join separator (part ∷ []) = part
join separator (part ∷ next ∷ parts) = part ++ separator ++ join separator (next ∷ parts)

unfoldable pub append_host : Text → SshConfigHost → Text
append_host content host =
    let newline = newline_of content in
    let ended =
      if not (length content == 0) && not (ends_with content (10 ∷ []))
      then content ++ newline
      else content in
    let parted =
      if not (length ended == 0) && not (ends_with ended (newline ++ newline))
      then ended ++ newline
      else ended in
    parted
    ++ (codes "Host " ++ host.alias ++ newline)
    ++ (codes "  HostName " ++ host.hostname ++ newline)
    ++ (codes "  User " ++ host.user ++ newline)
    ++ (if host.port == 22 then [] else codes "  Port " ++ to_text host.port ++ newline)
    ++ (if length host.identity_file == 0
        then []
        else codes "  IdentityFile " ++ host.identity_file ++ newline)
    ++ newline

abbrev pub is_marker : Text → Bool
is_marker trimmed = eq_text trimmed managed_begin || eq_text trimmed managed_end

-- Whether the lines after a line are managed.
abbrev pub managed_after : Bool → Text → Bool
managed_after managed trimmed =
    if eq_text trimmed managed_begin
    then true
    else if eq_text trimmed managed_end
    then false
    else managed

-- The lines outside the regions that the program manages.
unfoldable pub unmanaged_lines : Bool → List Text → List Text
unmanaged_lines managed [] = []
unmanaged_lines managed (line ∷ lines) =
    let rest = unmanaged_lines (managed_after managed (trim line)) lines in
    if is_marker (trim line) || managed then rest else line ∷ rest

unfoldable pub remove_managed_region : Text → Text
remove_managed_region content =
    join (newline_of content) (unmanaged_lines false (split_lines content))

unfoldable pub add_names : List Text → List Text → List Text
add_names aliases [] = aliases
add_names aliases (name ∷ names) =
    add_names (if is_pattern name then aliases else add_pending aliases name) names

-- `lower` is `toLowerCase`.
module _ (lower : Text → Text) where
  abbrev pub header_names : Text → List Text
  header_names clean =
      if starts_with (lower clean) (codes "host ")
      then words_of false (trim (substring clean 5 (length clean)))
      else []

  unfoldable pub managed_loop : Bool → List Text → List Text → List Text
  managed_loop managed aliases [] = aliases
  managed_loop managed aliases (line ∷ lines) =
      let trimmed = trim line in
      managed_loop (managed_after managed trimmed)
        (if is_marker trimmed || not managed
          then aliases
          else add_names aliases (header_names (strip_inline_comment trimmed)))
        lines

  unfoldable pub read_managed_aliases : Text → List Text
  read_managed_aliases content = managed_loop false [] (split_lines content)
