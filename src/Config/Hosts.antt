-- ===== src/Config/Hosts.antt =====
-- `SshConfig` (entry/src/main/ets/model/ssh/SshConfig.ets): the hosts, those that the program manages,
-- and the text that it writes. Files are left out: a save gives the text of the backup and the text.
use harmotty.Prelude.{
  ℕ, Bool, true, false, not, ◌&&◌, ◌||◌, Option, none, some, List, [], ◌∷◌, ◌++◌, map, Text, codes,
  eq_text, trim, words_of, split_on, ◌==◌, if◌then◌else◌, length,
}
use harmotty.Command.Ssh.{SshConfigHost}
use harmotty.Config.Source.{new_host, clean_line, parse_directive, resolve_source_host}
use harmotty.Config.Names.{
  managed_begin, managed_end, has, add_pending, remove_pending, is_pattern, newline_of, append_host,
  remove_managed_region, read_managed_aliases,
}

pub record SshConfig : Type 0 where
  pub hosts : List SshConfigHost
  pub loaded : Bool
  pub source_text : Text
  pub pending_upserts : List Text
  pub pending_removals : List Text
  pub managed_aliases : List Text

-- The fields of a new object.
abbrev pub new : SshConfig
new = record {
  hosts = [];
  loaded = false;
  source_text = [];
  pending_upserts = [];
  pending_removals = [];
  managed_aliases = [];
}

-- The first host with an alias.
unfoldable pub host_at : List SshConfigHost → Text → Option SshConfigHost
host_at [] alias = none
host_at (host ∷ hosts) alias = if eq_text host.alias alias then some host else host_at hosts alias

unfoldable pub has_host_alias : List SshConfigHost → Text → Bool
has_host_alias [] alias = false
has_host_alias (host ∷ hosts) alias =
    if eq_text host.alias alias then true else has_host_alias hosts alias

unfoldable pub add_hosts : List SshConfigHost → List Text → List SshConfigHost
add_hosts hosts [] = hosts
add_hosts hosts (alias ∷ aliases) =
    add_hosts
      (if not (length alias == 0) && not (is_pattern alias) && not (has_host_alias hosts alias)
        then hosts ++ record (new_host alias) { hostname = alias } ∷ []
        else hosts)
      aliases

-- `lower` is `toLowerCase`.
module _ (lower : Text → Text) where
  abbrev pub line_names : Text → List Text
  line_names line = elim (clean_line line) [
    | none ↦ []
    | some clean ↦
        let (name, value) = parse_directive clean in
        if eq_text (lower name) (codes "host") then words_of false value else []
  ]

  unfoldable pub collect_hosts : List SshConfigHost → List Text → List SshConfigHost
  collect_hosts hosts [] = hosts
  collect_hosts hosts (line ∷ lines) = collect_hosts (add_hosts hosts (line_names line)) lines

  unfoldable pub parse_config : Text → Text → List SshConfigHost
  parse_config source_text content =
      map (λ host. resolve_source_host lower source_text host.alias)
        (collect_hosts [] (split_on 10 content))

  unfoldable pub load_from_text : Text → SshConfig
  load_from_text content = record {
    hosts = parse_config content content;
    loaded = true;
    source_text = content;
    pending_upserts = [];
    pending_removals = [];
    managed_aliases = read_managed_aliases lower content;
  }

  -- `content` is what the file has; without one it is empty.
  unfoldable pub load : Text → SshConfig
  load content =
      if length content == 0 then record new { loaded = true } else load_from_text content

  -- The host itself while it is to be written, and else what the source says.
  unfoldable pub choose : Text → Bool → Text → Option SshConfigHost → Option SshConfigHost
  choose source_text pending alias none = none
  choose source_text pending alias (some host) =
      if pending || length source_text == 0
      then some host
      else some (resolve_source_host lower source_text alias)

  unfoldable pub find_host : SshConfig → Text → Option SshConfigHost
  find_host s alias =
      choose s.source_text (has s.pending_upserts alias) alias (host_at s.hosts alias)

  unfoldable pub append_managed : SshConfig → Text → List Text → Text
  append_managed s managed [] = managed
  append_managed s managed (alias ∷ aliases) =
      append_managed s
        (elim (find_host s alias) [ none ↦ managed | some host ↦ append_host managed host ]) aliases

  unfoldable pub preview_config_text : SshConfig → Text
  preview_config_text s =
      let unmanaged = trim (remove_managed_region s.source_text) in
      let newline = newline_of s.source_text in
      let managed =
        append_managed s (managed_begin ++ newline) s.managed_aliases ++ managed_end ++ newline in
      if length s.managed_aliases == 0
      then (if length unmanaged == 0 then [] else unmanaged ++ 10 ∷ [])
      else if length unmanaged == 0
      then managed
      else managed ++ newline ++ unmanaged ++ newline

  -- The text of the backup, the text that is written, and the configuration after it.
  unfoldable pub save_config : SshConfig → Option Text × Text × SshConfig
  save_config s =
      let content = preview_config_text s in
      (
        if length s.source_text == 0 then none else some s.source_text,
        content,
        load_from_text content,
      )

abbrev pub is_managed_host : SshConfig → Text → Bool
is_managed_host s alias = has s.managed_aliases alias

abbrev pub get_host_aliases : SshConfig → List Text
get_host_aliases s = map (λ host. host.alias) s.hosts

-- The first host with an alias gets its new values.
unfoldable pub update_host : List SshConfigHost → Text → Text → ℕ → Text → List SshConfigHost
update_host [] alias hostname port user =
    record (new_host alias) { hostname = hostname; port = port; user = user } ∷ []
update_host (host ∷ hosts) alias hostname port user =
    if eq_text host.alias alias
    then record host { hostname = hostname; port = port; user = user } ∷ hosts
    else host ∷ update_host hosts alias hostname port user

unfoldable pub add_alias : SshConfig → Text → Text → ℕ → Text → SshConfig
add_alias s alias hostname port user = record s {
  hosts = update_host s.hosts alias hostname port user;
  pending_removals = remove_pending s.pending_removals alias;
  pending_upserts = add_pending s.pending_upserts alias;
  managed_aliases = add_pending s.managed_aliases alias;
}

unfoldable pub drop_host : List SshConfigHost → Text → List SshConfigHost
drop_host [] alias = []
drop_host (host ∷ hosts) alias =
    if eq_text host.alias alias then hosts else host ∷ drop_host hosts alias

unfoldable pub remove_alias : SshConfig → Text → Bool × SshConfig
remove_alias s alias =
    if has s.managed_aliases alias && has_host_alias s.hosts alias
    then (
      true,
      record s {
        hosts = drop_host s.hosts alias;
        pending_upserts = remove_pending s.pending_upserts alias;
        pending_removals = add_pending s.pending_removals alias;
        managed_aliases = remove_pending s.managed_aliases alias;
      },
    )
    else (false, s)

-- The operations, in any order.
pub data Operation : Type 0 where
  loading : Text → Operation
  adding : Text → Text → ℕ → Text → Operation
  removing : Text → Operation
  saving : Operation

module _ (lower : Text → Text) where
  unfoldable pub perform : SshConfig → Operation → SshConfig
  perform s (loading content) = load lower content
  perform s (adding alias hostname port user) = add_alias s alias hostname port user
  perform s (removing alias) = (remove_alias s alias).1
  perform s saving = (save_config lower s).2

  unfoldable pub run : SshConfig → List Operation → SshConfig
  run s [] = s
  run s (operation ∷ operations) = run (perform s operation) operations
