-- ===== src/Tests/Configs.antt =====
-- Runs of the SSH configuration.
use harmotty.Prelude.{
  ◌≡◌, refl, false, Option, none, some, List, [], ◌∷◌, map, Text, codes, not, ◌&&◌, eq_text, arith,
  starts_with, trim, split_on, words_of, substring, is_space, trim_start, trim_end,
}
use harmotty.Prelude.Decimal.{to_text, is_digit, digits_value}
use harmotty.Guide.Policy.{to_lower, contains}
use harmotty.Browser.Address.{index_of_text}
use harmotty.Command.Ssh.{SshConfigHost, port_of}
use harmotty.Config.Glob.{glob_matches, glob_loop, glob_turn}
use harmotty.Config.GlobMeaning.{matches}
use harmotty.Config.GlobMatches.{glob_matches_lem}
use harmotty.Config.Source.{
  resolve_source_host, matches_host_patterns, match_patterns, split_lines, clean_line,
  strip_inline_comment, parse_directive, search_separator, take_lines, take_line, take_directive,
  take_setting, set_hostname, set_port, set_user, set_identity, note_error, config_error,
}
use harmotty.Config.Names.{
  has, add_pending, remove_pending, ends_with, join, append_host, unmanaged_lines,
  remove_managed_region, add_names, managed_loop, read_managed_aliases,
}
use harmotty.Command.Ssh.{parse_command}
use harmotty.Command.Loop.{IsDecided}
use harmotty.Config.Patterns.{accepts, excludes, any_of, matches_host_patterns_lem}
use harmotty.Config.Resolved.{IsResolved, resolve_source_host-IsResolved}
use harmotty.Config.Edits.{IsConfigured, find_host-add_alias, find_host-remove_alias}
use harmotty.Config.Keeps.{IsConfig}
use harmotty.Config.Valid.{run-IsConfig, parse_command-run}
use harmotty.Config.Hosts.{
  has_host_alias, host_at, add_hosts, collect_hosts, parse_config, load_from_text, choose,
  append_managed, update_host, drop_host, SshConfig, new, load, add_alias, remove_alias, find_host,
  preview_config_text, save_config, Operation, loading, adding, removing, saving, run,
}

abbrev lower_ascii : Text → Text
lower_ascii s = map to_lower s

glob_matches_example :
    (glob_loop 200 (codes "web-12.example") (codes "w*-?*.ex*e") none
      ≡ some (matches (codes "w*-?*.ex*e") (codes "web-12.example")))
    × (glob_matches (codes "web-12.example") (codes "w*-?*.ex*e")
        ≡ matches (codes "w*-?*.ex*e") (codes "web-12.example"))
glob_matches_example =
    glob_matches_lem (codes "web-12.example") (codes "w*-?*.ex*e") 200 refl (omega arith)

abbrev small_config : Text
small_config =
    codes "Host web\n  HostName web.example # the site\n  Port 2200\nHost *\n  User root\n"

abbrev small : SshConfig
small = load lower_ascii small_config

abbrev with_db : SshConfig
with_db = add_alias small (codes "db") (codes "10.0.0.1") 5432 (codes "admin")

matches_host_patterns_example :
    matches_host_patterns lower_ascii (codes "Web1") (codes "*" ∷ codes "!web2" ∷ []) ≡ (
      any_of (accepts lower_ascii (codes "Web1")) (codes "*" ∷ codes "!web2" ∷ [])
      && not (any_of (excludes lower_ascii (codes "Web1")) (codes "*" ∷ codes "!web2" ∷ [])))
matches_host_patterns_example =
    matches_host_patterns_lem lower_ascii (codes "Web1") (codes "*" ∷ codes "!web2" ∷ []) refl

resolve_source_host-IsResolved_example :
    IsResolved (codes "web") (resolve_source_host lower_ascii small_config (codes "web"))
resolve_source_host-IsResolved_example =
    resolve_source_host-IsResolved lower_ascii (codes "web") small_config

find_host-add_alias_example :
    ((host : SshConfigHost) × (find_host lower_ascii with_db (codes "db") ≡ some host)
      × IsConfigured (codes "db") (codes "10.0.0.1") 5432 (codes "admin") host)
    × (eq_text (codes "db") (codes "web") ≡ false
        → find_host lower_ascii with_db (codes "web") ≡ find_host lower_ascii small (codes "web"))
find_host-add_alias_example =
    find_host-add_alias lower_ascii small (codes "db") (codes "10.0.0.1") 5432 (codes "admin")
      (codes "web")

abbrev operations : List Operation
operations =
    loading small_config
    ∷ adding (codes "db") (codes "10.0.0.1") 5432 (codes "admin")
    ∷ saving
    ∷ removing (codes "db")
    ∷ saving
    ∷ []

run-IsConfig_example : IsConfig (run lower_ascii new operations)
run-IsConfig_example =
    run-IsConfig lower_ascii operations (tt, ((omega arith, omega arith), (tt, (tt, (tt, tt)))))

parse_command-run_example :
    IsDecided
      (parse_command (find_host lower_ascii (run lower_ascii new operations)) (codes "ssh web"))
parse_command-run_example =
    parse_command-run lower_ascii operations (codes "ssh web")
      (tt, ((omega arith, omega arith), (tt, (tt, (tt, tt)))))

abbrev without_db : SshConfig
without_db = (remove_alias with_db (codes "db")).1

find_host-remove_alias_example :
    (find_host lower_ascii without_db (codes "db") ≡ none)
    × (eq_text (codes "db") (codes "web") ≡ false
        → find_host lower_ascii without_db (codes "web")
          ≡ find_host lower_ascii with_db (codes "web"))
unfolding load load_from_text parse_config collect_hosts add_hosts has_host_alias host_at split_on
    split_lines clean_line strip_inline_comment index_of_text parse_directive search_separator
    resolve_source_host take_lines take_line take_directive take_setting set_hostname set_port
    set_user set_identity note_error config_error matches_host_patterns match_patterns glob_matches
    glob_loop glob_turn read_managed_aliases managed_loop add_names add_pending has add_alias
    update_host remove_pending find_host choose preview_config_text append_managed append_host
    ends_with contains remove_managed_region unmanaged_lines join save_config port_of digits_value
    is_digit to_text starts_with trim trim_start trim_end substring is_space words_of drop_host
    remove_alias
find_host-remove_alias_example =
    find_host-remove_alias lower_ascii with_db without_db (codes "db") (codes "web")
      (refl, (refl, tt)) refl

abbrev saved : SshConfig
saved = (save_config lower_ascii with_db).2

-- Both hosts are read again as they were.
saved_runs :
    map (find_host lower_ascii saved) (codes "db" ∷ codes "web" ∷ [])
    ≡ map (find_host lower_ascii with_db) (codes "db" ∷ codes "web" ∷ [])
unfolding load load_from_text parse_config collect_hosts add_hosts has_host_alias host_at split_on
    split_lines clean_line strip_inline_comment index_of_text parse_directive search_separator
    resolve_source_host take_lines take_line take_directive take_setting set_hostname set_port
    set_user set_identity note_error config_error matches_host_patterns match_patterns glob_matches
    glob_loop glob_turn read_managed_aliases managed_loop add_names add_pending has add_alias
    update_host remove_pending find_host choose preview_config_text append_managed append_host
    ends_with contains remove_managed_region unmanaged_lines join save_config port_of digits_value
    is_digit to_text starts_with trim trim_start trim_end substring is_space words_of drop_host
    remove_alias
saved_runs = refl

-- A setting before the first host is for all hosts; after a save it stands behind a managed host.
abbrev global : SshConfig
global = load lower_ascii (codes "User root\nHost web\n")

abbrev user_of : Option SshConfigHost → Text
user_of none = []
user_of (some host) = host.user

global_runs :
    map
      (λ s. user_of (find_host lower_ascii s (codes "web")))
      (global
        ∷ (save_config lower_ascii
            (add_alias global (codes "db") (codes "10.0.0.1") 22 (codes "admin"))).2
        ∷ [])
    ≡ codes "root" ∷ [] ∷ []
unfolding load load_from_text parse_config collect_hosts add_hosts has_host_alias host_at split_on
    split_lines clean_line strip_inline_comment index_of_text parse_directive search_separator
    resolve_source_host take_lines take_line take_directive take_setting set_hostname set_port
    set_user set_identity note_error config_error matches_host_patterns match_patterns glob_matches
    glob_loop glob_turn read_managed_aliases managed_loop add_names add_pending has add_alias
    update_host remove_pending find_host choose preview_config_text append_managed append_host
    ends_with contains remove_managed_region unmanaged_lines join save_config port_of digits_value
    is_digit to_text starts_with trim trim_start trim_end substring is_space words_of drop_host
    remove_alias
global_runs = refl

-- A star in a name is taken for a unit, so the star of the pattern does not open.
star_runs : glob_matches (codes "*ab") (codes "*b") ≡ false
unfolding load load_from_text parse_config collect_hosts add_hosts has_host_alias host_at split_on
    split_lines clean_line strip_inline_comment index_of_text parse_directive search_separator
    resolve_source_host take_lines take_line take_directive take_setting set_hostname set_port
    set_user set_identity note_error config_error matches_host_patterns match_patterns glob_matches
    glob_loop glob_turn read_managed_aliases managed_loop add_names add_pending has add_alias
    update_host remove_pending find_host choose preview_config_text append_managed append_host
    ends_with contains remove_managed_region unmanaged_lines join save_config port_of digits_value
    is_digit to_text starts_with trim trim_start trim_end substring is_space words_of drop_host
    remove_alias
star_runs = refl
