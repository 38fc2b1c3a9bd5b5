-- ===== src/Config/Source.antt =====
-- What `SshConfig` (entry/src/main/ets/model/ssh/SshConfig.ets) reads in the text of a configuration:
-- the lines, their directives, and what they say of a host.
use harmotty.Prelude.{
  ℕ, suc, ◌+◌, Bool, true, false, not, ◌&&◌, ◌||◌, Option, none, some, List, [], ◌∷◌, ◌++◌, Text,
  codes, eq_text, starts_with, is_space, substring, trim, words_of, push_unit, ◌==◌, if◌then◌else◌,
  length,
}
use mathlib.Core.Option
use harmotty.Prelude.Decimal.{to_text}
use harmotty.Browser.Address.{index_of_text}
use harmotty.Command.Ssh.{SshConfigHost, port_of}
use harmotty.Config.Glob.{glob_matches}

abbrev pub new_host : Text → SshConfigHost
new_host alias = record {
  alias = alias;
  hostname = [];
  user = [];
  port = 22;
  identity_file = [];
  error_message = [];
}

-- `content.split(/\r?\n/)`.
unfoldable pub split_lines : Text → List Text
split_lines [] = [] ∷ []
split_lines (c ∷ []) = if c == 10 then [] ∷ [] ∷ [] else (c ∷ []) ∷ []
split_lines (c ∷ d ∷ s) =
    let rest = split_lines (d ∷ s) in
    let after = split_lines s in
    if c == 13 && d == 10 then [] ∷ after else if c == 10 then [] ∷ rest else push_unit c rest

unfoldable pub strip_inline_comment : Text → Text
strip_inline_comment line = elim (index_of_text (codes " #") line) [
  | none ↦ line
  | some comment_index ↦ trim (substring line 0 comment_index)
]

-- `line.search(/[\s=]/)`.
unfoldable pub search_separator : Text → Option ℕ
search_separator [] = none
search_separator (c ∷ s) =
    if is_space c || c == b'=' then some 0 else Option.map suc (search_separator s)

-- The value without an equals sign in front.
abbrev pub directive_value : Text → Text
directive_value value =
    if starts_with value (codes "=") then trim (substring value 1 (length value)) else value

-- The name of a directive and its value.
unfoldable pub parse_directive : Text → Text × Text
parse_directive line = elim (search_separator line) [
  | none ↦ (line, [])
  | some separator ↦
      (substring line 0 separator, directive_value (trim (substring line separator (length line))))
]

unfoldable pub config_error : Text → Text → ℕ → Text → Text
config_error alias directive line reason =
    codes "SSH config error for "
    ++ alias
    ++ codes " at line "
    ++ to_text line
    ++ codes ": "
    ++ directive
    ++ codes " "
    ++ reason
    ++ codes ". Supported directives: Host, HostName, User, Port, IdentityFile."

-- A line without its comment, or `none` where it says nothing.
unfoldable pub clean_line : Text → Option Text
clean_line line =
    let clean = strip_inline_comment (trim line) in
    if length clean == 0 || starts_with clean (codes "#") then none else some clean

-- What `resolveSourceHost` keeps while it reads.
pub record Resolving : Type 0 where
  pub resolved : SshConfigHost
  pub hostname_set : Bool
  pub port_set : Bool
  pub user_set : Bool
  pub identity_set : Bool
  pub active : Bool

abbrev pub new_resolving : Text → Resolving
new_resolving alias = record {
  resolved = new_host alias;
  hostname_set = false;
  port_set = false;
  user_set = false;
  identity_set = false;
  active = true;
}

-- Only the first error is kept.
unfoldable pub note_error : Text → Text → ℕ → Text → Resolving → Resolving
note_error alias name line reason r =
    if length r.resolved.error_message == 0
    then record r {
      resolved = record r.resolved { error_message = config_error alias name line reason };
    }
    else r

unfoldable pub set_hostname : Text → ℕ → Text → Text → Resolving → Resolving
set_hostname alias line name value r =
    if length value == 0
    then note_error alias name line (codes "missing value") r
    else record r { resolved = record r.resolved { hostname = value }; hostname_set = true }

unfoldable pub set_port : Text → ℕ → Text → Text → Resolving → Resolving
set_port alias line name value r = elim (port_of value) [
  | some port ↦ record r { resolved = record r.resolved { port = port }; port_set = true }
  | none ↦ note_error alias name line (codes "expected port 1-65535") r
]

unfoldable pub set_user : Text → ℕ → Text → Text → Resolving → Resolving
set_user alias line name value r =
    if length value == 0
    then note_error alias name line (codes "missing value") r
    else record r { resolved = record r.resolved { user = value }; user_set = true }

unfoldable pub set_identity : Text → ℕ → Text → Text → Resolving → Resolving
set_identity alias line name value r =
    if length value == 0
    then note_error alias name line (codes "missing value") r
    else record r { resolved = record r.resolved { identity_file = value }; identity_set = true }

-- `lower` is `toLowerCase`.
module _ (lower : Text → Text) where
  -- The loop over the patterns, with what it has found so far.
  unfoldable pub match_patterns : Text → Bool → List Text → Bool
  match_patterns lower_alias positive [] = positive
  match_patterns lower_alias positive (p ∷ patterns) =
      let pattern = lower p in
      let negated = starts_with pattern (codes "!") in
      let found =
        glob_matches lower_alias
          (if negated then substring pattern 1 (length pattern) else pattern) in
      let rest = match_patterns lower_alias (if found then true else positive) patterns in
      if found && negated then false else rest

  unfoldable pub matches_host_patterns : Text → List Text → Bool
  matches_host_patterns alias patterns = match_patterns (lower alias) false patterns

  -- A directive of a host that is active.
  unfoldable pub take_setting : Text → ℕ → Text → Text → Resolving → Resolving
  take_setting alias line name value r =
      let lower_name = lower name in
      if eq_text lower_name (codes "hostname") && not r.hostname_set
      then set_hostname alias line name value r
      else if eq_text lower_name (codes "port") && not r.port_set
      then set_port alias line name value r
      else if eq_text lower_name (codes "user") && not r.user_set
      then set_user alias line name value r
      else if eq_text lower_name (codes "identityfile") && not r.identity_set
      then set_identity alias line name value r
      else if not (eq_text lower_name (codes "hostname"))
          && not (eq_text lower_name (codes "port"))
          && not (eq_text lower_name (codes "user"))
          && not (eq_text lower_name (codes "identityfile"))
      then note_error alias name line (codes "directive is not supported") r
      else r

  unfoldable pub take_directive : Text → ℕ → Text → Text → Resolving → Resolving
  take_directive alias line name value r =
      if eq_text (lower name) (codes "host")
      then (if length value == 0
          then record (note_error alias name line (codes "missing host pattern") r) {
            active = false;
          }
          else record r { active = matches_host_patterns alias (words_of false value) })
      else if eq_text (lower name) (codes "match")
      then record (note_error alias name line (codes "directive is not supported") r) {
        active = false;
      }
      else if r.active
      then take_setting alias line name value r
      else r

  unfoldable pub take_line : Text → ℕ → Text → Resolving → Resolving
  take_line alias line text r = elim (clean_line text) [
    | none ↦ r
    | some clean ↦
        let (name, value) = parse_directive clean in take_directive alias line name value r
  ]

  -- The lines are counted from 1.
  unfoldable pub take_lines : Text → ℕ → List Text → Resolving → Resolving
  take_lines alias line [] r = r
  take_lines alias line (text ∷ lines) r =
      take_lines alias (line + 1) lines (take_line alias line text r)

  unfoldable pub resolve_source_host : Text → Text → SshConfigHost
  resolve_source_host source_text alias =
      let r = take_lines alias 1 (split_lines source_text) (new_resolving alias) in
      if r.hostname_set then r.resolved else record r.resolved { hostname = alias }
