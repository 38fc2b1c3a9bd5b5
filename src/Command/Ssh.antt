-- ===== src/Command/Ssh.antt =====
-- `CommandParser.parseCommand` (entry/src/main/ets/model/command/CommandParser.ets): the command
-- `ssh`. What `SshConfig.findHost` finds is the argument `find_host`.
use harmotty.Prelude.{
  ℕ, zero, suc, ◌+◌, Bool, true, false, not, ◌&&◌, ◌||◌, Option, none, some, List, [], ◌∷◌, ◌++◌,
  Text, codes, eq_text, starts_with, substring, trim, index_of, last_index_of, words_of, ltb, leb,
  ◌==◌, if◌then◌else◌, length, all,
}
use harmotty.Prelude.Decimal.{is_digit, digits_value}

pub record CommandParseResult : Type 0 where
  pub is_valid : Bool
  pub host : Text
  pub port : ℕ
  pub username : Text
  pub is_alias : Bool
  pub identity_file : Text
  pub error_message : Text

abbrev pub new_result : CommandParseResult
new_result = record {
  is_valid = false;
  host = [];
  port = 22;
  username = [];
  is_alias = false;
  identity_file = [];
  error_message = [];
}

pub record SshConfigHost : Type 0 where
  pub alias : Text
  pub hostname : Text
  pub user : Text
  pub port : ℕ
  pub identity_file : Text
  pub error_message : Text

abbrev pub refuse : CommandParseResult → Text → CommandParseResult
refuse result message = record result { error_message = message }

-- The port that a text of digits from 1 to 65535 names.
unfoldable pub port_of : Text → Option ℕ
port_of text =
    let value = digits_value 0 text in
    if length text == 0 || not (all is_digit text) || value == 0 || ltb 65535 value
    then none
    else some value

pub record ArgState : Type 0 where
  pub result : CommandParseResult
  pub target : Text
  pub explicit_port : ℕ
  pub identity_specified : Bool

-- Where the loop over the arguments stands: it returned, or it goes on with the arguments left.
pub data Scan : Type 0 where
  stopped : CommandParseResult → Scan
  going : ArgState → List Text → Scan

unfoldable pub set_port : ArgState → List Text → Option ℕ → Scan
set_port s rest none = stopped (refuse s.result (codes "Port must be between 1 and 65535"))
set_port s rest (some port) = going (record s { explicit_port = port }) rest

unfoldable pub take_port : ArgState → List Text → Scan
take_port s [] = stopped (refuse s.result (codes "Missing port after -p"))
take_port s (value ∷ rest) =
    if ltb 0 s.explicit_port
    then stopped (refuse s.result (codes "Duplicate SSH option: -p"))
    else set_port s rest (port_of value)

unfoldable pub take_identity : ArgState → List Text → Scan
take_identity s [] = stopped (refuse s.result (codes "Missing identity file after -i"))
take_identity s (file ∷ rest) =
    if s.identity_specified
    then stopped (refuse s.result (codes "Duplicate SSH option: -i"))
    else going
        (record s { result = record s.result { identity_file = file }; identity_specified = true })
        rest

unfoldable pub take_other : ArgState → Text → List Text → Scan
take_other s arg rest =
    if starts_with arg (codes "-")
    then stopped (refuse s.result (codes "Unsupported SSH option: " ++ arg))
    else if length s.target == 0
    then going (record s { target = arg }) rest
    else stopped (refuse s.result (codes "Unexpected SSH argument: " ++ arg))

-- One turn of the loop.
unfoldable pub take_arg : ArgState → Text → List Text → Scan
take_arg s arg rest =
    if eq_text arg (codes "-p")
    then take_port s rest
    else if eq_text arg (codes "-i")
    then take_identity s rest
    else take_other s arg rest

-- The loop, on the number of the arguments as its fuel.
unfoldable pub scan_args : ℕ → Scan → Scan
scan_args fuel (stopped result) = stopped result
scan_args fuel (going s []) = going s []
scan_args zero (going s (arg ∷ rest)) = going s (arg ∷ rest)
scan_args (suc fuel) (going s (arg ∷ rest)) = scan_args fuel (take_arg s arg rest)

unfoldable pub set_host_port : CommandParseResult → Option ℕ → CommandParseResult
set_host_port result none = refuse result (codes "Port 1-65535")
set_host_port result (some port) = record result { port = port }

unfoldable pub bracketed_rest : CommandParseResult → Text → CommandParseResult
bracketed_rest result [] = result
bracketed_rest result (c ∷ port) =
    if c == b':'
    then set_host_port result (port_of port)
    else refuse result (codes "Unexpected text after bracketed SSH host")

unfoldable pub parse_bracketed : Text → CommandParseResult → Option ℕ → CommandParseResult
parse_bracketed host_port result none = refuse result (codes "Invalid bracketed IPv6 hostname")
parse_bracketed host_port result (some closing) =
    if leb closing 1
    then refuse result (codes "Invalid bracketed IPv6 hostname")
    else bracketed_rest (record result { host = substring host_port 1 closing })
        (substring host_port (closing + 1) (length host_port))

unfoldable pub parse_plain : Text → CommandParseResult → Option ℕ → Option ℕ → CommandParseResult
parse_plain host_port result (some first) (some last) =
    if ltb 0 first && first == last
    then set_host_port (record result { host = substring host_port 0 first })
        (port_of (substring host_port (first + 1) (length host_port)))
    else record result { host = host_port }
parse_plain host_port result _ _ = record result { host = host_port }

unfoldable pub parse_host_port : Text → CommandParseResult → CommandParseResult
parse_host_port host_port result =
    if starts_with host_port (codes "[")
    then parse_bracketed host_port result (index_of b']' host_port)
    else parse_plain host_port result (index_of b':' host_port) (last_index_of b':' host_port)

unfoldable pub accept_alias : ArgState → SshConfigHost → CommandParseResult
accept_alias s host =
    if ltb 0 (length host.error_message)
    then refuse s.result host.error_message
    else if length host.user == 0
    then refuse s.result (codes "SSH alias must define User: " ++ s.target)
    else record {
      is_valid = true;
      host = host.hostname;
      port = if ltb 0 s.explicit_port then s.explicit_port else host.port;
      username = host.user;
      is_alias = true;
      identity_file =
          if length s.result.identity_file == 0 then host.identity_file else s.result.identity_file;
      error_message = s.result.error_message;
    }

-- The end of the command, with the host and the port of the target read.
unfoldable pub finish_target : ℕ → CommandParseResult → CommandParseResult
finish_target explicit_port result =
    let port = if ltb 0 explicit_port then explicit_port else result.port in
    if ltb 0 (length result.error_message)
    then result
    else if ltb 0 (length result.username) && ltb 0 (length result.host)
    then record result { port = port; is_valid = true }
    else record result { port = port; is_valid = false; error_message = codes "Invalid SSH target" }

unfoldable pub parse_target : ArgState → Option ℕ → CommandParseResult
parse_target s none = refuse s.result (codes "Username required")
parse_target s (some zero) = refuse s.result (codes "Username required")
parse_target s (some (suc at)) = finish_target s.explicit_port (
    parse_host_port (substring s.target (suc at + 1) (length s.target))
      (record s.result { username = substring s.target 0 (suc at) }))

unfoldable pub resolve : (Text → Option SshConfigHost) → Scan → CommandParseResult
resolve find_host (stopped result) = result
resolve find_host (going s rest) =
    if length s.target == 0
    then refuse s.result (codes "Missing SSH host")
    else elim (find_host s.target) [
      | some host ↦ accept_alias s host
      | none ↦ parse_target s (last_index_of b'@' s.target)
    ]

abbrev pub first_state : ArgState
first_state = record {
  result = new_result;
  target = [];
  explicit_port = 0;
  identity_specified = false;
}

unfoldable pub argument_text : Text → Text
argument_text trimmed =
    if starts_with trimmed (codes "ssh ")
    then trim (substring trimmed 4 (length trimmed))
    else trimmed

unfoldable pub parse_command : (Text → Option SshConfigHost) → Text → CommandParseResult
parse_command find_host input =
    let trimmed = trim input in
    let args = words_of false (argument_text trimmed) in
    if length trimmed == 0
    then refuse new_result (codes "Usage: ssh <user>@<host>")
    else if length (argument_text trimmed) == 0
    then refuse new_result (codes "Usage: ssh <user>@<host> or ssh <host-name>")
    else resolve find_host (scan_args (length args) (going first_state args))
