-- ===== src/Tests/Commands.antt =====
-- Runs of the command `ssh`.
use harmotty.Prelude.{
  ℕ, ◌≡◌, refl, inl, inr, Bool, true, false, Bool-cases, Option, none, some, [], ◌∷◌, arith, Text,
  codes, eq_text, if◌then◌else◌, trim, trim_start, trim_end, is_space, starts_with, substring,
  index_of, last_index_of, words_of, ap, sym,
}
use mathlib.Core.Option
use harmotty.Prelude.Decimal.{is_digit, digits_value}
use harmotty.Command.Ssh.{
  SshConfigHost, parse_command, argument_text, resolve, scan_args, take_arg, take_other, take_port,
  take_identity, set_port, parse_target, finish_target, parse_host_port, parse_plain,
  parse_bracketed, bracketed_rest, set_host_port, accept_alias, port_of,
}
use harmotty.Command.Loop.{IsPort, IsDecided}
use harmotty.Command.Outcome.{parse_command-IsDecided}

abbrev web_host : SshConfigHost
web_host = record {
  alias = codes "web";
  hostname = codes "10.0.0.7";
  user = codes "ops";
  port = 2022;
  identity_file = codes "id_web";
  error_message = [];
}

unfoldable find_web : Text → Option SshConfigHost
find_web target = if eq_text target (codes "web") then some web_host else none

words_of_run : words_of false (codes "-p 22   a@b") ≡ codes "-p" ∷ codes "22" ∷ codes "a@b" ∷ []
unfolding words_of is_space
words_of_run = refl

find_web-IsPort : (t : Text) (host : SshConfigHost) → find_web t ≡ some host → IsPort host.port
unfolding find_web
find_web-IsPort t host e = elim (Bool-cases (eq_text t (codes "web"))) [
  | inl f ↦
      let same : some web_host ≡ some host = rw f at e in
      let found : host ≡ web_host = ap (λ o. Option.get_or o web_host) (sym same) in
      rw found (omega arith, omega arith)
  | inr f ↦ absurd (let g = rw f at e in cc)
]

parse_command-IsDecided_example :
    IsDecided (parse_command find_web (codes "ssh -p 2222 root@[::1]"))
parse_command-IsDecided_example =
    parse_command-IsDecided find_web (codes "ssh -p 2222 root@[::1]") find_web-IsPort

-- Where a command leads, or why it is refused.
abbrev outcome : Text → Bool × Text × Text × ℕ × Text
outcome input =
    let r = parse_command find_web input in
    (r.is_valid, r.username, r.host, r.port, r.error_message)

plain_run :
    outcome (codes " ssh root@example.org:2222 ")
    ≡ (true, codes "root", codes "example.org", 2222, [])
unfolding parse_command find_web trim trim_start trim_end argument_text starts_with substring
    resolve scan_args words_of take_arg take_other take_port take_identity set_port parse_target
    last_index_of finish_target parse_host_port parse_plain parse_bracketed bracketed_rest index_of
    set_host_port accept_alias port_of digits_value is_digit is_space
plain_run = refl

bracketed_run :
    outcome (codes "ssh -p 24 -i key root@[::1]:23") ≡ (true, codes "root", codes "::1", 24, [])
unfolding parse_command find_web trim trim_start trim_end argument_text starts_with substring
    resolve scan_args words_of take_arg take_other take_port take_identity set_port parse_target
    last_index_of finish_target parse_host_port parse_plain parse_bracketed bracketed_rest index_of
    set_host_port accept_alias port_of digits_value is_digit is_space
bracketed_run = refl

alias_run : outcome (codes "ssh web") ≡ (true, codes "ops", codes "10.0.0.7", 2022, [])
unfolding parse_command find_web trim trim_start trim_end argument_text starts_with substring
    resolve scan_args words_of take_arg take_other take_port take_identity set_port parse_target
    last_index_of finish_target parse_host_port parse_plain parse_bracketed bracketed_rest index_of
    set_host_port accept_alias port_of digits_value is_digit is_space
alias_run = refl

refused_run : outcome (codes "ssh web -p") ≡ (false, [], [], 22, codes "Missing port after -p")
unfolding parse_command find_web trim trim_start trim_end argument_text starts_with substring
    resolve scan_args words_of take_arg take_other take_port take_identity set_port parse_target
    last_index_of finish_target parse_host_port parse_plain parse_bracketed bracketed_rest index_of
    set_host_port accept_alias port_of digits_value is_digit is_space
refused_run = refl
