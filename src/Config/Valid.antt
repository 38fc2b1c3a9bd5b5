-- ===== src/Config/Valid.antt =====
-- What holds of an `SshConfig` (entry/src/main/ets/model/ssh/SshConfig.ets) after every sequence of its
-- operations.
use harmotty.Prelude.{
  ◌≡◌, refl, ap, inl, inr, Bool, ◌||◌, Option, none, some, List, [], ◌∷◌, All, Text, eq_text,
  Bool-cases, length, ◌==◌,
}
use mathlib.Core.Option
use harmotty.Command.Ssh.{SshConfigHost, parse_command}
use harmotty.Command.Outcome.{parse_command-IsDecided}
use harmotty.Command.Loop.{IsPort, IsDecided}
use harmotty.Config.Source.{resolve_source_host}
use harmotty.Config.Resolved.{resolve_source_host-IsResolved}
use harmotty.Config.Names.{has}
use harmotty.Config.Hosts.{
  SshConfig, new, host_at, preview_config_text, save_config, choose, find_host, Operation, loading,
  adding, removing, saving, perform, run,
}
use harmotty.Config.Keeps.{IsConfig, add_alias-IsConfig, remove_alias-IsConfig}
use harmotty.Config.Loads.{load_from_text-IsConfig, load-IsConfig}

-- `lower` is `toLowerCase`.
module _ (lower : Text → Text) where
  -- A host is added with a port, as the command line has checked.
  abbrev pub HasPort : Operation → Type 0
  HasPort (adding alias hostname port user) = IsPort port
  HasPort _ = Unit

  perform-IsConfig :
      (s : SshConfig) (operation : Operation)
      → HasPort operation
      → IsConfig s
      → IsConfig (perform lower s operation)
  unfolding perform save_config
  perform-IsConfig s (loading content) p h = load-IsConfig lower content
  perform-IsConfig s (adding alias hostname port user) p h =
      add_alias-IsConfig s alias hostname port user p h
  perform-IsConfig s (removing alias) p h = remove_alias-IsConfig s alias h
  perform-IsConfig s saving p h = load_from_text-IsConfig lower (preview_config_text lower s)

  run_from :
      (s : SshConfig) (operations : List Operation)
      → All HasPort operations
      → IsConfig s
      → IsConfig (run lower s operations)
  unfolding run
  run_from s [] p h = h
  run_from s (operation ∷ operations) (p, rest) h =
      run_from (perform lower s operation) operations rest (perform-IsConfig s operation p h)

  -- After any loads, additions with a port, removals and saves, no two hosts have one name, no name
  -- stands twice among those that are managed, to be written or to be removed, none is to be written
  -- and to be removed, and every host has a port from 1 to 65535.
  pub run-IsConfig :
      (operations : List Operation) → All HasPort operations → IsConfig (run lower new operations)
  unfolding has
  run-IsConfig operations p = run_from new operations p (record {
    hosts_distinct = tt;
    managed_distinct = tt;
    upserts_distinct = tt;
    removals_distinct = tt;
    apart = λ alias h. refl;
    ports = tt;
  })

  All-host_at :
      (hosts : List SshConfigHost) (alias : Text) (host : SshConfigHost)
      → All (λ h. IsPort h.port) hosts
      → host_at hosts alias ≡ some host
      → IsPort host.port
  unfolding host_at
  All-host_at [] alias host h e = absurd (cc)
  All-host_at (first ∷ hosts) alias host (h, rest) e =
      elim (Bool-cases (eq_text first.alias alias)) [
        | inl f ↦
            let same : first ≡ host = ap (λ o. Option.get_or o first) (rw f at e) in rw (← same) h
        | inr f ↦ All-host_at hosts alias host rest (rw f at e)
      ]

  choose-IsPort :
      (source_text : Text) (pending : Bool) (alias : Text) (found : Option SshConfigHost)
      (host : SshConfigHost)
      → ((h : SshConfigHost) → found ≡ some h → IsPort h.port)
      → choose lower source_text pending alias found ≡ some host
      → IsPort host.port
  unfolding choose
  choose-IsPort source_text pending alias none host h e = absurd (cc)
  choose-IsPort source_text pending alias (some first) host h e =
      elim (Bool-cases (pending || length source_text == 0)) [
        | inl f ↦ h host (rw f at e)
        | inr f ↦
            let same : resolve_source_host lower source_text alias ≡ host =
              ap (λ o. Option.get_or o first) (rw f at e) in
            rw (← same) (resolve_source_host-IsResolved lower alias source_text).1
      ]

  -- With the configuration that any such operations leave, every command `ssh` is decided: it is
  -- valid, with a user, a port from 1 to 65535 and no message, or it is refused with a message.
  pub parse_command-run :
      (operations : List Operation) (input : Text)
      → All HasPort operations
      → IsDecided (parse_command (find_host lower (run lower new operations)) input)
  unfolding find_host
  parse_command-run operations input p =
      let s = run lower new operations in
      parse_command-IsDecided (find_host lower s) input (λ alias host e.
        choose-IsPort s.source_text (has s.pending_upserts alias) alias (host_at s.hosts alias) host
          (λ h f. All-host_at s.hosts alias h (run-IsConfig operations p).ports f) e)
