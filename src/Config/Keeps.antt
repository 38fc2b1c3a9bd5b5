-- ===== src/Config/Keeps.antt =====
-- The invariant of an `SshConfig` (entry/src/main/ets/model/ssh/SshConfig.ets), and that each operation
-- keeps it.
use harmotty.Prelude.{
  ℕ, ◌≡◌, refl, sym, ◌∙◌, ap, inl, inr, true, false, ◌&&◌, List, [], ◌∷◌, All, Text, eq_text,
  eq_text→eq, Bool-cases,
}
use harmotty.Command.Ssh.{SshConfigHost}
use harmotty.Command.Loop.{IsPort}
use harmotty.Config.Names.{has, add_pending, remove_pending}
use harmotty.Config.Hosts.{
  SshConfig, has_host_alias, update_host, drop_host, add_alias, remove_alias,
}
use harmotty.Config.Lists.{
  IsDistinct, has-add_pending, has-remove_pending, add_pending-IsDistinct,
  remove_pending-IsDistinct, remove_pending-gone,
}
use harmotty.Config.Edits.{aliases_of}

-- No two hosts have one name, no name stands twice in a list, no name is to be written and to be
-- removed, and every host has a port.
pub record IsConfig (s : SshConfig) : Type 0 where
  pub hosts_distinct : IsDistinct (aliases_of s.hosts)
  pub managed_distinct : IsDistinct s.managed_aliases
  pub upserts_distinct : IsDistinct s.pending_upserts
  pub removals_distinct : IsDistinct s.pending_removals
  pub apart :
      (alias : Text) → has s.pending_upserts alias ≡ true → has s.pending_removals alias ≡ false
  pub ports : All (λ host. IsPort host.port) s.hosts

aliases_of-update_host :
    (alias hostname : Text) (port : ℕ) (user : Text) (hosts : List SshConfigHost)
    → aliases_of (update_host hosts alias hostname port user) ≡ add_pending (aliases_of hosts) alias
unfolding update_host add_pending has
aliases_of-update_host alias hostname port user [] = refl
aliases_of-update_host alias hostname port user (host ∷ hosts) =
    elim (Bool-cases (eq_text host.alias alias)) [
      | inl e ↦ rw e refl
      | inr e ↦
          rw (e, aliases_of-update_host alias hostname port user hosts)
            (elim (Bool-cases (has (aliases_of hosts) alias)) [
              | inl f ↦ rw f refl
              | inr f ↦ rw f refl
            ])
    ]

aliases_of-drop_host :
    (hosts : List SshConfigHost) (alias : Text)
    → aliases_of (drop_host hosts alias) ≡ remove_pending (aliases_of hosts) alias
unfolding drop_host remove_pending
aliases_of-drop_host [] alias = refl
aliases_of-drop_host (host ∷ hosts) alias = elim (Bool-cases (eq_text host.alias alias)) [
  | inl e ↦ rw e refl
  | inr e ↦ rw e (ap (λ xs. host.alias ∷ xs) (aliases_of-drop_host hosts alias))
]

update_host-ports :
    (alias hostname : Text) (port : ℕ) (user : Text)
    → IsPort port
    → (hosts : List SshConfigHost) → All (λ host. IsPort host.port) hosts
    → All (λ host. IsPort host.port) (update_host hosts alias hostname port user)
unfolding update_host
update_host-ports alias hostname port user p [] h = (p, tt)
update_host-ports alias hostname port user p (host ∷ hosts) (h, rest) =
    elim (Bool-cases (eq_text host.alias alias)) [
      | inl e ↦ rw e (p, rest)
      | inr e ↦ rw e (h, update_host-ports alias hostname port user p hosts rest)
    ]

drop_host-ports :
    (alias : Text) (hosts : List SshConfigHost)
    → All (λ host. IsPort host.port) hosts
    → All (λ host. IsPort host.port) (drop_host hosts alias)
unfolding drop_host
drop_host-ports alias [] h = tt
drop_host-ports alias (host ∷ hosts) (h, rest) = elim (Bool-cases (eq_text host.alias alias)) [
  | inl e ↦ rw e rest
  | inr e ↦ rw e (h, drop_host-ports alias hosts rest)
]

pub add_alias-IsConfig :
    (s : SshConfig) (alias hostname : Text) (port : ℕ) (user : Text)
    → IsPort port
    → IsConfig s
    → IsConfig (add_alias s alias hostname port user)
unfolding add_alias
add_alias-IsConfig s alias hostname port user p h = record {
  hosts_distinct =
      rw (aliases_of-update_host alias hostname port user s.hosts)
        (add_pending-IsDistinct (aliases_of s.hosts) alias h.hosts_distinct);
  managed_distinct = add_pending-IsDistinct s.managed_aliases alias h.managed_distinct;
  upserts_distinct = add_pending-IsDistinct s.pending_upserts alias h.upserts_distinct;
  removals_distinct = remove_pending-IsDistinct s.pending_removals alias h.removals_distinct;
  apart = λ other e. elim (Bool-cases (eq_text alias other)) [
    | inl f ↦
        let same : alias ≡ other = eq_text→eq alias other f in
        rw (← same) (remove_pending-gone s.pending_removals alias h.removals_distinct)
    | inr f ↦
        has-remove_pending s.pending_removals alias other f
        ∙ h.apart other (sym (has-add_pending s.pending_upserts alias other ∙ rw f refl) ∙ e)
  ];
  ports = update_host-ports alias hostname port user p s.hosts h.ports;
}

pub remove_alias-IsConfig :
    (s : SshConfig) (alias : Text) → IsConfig s → IsConfig (remove_alias s alias).1
unfolding remove_alias
remove_alias-IsConfig s alias h =
    elim (Bool-cases (has s.managed_aliases alias && has_host_alias s.hosts alias)) [
      | inl e ↦ rw e (record {
        hosts_distinct =
            rw (aliases_of-drop_host s.hosts alias)
              (remove_pending-IsDistinct (aliases_of s.hosts) alias h.hosts_distinct);
        managed_distinct = remove_pending-IsDistinct s.managed_aliases alias h.managed_distinct;
        upserts_distinct = remove_pending-IsDistinct s.pending_upserts alias h.upserts_distinct;
        removals_distinct = add_pending-IsDistinct s.pending_removals alias h.removals_distinct;
        apart = λ other f. elim (Bool-cases (eq_text alias other)) [
          | inl g ↦
              let same : alias ≡ other = eq_text→eq alias other g in
              absurd (
                let gone = remove_pending-gone s.pending_upserts alias h.upserts_distinct in
                let there = rw (← same) at f in cc)
          | inr g ↦
              has-add_pending s.pending_removals alias other
              ∙ rw g (h.apart other (sym (has-remove_pending s.pending_upserts alias other g) ∙ f))
        ];
        ports = drop_host-ports alias s.hosts h.ports;
      })
      | inr e ↦ rw e h
    ]
