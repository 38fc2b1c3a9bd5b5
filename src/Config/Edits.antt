-- ===== src/Config/Edits.antt =====
-- What `addAlias` and `removeAlias` of entry/src/main/ets/model/ssh/SshConfig.ets change.
use harmotty.Prelude.{
  ℕ, ◌≡◌, refl, sym, ◌∙◌, ap, inl, inr, true, false, ◌&&◌, none, some, List, [], ◌∷◌, map, arith,
  Text, eq_text, eq_text→eq, eq_text_refl, Bool-cases,
}
use harmotty.Command.Ssh.{SshConfigHost}
use harmotty.Config.Source.{new_host}
use harmotty.Config.Names.{has, add_pending, remove_pending}
use harmotty.Config.Hosts.{
  SshConfig, host_at, has_host_alias, update_host, drop_host, add_alias, remove_alias, choose,
  find_host,
}
use harmotty.Config.Lists.{IsDistinct, has-add_pending, has-remove_pending}

-- What a host is after it is added or set.
abbrev pub IsConfigured : Text → Text → ℕ → Text → SshConfigHost → Type 0
IsConfigured alias hostname port user host =
    (host.alias ≡ alias) × (host.hostname ≡ hostname) × (host.port ≡ port) × (host.user ≡ user)

module _ (alias hostname : Text) (port : ℕ) (user : Text) where
  host_at-update_host :
      (hosts : List SshConfigHost)
      → (host : SshConfigHost) × (host_at (update_host hosts alias hostname port user) alias
          ≡ some host)
        × IsConfigured alias hostname port user host
  unfolding host_at update_host
  host_at-update_host [] = (
    record (new_host alias) { hostname = hostname; port = port; user = user },
    rw (eq_text_refl alias) refl,
    (refl, refl, refl, refl),
  )
  host_at-update_host (host ∷ hosts) = elim (Bool-cases (eq_text host.alias alias)) [
    | inl e ↦
        rw (e, e)
          (
            record host { hostname = hostname; port = port; user = user },
            refl,
            (eq_text→eq host.alias alias e, refl, refl, refl),
          )
    | inr e ↦ rw (e, e) (host_at-update_host hosts)
  ]

  host_at-update_host_other :
      (hosts : List SshConfigHost) (other : Text)
      → eq_text alias other ≡ false
      → host_at (update_host hosts alias hostname port user) other ≡ host_at hosts other
  unfolding host_at update_host
  host_at-update_host_other [] other h = rw h refl
  host_at-update_host_other (host ∷ hosts) other h = elim (Bool-cases (eq_text host.alias alias)) [
    | inl e ↦
        let same : host.alias ≡ alias = eq_text→eq host.alias alias e in
        let apart : eq_text host.alias other ≡ false = rw same h in rw (e, apart) refl
    | inr e ↦ rw e (elim (Bool-cases (eq_text host.alias other)) [
      | inl f ↦ rw f refl
      | inr f ↦ rw f (host_at-update_host_other hosts other h)
    ])
  ]

host_at-drop_host :
    (hosts : List SshConfigHost) (alias other : Text)
    → eq_text alias other ≡ false
    → host_at (drop_host hosts alias) other ≡ host_at hosts other
unfolding host_at drop_host
host_at-drop_host [] alias other h = refl
host_at-drop_host (host ∷ hosts) alias other h = elim (Bool-cases (eq_text host.alias alias)) [
  | inl e ↦
      let same : host.alias ≡ alias = eq_text→eq host.alias alias e in
      let apart : eq_text host.alias other ≡ false = rw same h in rw (e, apart) refl
  | inr e ↦ rw e (elim (Bool-cases (eq_text host.alias other)) [
    | inl f ↦ rw f refl
    | inr f ↦ rw f (host_at-drop_host hosts alias other h)
  ])
]

abbrev pub aliases_of : List SshConfigHost → List Text
aliases_of hosts = map (λ host. host.alias) hosts

pub host_at-none :
    (hosts : List SshConfigHost) (alias : Text)
    → has (aliases_of hosts) alias ≡ false
    → host_at hosts alias ≡ none
unfolding host_at has
host_at-none [] alias h = refl
host_at-none (host ∷ hosts) alias h = elim (Bool-cases (eq_text host.alias alias)) [
  | inl e ↦ absurd (let g = rw e at h in cc)
  | inr e ↦ rw e (host_at-none hosts alias (ground arith))
]

host_at-gone :
    (hosts : List SshConfigHost) (alias : Text)
    → IsDistinct (aliases_of hosts)
    → host_at (drop_host hosts alias) alias ≡ none
unfolding host_at drop_host
host_at-gone [] alias h = refl
host_at-gone (host ∷ hosts) alias (h, rest) = elim (Bool-cases (eq_text host.alias alias)) [
  | inl e ↦
      let same : host.alias ≡ alias = eq_text→eq host.alias alias e in
      rw e (host_at-none hosts alias (rw same at h))
  | inr e ↦ rw (e, e) (host_at-gone hosts alias rest)
]

module _ (lower : Text → Text) where
  find_host-pending :
      (s : SshConfig) (alias : Text) (host : SshConfigHost)
      → host_at s.hosts alias ≡ some host
      → has s.pending_upserts alias ≡ true
      → find_host lower s alias ≡ some host
  unfolding find_host choose
  find_host-pending s alias host e p = rw (e, p) refl

  -- A host is found through the hosts, the names to write and the source only.
  find_host_same :
      (s t : SshConfig) (alias : Text)
      → host_at s.hosts alias ≡ host_at t.hosts alias
      → has s.pending_upserts alias ≡ has t.pending_upserts alias
      → s.source_text ≡ t.source_text
      → find_host lower s alias ≡ find_host lower t alias
  unfolding find_host
  find_host_same s t alias e p same = rw (e, p, same) refl

  -- A host that is added or set is found with its host name, port and user, and every other host is
  -- found as before.
  pub find_host-add_alias :
      (s : SshConfig) (alias hostname : Text) (port : ℕ) (user other : Text)
      → ((host : SshConfigHost) × (find_host lower (add_alias s alias hostname port user) alias
            ≡ some host)
          × IsConfigured alias hostname port user host)
        × (eq_text alias other ≡ false
            → find_host lower (add_alias s alias hostname port user) other
              ≡ find_host lower s other)
  unfolding add_alias
  find_host-add_alias s alias hostname port user other =
      let (host, e, set) = host_at-update_host alias hostname port user s.hosts in
      let added = add_alias s alias hostname port user in
      let pending : has added.pending_upserts alias ≡ true =
        has-add_pending s.pending_upserts alias alias ∙ rw (eq_text_refl alias) refl in
      (
        (host, find_host-pending added alias host e pending, set),
        λ apart.
            find_host_same added s other
              (host_at-update_host_other alias hostname port user s.hosts other apart)
              (has-add_pending s.pending_upserts alias other ∙ rw apart refl) refl,
      )

  remove_alias-true :
      (s t : SshConfig) (alias : Text)
      → remove_alias s alias ≡ (true, t)
      → t ≡ record s {
        hosts = drop_host s.hosts alias;
        pending_upserts = remove_pending s.pending_upserts alias;
        pending_removals = add_pending s.pending_removals alias;
        managed_aliases = remove_pending s.managed_aliases alias;
      }
  unfolding remove_alias
  remove_alias-true s t alias e =
      elim (Bool-cases (has s.managed_aliases alias && has_host_alias s.hosts alias)) [
        | inl f ↦ sym (ap (λ r. r.1) (rw f at e))
        | inr f ↦ absurd (let g : false ≡ true = ap (λ r. r.0) (rw f at e) in cc)
      ]

  find_host-none :
      (s : SshConfig) (alias : Text) → host_at s.hosts alias ≡ none → find_host lower s alias ≡ none
  unfolding find_host choose
  find_host-none s alias e = rw e refl

  -- A host that is removed is not found any more, if no two hosts have one name, and every other
  -- host is found as before.
  pub find_host-remove_alias :
      (s t : SshConfig) (alias other : Text)
      → IsDistinct (aliases_of s.hosts)
      → remove_alias s alias ≡ (true, t)
      → (find_host lower t alias ≡ none)
        × (eq_text alias other ≡ false → find_host lower t other ≡ find_host lower s other)
  find_host-remove_alias s t alias other distinct removed =
      let after = remove_alias-true s t alias removed in
      (
        find_host-none t alias
            (ap (λ u. host_at u.hosts alias) after ∙ host_at-gone s.hosts alias distinct),
        λ apart.
            find_host_same t s other
              (ap (λ u. host_at u.hosts other) after ∙ host_at-drop_host s.hosts alias other apart)
              (ap (λ u. has u.pending_upserts other) after
                ∙ has-remove_pending s.pending_upserts alias other apart)
              (ap (λ u. u.source_text) after),
      )
