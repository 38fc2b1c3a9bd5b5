-- ===== src/Config/Loads.antt =====
-- The invariant of an `SshConfig` (entry/src/main/ets/model/ssh/SshConfig.ets) that has read a text.
use harmotty.Prelude.{
  ◌≡◌, refl, ◌∙◌, ap, inl, inr, Bool, false, not, ◌&&◌, ◌||◌, List, [], ◌∷◌, ◌++◌, map, All, arith,
  Text, eq_text, trim, Bool-cases, length, ◌==◌, split_on,
}
use harmotty.Command.Ssh.{SshConfigHost}
use harmotty.Command.Loop.{IsPort}
use harmotty.Config.Source.{new_host, resolve_source_host, split_lines, strip_inline_comment}
use harmotty.Config.Resolved.{resolve_source_host-IsResolved}
use harmotty.Config.Names.{
  has, add_pending, is_pattern, add_names, managed_loop, read_managed_aliases, managed_after,
  is_marker, header_names,
}
use harmotty.Config.Hosts.{
  has_host_alias, add_hosts, line_names, collect_hosts, parse_config, load_from_text, load,
}
use harmotty.Config.Lists.{IsDistinct, add_pending-IsDistinct, IsDistinct-append}
use harmotty.Config.Edits.{aliases_of}
use harmotty.Config.Keeps.{IsConfig}

add_names-IsDistinct :
    (aliases names : List Text) → IsDistinct aliases → IsDistinct (add_names aliases names)
unfolding add_names
add_names-IsDistinct aliases [] h = h
add_names-IsDistinct aliases (name ∷ names) h = elim (Bool-cases (is_pattern name)) [
  | inl e ↦ rw e (add_names-IsDistinct aliases names h)
  | inr e ↦ rw e (
      add_names-IsDistinct (add_pending aliases name) names (add_pending-IsDistinct aliases name h))
]

aliases_of-append :
    (hosts : List SshConfigHost) (host : SshConfigHost)
    → aliases_of (hosts ++ host ∷ []) ≡ aliases_of hosts ++ host.alias ∷ []
aliases_of-append [] host = refl
aliases_of-append (h ∷ hosts) host = ap (λ xs. h.alias ∷ xs) (aliases_of-append hosts host)

has-aliases_of :
    (hosts : List SshConfigHost) (alias : Text)
    → has (aliases_of hosts) alias ≡ has_host_alias hosts alias
unfolding has has_host_alias
has-aliases_of [] alias = refl
has-aliases_of (host ∷ hosts) alias = elim (Bool-cases (eq_text host.alias alias)) [
  | inl e ↦ rw e refl
  | inr e ↦ rw e (has-aliases_of hosts alias)
]

add_hosts-IsDistinct :
    (hosts : List SshConfigHost) (aliases : List Text)
    → IsDistinct (aliases_of hosts)
    → IsDistinct (aliases_of (add_hosts hosts aliases))
unfolding add_hosts
add_hosts-IsDistinct hosts [] h = h
add_hosts-IsDistinct hosts (alias ∷ aliases) h =
    elim (Bool-cases
      (not (length alias == 0) && not (is_pattern alias) && not (has_host_alias hosts alias))) [
        | inl e ↦
            let fresh : has (aliases_of hosts) alias ≡ false =
              has-aliases_of hosts alias ∙ ground arith in
            rw e (
              add_hosts-IsDistinct _ aliases (
                rw (aliases_of-append hosts (record (new_host alias) { hostname = alias }))
                  (IsDistinct-append (aliases_of hosts) alias h fresh)))
        | inr e ↦ rw e (add_hosts-IsDistinct hosts aliases h)
      ]

module _ (lower : Text → Text) where
  collect_hosts-IsDistinct :
      (hosts : List SshConfigHost) (lines : List Text)
      → IsDistinct (aliases_of hosts)
      → IsDistinct (aliases_of (collect_hosts lower hosts lines))
  unfolding collect_hosts
  collect_hosts-IsDistinct hosts [] h = h
  collect_hosts-IsDistinct hosts (line ∷ lines) h =
      collect_hosts-IsDistinct (add_hosts hosts (line_names lower line)) lines
        (add_hosts-IsDistinct hosts (line_names lower line) h)

  aliases_of-resolved :
      (source_text : Text) (hosts : List SshConfigHost)
      → aliases_of (map (λ host. resolve_source_host lower source_text host.alias) hosts)
        ≡ aliases_of hosts
  aliases_of-resolved source_text [] = refl
  aliases_of-resolved source_text (host ∷ hosts) =
      rw
        (
          (resolve_source_host-IsResolved lower host.alias source_text).0,
          aliases_of-resolved source_text hosts,
        )
        refl

  resolved-ports :
      (source_text : Text) (hosts : List SshConfigHost)
      → All
          (λ host. IsPort host.port)
          (map (λ host. resolve_source_host lower source_text host.alias) hosts)
  resolved-ports source_text [] = tt
  resolved-ports source_text (host ∷ hosts) = (
    (resolve_source_host-IsResolved lower host.alias source_text).1,
    resolved-ports source_text hosts,
  )

  managed_loop-IsDistinct :
      (managed : Bool) (aliases lines : List Text)
      → IsDistinct aliases
      → IsDistinct (managed_loop lower managed aliases lines)
  unfolding managed_loop
  managed_loop-IsDistinct managed aliases [] h = h
  managed_loop-IsDistinct managed aliases (line ∷ lines) h =
      elim (Bool-cases (is_marker (trim line) || not managed)) [
        | inl e ↦ rw e (managed_loop-IsDistinct (managed_after managed (trim line)) aliases lines h)
        | inr e ↦ rw e (
            managed_loop-IsDistinct (managed_after managed (trim line))
              (add_names aliases (header_names lower (strip_inline_comment (trim line)))) lines
              (add_names-IsDistinct aliases (header_names lower (strip_inline_comment (trim line)))
                h))
      ]

  pub load_from_text-IsConfig : (content : Text) → IsConfig (load_from_text lower content)
  unfolding load_from_text parse_config read_managed_aliases has
  load_from_text-IsConfig content = record {
    hosts_distinct =
        rw (aliases_of-resolved content (collect_hosts lower [] (split_on 10 content)))
          (collect_hosts-IsDistinct [] (split_on 10 content) tt);
    managed_distinct = managed_loop-IsDistinct false [] (split_lines content) tt;
    upserts_distinct = tt;
    removals_distinct = tt;
    apart = λ alias h. refl;
    ports = resolved-ports content (collect_hosts lower [] (split_on 10 content));
  }

  pub load-IsConfig : (content : Text) → IsConfig (load lower content)
  unfolding load has
  load-IsConfig content = elim (Bool-cases (length content == 0)) [
    | inl e ↦ rw e (record {
      hosts_distinct = tt;
      managed_distinct = tt;
      upserts_distinct = tt;
      removals_distinct = tt;
      apart = λ alias h. refl;
      ports = tt;
    })
    | inr e ↦ rw e (load_from_text-IsConfig content)
  ]
