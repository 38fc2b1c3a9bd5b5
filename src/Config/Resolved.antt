-- ===== src/Config/Resolved.antt =====
-- What `resolveSourceHost` of entry/src/main/ets/model/ssh/SshConfig.ets gives.
use harmotty.Prelude.{
  ℕ, ◌+◌, ◌≡◌, ◌≢◌, refl, inl, inr, Bool, true, false, List, [], ◌∷◌, arith, Text, codes, length,
  if◌then◌else◌, Bool-cases, Option-cases, ◌==◌,
}
use harmotty.Command.Ssh.{SshConfigHost, port_of}
use harmotty.Command.Loop.{IsPort, port_of-IsPort}
use harmotty.Config.Source.{
  clean_line, parse_directive, Resolving, new_resolving, note_error, set_hostname, set_port,
  set_user, set_identity, take_setting, take_directive, take_line, take_lines, resolve_source_host,
  split_lines,
}

-- The host keeps its name, its port is one, and a host name that is set is not empty.
record IsResolving (alias : Text) (r : Resolving) : Type 0 where
  named : r.resolved.alias ≡ alias
  in_range : IsPort r.resolved.port
  not_empty : r.hostname_set ≡ true → (length r.resolved.hostname == 0) ≡ false

abbrev pub IsResolved : Text → SshConfigHost → Type 0
IsResolved alias host = (host.alias ≡ alias) × IsPort host.port × (alias ≢ [] → host.hostname ≢ [])

note_error-IsResolving :
    (alias name : Text) (line : ℕ) (reason : Text) (r : Resolving)
    → IsResolving alias r
    → IsResolving alias (note_error alias name line reason r)
unfolding note_error
note_error-IsResolving alias name line reason r h =
    elim (Bool-cases (length r.resolved.error_message == 0)) [
      | inl e ↦ rw e record { named = h.named; in_range = h.in_range; not_empty = h.not_empty }
      | inr e ↦ rw e h
    ]

module _ (lower : Text → Text) (alias : Text) where
  branch :
      (c : Bool) (x y : Resolving)
      → IsResolving alias x
      → IsResolving alias y
      → IsResolving alias (if c then x else y)
  branch true x y h k = h
  branch false x y h k = k

  set_hostname-IsResolving :
      (line : ℕ) (name value : Text) (r : Resolving)
      → IsResolving alias r
      → IsResolving alias (set_hostname alias line name value r)
  unfolding set_hostname
  set_hostname-IsResolving line name value r h = elim (Bool-cases (length value == 0)) [
    | inl e ↦ rw e (note_error-IsResolving alias name line (codes "missing value") r h)
    | inr e ↦ rw e (record { named = h.named; in_range = h.in_range; not_empty = λ _. e })
  ]

  set_user-IsResolving :
      (line : ℕ) (name value : Text) (r : Resolving)
      → IsResolving alias r
      → IsResolving alias (set_user alias line name value r)
  unfolding set_user
  set_user-IsResolving line name value r h = elim (Bool-cases (length value == 0)) [
    | inl e ↦ rw e (note_error-IsResolving alias name line (codes "missing value") r h)
    | inr e ↦ rw e (record { named = h.named; in_range = h.in_range; not_empty = h.not_empty })
  ]

  set_identity-IsResolving :
      (line : ℕ) (name value : Text) (r : Resolving)
      → IsResolving alias r
      → IsResolving alias (set_identity alias line name value r)
  unfolding set_identity
  set_identity-IsResolving line name value r h = elim (Bool-cases (length value == 0)) [
    | inl e ↦ rw e (note_error-IsResolving alias name line (codes "missing value") r h)
    | inr e ↦ rw e (record { named = h.named; in_range = h.in_range; not_empty = h.not_empty })
  ]

  set_port-IsResolving :
      (line : ℕ) (name value : Text) (r : Resolving)
      → IsResolving alias r
      → IsResolving alias (set_port alias line name value r)
  unfolding set_port
  set_port-IsResolving line name value r h = elim (Option-cases (port_of value)) [
    | inl e ↦
        rw (e, set_port)
          (note_error-IsResolving alias name line (codes "expected port 1-65535") r h)
    | inr (port, e) ↦
        rw (e, set_port)
          (record {
            named = h.named;
            in_range = port_of-IsPort value port e;
            not_empty = h.not_empty;
          })
  ]

  take_setting-IsResolving :
      (line : ℕ) (name value : Text) (r : Resolving)
      → IsResolving alias r
      → IsResolving alias (take_setting lower alias line name value r)
  unfolding take_setting
  take_setting-IsResolving line name value r h =
      branch _ (set_hostname alias line name value r) _
        (set_hostname-IsResolving line name value r h)
        (branch _ (set_port alias line name value r) _ (set_port-IsResolving line name value r h) (
          branch _ (set_user alias line name value r) _ (set_user-IsResolving line name value r h) (
            branch _ (set_identity alias line name value r) _
              (set_identity-IsResolving line name value r h)
              (branch _ (note_error alias name line (codes "directive is not supported") r) r
                (note_error-IsResolving alias name line (codes "directive is not supported") r h)
                h))))

  switched :
      (r : Resolving) (active : Bool)
      → IsResolving alias r
      → IsResolving alias (record r { active = active })
  switched r active h = record { named = h.named; in_range = h.in_range; not_empty = h.not_empty }

  take_directive-IsResolving :
      (line : ℕ) (name value : Text) (r : Resolving)
      → IsResolving alias r
      → IsResolving alias (take_directive lower alias line name value r)
  unfolding take_directive
  take_directive-IsResolving line name value r h =
      branch _ _ _
        (branch _ _ _
          (switched _ false
            (note_error-IsResolving alias name line (codes "missing host pattern") r h))
          (switched r _ h))
        (branch _ _ _
          (switched _ false
            (note_error-IsResolving alias name line (codes "directive is not supported") r h))
          (branch _ _ _ (take_setting-IsResolving line name value r h) h))

  take_line-IsResolving :
      (line : ℕ) (text : Text) (r : Resolving)
      → IsResolving alias r
      → IsResolving alias (take_line lower alias line text r)
  unfolding take_line
  take_line-IsResolving line text r h = elim (Option-cases (clean_line text)) [
    | inl e ↦ rw (e, take_line) h
    | inr (clean, e) ↦
        rw (e, take_line)
          (take_directive-IsResolving line (parse_directive clean).0 (parse_directive clean).1 r h)
  ]

  take_lines-IsResolving :
      (line : ℕ) (lines : List Text) (r : Resolving)
      → IsResolving alias r
      → IsResolving alias (take_lines lower alias line lines r)
  unfolding take_lines
  take_lines-IsResolving line [] r h = h
  take_lines-IsResolving line (text ∷ lines) r h =
      take_lines-IsResolving (line + 1) lines (take_line lower alias line text r)
        (take_line-IsResolving line text r h)

  finish-IsResolved :
      (r : Resolving)
      → IsResolving alias r
      → IsResolved alias
          (if r.hostname_set then r.resolved else record r.resolved { hostname = alias })
  finish-IsResolved r h = elim (Bool-cases r.hostname_set) [
    | inl e ↦ rw e (
      h.named,
      h.in_range,
      λ _ empty. absurd (let f = h.not_empty e in let g = rw empty at f in cc),
    )
    | inr e ↦ rw e (h.named, h.in_range, λ full. full)
  ]

  -- Whatever the configuration says, the host that it gives has the name that was asked for, a port
  -- from 1 to 65535, and a host name that is not empty unless the name is.
  pub resolve_source_host-IsResolved :
      (source_text : Text) → IsResolved alias (resolve_source_host lower source_text alias)
  unfolding resolve_source_host
  resolve_source_host-IsResolved source_text = finish-IsResolved _ (
      take_lines-IsResolving 1 (split_lines source_text) (new_resolving alias) (record {
        named = refl;
        in_range = (omega arith, omega arith);
        not_empty = λ e. absurd (cc);
      }))
