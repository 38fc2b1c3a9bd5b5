-- ===== src/Command/Outcome.antt =====
-- The result of a command `ssh` (`parseCommand` of entry/src/main/ets/model/command/CommandParser.ets).
use harmotty.Prelude.{
  ℕ, zero, suc, ◌+◌, ◌≤◌, ◌≡◌, inl, inr, refl, false, ◌&&◌, Option, none, some, [], ◌∷◌, arith,
  Text, codes, starts_with, substring, trim, index_of, last_index_of, words_of, ltb, ltb→lt, leb,
  ◌==◌, if◌then◌else◌, length, Bool-cases, Option-cases, lt→ltb, length-take, substring-take, take,
  drop, length-drop,
}
use harmotty.Command.Ssh.{
  CommandParseResult, SshConfigHost, port_of, ArgState, Scan, stopped, going, scan_args,
  set_host_port, bracketed_rest, parse_bracketed, parse_plain, parse_host_port, accept_alias,
  finish_target, parse_target, resolve, first_state, argument_text, parse_command,
}
use harmotty.Command.Loop.{
  IsPort, IsDecided, IsOpen, IsReady, IsTurned, IsParsed, port_of-IsPort, scan_args-IsTurned,
}

set_host_port-IsOpen :
    (r : CommandParseResult) (port : Option ℕ)
    → IsOpen r
    → ((p : ℕ) → port ≡ some p → IsPort p)
    → IsParsed r (set_host_port r port)
unfolding set_host_port
set_host_port-IsOpen r none v h = inr (v.0, omega arith)
set_host_port-IsOpen r (some p) v h = inl ((v.0, v.1, h p refl), refl)

bracketed_rest-IsParsed :
    (r : CommandParseResult) (rest : Text) → IsOpen r → IsParsed r (bracketed_rest r rest)
unfolding bracketed_rest
bracketed_rest-IsParsed r [] v = inl (v, refl)
bracketed_rest-IsParsed r (c ∷ port) v = elim (Bool-cases (c == b':')) [
  | inl e ↦ simp e (set_host_port-IsOpen r (port_of port) v (λ p q. port_of-IsPort port p q))
  | inr e ↦ simp e (inr (v.0, omega arith))
]

parse_bracketed-IsParsed :
    (text : Text) (r : CommandParseResult) (closing : Option ℕ)
    → IsOpen r
    → IsParsed r (parse_bracketed text r closing)
unfolding parse_bracketed
parse_bracketed-IsParsed text r none v = inr (v.0, omega arith)
parse_bracketed-IsParsed text r (some closing) v = elim (Bool-cases (leb closing 1)) [
  | inl e ↦ simp e (inr (v.0, omega arith))
  | inr e ↦ simp e (
      bracketed_rest-IsParsed (record r { host = substring text 1 closing })
        (substring text (closing + 1) (length text)) v)
]

parse_plain-IsParsed :
    (text : Text) (r : CommandParseResult) (first last : Option ℕ)
    → IsOpen r
    → IsParsed r (parse_plain text r first last)
unfolding parse_plain
parse_plain-IsParsed text r none last v = inl (v, refl)
parse_plain-IsParsed text r (some first) none v = inl (v, refl)
parse_plain-IsParsed text r (some first) (some last) v =
    elim (Bool-cases (ltb 0 first && first == last)) [
      | inl e ↦ simp e (
          set_host_port-IsOpen (record r { host = substring text 0 first })
            (port_of (substring text (first + 1) (length text))) v (λ p q. port_of-IsPort _ p q))
      | inr e ↦ simp e (inl (v, refl))
    ]

parse_host_port-IsParsed :
    (text : Text) (r : CommandParseResult) → IsOpen r → IsParsed r (parse_host_port text r)
unfolding parse_host_port
parse_host_port-IsParsed text r v = elim (Bool-cases (starts_with text (codes "["))) [
  | inl e ↦ simp e (parse_bracketed-IsParsed text r (index_of b']' text) v)
  | inr e ↦ simp e (parse_plain-IsParsed text r (index_of b':' text) (last_index_of b':' text) v)
]

chosen_in_range :
    (explicit_port port : ℕ)
    → explicit_port ≤ 65535
    → IsPort port
    → IsPort (if ltb 0 explicit_port then explicit_port else port)
chosen_in_range explicit_port port h v = elim (Bool-cases (ltb 0 explicit_port)) [
  | inl e ↦ simp e (ltb→lt 0 explicit_port e, h)
  | inr e ↦ simp e v
]

accept_alias-IsDecided :
    (s : ArgState) (host : SshConfigHost)
    → IsReady s
    → IsPort host.port
    → IsDecided (accept_alias s host)
unfolding accept_alias
accept_alias-IsDecided s host v p = elim (Bool-cases (ltb 0 (length host.error_message))) [
  | inl e ↦ simp e (inr (v.0.0, ltb→lt 0 _ e))
  | inr e ↦ elim (Bool-cases (length host.user == 0)) [
    | inl f ↦ simp (e, f) (inr (v.0.0, omega arith))
    | inr f ↦
        simp (e, f)
          (inl (refl, v.0.1, chosen_in_range s.explicit_port host.port v.1 p, ground arith))
  ]
]

finish_target-IsDecided :
    (explicit_port : ℕ) (before r : CommandParseResult)
    → explicit_port ≤ 65535
    → 1 ≤ length before.username
    → IsParsed before r
    → IsDecided (finish_target explicit_port r)
unfolding finish_target
finish_target-IsDecided explicit_port before r h u (inr v) =
    rw (lt→ltb 0 (length r.error_message) v.1) (inr v)
finish_target-IsDecided explicit_port before r h u (inl (v, same)) =
    rw v.1 (elim (Bool-cases (ltb 0 (length r.username) && ltb 0 (length r.host))) [
      | inl e ↦ simp e (inl (refl, refl, chosen_in_range explicit_port r.port h v.2, rw same u))
      | inr e ↦ simp e (inr (refl, omega arith))
    ])

length-substring_user :
    (text : Text) (at : ℕ)
    → last_index_of b'@' text ≡ some (suc at)
    → 1 ≤ length (substring text 0 (suc at))
unfolding last_index_of
length-substring_user [] at e = cc
length-substring_user (c ∷ text) at e =
    let zero_add : 0 + suc at ≡ suc at = omega arith in
    let cut : substring (c ∷ text) 0 (suc at) ≡ take (suc at) (drop 0 (c ∷ text)) =
      rw zero_add at (substring-take (c ∷ text) 0 (suc at)) in
    rw cut (omega (arith, length-take (suc at) (drop 0 (c ∷ text)), length-drop 0 (c ∷ text)))

parse_target-IsDecided :
    (s : ArgState) (at : Option ℕ)
    → last_index_of b'@' s.target ≡ at
    → IsReady s
    → IsDecided (parse_target s at)
unfolding parse_target
parse_target-IsDecided s none e v = inr (v.0.0, omega arith)
parse_target-IsDecided s (some zero) e v = inr (v.0.0, omega arith)
parse_target-IsDecided s (some (suc at)) e v =
    let result = record s.result { username = substring s.target 0 (suc at) } in
    let host_port = substring s.target (suc at + 1) (length s.target) in
    finish_target-IsDecided s.explicit_port result (parse_host_port host_port result) v.1
      (length-substring_user s.target at e) (parse_host_port-IsParsed host_port result v.0)

resolve-IsDecided :
    (find_host : Text → Option SshConfigHost) (scan : Scan)
    → ((t : Text) (host : SshConfigHost) → find_host t ≡ some host → IsPort host.port)
    → IsTurned 0 scan
    → IsDecided (resolve find_host scan)
unfolding resolve
resolve-IsDecided find_host (stopped r) h v = inr v
resolve-IsDecided find_host (going s rest) h v = elim (Bool-cases (length s.target == 0)) [
  | inl e ↦ simp e (inr (v.0.0.0, omega arith))
  | inr e ↦ simp e (elim (Option-cases (find_host s.target)) [
    | inl f ↦ rw f (parse_target-IsDecided s (last_index_of b'@' s.target) refl v.0)
    | inr f ↦ rw f.1 (accept_alias-IsDecided s f.0 v.0 (h s.target f.0 f.1))
  ])
]

-- If every host of the configuration has a port from 1 to 65535, a command `ssh` is either valid,
-- with a user, a port from 1 to 65535 and no message, or it is refused with a message.
pub parse_command-IsDecided :
    (find_host : Text → Option SshConfigHost) (input : Text)
    → ((t : Text) (host : SshConfigHost) → find_host t ≡ some host → IsPort host.port)
    → IsDecided (parse_command find_host input)
unfolding parse_command
parse_command-IsDecided find_host input h = elim (Bool-cases (length (trim input) == 0)) [
  | inl e ↦ simp e (inr (refl, omega arith))
  | inr e ↦ elim (Bool-cases (length (argument_text (trim input)) == 0)) [
    | inl f ↦ simp (e, f) (inr (refl, omega arith))
    | inr f ↦
        let args = words_of false (argument_text (trim input)) in
        simp (e, f)
          (resolve-IsDecided find_host (scan_args (length args) (going first_state args)) h (
            scan_args-IsTurned (length args) (going first_state args)
              (((refl, refl, (omega arith, omega arith)), omega arith), omega arith)))
  ]
]
