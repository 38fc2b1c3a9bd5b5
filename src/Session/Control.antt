-- ===== src/Session/Control.antt =====
-- `ConnectionControl` and the name of a known host (entry/src/main/ets/model/ssh).
use harmotty.Prelude.{
  ℕ, ◌≡◌, ◌≢◌, ◌↔◌, inl, inr, ap, sym, ◌∙◌, Bool, true, false, ◌&&◌, none, [], ◌∷◌, ◌++◌, Text,
  codes, eq_text, eq_text_iff, ◌==◌, if◌then◌else◌, arith, index_of, drop, separated_inj,
  append_assoc, Bool-cases,
}
use harmotty.Prelude.Int.{ℤ, pos, negsuc}
use harmotty.Prelude.Decimal.{to_text, to_text_inj}
use harmotty.Workspace.State.{TerminalMode}

abbrev pub interrupt_key : Text
interrupt_key = 3 ∷ []

abbrev pub is_pending : TerminalMode → Bool
is_pending TerminalMode.connecting = true
is_pending TerminalMode.password_input = true
is_pending TerminalMode.host_key_input = true
is_pending TerminalMode.key_passphrase_input = true
is_pending TerminalMode.auth_challenge_input = true
is_pending _ = false

unfoldable pub should_interrupt : TerminalMode → Text → Bool
should_interrupt mode input = is_pending mode && eq_text input interrupt_key

unfoldable pub describe_close : ℤ → Text
describe_close (negsuc n) =
    codes "Connection lost unexpectedly. Check the network, then run the SSH command again."
describe_close (pos exit_code) = codes "Connection closed (exit " ++ to_text exit_code ++ codes ")."

-- `KnownHostsManager.formatTarget`.
unfoldable pub format_target : Text → ℕ → Text
format_target host port =
    if port == 22 then host else codes "[" ++ host ++ codes "]:" ++ to_text port

-- Only Ctrl+C alone interrupts, and neither an open connection nor the local prompt.
pub should_interrupt_iff :
    (mode : TerminalMode) (input : Text)
    → (should_interrupt mode input ≡ true) ↔ ((is_pending mode ≡ true) × (input ≡ interrupt_key))
unfolding should_interrupt
should_interrupt_iff mode input = ground (arith, eq_text_iff input interrupt_key)

-- A host without brackets.
abbrev pub IsBare : Text → Type 0
IsBare host = (index_of b'[' host ≡ none) × (index_of b']' host ≡ none)

bracketed_inj :
    (host other : Text) (port number : ℕ)
    → index_of b']' host ≡ none
    → index_of b']' other ≡ none
    → codes "[" ++ host ++ codes "]:" ++ to_text port
      ≡ codes "[" ++ other ++ codes "]:" ++ to_text number
    → (host ≡ other) × (port ≡ number)
bracketed_inj host other port number h k e =
    let (same, tails) =
      separated_inj b']' host other (codes ":" ++ to_text port) (codes ":" ++ to_text number) h k (
        sym (append_assoc host (codes "]:") (to_text port))
        ∙ ap (drop 1) e
        ∙ append_assoc other (codes "]:") (to_text number)) in
    (same, to_text_inj port number (ap (drop 1) tails))

-- A bare host is no bracketed one.
not_bracketed : (host rest : Text) → index_of b'[' host ≡ none → host ≢ b'[' ∷ rest
unfolding index_of
not_bracketed host rest h e = absurd (let f = rw e at h in cc)

mixed_apart :
    (host other : Text) (number : ℕ)
    → index_of b'[' host ≡ none
    → host ≢ codes "[" ++ other ++ codes "]:" ++ to_text number
mixed_apart host other number h e = not_bracketed host _ h e

-- Two bare hosts with ports that have the same target are the same host and port.
pub format_target_inj :
    (host other : Text) (port number : ℕ)
    → IsBare host
    → IsBare other
    → format_target host port ≡ format_target other number
    → (host ≡ other) × (port ≡ number)
unfolding format_target
format_target_inj host other port number h k e = elim (Bool-cases (port == 22)) [
  | inl p ↦ elim (Bool-cases (number == 22)) [
    | inl n ↦ (rw (p, n) at e, ground arith)
    | inr n ↦ absurd (mixed_apart host other number h.0 (rw (p, n) at e))
  ]
  | inr p ↦ elim (Bool-cases (number == 22)) [
    | inl n ↦ absurd (mixed_apart other host port k.0 (sym (rw (p, n) at e)))
    | inr n ↦ bracketed_inj host other port number h.1 k.1 (rw (p, n) at e)
  ]
]
