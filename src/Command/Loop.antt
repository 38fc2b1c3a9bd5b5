-- ===== src/Command/Loop.antt =====
-- Results of the command `ssh`, and the loop over its arguments (`parseCommand` of
-- entry/src/main/ets/model/command/CommandParser.ets).
use harmotty.Prelude.{
  ℕ, zero, suc, ◌≤◌, ◌≡◌, ◌⊎◌, inl, inr, refl, true, false, Option, none, some, List, [], ◌∷◌,
  arith, Text, codes, eq_text, starts_with, ltb, ◌==◌, length, Bool-cases,
}
use harmotty.Command.Ssh.{
  CommandParseResult, port_of, ArgState, Scan, stopped, going, set_port, take_port, take_identity,
  take_other, take_arg, scan_args,
}

abbrev pub IsPort : ℕ → Type 0
IsPort port = (1 ≤ port) × (port ≤ 65535)

-- A valid result has a user, a port and no message; any other has a message.
abbrev pub IsAccepted : CommandParseResult → Type 0
IsAccepted r =
    (r.is_valid ≡ true) × (r.error_message ≡ []) × IsPort r.port × (1 ≤ length r.username)

abbrev pub IsRefused : CommandParseResult → Type 0
IsRefused r = (r.is_valid ≡ false) × (1 ≤ length r.error_message)

-- A result that is not decided yet.
abbrev pub IsOpen : CommandParseResult → Type 0
IsOpen r = (r.is_valid ≡ false) × (r.error_message ≡ []) × IsPort r.port

abbrev pub IsReady : ArgState → Type 0
IsReady s = IsOpen s.result × (s.explicit_port ≤ 65535)

-- A turn refuses, or goes on with no more than so many arguments.
abbrev pub IsTurned : ℕ → Scan → Type 0
IsTurned n scan = elim scan [
  | stopped r ↦ IsRefused r
  | going s rest ↦ IsReady s × (length rest ≤ n)
]

abbrev pub IsDecided : CommandParseResult → Type 0
IsDecided r = IsAccepted r ⊎ IsRefused r

-- A result that a target without its user is read into: open with the same user, or refused.
abbrev pub IsParsed : CommandParseResult → CommandParseResult → Type 0
IsParsed before r = (IsOpen r × (r.username ≡ before.username)) ⊎ IsRefused r

pub port_of-IsPort : (text : Text) (port : ℕ) → port_of text ≡ some port → IsPort port
unfolding port_of
port_of-IsPort text port e = ground arith

set_port-IsTurned :
    (s : ArgState) (rest : List Text) (port : Option ℕ)
    → IsReady s
    → ((p : ℕ) → port ≡ some p → IsPort p)
    → IsTurned (length rest) (set_port s rest port)
unfolding set_port
set_port-IsTurned s rest none v h = (v.0.0, omega arith)
set_port-IsTurned s rest (some p) v h = ((v.0, (h p refl).1), omega arith)

IsTurned-below : (m n : ℕ) (scan : Scan) → m ≤ n → IsTurned m scan → IsTurned n scan
IsTurned-below m n (stopped r) h v = v
IsTurned-below m n (going s rest) h v = (v.0, omega arith)

take_port-IsTurned :
    (s : ArgState) (rest : List Text) → IsReady s → IsTurned (length rest) (take_port s rest)
unfolding take_port
take_port-IsTurned s [] v = (v.0.0, omega arith)
take_port-IsTurned s (value ∷ rest) v = elim (Bool-cases (ltb 0 s.explicit_port)) [
  | inl e ↦ simp e (v.0.0, omega arith)
  | inr e ↦ simp e (
      IsTurned-below (length rest) (suc (length rest)) (set_port s rest (port_of value))
        (omega arith)
        (set_port-IsTurned s rest (port_of value) v (λ p q. port_of-IsPort value p q)))
]

take_identity-IsTurned :
    (s : ArgState) (rest : List Text) → IsReady s → IsTurned (length rest) (take_identity s rest)
unfolding take_identity
take_identity-IsTurned s [] v = (v.0.0, omega arith)
take_identity-IsTurned s (file ∷ rest) v = elim (Bool-cases s.identity_specified) [
  | inl e ↦ simp e (v.0.0, omega arith)
  | inr e ↦ simp e (v, omega arith)
]

take_other-IsTurned :
    (s : ArgState) (arg : Text) (rest : List Text)
    → IsReady s
    → IsTurned (length rest) (take_other s arg rest)
unfolding take_other
take_other-IsTurned s arg rest v = elim (Bool-cases (starts_with arg (codes "-"))) [
  | inl e ↦ simp e (v.0.0, omega arith)
  | inr e ↦ elim (Bool-cases (length s.target == 0)) [
    | inl f ↦ simp (e, f) (v, omega arith)
    | inr f ↦ simp (e, f) (v.0.0, omega arith)
  ]
]

take_arg-IsTurned :
    (s : ArgState) (arg : Text) (rest : List Text)
    → IsReady s
    → IsTurned (length rest) (take_arg s arg rest)
unfolding take_arg
take_arg-IsTurned s arg rest v = elim (Bool-cases (eq_text arg (codes "-p"))) [
  | inl e ↦ simp e (take_port-IsTurned s rest v)
  | inr e ↦ elim (Bool-cases (eq_text arg (codes "-i"))) [
    | inl f ↦ simp (e, f) (take_identity-IsTurned s rest v)
    | inr f ↦ simp (e, f) (take_other-IsTurned s arg rest v)
  ]
]

-- The loop ends: it refuses, or no argument is left.
pub scan_args-IsTurned :
    (fuel : ℕ) (scan : Scan) → IsTurned fuel scan → IsTurned 0 (scan_args fuel scan)
unfolding scan_args
scan_args-IsTurned fuel (stopped r) v = v
scan_args-IsTurned fuel (going s []) v = (v.0, omega arith)
scan_args-IsTurned zero (going s (arg ∷ rest)) v = absurd (omega (arith, v.1))
scan_args-IsTurned (suc fuel) (going s (arg ∷ rest)) v =
    scan_args-IsTurned fuel (take_arg s arg rest) (
      IsTurned-below (length rest) fuel (take_arg s arg rest) (omega arith)
        (take_arg-IsTurned s arg rest v.0))
