-- ===== src/Session/State.antt =====
-- `SshSession` (entry/src/main/ets/model/ssh/SshSession.ets).
use harmotty.Prelude.{
  ℕ, ◌≤◌, ◌≡◌, inl, inr, refl, Bool, true, false, [], ◌++◌, Text, codes, length, length-append, ltb,
  ltb→lt, ap, ◌==◌, if◌then◌else◌, arith, Bool-cases,
}
use harmotty.Prelude.Int.{ℤ, minus_one}
use harmotty.Workspace.State.{SshSessionState}

pub record SshSession : Type 0 where
  pub state : SshSessionState
  pub host_alias : Text
  pub hostname : Text
  pub port : ℕ
  pub username : Text
  pub error_message : Text
  pub exit_code : ℤ

abbrev pub new : SshSession
new = record {
  state = SshSessionState.idle;
  host_alias = [];
  hostname = [];
  port = 22;
  username = [];
  error_message = [];
  exit_code = minus_one;
}

abbrev pub no_title : Text
no_title = codes "ltty"

abbrev pub at_host : SshSession → Text
at_host s = if ltb 0 (length s.username) then s.username ++ codes "@" ++ s.hostname else s.hostname

unfoldable pub get_display_title : SshSession → Text
get_display_title s =
    if ltb 0 (length s.host_alias)
    then s.host_alias
    else if ltb 0 (length s.hostname)
    then at_host s
    else no_title

unfoldable pub get_connection_title : SshSession → Text
get_connection_title s = if length s.hostname == 0 then no_title else at_host s

unfoldable pub is_connected : SshSession → Bool
is_connected s = elim s.state [ SshSessionState.connected ↦ true | _ ↦ false ]

unfoldable pub is_active : SshSession → Bool
is_active s = elim s.state [
  | SshSessionState.connecting ↦ true
  | SshSessionState.host_verification_required ↦ true
  | SshSessionState.authenticating ↦ true
  | SshSessionState.connected ↦ true
  | _ ↦ false
]

unfoldable pub reset : SshSession → SshSession
reset s = record s { state = SshSessionState.idle; error_message = []; exit_code = minus_one }

length-at_host : (s : SshSession) → 1 ≤ length s.hostname → 1 ≤ length (at_host s)
length-at_host s h = elim (Bool-cases (ltb 0 (length s.username))) [
  | inl e ↦ simp e (omega (arith, length-append {0} (s.username ++ codes "@") s.hostname))
  | inr e ↦ simp e h
]

length-display : (s : SshSession) → 1 ≤ length (get_display_title s)
unfolding get_display_title
length-display s = elim (Bool-cases (ltb 0 (length s.host_alias))) [
  | inl e ↦ simp e (ltb→lt 0 _ e)
  | inr e ↦ elim (Bool-cases (ltb 0 (length s.hostname))) [
    | inl f ↦ simp (e, f) (length-at_host s (ltb→lt 0 _ f))
    | inr f ↦ simp (e, f) (omega arith)
  ]
]

length-connection : (s : SshSession) → 1 ≤ length (get_connection_title s)
unfolding get_connection_title
length-connection s = elim (Bool-cases (length s.hostname == 0)) [
  | inl e ↦ simp e (omega arith)
  | inr e ↦ simp e (length-at_host s (ground arith))
]

same_titles :
    (s : SshSession) → length s.host_alias ≡ 0 → get_display_title s ≡ get_connection_title s
unfolding get_display_title get_connection_title
same_titles s h =
    let no_alias : ltb 0 (length s.host_alias) ≡ false = ground arith in
    elim (Bool-cases (length s.hostname == 0)) [
      | inl e ↦
          let none_set : ltb 0 (length s.hostname) ≡ false = ground arith in
          simp (no_alias, e, none_set) refl
      | inr e ↦
          let one_set : ltb 0 (length s.hostname) ≡ true = ground arith in
          simp (no_alias, e, one_set) refl
    ]

-- A session is never shown without a title, and without an alias the two titles are the same.
pub titles_lem :
    (s : SshSession)
    → (1 ≤ length (get_display_title s))
      × (1 ≤ length (get_connection_title s))
      × (s.host_alias ≡ [] → get_display_title s ≡ get_connection_title s)
titles_lem s = (length-display s, length-connection s, λ e. same_titles s (ap length e))

-- A session that is reset is neither active nor connected and keeps where it connects to.
pub reset_lem :
    (s : SshSession)
    → (is_active (reset s) ≡ false)
      × (is_connected (reset s) ≡ false)
      × (get_connection_title (reset s) ≡ get_connection_title s)
unfolding is_active is_connected reset get_connection_title
reset_lem s = (refl, refl, refl)
