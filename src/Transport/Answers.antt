-- ===== src/Transport/Answers.antt =====
-- What the page answers to the packets that it reads: `writeTerminalPacket` of
-- entry/src/main/resources/rawfile/terminal.html, where xterm has written every packet in order.
use harmotty.Prelude.{
  ℕ, zero, suc, ◌+◌, ◌<◌, ◌≡◌, ◌∙◌, refl, sym, ap, inl, inr, Bool, true, false, not, Option, none,
  some, List, [], ◌∷◌, ◌++◌, append_assoc, append-nil, arith, get_elem?, length, ◌==◌,
  if◌then◌else◌, Bool-cases,
}
use harmotty.Bridge.Messages.{Command}
use harmotty.Terminal.OutputBuffer.{Bytes}
use harmotty.Transport.Packets.{packet_of, parse_terminal_packet, parse_terminal_packet-packet_of}
use harmotty.Transport.State.{
  Event, packet, message, on_backpressure, on_ready, on_message, TerminalBridge, set_backpressured,
  update_backpressure, send,
}
use harmotty.Transport.Handle.{acknowledge, request_each, pump_snapshot_requests}

-- The number of the packet and of its bytes.
unfoldable pub answer : Option (ℕ × Bytes) → List (ℕ × ℕ)
answer none = []
answer (some (sequence, bytes)) = (sequence, length bytes) ∷ []

-- The answers to what was posted.
unfoldable pub answers : List Event → List (ℕ × ℕ)
answers [] = []
answers (packet raw ∷ events) = answer (parse_terminal_packet raw) ++ answers events
answers (_ ∷ events) = answers events

module _ (posts : ℕ → Bool) where
  -- The next `n` answers arrive, after the first `k`.
  unfoldable pub settle : ℕ → ℕ → TerminalBridge → TerminalBridge
  settle zero k s = s
  settle (suc n) k s = settle n (suc k) (acknowledge posts (get_elem? (answers s.log) k) s)

answers-append : (xs ys : List Event) → answers (xs ++ ys) ≡ answers xs ++ answers ys
unfolding answers
answers-append [] ys = refl
answers-append (packet raw ∷ xs) ys =
    ap (λ r. answer (parse_terminal_packet raw) ++ r) (answers-append xs ys)
    ∙ sym (append_assoc (answer (parse_terminal_packet raw)) (answers xs) (answers ys))
answers-append (message c ∷ xs) ys = answers-append xs ys
answers-append (on_backpressure b ∷ xs) ys = answers-append xs ys
answers-append (on_ready ∷ xs) ys = answers-append xs ys
answers-append (on_message m ∷ xs) ys = answers-append xs ys

pub answers-packet :
    (log : List Event) (sequence : ℕ) (bytes : Bytes)
    → 0 < sequence
    → sequence < 4294967296
    → 0 < length bytes
    → length bytes < 4294967296
    → answers (log ++ packet (packet_of sequence bytes) ∷ [])
      ≡ answers log ++ (sequence, length bytes) ∷ []
unfolding answers answer
answers-packet log sequence bytes p q full r =
    let some_bytes : (length bytes == 0) ≡ false = ground arith in
    let parsed : parse_terminal_packet (packet_of sequence bytes) ≡ some (sequence, bytes) =
      parse_terminal_packet-packet_of sequence bytes p q r ∙ rw some_bytes refl in
    answers-append log _
    ∙ ap (λ a. answers log ++ a)
        (append-nil (answer (parse_terminal_packet (packet_of sequence bytes))) ∙ ap answer parsed)

unfoldable pub numbers : List (ℕ × ℕ) → List ℕ
numbers [] = []
numbers ((sequence, size) ∷ answers) = sequence ∷ numbers answers

unfoldable pub total : List (ℕ × ℕ) → ℕ
total [] = 0
total ((sequence, size) ∷ answers) = size + total answers

pub numbers-snoc :
    (xs : List (ℕ × ℕ)) (sequence size : ℕ)
    → numbers (xs ++ (sequence, size) ∷ []) ≡ numbers xs ++ sequence ∷ []
unfolding numbers
numbers-snoc [] sequence size = refl
numbers-snoc (x ∷ xs) sequence size = ap (λ l. x.0 ∷ l) (numbers-snoc xs sequence size)

pub total-snoc :
    (xs : List (ℕ × ℕ)) (sequence size : ℕ) → total (xs ++ (sequence, size) ∷ []) ≡ total xs + size
unfolding total
total-snoc [] sequence size = omega arith
total-snoc (x ∷ xs) sequence size = omega (arith, total-snoc xs sequence size)

-- Two states with the same queue and the same answers.
pub record IsAlike (s t : TerminalBridge) : Type 0 where
  pub flow : t.flow ≡ s.flow
  pub answered : answers t.log ≡ answers s.log
  pub ready : t.ready ≡ s.ready
  pub port : t.has_port ≡ s.has_port

same : (s : TerminalBridge) → IsAlike s s
same s = record { flow = refl; answered = refl; ready = refl; port = refl }

pub IsAlike-trans : {s t u : TerminalBridge} → IsAlike s t → IsAlike t u → IsAlike s u
IsAlike-trans f g = record {
  flow = g.flow ∙ f.flow;
  answered = g.answered ∙ f.answered;
  ready = g.ready ∙ f.ready;
  port = g.port ∙ f.port;
}

-- The log has one more event, which is no packet.
logged :
    (s t : TerminalBridge) (event : Event)
    → answers (event ∷ []) ≡ []
    → t.flow ≡ s.flow
    → t.log ≡ s.log ++ event ∷ []
    → t.ready ≡ s.ready
    → t.has_port ≡ s.has_port
    → IsAlike s t
logged s t event e flow log ready port = record {
  flow = flow;
  answered =
      ap answers log
      ∙ answers-append s.log (event ∷ [])
      ∙ ap (λ a. answers s.log ++ a) e
      ∙ append-nil (answers s.log);
  ready = ready;
  port = port;
}

branch :
    (s : TerminalBridge) (c : Bool) (x y : TerminalBridge)
    → IsAlike s x
    → IsAlike s y
    → IsAlike s (if c then x else y)
branch s true x y p q = p
branch s false x y p q = q

pub set_backpressured-IsAlike :
    (paused : Bool) (s : TerminalBridge) → IsAlike s (set_backpressured paused s)
unfolding set_backpressured answers
set_backpressured-IsAlike true s =
    branch s s.backpressured s _ (same s)
      (logged s _ (on_backpressure true) refl refl refl refl refl)
set_backpressured-IsAlike false s =
    branch s s.backpressured _ s (logged s _ (on_backpressure false) refl refl refl refl refl)
      (same s)

pub update-IsAlike : (s : TerminalBridge) → IsAlike s (update_backpressure s)
unfolding update_backpressure
update-IsAlike s =
    branch s _ _ _ (set_backpressured-IsAlike true s)
      (branch s _ _ _ (set_backpressured-IsAlike false s) (same s))

module _ (posts : ℕ → Bool) where
  send-IsAlike : (command : Command) (s : TerminalBridge) → IsAlike s (send posts command s).1
  unfolding send answers
  send-IsAlike command s = elim (Bool-cases (not s.has_port)) [
    | inl e ↦ rw e (same s)
    | inr e ↦ elim (Bool-cases (posts s.attempts)) [
      | inl f ↦ rw (e, f) (logged s _ (message command) refl refl refl refl refl)
      | inr f ↦ rw (e, f) (record { flow = refl; answered = refl; ready = refl; port = refl })
    ]
  ]

  request_each-IsAlike : (ids : List ℕ) (s : TerminalBridge) → IsAlike s (request_each posts ids s)
  unfolding request_each
  request_each-IsAlike [] s = same s
  request_each-IsAlike (id ∷ ids) s =
      IsAlike-trans (send-IsAlike (Command.snapshot_request id) s) (request_each-IsAlike ids _)

  pub requests-IsAlike : (s : TerminalBridge) → IsAlike s (pump_snapshot_requests posts s)
  unfolding pump_snapshot_requests
  requests-IsAlike s =
      let each = request_each-IsAlike s.pending_snapshot_request_ids s in
      branch s _ _ _ (same s) (record {
        flow = each.flow;
        answered = each.answered;
        ready = each.ready;
        port = each.port;
      })
