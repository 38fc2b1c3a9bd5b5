-- ===== src/Transport/Delivers.antt =====
-- Every byte that a bridge takes is read by the page once and in order
-- (entry/src/main/ets/model/bridge/TerminalBridge.ets).
use harmotty.Prelude.{
  ℕ, ◌≡◌, ◌∙◌, refl, sym, ap, inl, inr, Bool, true, false, not, ◌||◌, Option, none, some, List, [],
  ◌∷◌, append-nil, arith, length, length-drop, ◌==◌, if◌then◌else◌, Bool-cases,
}
use harmotty.Bridge.Protocol.{BridgeMessage}
use harmotty.Bridge.Messages.{Command}
use harmotty.Terminal.OutputBuffer.{Bytes}
use harmotty.Transport.State.{on_message, TerminalBridge, emit, send}
use harmotty.Transport.Handle.{
  notify_ready_handler, is_first, acknowledge_flow, post, request_each, pump_snapshot_requests,
  pump_search_open, acknowledge, flush_theme, flush_font_size, flush_fit, flush_restore_snapshot,
  notify_unless_awaiting, become_ready, restore_complete,
}
use harmotty.Transport.Sound.{
  read, read-append, IsSound, held, Follows, Follows-trans, Follows-same,
}
use harmotty.Transport.Pressure.{update-Follows}
use harmotty.Transport.Pump.{pump-Follows}

pub Follows-refl : (s : TerminalBridge) → IsSound s → Follows s [] s
Follows-refl s h = Follows-same s s h refl refl refl refl

-- What a method does to the queue, for methods that take no output.
abbrev pub Quiet : (TerminalBridge → TerminalBridge) → Type 0
Quiet method = (s : TerminalBridge) → IsSound s → Follows s [] (method s)

pub Follows-then :
    {s t : TerminalBridge} {extra : Bytes} {method : TerminalBridge → TerminalBridge}
    → Follows s extra t
    → Quiet method
    → Follows s extra (method t)
Follows-then {s} {t} f quiet = Follows-trans f (quiet t f.sound)

-- Other fields than those of the queue.
pub touch :
    (s t : TerminalBridge)
    → IsSound s
    → t.flow ≡ s.flow
    → t.log ≡ s.log
    → t.next_sequence ≡ s.next_sequence
    → t.backpressured ≡ s.backpressured
    → Follows s [] t
touch s t h flow log next paused = Follows-same s t h flow (ap read log) next paused

pub branch :
    (s : TerminalBridge) (extra : Bytes) (c : Bool) (x y : TerminalBridge)
    → Follows s extra x
    → Follows s extra y
    → Follows s extra (if c then x else y)
branch s extra true x y p q = p
branch s extra false x y p q = q

pub message-Follows : (msg : BridgeMessage) → Quiet (emit (on_message msg))
unfolding read
message-Follows msg s h =
    Follows-same s _ h refl (read-append s.log _ ∙ append-nil (read s.log)) refl refl

notify-Follows : Quiet notify_ready_handler
unfolding notify_ready_handler read
notify-Follows s h =
    branch s [] s.ready_handler_notified s _ (Follows-refl s h)
      (Follows-same s _ h refl (read-append s.log _ ∙ append-nil (read s.log)) refl refl)

unless-Follows : Quiet notify_unless_awaiting
unfolding notify_unless_awaiting
unless-Follows s h =
    branch s [] s.awaiting_restore_complete s (notify_ready_handler s) (Follows-refl s h)
      (notify-Follows s h)

module _ (posts : ℕ → Bool) where
  pub send-Follows : (command : Command) → Quiet (λ s. (send posts command s).1)
  unfolding send read
  send-Follows command s h = elim (Bool-cases (not s.has_port)) [
    | inl e ↦ rw e (Follows-refl s h)
    | inr e ↦ elim (Bool-cases (posts s.attempts)) [
      | inl f ↦
          rw (e, f)
            (Follows-same s _ h refl (read-append s.log _ ∙ append-nil (read s.log)) refl refl)
      | inr f ↦ rw (e, f) (touch s _ h refl refl refl refl)
    ]
  ]

  request_each-Follows : (ids : List ℕ) → Quiet (request_each posts ids)
  unfolding request_each
  request_each-Follows [] s h = Follows-refl s h
  request_each-Follows (id ∷ ids) s h =
      Follows-then (send-Follows (Command.snapshot_request id) s h) (request_each-Follows ids)

  pub requests-Follows : Quiet (pump_snapshot_requests posts)
  unfolding pump_snapshot_requests
  requests-Follows s h =
      let each = request_each-Follows s.pending_snapshot_request_ids s h in
      branch s [] _ s
        (record (request_each posts s.pending_snapshot_request_ids s) {
          pending_snapshot_request_ids = [];
        })
        (Follows-refl s h)
        (Follows-trans each (
          touch (request_each posts s.pending_snapshot_request_ids s) _ each.sound refl refl refl
            refl))

  pub search-Follows : Quiet (pump_search_open posts)
  unfolding pump_search_open
  search-Follows s h =
      let opened = send-Follows Command.search_open s h in
      let next = (send posts Command.search_open s).1 in
      branch s [] (not s.pending_search_open || not s.ready || s.awaiting_restore_complete) s _
        (Follows-refl s h)
        (branch s [] (send posts Command.search_open s).0
          (record next { pending_search_open = false }) next
          (Follows-trans opened (touch next _ opened.sound refl refl refl refl)) opened)

  -- A message that is sent at once, or kept until the page is ready.
  pub kept-Follows :
      (command : Command) (s later : TerminalBridge)
      → IsSound s
      → Follows s [] later
      → Follows s [] (if s.ready then post posts command s else later)
  kept-Follows command s later h kept =
      branch s [] s.ready (post posts command s) later (send-Follows command s h) kept

  pub acknowledged-Follows :
      (acknowledged : ℕ) (s : TerminalBridge)
      → IsSound s
      → Follows s [] (record s { flow = acknowledge_flow acknowledged s.flow })
  acknowledged-Follows acknowledged s h = record {
    sound = record {
      counted = record {
        head_in = h.counted.head_in;
        bytes = h.counted.bytes;
        room = h.counted.room;
        messages = omega (arith, h.counted.messages, length-drop 1 s.flow.in_flight_sequences);
        limit = omega (arith, h.counted.limit);
        flying = omega (arith, h.counted.flying);
      };
      numbered = h.numbered;
      below = h.below;
      calm = λ e. omega (arith, h.calm e);
    };
    kept = sym (append-nil (held s));
  }

  pub acknowledge-Follows : (pair : Option (ℕ × ℕ)) → Quiet (acknowledge posts pair)
  unfolding acknowledge
  acknowledge-Follows none s h = Follows-refl s h
  acknowledge-Follows (some (sequence, acknowledged)) s h =
      let first = Follows-then (acknowledged-Follows acknowledged s h) (pump-Follows posts) in
      branch s [] (is_first s.flow.in_flight_sequences sequence) _ s
        (Follows-then (Follows-then first requests-Follows) update-Follows) (Follows-refl s h)

  flush_theme-Follows : Quiet (flush_theme posts)
  unfolding flush_theme
  flush_theme-Follows s h =
      let sent = send-Follows (Command.theme s.pending_theme) s h in
      branch s [] (length s.pending_theme == 0) s _ (Follows-refl s h) (
        Follows-trans sent
          (touch (post posts (Command.theme s.pending_theme) s) _ sent.sound refl refl refl refl))

  flush_font_size-Follows : Quiet (flush_font_size posts)
  unfolding flush_font_size
  flush_font_size-Follows s h =
      let sent = send-Follows (Command.font_size s.pending_font_size) s h in
      branch s [] (s.pending_font_size == 0) s _ (Follows-refl s h) (
        Follows-trans sent (
          touch (post posts (Command.font_size s.pending_font_size) s) _ sent.sound refl refl refl
            refl))

  flush_fit-Follows : Quiet (flush_fit posts)
  unfolding flush_fit
  flush_fit-Follows s h =
      let sent = send-Follows Command.fit s h in
      branch s [] s.pending_fit _ s
        (Follows-trans sent (touch (post posts Command.fit s) _ sent.sound refl refl refl refl))
        (Follows-refl s h)

  flush_restore-Follows : Quiet (flush_restore_snapshot posts)
  unfolding flush_restore_snapshot
  flush_restore-Follows s h =
      let sent = send-Follows (Command.restore_snapshot s.pending_restore_snapshot) s h in
      branch s [] (length s.pending_restore_snapshot == 0) s _ (Follows-refl s h) (
        Follows-trans sent (
          touch (post posts (Command.restore_snapshot s.pending_restore_snapshot) s) _ sent.sound
            refl refl refl refl))

  pub ready-Follows : (now : ℕ) → Quiet (become_ready posts now)
  unfolding become_ready
  ready-Follows now s h =
      let started =
        touch s (record s { ready = true; last_pong_time = now }) h refl refl refl refl in
      let themed =
        Follows-then (Follows-then started flush_theme-Follows) flush_font_size-Follows in
      let restored = Follows-then (Follows-then themed flush_fit-Follows) flush_restore-Follows in
      let pumped = Follows-then (Follows-then restored (pump-Follows posts)) requests-Follows in
      Follows-then (Follows-then pumped search-Follows) unless-Follows

  pub restore_complete-Follows : Quiet (restore_complete posts)
  unfolding restore_complete
  restore_complete-Follows s h =
      let started =
        touch s (record s { awaiting_restore_complete = false }) h refl refl refl refl in
      branch s [] s.awaiting_restore_complete _ s
        (Follows-then (Follows-then (Follows-then started requests-Follows) search-Follows)
          notify-Follows)
        (Follows-refl s h)
