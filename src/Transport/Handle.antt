-- ===== src/Transport/Handle.antt =====
-- The methods of `TerminalBridge`, and what it does with a message of the page
-- (entry/src/main/ets/model/bridge/TerminalBridge.ets).
use harmotty.Prelude.{
  ℕ, ◌-◌, Bool, true, false, not, ◌&&◌, ◌||◌, Option, none, some, List, [], ◌∷◌, ◌++◌, Text, codes,
  eq_text, split_on, drop, length, ltb, ◌==◌, if◌then◌else◌,
}
use harmotty.Prelude.Int.{pos}
use harmotty.Prelude.ParseInt.{parse_int}
use harmotty.Bridge.Protocol.{BridgeMessage, parse, web_to_native, channel_control}
use harmotty.Bridge.Messages.{Command}
use harmotty.Transport.State.{
  on_ready, on_message, Flow, new_flow, TerminalBridge, emit, update_backpressure,
  pump_pending_data, send,
}

-- `init` makes the ports.
abbrev pub init : TerminalBridge → TerminalBridge
init s = record s { has_port = true }

unfoldable pub destroy : TerminalBridge → TerminalBridge
destroy s = record s {
  has_port = false;
  ready = false;
  flow = new_flow;
  pending_theme = [];
  pending_font_size = 0;
  pending_fit = false;
  pending_restore_snapshot = [];
  pending_snapshot_request_ids = [];
  pending_search_open = false;
  awaiting_restore_complete = false;
  ready_handler_notified = false;
  backpressured = false;
  last_pong_time = 0;
}

abbrev pub is_alive : ℕ → TerminalBridge → Bool
is_alive now s = not s.ready || s.last_pong_time == 0 || ltb (now - s.last_pong_time) 90000

unfoldable pub notify_ready_handler : TerminalBridge → TerminalBridge
notify_ready_handler s =
    if s.ready_handler_notified
    then s
    else emit on_ready (record s { ready_handler_notified = true })

unfoldable pub notify_unless_awaiting : TerminalBridge → TerminalBridge
notify_unless_awaiting s = if s.awaiting_restore_complete then s else notify_ready_handler s

-- The numbers of an acknowledgement, where both are positive.
unfoldable pub positive_pair : List Text → Option (ℕ × ℕ)
positive_pair (first ∷ second ∷ []) = elim (parse_int first) [
  | some (pos sequence) ↦ elim (parse_int second) [
    | some (pos acknowledged) ↦
        if ltb 0 sequence && ltb 0 acknowledged then some (sequence, acknowledged) else none
    | _ ↦ none
  ]
  | _ ↦ none
]
positive_pair _ = none

unfoldable pub is_first : List ℕ → ℕ → Bool
is_first [] sequence = false
is_first (first ∷ sequences) sequence = first == sequence

abbrev pub acknowledge_flow : ℕ → Flow → Flow
acknowledge_flow acknowledged q = record q {
  in_flight_sequences = drop 1 q.in_flight_sequences;
  in_flight_bytes = q.in_flight_bytes - acknowledged;
  in_flight_messages = q.in_flight_messages - 1;
}

-- `posts n` is whether the n-th call of `postMessageEvent` comes back.
module _ (posts : ℕ → Bool) where
  abbrev pub post : Command → TerminalBridge → TerminalBridge
  post command s = (send posts command s).1

  unfoldable pub request_each : List ℕ → TerminalBridge → TerminalBridge
  request_each [] s = s
  request_each (id ∷ ids) s = request_each ids (post (Command.snapshot_request id) s)

  -- Snapshots are requested when no output waits or is in flight.
  unfoldable pub pump_snapshot_requests : TerminalBridge → TerminalBridge
  pump_snapshot_requests s =
      if not s.ready
        || s.awaiting_restore_complete
        || ltb s.flow.pending_data_head (length s.flow.pending_data)
        || ltb 0 s.flow.in_flight_messages
      then s
      else record (request_each s.pending_snapshot_request_ids s) {
        pending_snapshot_request_ids = [];
      }

  unfoldable pub pump_search_open : TerminalBridge → TerminalBridge
  pump_search_open s =
      let (sent, next) = send posts Command.search_open s in
      if not s.pending_search_open || not s.ready || s.awaiting_restore_complete
      then s
      else if sent
      then record next { pending_search_open = false }
      else next

  unfoldable pub send_theme : Text → TerminalBridge → TerminalBridge
  send_theme json s =
      if s.ready then post (Command.theme json) s else record s { pending_theme = json }

  unfoldable pub request_fit : TerminalBridge → TerminalBridge
  request_fit s = if s.ready then post Command.fit s else record s { pending_fit = true }

  unfoldable pub set_font_size : ℕ → TerminalBridge → TerminalBridge
  set_font_size size s =
      if s.ready then post (Command.font_size size) s else record s { pending_font_size = size }

  unfoldable pub blur : TerminalBridge → TerminalBridge
  blur s = post Command.blur (record s { pending_search_open = false })

  unfoldable pub open_search : TerminalBridge → TerminalBridge
  open_search s = pump_search_open (record s { pending_search_open = true })

  -- `handleSecondaryAction` and `requestCopySelection`.
  unfoldable pub post_if_ready : Command → TerminalBridge → TerminalBridge
  post_if_ready command s = if s.ready then post command s else s

  unfoldable pub restore_snapshot : Text → TerminalBridge → TerminalBridge
  restore_snapshot snapshot s =
      if length snapshot == 0
      then s
      else if s.ready
      then post (Command.restore_snapshot snapshot) s
      else record s { pending_restore_snapshot = snapshot }

  unfoldable pub request_snapshot : ℕ → TerminalBridge → TerminalBridge
  request_snapshot id s =
      pump_snapshot_requests
        (record s { pending_snapshot_request_ids = s.pending_snapshot_request_ids ++ id ∷ [] })

  unfoldable pub acknowledge : Option (ℕ × ℕ) → TerminalBridge → TerminalBridge
  acknowledge none s = s
  acknowledge (some (sequence, acknowledged)) s =
      if is_first s.flow.in_flight_sequences sequence
      then update_backpressure (
          pump_snapshot_requests
            (pump_pending_data posts (record s { flow = acknowledge_flow acknowledged s.flow })))
      else s

  unfoldable pub flush_theme : TerminalBridge → TerminalBridge
  flush_theme s =
      if length s.pending_theme == 0
      then s
      else record (post (Command.theme s.pending_theme) s) { pending_theme = [] }

  unfoldable pub flush_font_size : TerminalBridge → TerminalBridge
  flush_font_size s =
      if s.pending_font_size == 0
      then s
      else record (post (Command.font_size s.pending_font_size) s) { pending_font_size = 0 }

  unfoldable pub flush_fit : TerminalBridge → TerminalBridge
  flush_fit s = if s.pending_fit then record (post Command.fit s) { pending_fit = false } else s

  unfoldable pub flush_restore_snapshot : TerminalBridge → TerminalBridge
  flush_restore_snapshot s =
      let (sent, next) = send posts (Command.restore_snapshot s.pending_restore_snapshot) s in
      if length s.pending_restore_snapshot == 0
      then s
      else record next { awaiting_restore_complete = sent; pending_restore_snapshot = [] }

  unfoldable pub become_ready : ℕ → TerminalBridge → TerminalBridge
  become_ready now s = notify_unless_awaiting (
      pump_search_open (
        pump_snapshot_requests (
          pump_pending_data posts (
            flush_restore_snapshot (
              flush_fit (
                flush_font_size
                  (flush_theme (record s { ready = true; last_pong_time = now }))))))))

  unfoldable pub restore_complete : TerminalBridge → TerminalBridge
  restore_complete s =
      if s.awaiting_restore_complete
      then notify_ready_handler (
          pump_search_open
            (pump_snapshot_requests (record s { awaiting_restore_complete = false })))
      else s

  -- A message of the page, of the right direction; `now` is the clock.
  unfoldable pub handle_message : ℕ → BridgeMessage → TerminalBridge → TerminalBridge
  handle_message now msg s =
      let is_control =
        λ (kind : Text). eq_text msg.channel channel_control && eq_text msg.kind kind in
      if is_control (codes "clipboardPaste")
        || is_control (codes "perfRender")
        || is_control (codes "rendererState")
      then s
      else if is_control (codes "writeAck")
      then acknowledge (positive_pair (split_on b',' msg.payload)) s
      else if is_control (codes "ready")
      then become_ready now s
      else if is_control (codes "restoreComplete")
      then restore_complete s
      else if is_control (codes "pong")
      then record s { last_pong_time = now }
      else emit (on_message msg) s

  unfoldable pub take_message : ℕ → Option BridgeMessage → TerminalBridge → TerminalBridge
  take_message now none s = s
  take_message now (some msg) s =
      if eq_text msg.direction web_to_native then handle_message now msg s else s

  unfoldable pub handle_raw_message : ℕ → Text → TerminalBridge → TerminalBridge
  handle_raw_message now raw s = take_message now (parse raw) s
