-- ===== src/Transport/State.antt =====
-- The queue of `TerminalBridge` (entry/src/main/ets/model/bridge/TerminalBridge.ets): output waits,
-- is sent in packets, and is in flight until the page has acknowledged it.
use harmotty.Prelude.{
  ℕ, ◌+◌, ◌-◌, ◌*◌, Bool, true, false, not, ◌&&◌, List, [], ◌∷◌, ◌++◌, Text, drop, length, ltb, leb,
  ◌==◌, if◌then◌else◌,
}
use harmotty.Bridge.Protocol.{BridgeMessage}
use harmotty.Bridge.Messages.{Command}
use harmotty.Terminal.OutputBuffer.{Bytes}
use harmotty.Transport.Packets.{packet_of}

abbrev pub high_water_bytes : ℕ
high_water_bytes = 2 * 1024 * 1024

abbrev pub low_water_bytes : ℕ
low_water_bytes = 512 * 1024

abbrev pub max_pending_bytes : ℕ
max_pending_bytes = 8 * 1024 * 1024

abbrev pub max_in_flight_messages : ℕ
max_in_flight_messages = 8

-- What the bridge has posted to the page, and the calls of its handlers.
pub data Event : Type 0 where
  packet : Bytes → Event
  message : Command → Event
  on_backpressure : Bool → Event
  on_ready : Event
  on_message : BridgeMessage → Event

-- The fields of the queue.
pub record Flow : Type 0 where
  pub pending_data : List Bytes
  pub pending_data_head : ℕ
  pub pending_bytes : ℕ
  pub in_flight_bytes : ℕ
  pub in_flight_messages : ℕ
  pub in_flight_sequences : List ℕ

-- `log` is what has happened so far, and `attempts` how often a message was posted.
pub record TerminalBridge : Type 0 where
  pub has_port : Bool
  pub ready : Bool
  pub flow : Flow
  pub pending_theme : Text
  pub pending_font_size : ℕ
  pub pending_fit : Bool
  pub pending_restore_snapshot : Text
  pub pending_snapshot_request_ids : List ℕ
  pub pending_search_open : Bool
  pub awaiting_restore_complete : Bool
  pub ready_handler_notified : Bool
  pub next_sequence : ℕ
  pub backpressured : Bool
  pub last_pong_time : ℕ
  pub attempts : ℕ
  pub log : List Event

abbrev pub new_flow : Flow
new_flow = record {
  pending_data = [];
  pending_data_head = 0;
  pending_bytes = 0;
  in_flight_bytes = 0;
  in_flight_messages = 0;
  in_flight_sequences = [];
}

abbrev pub new : TerminalBridge
new = record {
  has_port = false;
  ready = false;
  flow = new_flow;
  pending_theme = [];
  pending_font_size = 0;
  pending_fit = false;
  pending_restore_snapshot = [];
  pending_snapshot_request_ids = [];
  pending_search_open = false;
  awaiting_restore_complete = false;
  ready_handler_notified = false;
  next_sequence = 1;
  backpressured = false;
  last_pong_time = 0;
  attempts = 0;
  log = [];
}

abbrev pub emit : Event → TerminalBridge → TerminalBridge
emit event s = record s { log = s.log ++ event ∷ [] }

-- The chunks from the head of the queue.
abbrev pub waiting : Flow → List Bytes
waiting q = drop q.pending_data_head q.pending_data

unfoldable pub set_backpressured : Bool → TerminalBridge → TerminalBridge
set_backpressured true s =
    if s.backpressured then s else emit (on_backpressure true) (record s { backpressured = true })
set_backpressured false s =
    if s.backpressured then emit (on_backpressure false) (record s { backpressured = false }) else s

abbrev pub buffered : Flow → ℕ
buffered q = q.pending_bytes + q.in_flight_bytes

unfoldable pub update_backpressure : TerminalBridge → TerminalBridge
update_backpressure s =
    if not s.backpressured && leb high_water_bytes (buffered s.flow)
    then set_backpressured true s
    else if s.backpressured && leb (buffered s.flow) low_water_bytes
    then set_backpressured false s
    else s

abbrev pub queue_data : Bytes → Flow → Flow
queue_data bytes q = record q {
  pending_data = q.pending_data ++ bytes ∷ [];
  pending_bytes = q.pending_bytes + length bytes;
}

unfoldable pub compact_pending_data : Flow → Flow
compact_pending_data q =
    if q.pending_data_head == length q.pending_data
    then record q { pending_data = []; pending_data_head = 0 }
    else if leb 128 q.pending_data_head && leb (length q.pending_data) (q.pending_data_head * 2)
    then record q { pending_data = waiting q; pending_data_head = 0 }
    else q

-- The chunk at the head is in flight.
abbrev pub take_off : Bytes → ℕ → Flow → Flow
take_off bytes sequence q = record q {
  pending_data_head = q.pending_data_head + 1;
  pending_bytes = q.pending_bytes - length bytes;
  in_flight_bytes = q.in_flight_bytes + length bytes;
  in_flight_messages = q.in_flight_messages + 1;
  in_flight_sequences = q.in_flight_sequences ++ sequence ∷ [];
}

abbrev pub is_open : Flow → Bool
is_open q =
    ltb q.in_flight_bytes high_water_bytes && ltb q.in_flight_messages max_in_flight_messages

abbrev pub after_sequence : ℕ → ℕ
after_sequence n = if leb 0xFFFFFFFF n then 1 else n + 1

-- `posts n` is whether the n-th call of `postMessageEvent` comes back.
module _ (posts : ℕ → Bool) where
  -- The number of the packet, or 0 where it was not sent.
  unfoldable pub post_terminal_packet : Bytes → TerminalBridge → ℕ × TerminalBridge
  post_terminal_packet bytes s =
      let tried = record s {
        next_sequence = after_sequence s.next_sequence;
        attempts = s.attempts + 1;
      } in
      if not s.has_port
      then (0, s)
      else if posts s.attempts
      then (s.next_sequence, emit (packet (packet_of s.next_sequence bytes)) tried)
      else (0, tried)

  -- The loop over the chunks from the head; `false` is that a packet was not sent.
  unfoldable pub pump_loop : List Bytes → TerminalBridge → Bool × TerminalBridge
  pump_loop [] s = (true, s)
  pump_loop (bytes ∷ chunks) s =
      let (sequence, posted) = post_terminal_packet bytes s in
      let more = pump_loop chunks (record posted { flow = take_off bytes sequence posted.flow }) in
      if not (is_open s.flow) then (true, s) else if sequence == 0 then (false, posted) else more

  unfoldable pub pump_pending_data : TerminalBridge → TerminalBridge
  pump_pending_data s =
      let (finished, next) = pump_loop (waiting s.flow) s in
      if not s.ready
      then s
      else if finished
      then update_backpressure (record next { flow = compact_pending_data next.flow })
      else next

  unfoldable pub write : Bytes → TerminalBridge → TerminalBridge
  write bytes s =
      if ltb max_pending_bytes (s.flow.pending_bytes + length bytes)
      then set_backpressured true s
      else pump_pending_data (update_backpressure (record s { flow = queue_data bytes s.flow }))

  -- Whether a message was sent.
  unfoldable pub send : Command → TerminalBridge → Bool × TerminalBridge
  send command s =
      if not s.has_port
      then (false, s)
      else if posts s.attempts
      then (true, emit (message command) (record s { attempts = s.attempts + 1 }))
      else (false, record s { attempts = s.attempts + 1 })
