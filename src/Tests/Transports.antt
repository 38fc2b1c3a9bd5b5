-- ===== src/Tests/Transports.antt =====
-- Runs of the bridge of a terminal.
use harmotty.Prelude.{
  ℕ, ◌≡◌, refl, arith, Bool, true, some, none, List, map, index_of, substring, index_from, split_on,
  is_space, trim_start, [], ◌∷◌, Text, codes,
}
use harmotty.Prelude.Decimal
use harmotty.Prelude.ParseInt
use harmotty.Terminal.OutputBuffer.{Bytes, concat}
use harmotty.Bridge.Messages.{web_control}
use harmotty.Bridge.Protocol
use harmotty.Transport.Handle
use harmotty.Transport.Operations
use harmotty.Transport.State
use harmotty.Bridge.Protocol.{serialize}
use harmotty.Terminal.OutputBuffer
use harmotty.Surface.State as SurfaceState
use harmotty.Surface.Controller
use harmotty.Surface.Controller.{attaching}
use harmotty.Surface.State.{Surface}
use harmotty.Surface.Carried.{bridge_call, bridge_calls}
use harmotty.Surface.Reaches.{received, without_messages, reaches_page}
use harmotty.Transport.Packets.{packet_of, parse_terminal_packet, parse_terminal_packet-packet_of}
use harmotty.Transport.State.{TerminalBridge, new, waiting}
use harmotty.Transport.Operations.{Operation, initializing, writing, receiving, run}
use harmotty.Transport.Sound.{held, read}
use harmotty.Transport.Drains.{ready_at, settle-drains}
use harmotty.Transport.Flights.{load}
use harmotty.Transport.Answers.{settle}
use harmotty.Transport.Runs.{accepted, run-keeps_order}

abbrev always : ℕ → Bool
always n = true

comes_back : (n : ℕ) → always n ≡ true
comes_back n = refl

abbrev from_page : Text → Text → Text
from_page kind payload = serialize (web_control kind payload)

-- Two chunks before the page is ready, one after it, and an acknowledgement.
abbrev session : List Operation
session =
    writing (97 ∷ 98 ∷ [])
    ∷ initializing
    ∷ receiving 5 (from_page (codes "ready") [])
    ∷ writing (99 ∷ [])
    ∷ receiving 6 (from_page (codes "writeAck") (codes "1,2"))
    ∷ []

-- An empty chunk is sent as packet 1, which the page does not read, so it never acknowledges it and
-- its acknowledgement of packet 2 is not taken.
abbrev stalled : List Operation
stalled =
    initializing
    ∷ receiving 5 (from_page (codes "ready") [])
    ∷ writing []
    ∷ writing (99 ∷ [])
    ∷ receiving 6 (from_page (codes "writeAck") (codes "2,1"))
    ∷ []

abbrev in_flight : TerminalBridge → List ℕ
in_flight s = s.flow.in_flight_sequences

runs :
    (in_flight (run always new session) ≡ 2 ∷ [])
    × (read (run always new session).log ≡ 97 ∷ 98 ∷ 99 ∷ [])
    × (in_flight (run always new stalled) ≡ 1 ∷ 2 ∷ [])
unfolding read run parse_terminal_packet packet_of serialize web_control Operations.perform
    Handle.handle_raw_message Handle.take_message Handle.acknowledge Handle.become_ready Handle.blur
    Handle.flush_fit Handle.flush_font_size Handle.flush_restore_snapshot Handle.flush_theme
    Handle.handle_message Handle.is_first Handle.notify_ready_handler Handle.notify_unless_awaiting
    Handle.open_search Handle.positive_pair Handle.post_if_ready Handle.pump_search_open
    Handle.pump_snapshot_requests Handle.request_each Handle.request_fit Handle.request_snapshot
    Handle.restore_complete Handle.restore_snapshot Handle.send_theme Handle.set_font_size
    State.compact_pending_data State.post_terminal_packet State.pump_loop State.pump_pending_data
    State.send State.set_backpressured State.update_backpressure State.write Protocol.parse
    Protocol.find_fields Protocol.cut_fields Protocol.accept Protocol.is_direction
    Protocol.is_channel Protocol.is_supported_message Protocol.refuses_payload
    Protocol.is_positive_integer_payload index_of substring index_from split_on is_space trim_start
    Decimal.digits_value Decimal.is_digit Decimal.to_text ParseInt.digit_prefix ParseInt.parse_int
    ParseInt.signed ParseInt.unsigned
runs = (refl, refl, refl)

run-keeps_order_example : held (run always new session) ≡ accepted always new session
run-keeps_order_example = run-keeps_order always session

parse_terminal_packet-packet_of_example :
    parse_terminal_packet (packet_of 7 (104 ∷ 105 ∷ [])) ≡ some (7, 104 ∷ 105 ∷ [])
parse_terminal_packet-packet_of_example =
    parse_terminal_packet-packet_of 7 (104 ∷ 105 ∷ []) (omega arith) (omega arith) (omega arith)

abbrev chunks : List Bytes
chunks = (97 ∷ 98 ∷ []) ∷ (99 ∷ []) ∷ []

settle-drains_example :
    let s = run always (ready_at always comes_back 5) (map writing chunks) in
    let t = settle always (load s.flow) 0 s in
    (load t.flow ≡ 0)
    × (read t.log ≡ accepted always (ready_at always comes_back 5) (map writing chunks))
settle-drains_example = settle-drains always comes_back 5 chunks (omega arith, (omega arith, tt))

-- `ab` is held back, and `c` is output after the page is attached.
abbrev held_back : Surface
held_back =
    let buffer = OutputBuffer.new 10 in
    SurfaceState.new (record buffer { detached_chunks = (97 ∷ 98 ∷ []) ∷ []; detached_bytes = 2 })

abbrev calls : List Operation
calls =
    writing (97 ∷ 98 ∷ [])
    ∷ initializing
    ∷ receiving 5 (from_page (codes "ready") [])
    ∷ writing (99 ∷ [])
    ∷ []

same_calls :
    without_messages calls
    ≡ bridge_calls
        (Controller.run held_back
          (attaching (λ index. none) ∷ Controller.writing (99 ∷ []) none ∷ [])).0
unfolding without_messages bridge_calls bridge_call Controller.run Controller.perform
    Controller.attach Controller.detach Controller.fail_completions Controller.write_chunks
    Controller.write_bytes SurfaceState.react SurfaceState.notify_output_pause_change
    OutputBuffer.is_output_paused OutputBuffer.mark_attached OutputBuffer.mark_detached
    OutputBuffer.take_detached_chunks OutputBuffer.append
same_calls = refl

reaches_page_example : held (run always new calls) ≡ 97 ∷ 98 ∷ 99 ∷ []
unfolding received concat
reaches_page_example =
    reaches_page always held_back (λ index. none) (Controller.writing (99 ∷ []) none ∷ []) calls
      refl (refl, tt) same_calls (omega arith)
