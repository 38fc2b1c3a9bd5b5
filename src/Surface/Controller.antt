-- ===== src/Surface/Controller.antt =====
-- `TerminalSurfaceController` (entry/src/main/ets/model/terminal/TerminalSurfaceController.ets): an
-- operation gives the calls that it makes, of the bridge and of the handlers, and the next state.
use harmotty.Prelude.{
  ℕ, ◌+◌, Bool, true, false, not, ◌&&◌, ◌||◌, Option, none, some, List, [], ◌∷◌, ◌++◌, Text, codes,
  eq_text, index_of, substring, ltb, leb, ◌==◌, if◌then◌else◌, length,
}
use harmotty.Prelude.Int.{pos, negsuc}
use harmotty.Prelude.Decimal.{to_text}
use harmotty.Prelude.ParseInt.{parse_int}
use harmotty.Bridge.Protocol.{BridgeMessage, web_to_native, channel_control}
use harmotty.Terminal.OutputBuffer.{
  Bytes, append, mark_attached, mark_detached, is_output_paused, take_detached_chunks,
  replace_snapshot, release_disconnected_flow_control,
}
use harmotty.Surface.State.{
  SnapshotCompletion, Event, Surface, is_attached, is_bridge, notify_output_pause_change,
  on_backpressure, react, restore_snapshot, write, init, destroy, clear_selection, request_snapshot,
  on_ready, on_message, on_copy_result, on_bell_attention, on_attention_acknowledged, on_open_url,
  write_clipboard, on_captured,
}

unfoldable pub fail_completions : List SnapshotCompletion → List Event
fail_completions [] = []
fail_completions (completion ∷ completions) =
    on_captured completion.handler false ∷ fail_completions completions

unfoldable pub detach : Surface → List Event × Surface
detach s =
    let next = record s {
      bridge = none;
      output_buffer = mark_detached s.output_buffer;
      snapshot_completions = [];
    } in
    (
      fail_completions s.snapshot_completions
          ++ (if is_attached s then destroy ∷ [] else [])
          ++ notify_output_pause_change (is_output_paused s.output_buffer) next,
      next,
    )

-- The chunks in order, each with the reaction of the bridge.
unfoldable pub write_chunks : (ℕ → Option Bool) → ℕ → List Bytes → Surface → List Event × Surface
write_chunks reaction index [] s = ([], s)
write_chunks reaction index (chunk ∷ chunks) s =
    let (reacted, next) = react (reaction index) s in
    let (more, last) = write_chunks reaction (index + 1) chunks next in
    (write chunk ∷ reacted ++ more, last)

unfoldable pub attach : (ℕ → Option Bool) → Surface → List Event × Surface
attach reaction s =
    let (detached_events, d) = detach s in
    let snapshot = d.output_buffer.snapshot in
    let (detached_chunks, taken) = take_detached_chunks d.output_buffer in
    let attached = record d {
      bridge = some d.attachments;
      attachments = d.attachments + 1;
      recovered_output = not (length snapshot == 0) || not (length detached_chunks == 0);
      output_buffer = mark_attached taken;
    } in
    let (written, next) = write_chunks reaction 0 detached_chunks attached in
    (
      detached_events
          ++ (if length snapshot == 0 then [] else restore_snapshot snapshot ∷ [])
          ++ written
          ++ notify_output_pause_change (is_output_paused taken) next
          ++ init ∷ [],
      next,
    )

unfoldable pub write_bytes : Bytes → Option Bool → Surface → List Event × Surface
write_bytes bytes reaction s =
    let appended = record s { output_buffer = append s.output_buffer bytes } in
    let (reacted, next) = react (if is_attached s then reaction else none) appended in
    (
      (if is_attached s then write bytes ∷ [] else [])
          ++ reacted
          ++ notify_output_pause_change (is_output_paused s.output_buffer) next,
      next,
    )

unfoldable pub release_flow_control : Surface → List Event × Surface
release_flow_control s =
    let next = record s { output_buffer = release_disconnected_flow_control s.output_buffer } in
    (notify_output_pause_change (is_output_paused s.output_buffer) next, next)

abbrev pub completion_of : ℕ → Option ℕ → List SnapshotCompletion
completion_of request_id none = []
completion_of request_id (some handler) = record { request_id = request_id; handler = handler } ∷ []

abbrev pub refuse_capture : Option ℕ → List Event
refuse_capture none = []
refuse_capture (some handler) = on_captured handler false ∷ []

unfoldable pub capture_snapshot : Option ℕ → Surface → List Event × Surface
capture_snapshot handler s =
    let request_id = s.next_snapshot_request_id in
    if is_attached s
    then (
      request_snapshot request_id ∷ [],
      record s {
        next_snapshot_request_id = request_id + 1;
        snapshot_completions = s.snapshot_completions ++ completion_of request_id handler;
      },
    )
    else (refuse_capture handler, s)

-- The completions of other requests, and the handler of the last one of this request.
unfoldable pub remaining : ℕ → List SnapshotCompletion → List SnapshotCompletion
remaining request_id [] = []
remaining request_id (completion ∷ completions) =
    let rest = remaining request_id completions in
    if completion.request_id == request_id then rest else completion ∷ rest

unfoldable pub completed_handler : ℕ → List SnapshotCompletion → Option ℕ
completed_handler request_id [] = none
completed_handler request_id (completion ∷ completions) =
    elim (completed_handler request_id completions) [
      | none ↦ if completion.request_id == request_id then some completion.handler else none
      | some handler ↦ some handler
    ]

abbrev pub captured_event : Bool → Option ℕ → List Event
captured_event captured none = []
captured_event captured (some handler) = on_captured handler captured ∷ []

unfoldable pub complete_snapshot_request : ℕ → Bool → Surface → List Event × Surface
complete_snapshot_request request_id captured s = (
  captured_event captured (completed_handler request_id s.snapshot_completions),
  record s { snapshot_completions = remaining request_id s.snapshot_completions },
)

-- The number that a snapshot starts with, as `toString` writes it, and the text after it.
unfoldable pub snapshot_of : Text → Option (ℕ × Text)
snapshot_of payload = elim (index_of b'|' payload) [
  | none ↦ none
  | some separator ↦
      let request_id_text = substring payload 0 separator in
      elim (parse_int request_id_text) [
        | none ↦ none
        | some (negsuc n) ↦ none
        | some (pos request_id) ↦
            if ltb 0 separator && ltb 0 request_id && eq_text (to_text request_id) request_id_text
            then some (request_id, substring payload (separator + 1) (length payload))
            else none
      ]
]

unfoldable pub commit_snapshot : ℕ → Text → Surface → Surface
commit_snapshot request_id text s =
    if leb s.last_committed_snapshot_request_id request_id
    then record s {
      output_buffer = replace_snapshot s.output_buffer text;
      last_committed_snapshot_request_id = request_id;
    }
    else s

unfoldable pub take_snapshot : Option (ℕ × Text) → Surface → List Event × Surface
take_snapshot none s = ([], s)
take_snapshot (some (request_id, text)) s =
    complete_snapshot_request request_id true (commit_snapshot request_id text s)

abbrev pub is_control : BridgeMessage → Text → Bool
is_control msg kind =
    eq_text msg.direction web_to_native
    && eq_text msg.channel channel_control
    && eq_text msg.kind kind

-- A message of the page, through the bridge `source`.
unfoldable pub handle_bridge_message : ℕ → BridgeMessage → Surface → List Event × Surface
handle_bridge_message source msg s =
    let snapshot = take_snapshot (if is_bridge s source then snapshot_of msg.payload else none) s in
    if is_control msg (codes "bellAttention")
    then (on_bell_attention ∷ [], s)
    else if is_control msg (codes "attentionAcknowledged")
    then (on_attention_acknowledged ∷ [], s)
    else if is_control msg (codes "copySelection")
    then (if length msg.payload == 0 then [] else write_clipboard msg.payload ∷ [], s)
    else if is_control msg (codes "clipboardWrite")
    then (write_clipboard msg.payload ∷ [], s)
    else if is_control msg (codes "openUrl")
    then (on_open_url msg.payload ∷ [], s)
    else if is_control msg (codes "snapshot")
    then snapshot
    else (on_message msg ∷ [], s)

-- The clipboard has answered; a selection that was copied through the bridge is cleared.
unfoldable pub clipboard_written : Option ℕ → Bool → Surface → List Event
clipboard_written none success s = on_copy_result success ∷ []
clipboard_written (some source) success s =
    (if success && is_bridge s source then clear_selection ∷ [] else [])
    ++ on_copy_result success ∷ []

-- What happens to a controller: its methods, and the calls of a bridge, of a timer and of the
-- clipboard. A bridge that is destroyed does not call any more.
pub data Operation : Type 0 where
  attaching : (ℕ → Option Bool) → Operation
  detaching releasing becoming_ready : Operation
  writing : Bytes → Option Bool → Operation
  backpressure : Bool → Operation
  capturing : Option ℕ → Operation
  timing_out : ℕ → Operation
  receiving : ℕ → BridgeMessage → Operation
  clipboard : Option ℕ → Bool → Operation

unfoldable pub perform : Surface → Operation → List Event × Surface
perform s (attaching reaction) = attach reaction s
perform s detaching = detach s
perform s releasing = release_flow_control s
perform s becoming_ready = (if is_attached s then on_ready s.recovered_output ∷ [] else [], s)
perform s (writing bytes reaction) = write_bytes bytes reaction s
perform s (backpressure paused) = if is_attached s then on_backpressure paused s else ([], s)
perform s (capturing handler) = capture_snapshot handler s
perform s (timing_out request_id) = complete_snapshot_request request_id false s
perform s (receiving source msg) = handle_bridge_message source msg s
perform s (clipboard source success) = (clipboard_written source success s, s)

unfoldable pub run : Surface → List Operation → List Event × Surface
run s [] = ([], s)
run s (operation ∷ operations) =
    let (events, next) = perform s operation in
    let (more, last) = run next operations in (events ++ more, last)
