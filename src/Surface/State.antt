-- ===== src/Surface/State.antt =====
-- The state of a `TerminalSurfaceController`
-- (entry/src/main/ets/model/terminal/TerminalSurfaceController.ets) and the calls that it makes. A
-- handler that is not set is one that does nothing; the handler of a snapshot has a number.
use harmotty.Prelude.{
  ℕ, Bool, true, false, not, ◌&&◌, ◌||◌, Option, none, some, List, [], ◌∷◌, Text, ◌==◌,
  if◌then◌else◌,
}
use harmotty.Bridge.Protocol.{BridgeMessage}
use harmotty.Terminal.OutputBuffer.{
  Bytes, TerminalOutputBuffer, set_bridge_backpressured, is_output_paused,
}

pub record SnapshotCompletion : Type 0 where
  pub request_id : ℕ
  pub handler : ℕ

-- Calls of the bridge, and of the handlers of the controller.
pub data Event : Type 0 where
  restore_snapshot : Text → Event
  write : Bytes → Event
  init destroy clear_selection : Event
  request_snapshot : ℕ → Event
  on_ready : Bool → Event
  on_message : BridgeMessage → Event
  on_output_pause_change : Bool → Event
  on_copy_result : Bool → Event
  on_bell_attention on_attention_acknowledged : Event
  on_open_url : Text → Event
  write_clipboard : Text → Event
  on_captured : ℕ → Bool → Event

-- A bridge is the number of the attachment that made it; `recovered_output` is what its handler
-- `onReady` closes over.
pub record Surface : Type 0 where
  pub bridge : Option ℕ
  pub attachments : ℕ
  pub recovered_output : Bool
  pub output_buffer : TerminalOutputBuffer
  pub next_snapshot_request_id : ℕ
  pub last_committed_snapshot_request_id : ℕ
  pub snapshot_completions : List SnapshotCompletion

abbrev pub new : TerminalOutputBuffer → Surface
new buffer = record {
  bridge = none;
  attachments = 0;
  recovered_output = false;
  output_buffer = buffer;
  next_snapshot_request_id = 1;
  last_committed_snapshot_request_id = 0;
  snapshot_completions = [];
}

abbrev pub is_attached : Surface → Bool
is_attached s = elim s.bridge [ none ↦ false | some bridge ↦ true ]

abbrev pub is_bridge : Surface → ℕ → Bool
is_bridge s source = elim s.bridge [ none ↦ false | some bridge ↦ bridge == source ]

unfoldable pub notify_output_pause_change : Bool → Surface → List Event
notify_output_pause_change previous_paused s =
    let paused = is_output_paused s.output_buffer in
    if (previous_paused && paused) || (not previous_paused && not paused)
    then []
    else on_output_pause_change paused ∷ []

-- The handler that a bridge calls when its own queue is full or free.
unfoldable pub on_backpressure : Bool → Surface → List Event × Surface
on_backpressure paused s =
    let next = record s { output_buffer = set_bridge_backpressured s.output_buffer paused } in
    (notify_output_pause_change (is_output_paused s.output_buffer) next, next)

-- What a bridge does to its handler while it takes bytes.
unfoldable pub react : Option Bool → Surface → List Event × Surface
react none s = ([], s)
react (some paused) s = on_backpressure paused s
