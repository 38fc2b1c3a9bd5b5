-- ===== src/Bridge/Messages.antt =====
-- The messages that `BridgeProtocol` makes for the web view, and the size that it reads from one
-- (entry/src/main/ets/model/bridge/BridgeProtocol.ets).
use harmotty.Prelude.{
  ℕ, ◌≤◌, ◌<◌, ◌^◌, ◌||◌, Option, some, List, [], ◌∷◌, Text, codes, ◌==◌, if◌then◌else◌, length,
  split_on,
}
use harmotty.Prelude.Int.{ℤ, pos}
use harmotty.Prelude.Decimal.{to_text}
use harmotty.Prelude.ParseInt.{parse_int}
use harmotty.Bridge.Protocol.{
  BridgeMessage, native_to_web, web_to_native, channel_data, channel_control,
  max_snapshot_payload_length,
}

unfoldable pub native_data : Text → Text → BridgeMessage
native_data kind payload = record {
  direction = native_to_web;
  channel = channel_data;
  kind = kind;
  payload = payload;
}

unfoldable pub native_control : Text → Text → BridgeMessage
native_control kind payload = record {
  direction = native_to_web;
  channel = channel_control;
  kind = kind;
  payload = payload;
}

unfoldable pub web_control : Text → Text → BridgeMessage
web_control kind payload = record {
  direction = web_to_native;
  channel = channel_control;
  kind = kind;
  payload = payload;
}

-- The static methods that make a message.
pub data Command : Type 0 where
  write theme : Text → Command
  ping focus blur clear_selection fit : Command
  font_size : ℕ → Command
  secondary_action : Command
  snapshot_request : ℕ → Command
  restore_snapshot : Text → Command
  search_open copy_selection : Command
  copy_selection_result clipboard_write_result : Text → Command

unfoldable pub message : Command → BridgeMessage
message (write text) = native_data (codes "terminal") text
message (theme json) = native_control (codes "theme") json
message ping = native_control (codes "ping") []
message focus = native_control (codes "focus") []
message blur = native_control (codes "blur") []
message clear_selection = native_control (codes "clearSelection") []
message fit = native_control (codes "fit") []
message (font_size size) = native_control (codes "fontSize") (to_text size)
message secondary_action = native_control (codes "secondaryAction") []
message (snapshot_request id) = native_control (codes "snapshotRequest") (to_text id)
message (restore_snapshot snapshot) = native_control (codes "restoreSnapshot") snapshot
message search_open = native_control (codes "searchOpen") []
message copy_selection = native_control (codes "copySelection") []
message (copy_selection_result text) = web_control (codes "copySelection") text
message (clipboard_write_result text) = web_control (codes "clipboardWrite") text

-- A snapshot that is not too long, and a request whose id is a positive exact integer.
abbrev pub IsSendable : Command → Type 0
IsSendable (snapshot_request id) = (1 ≤ id) × (id < 2 ^ 53)
IsSendable (restore_snapshot snapshot) = length snapshot ≤ max_snapshot_payload_length
IsSendable _ = Unit

abbrev pub default_size : ℕ × ℕ
default_size = (80, 24)

unfoldable pub size_of : Option ℤ → Option ℤ → ℕ × ℕ
size_of (some (pos cols)) (some (pos rows)) =
    if cols == 0 || rows == 0 then default_size else (cols, rows)
size_of _ _ = default_size

unfoldable pub size_of_fields : List Text → ℕ × ℕ
size_of_fields (cols ∷ rows ∷ []) = size_of (parse_int cols) (parse_int rows)
size_of_fields _ = default_size

unfoldable pub parse_resize_payload : Text → ℕ × ℕ
parse_resize_payload payload = size_of_fields (split_on b',' payload)
