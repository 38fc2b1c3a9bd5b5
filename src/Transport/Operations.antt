-- ===== src/Transport/Operations.antt =====
-- The operations on a bridge and their sequences (entry/src/main/ets/model/bridge/TerminalBridge.ets).
use harmotty.Prelude.{ℕ, Bool, List, [], ◌∷◌, Text}
use harmotty.Bridge.Messages.{Command}
use harmotty.Terminal.OutputBuffer.{Bytes}
use harmotty.Transport.State.{TerminalBridge, write}
use harmotty.Transport.Handle.{
  init, open_search, blur, request_fit, post, post_if_ready, send_theme, restore_snapshot,
  set_font_size, request_snapshot, handle_raw_message,
}

-- Everything that happens to a bridge until it is destroyed.
pub data Operation : Type 0 where
  initializing opening_search blurring fitting : Operation
  writing : Bytes → Operation
  sending sending_if_ready : Command → Operation
  theming restoring : Text → Operation
  sizing requesting : ℕ → Operation
  receiving : ℕ → Text → Operation

-- `posts n` is whether the n-th call of `postMessageEvent` comes back.
module _ (posts : ℕ → Bool) where
  unfoldable pub perform : TerminalBridge → Operation → TerminalBridge
  perform s initializing = init s
  perform s opening_search = open_search posts s
  perform s blurring = blur posts s
  perform s fitting = request_fit posts s
  perform s (writing bytes) = write posts bytes s
  perform s (sending command) = post posts command s
  perform s (sending_if_ready command) = post_if_ready posts command s
  perform s (theming json) = send_theme posts json s
  perform s (restoring snapshot) = restore_snapshot posts snapshot s
  perform s (sizing size) = set_font_size posts size s
  perform s (requesting id) = request_snapshot posts id s
  perform s (receiving now raw) = handle_raw_message posts now raw s

  unfoldable pub run : TerminalBridge → List Operation → TerminalBridge
  run s [] = s
  run s (operation ∷ operations) = run (perform s operation) operations
