-- ===== src/Transport/Runs.antt =====
-- Whatever is done to a bridge, the page reads the output that the bridge takes, once and in order
-- (entry/src/main/ets/model/bridge/TerminalBridge.ets).
use harmotty.Prelude.{
  ℕ, ◌+◌, ◌≡◌, ◌∙◌, refl, ap, Bool, false, Option, none, some, List, [], ◌∷◌, ◌++◌, append_assoc,
  arith, split_on, length, length-append, ◌≤◌, ltb, if◌then◌else◌,
}
use harmotty.Bridge.Protocol.{BridgeMessage, parse}
use harmotty.Bridge.Messages.{Command}
use harmotty.Terminal.OutputBuffer.{Bytes, concat}
use harmotty.Transport.State.{max_pending_bytes, TerminalBridge, waiting, new}
use harmotty.Transport.Handle.{
  positive_pair, send_theme, request_fit, set_font_size, blur, open_search, post_if_ready,
  restore_snapshot, request_snapshot, handle_message, take_message, handle_raw_message,
}
use harmotty.Transport.Operations.{
  Operation, initializing, opening_search, blurring, fitting, writing, sending, sending_if_ready,
  theming, restoring, sizing, requesting, receiving, perform, run,
}
use harmotty.Transport.Sound.{read, IsSound, held, Follows}
use harmotty.Transport.Pump.{write-Follows}
use harmotty.Transport.Delivers.{
  Follows-refl, Quiet, Follows-then, touch, branch, message-Follows, send-Follows, requests-Follows,
  search-Follows, kept-Follows, acknowledge-Follows, ready-Follows, restore_complete-Follows,
}

pub new-IsSound : IsSound new
unfolding concat
new-IsSound = record {
  counted = record {
    head_in = omega arith;
    bytes = refl;
    room = omega arith;
    messages = refl;
    limit = omega arith;
    flying = omega arith;
  };
  numbered = omega arith;
  below = omega arith;
  calm = λ e. omega arith;
}

-- The output that an operation hands over and that still fits.
unfoldable pub taken : TerminalBridge → Operation → Bytes
taken s (writing bytes) =
    if ltb max_pending_bytes (s.flow.pending_bytes + length bytes) then [] else bytes
taken s _ = []

abbrev pub offered_by : Operation → Bytes
offered_by (writing bytes) = bytes
offered_by _ = []

-- The output that a run hands over.
unfoldable pub offered : List Operation → Bytes
offered [] = []
offered (operation ∷ operations) = offered_by operation ++ offered operations

taken-fits :
    (s : TerminalBridge) (operation : Operation)
    → IsSound s
    → length (held s) + length (offered_by operation) ≤ max_pending_bytes
    → taken s operation ≡ offered_by operation
unfolding taken
taken-fits s (writing bytes) h room =
    let fits : ltb max_pending_bytes (s.flow.pending_bytes + length bytes) ≡ false =
      let counted = h.counted.bytes in
      let all = length-append (read s.log) (concat (waiting s.flow)) in ground arith in
    rw fits refl
taken-fits s initializing h room = refl
taken-fits s opening_search h room = refl
taken-fits s blurring h room = refl
taken-fits s fitting h room = refl
taken-fits s (sending command) h room = refl
taken-fits s (sending_if_ready command) h room = refl
taken-fits s (theming json) h room = refl
taken-fits s (restoring snapshot) h room = refl
taken-fits s (sizing size) h room = refl
taken-fits s (requesting id) h room = refl
taken-fits s (receiving now raw) h room = refl

module _ (posts : ℕ → Bool) where
  handle_message-Follows : (now : ℕ) (msg : BridgeMessage) → Quiet (handle_message posts now msg)
  unfolding handle_message
  handle_message-Follows now msg s h = branch s [] _ _ _ (Follows-refl s h) (
      branch s [] _ _ _ (acknowledge-Follows posts (positive_pair (split_on b',' msg.payload)) s h)
        (branch s [] _ _ _ (ready-Follows posts now s h) (
          branch s [] _ _ _ (restore_complete-Follows posts s h) (
            branch s [] _ _ _ (touch s (record s { last_pong_time = now }) h refl refl refl refl)
              (message-Follows msg s h)))))

  take_message-Follows : (now : ℕ) (msg : Option BridgeMessage) → Quiet (take_message posts now msg)
  unfolding take_message
  take_message-Follows now none s h = Follows-refl s h
  take_message-Follows now (some msg) s h =
      branch s [] _ _ _ (handle_message-Follows now msg s h) (Follows-refl s h)

  perform-Follows :
      (s : TerminalBridge) (operation : Operation)
      → IsSound s
      → Follows s (taken s operation) (perform posts s operation)
  unfolding perform taken open_search blur request_fit post_if_ready send_theme restore_snapshot
      set_font_size request_snapshot handle_raw_message
  perform-Follows s initializing h = touch s _ h refl refl refl refl
  perform-Follows s opening_search h =
      Follows-then (touch s _ h refl refl refl refl) (search-Follows posts)
  perform-Follows s blurring h =
      Follows-then (touch s _ h refl refl refl refl) (send-Follows posts Command.blur)
  perform-Follows s fitting h =
      kept-Follows posts Command.fit s _ h (touch s _ h refl refl refl refl)
  perform-Follows s (writing bytes) h = write-Follows posts bytes s h
  perform-Follows s (sending command) h = send-Follows posts command s h
  perform-Follows s (sending_if_ready command) h =
      kept-Follows posts command s s h (Follows-refl s h)
  perform-Follows s (theming json) h =
      kept-Follows posts (Command.theme json) s _ h (touch s _ h refl refl refl refl)
  perform-Follows s (restoring snapshot) h = branch s [] _ _ _ (Follows-refl s h) (
      kept-Follows posts (Command.restore_snapshot snapshot) s _ h
        (touch s _ h refl refl refl refl))
  perform-Follows s (sizing size) h =
      kept-Follows posts (Command.font_size size) s _ h (touch s _ h refl refl refl refl)
  perform-Follows s (requesting id) h =
      Follows-then (touch s _ h refl refl refl refl) (requests-Follows posts)
  perform-Follows s (receiving now raw) h = take_message-Follows now (parse raw) s h

  -- The output of a run, without the chunks that found no room.
  unfoldable pub accepted : TerminalBridge → List Operation → Bytes
  accepted s [] = []
  accepted s (operation ∷ operations) =
      taken s operation ++ accepted (perform posts s operation) operations

  pub runs-Follows :
      (s : TerminalBridge) (operations : List Operation)
      → IsSound s
      → Follows s (accepted s operations) (run posts s operations)
  unfolding accepted run
  runs-Follows s [] h = Follows-refl s h
  runs-Follows s (operation ∷ operations) h =
      let first = perform-Follows s operation h in
      let rest = runs-Follows (perform posts s operation) operations first.sound in
      record {
        sound = rest.sound;
        kept =
            rest.kept
            ∙ ap (λ l. l ++ accepted (perform posts s operation) operations) first.kept
            ∙ append_assoc (held s) (taken s operation)
                (accepted (perform posts s operation) operations);
      }

  -- No output is refused as long as all of it would fit.
  accepted-fits :
      (s : TerminalBridge) (operations : List Operation)
      → IsSound s
      → length (held s) + length (offered operations) ≤ max_pending_bytes
      → accepted s operations ≡ offered operations
  unfolding accepted offered
  accepted-fits s [] h room = refl
  accepted-fits s (operation ∷ operations) h room =
      let all = length-append (offered_by operation) (offered operations) in
      let first = taken-fits s operation h (omega (arith, room, all)) in
      let step = perform-Follows s operation h in
      let grown =
        ap (λ l. length l) (step.kept ∙ ap (λ t. held s ++ t) first)
        ∙ length-append (held s) (offered_by operation) in
      let rest =
        accepted-fits (perform posts s operation) operations step.sound
          (omega (arith, room, all, grown)) in
      rw (first, rest) refl

  -- Whatever the app and the page do to a bridge until it is destroyed, and whichever posts fail:
  -- what the page has read of the packets, followed by what waits in the queue, is all the output
  -- that was written and found room, in order, nothing lost and nothing twice.
  pub run-keeps_order :
      (operations : List Operation) → held (run posts new operations) ≡ accepted new operations
  unfolding read concat
  run-keeps_order operations = (runs-Follows new operations new-IsSound).kept

  pub run-held :
      (operations : List Operation)
      → length (offered operations) ≤ max_pending_bytes
      → held (run posts new operations) ≡ offered operations
  unfolding read concat
  run-held operations room =
      run-keeps_order operations ∙ accepted-fits new operations new-IsSound (omega (arith, room))
