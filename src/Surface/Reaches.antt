-- ===== src/Surface/Reaches.antt =====
-- What a controller has its bridge write reaches the page
-- (entry/src/main/ets/model/terminal/TerminalSurfaceController.ets and
-- entry/src/main/ets/model/bridge/TerminalBridge.ets).
use harmotty.Prelude.{
  ℕ, ◌≤◌, ◌≡◌, refl, sym, ◌∙◌, ap, inl, inr, Bool, true, false, ◌&&◌, Option, none, some, List, [],
  ◌∷◌, ◌++◌, append-nil, arith, All, length, if◌then◌else◌, Bool-cases,
}
use harmotty.Terminal.OutputBuffer.{Bytes, concat, append, is_output_paused}
use harmotty.Surface.State.{
  write, clear_selection, on_copy_result, Surface, is_attached, is_bridge,
  notify_output_pause_change, react,
}
use harmotty.Surface.Controller.{
  fail_completions, detach, write_chunks, attach, write_bytes, release_flow_control, completion_of,
  refuse_capture, capture_snapshot, captured_event, completed_handler, complete_snapshot_request,
  snapshot_of, commit_snapshot, take_snapshot, handle_bridge_message, clipboard_written, attaching,
  detaching, releasing, becoming_ready, backpressure, capturing, timing_out, receiving, clipboard,
}
use harmotty.Surface.Controller
use harmotty.Transport.State.{max_pending_bytes, new}
use harmotty.Transport.Operations
use harmotty.Transport.Operations.{
  initializing, sending, restoring, requesting, writing, opening_search, blurring, fitting,
  sending_if_ready, theming, sizing,
}
use harmotty.Transport.Sound.{held}
use harmotty.Transport.Runs.{offered_by, offered, run-held}
use harmotty.Surface.Carried.{
  bridge_call, bridge_calls, carried, carried-append, carried-three, carried-notify, Carries,
  react-Carries, branch, complete-Carries, message-Carries,
}
use harmotty.Surface.Attached.{carried-attach}

abbrev pub given : Controller.Operation → Bytes
given (Controller.writing bytes reaction) = bytes
given _ = []

-- The output that a controller is given.
unfoldable pub received : List Controller.Operation → Bytes
received [] = []
received (operation ∷ operations) = given operation ++ received operations

abbrev pub moves : Controller.Operation → Bool
moves (attaching reaction) = true
moves detaching = true
moves _ = false

write-Carries :
    (s : Surface) (bytes : Bytes) (reaction : Option Bool)
    → is_attached s ≡ true
    → Carries s bytes (write_bytes bytes reaction s)
unfolding write_bytes bridge_calls bridge_call offered
write-Carries s bytes reaction attached =
    let appended = record s { output_buffer = append s.output_buffer bytes } in
    let reacted = react-Carries (if is_attached s then reaction else none) appended in
    let result = react (if is_attached s then reaction else none) appended in
    let written : carried (if is_attached s then write bytes ∷ [] else []) ≡ bytes =
      rw attached (append-nil bytes) in
    record {
      output =
          carried-three (if is_attached s then write bytes ∷ [] else []) result.0
            (notify_output_pause_change (is_output_paused s.output_buffer) result.1)
          ∙ rw (written, reacted.output, carried-notify (is_output_paused s.output_buffer) result.1)
              (append-nil _ ∙ append-nil bytes);
      bridge = reacted.bridge;
    }

perform-Carries :
    (s : Surface) (operation : Controller.Operation)
    → is_attached s ≡ true
    → moves operation ≡ false
    → Carries s (given operation) (Controller.perform s operation)
unfolding Controller.perform capture_snapshot release_flow_control clipboard_written bridge_calls
    bridge_call offered
perform-Carries s (attaching reaction) attached m = absurd (cc)
perform-Carries s detaching attached m = absurd (cc)
perform-Carries s releasing attached m = record { output = carried-notify _ _; bridge = refl }
perform-Carries s becoming_ready attached m = rw attached (record { output = refl; bridge = refl })
perform-Carries s (Controller.writing bytes reaction) attached m =
    write-Carries s bytes reaction attached
perform-Carries s (backpressure paused) attached m =
    branch s [] (is_attached s) _ _ (unfold react in react-Carries (some paused) s)
      (record { output = refl; bridge = refl })
perform-Carries s (capturing handler) attached m =
    rw attached (record { output = refl; bridge = refl })
perform-Carries s (timing_out request_id) attached m = complete-Carries s s request_id false refl
perform-Carries s (receiving source msg) attached m = message-Carries source msg s
perform-Carries s (clipboard none success) attached m = record { output = refl; bridge = refl }
perform-Carries s (clipboard (some source) success) attached m = record {
  output = cleared (success && is_bridge s source);
  bridge = refl;
}
  where
    cleared :
        (c : Bool)
        → carried ((if c then clear_selection ∷ [] else []) ++ on_copy_result success ∷ []) ≡ []
    cleared true = refl
    cleared false = refl

run-Carries :
    (s : Surface) (operations : List Controller.Operation)
    → is_attached s ≡ true
    → All (λ o. moves o ≡ false) operations
    → carried (Controller.run s operations).0 ≡ received operations
unfolding Controller.run received bridge_calls offered
run-Carries s [] attached m = refl
run-Carries s (operation ∷ operations) attached m =
    let first = perform-Carries s operation attached m.0 in
    let next = (Controller.perform s operation).1 in
    let rest =
      run-Carries next operations
        (ap (λ b. elim b [ none ↦ false | some n ↦ true ]) first.bridge ∙ attached) m.1 in
    carried-append (Controller.perform s operation).0 (Controller.run next operations).0
    ∙ rw (first.output, rest) refl

abbrev pub is_message : Operations.Operation → Bool
is_message (Operations.receiving now raw) = true
is_message _ = false

silent :
    (operation : Operations.Operation) → is_message operation ≡ true → offered_by operation ≡ []
silent (Operations.receiving now raw) e = refl
silent (writing bytes) e = absurd (cc)
silent _ e = refl

-- The calls of a bridge without the messages of the page.
unfoldable pub without_messages : List Operations.Operation → List Operations.Operation
without_messages [] = []
without_messages (operation ∷ operations) =
    if is_message operation
    then without_messages operations
    else operation ∷ without_messages operations

offered-without_messages :
    (calls : List Operations.Operation) → offered (without_messages calls) ≡ offered calls
unfolding offered without_messages
offered-without_messages [] = refl
offered-without_messages (operation ∷ operations) = elim (Bool-cases (is_message operation)) [
  | inl e ↦ rw (e, silent operation e) (offered-without_messages operations)
  | inr e ↦ rw e (ap (λ l. offered_by operation ++ l) (offered-without_messages operations))
]

module _ (posts : ℕ → Bool) where
  -- A controller whose buffer is detached is attached to a page, and stays so. Its bridge is called
  -- as the controller does, with messages of the page between the calls. If what was held back and
  -- what the controller is given since then are together at most 8 MiB, what the page has read
  -- followed by what waits in the bridge is just that, in order, whichever posts fail.
  pub reaches_page :
      (s : Surface) (reaction : ℕ → Option Bool) (operations : List Controller.Operation)
      (calls : List Operations.Operation)
      → s.output_buffer.attached ≡ false
      → All (λ o. moves o ≡ false) operations
      → without_messages calls ≡ bridge_calls (Controller.run s (attaching reaction ∷ operations)).0
      → length (concat s.output_buffer.detached_chunks ++ received operations) ≤ max_pending_bytes
      → held (Operations.run posts new calls)
        ≡ concat s.output_buffer.detached_chunks ++ received operations
  unfolding Controller.run Controller.perform
  reaches_page s reaction operations calls hidden stays same room =
      let (first, attached) = carried-attach reaction s hidden in
      let next = (attach reaction s).1 in
      let rest = run-Carries next operations attached stays in
      let all =
        sym (offered-without_messages calls)
        ∙ ap offered same
        ∙ carried-append (attach reaction s).0 (Controller.run next operations).0
        ∙ ap (λ l. l ++ carried (Controller.run next operations).0) first
        ∙ ap (λ l. concat s.output_buffer.detached_chunks ++ l) rest in
      run-held posts calls (omega (arith, room, ap (λ l. length l) all)) ∙ all
