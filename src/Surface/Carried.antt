-- ===== src/Surface/Carried.antt =====
-- The calls of the bridge among the events of a controller, and the output that they carry
-- (entry/src/main/ets/model/terminal/TerminalSurfaceController.ets).
use harmotty.Prelude.{
  ℕ, ◌+◌, ◌≡◌, refl, sym, ◌∙◌, ap, inl, inr, Bool, true, false, not, ◌&&◌, ◌||◌, Option, none, some,
  List, [], ◌∷◌, ◌++◌, append_assoc, arith, Text, length, ◌==◌, if◌then◌else◌, Bool-cases,
}
use harmotty.Bridge.Protocol.{BridgeMessage}
use harmotty.Bridge.Messages.{Command}
use harmotty.Terminal.OutputBuffer.{Bytes, concat, is_output_paused}
use harmotty.Surface.State.{
  Event, restore_snapshot, write, init, clear_selection, request_snapshot, write_clipboard,
  on_bell_attention, on_attention_acknowledged, on_open_url, on_message, Surface, is_bridge,
  notify_output_pause_change, on_backpressure, react,
}
use harmotty.Surface.Controller.{
  write_chunks, captured_event, complete_snapshot_request, snapshot_of, commit_snapshot,
  take_snapshot, handle_bridge_message,
}
use harmotty.Transport.Operations
use harmotty.Transport.Operations.{
  initializing, sending, restoring, requesting, writing, opening_search, blurring, fitting,
  sending_if_ready, theming, sizing,
}
use harmotty.Transport.Runs.{offered_by, offered}

-- The call of the bridge that an event is.
unfoldable pub bridge_call : Event → List Operations.Operation
bridge_call (restore_snapshot text) = restoring text ∷ []
bridge_call (write bytes) = writing bytes ∷ []
bridge_call init = initializing ∷ []
bridge_call clear_selection = sending Command.clear_selection ∷ []
bridge_call (request_snapshot id) = requesting id ∷ []
bridge_call _ = []

unfoldable pub bridge_calls : List Event → List Operations.Operation
bridge_calls [] = []
bridge_calls (event ∷ events) = bridge_call event ++ bridge_calls events

abbrev pub carried : List Event → Bytes
carried events = offered (bridge_calls events)

offered-append : (xs ys : List Operations.Operation) → offered (xs ++ ys) ≡ offered xs ++ offered ys
unfolding offered
offered-append [] ys = refl
offered-append (x ∷ xs) ys =
    ap (λ l. offered_by x ++ l) (offered-append xs ys)
    ∙ sym (append_assoc (offered_by x) (offered xs) (offered ys))

bridge_calls-append :
    (xs ys : List Event) → bridge_calls (xs ++ ys) ≡ bridge_calls xs ++ bridge_calls ys
unfolding bridge_calls
bridge_calls-append [] ys = refl
bridge_calls-append (x ∷ xs) ys =
    ap (λ l. bridge_call x ++ l) (bridge_calls-append xs ys)
    ∙ sym (append_assoc (bridge_call x) (bridge_calls xs) (bridge_calls ys))

pub carried-append : (xs ys : List Event) → carried (xs ++ ys) ≡ carried xs ++ carried ys
carried-append xs ys =
    ap offered (bridge_calls-append xs ys) ∙ offered-append (bridge_calls xs) (bridge_calls ys)

pub carried-three :
    (a b c : List Event) → carried (a ++ b ++ c) ≡ carried a ++ carried b ++ carried c
carried-three a b c = rw (carried-append (a ++ b) c, carried-append a b) refl

pub carried-notify :
    (previous : Bool) (s : Surface) → carried (notify_output_pause_change previous s) ≡ []
unfolding notify_output_pause_change bridge_calls bridge_call offered
carried-notify previous s =
    elim (Bool-cases (
      (previous && is_output_paused s.output_buffer)
      || (not previous && not (is_output_paused s.output_buffer)))) [
        | inl e ↦ rw e refl
        | inr e ↦ rw e refl
      ]

-- A step that carries some output and stays with its bridge.
pub record Carries (s : Surface) (bytes : Bytes) (result : List Event × Surface) : Type 0 where
  pub output : carried result.0 ≡ bytes
  pub bridge : result.1.bridge ≡ s.bridge

pub react-Carries : (reaction : Option Bool) (s : Surface) → Carries s [] (react reaction s)
unfolding react on_backpressure bridge_calls offered
react-Carries none s = record { output = refl; bridge = refl }
react-Carries (some paused) s = record { output = carried-notify _ _; bridge = refl }

pub chunks-Carries :
    (reaction : ℕ → Option Bool) (index : ℕ) (chunks : List Bytes) (s : Surface)
    → Carries s (concat chunks) (write_chunks reaction index chunks s)
unfolding write_chunks bridge_calls bridge_call offered concat
chunks-Carries reaction index [] s = record { output = refl; bridge = refl }
chunks-Carries reaction index (chunk ∷ chunks) s =
    let reacted = react-Carries (reaction index) s in
    let more = chunks-Carries reaction (index + 1) chunks (react (reaction index) s).1 in
    record {
      output =
          ap (λ l. chunk ++ l)
            (carried-append (react (reaction index) s).0 _
              ∙ ap
                  (λ l.
                    l
                    ++ carried
                        (write_chunks reaction (index + 1) chunks (react (reaction index) s).1).0)
                  reacted.output
              ∙ more.output);
      bridge = more.bridge ∙ reacted.bridge;
    }

pub branch :
    (s : Surface) (bytes : Bytes) (c : Bool) (x y : List Event × Surface)
    → Carries s bytes x
    → Carries s bytes y
    → Carries s bytes (if c then x else y)
branch s bytes true x y p q = p
branch s bytes false x y p q = q

carried-captured :
    (captured : Bool) (handler : Option ℕ) → carried (captured_event captured handler) ≡ []
unfolding bridge_calls bridge_call offered
carried-captured captured none = refl
carried-captured captured (some handler) = refl

pub complete-Carries :
    (s t : Surface) (request_id : ℕ) (captured : Bool)
    → t.bridge ≡ s.bridge
    → Carries s [] (complete_snapshot_request request_id captured t)
unfolding complete_snapshot_request
complete-Carries s t request_id captured e = record {
  output = carried-captured captured _;
  bridge = e;
}

commit-bridge :
    (request_id : ℕ) (text : Text) (s : Surface)
    → (commit_snapshot request_id text s).bridge ≡ s.bridge
unfolding commit_snapshot
commit-bridge request_id text s = ground arith

take-Carries : (found : Option (ℕ × Text)) (s : Surface) → Carries s [] (take_snapshot found s)
unfolding take_snapshot bridge_calls offered
take-Carries none s = record { output = refl; bridge = refl }
take-Carries (some (request_id, text)) s =
    complete-Carries s _ request_id true (commit-bridge request_id text s)

pub message-Carries :
    (source : ℕ) (msg : BridgeMessage) (s : Surface)
    → Carries s [] (handle_bridge_message source msg s)
unfolding handle_bridge_message bridge_calls bridge_call offered
message-Carries source msg s = branch s [] _ _ _ (plain (on_bell_attention ∷ []) refl) (
    branch s [] _ _ _ (plain (on_attention_acknowledged ∷ []) refl) (
      branch s [] _ _ _
        (plain (if length msg.payload == 0 then [] else write_clipboard msg.payload ∷ [])
          (copied (length msg.payload == 0)))
        (branch s [] _ _ _ (plain (write_clipboard msg.payload ∷ []) refl) (
          branch s [] _ _ _ (plain (on_open_url msg.payload ∷ []) refl) (
            branch s [] _ _ _
              (take-Carries (if is_bridge s source then snapshot_of msg.payload else none) s)
              (plain (on_message msg ∷ []) refl))))))
  where
    plain : (events : List Event) → carried events ≡ [] → Carries s [] (events, s)
    plain events e = record { output = e; bridge = refl }

    copied : (c : Bool) → carried (if c then [] else write_clipboard msg.payload ∷ []) ≡ []
    copied true = refl
    copied false = refl
