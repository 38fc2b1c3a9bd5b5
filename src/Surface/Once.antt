-- ===== src/Surface/Once.antt =====
-- Every handler of a snapshot is called once, whatever the order of what happens to the controller
-- (entry/src/main/ets/model/terminal/TerminalSurfaceController.ets).
use harmotty.Prelude.{
  ℕ, ◌+◌, ◌≡◌, refl, sym, ◌∙◌, ap, inl, inr, Bool, false, ◌&&◌, Option, none, some, List, [], ◌∷◌,
  ◌++◌, arith, if◌then◌else◌, Bool-cases,
}
use harmotty.Terminal.OutputBuffer.{Bytes, TerminalOutputBuffer}
use harmotty.Surface.State.{Event, Surface, new, is_attached, is_bridge, on_backpressure}
use harmotty.Surface.Controller.{
  detach, attach, write_bytes, release_flow_control, clipboard_written, Operation, attaching,
  detaching, releasing, becoming_ready, writing, backpressure, capturing, timing_out, receiving,
  clipboard, perform, run,
}
use harmotty.Surface.Completions.{calls, waiting, asked, calls-append, calls-notify}
use harmotty.Surface.Calls.{attach-calls, detach-calls, write_bytes-calls, react-number}
use harmotty.Surface.Handlers.{
  IsWaiting, Conserves, quiet, complete-Conserves, capture-Conserves, branch, message-Conserves,
}

module _ (h : ℕ) where
  emptied :
      (s : Surface) (result : List Event × Surface)
      → calls h result.0 ≡ waiting h s.snapshot_completions
      → result.1.snapshot_completions ≡ []
      → Conserves h s result 0
  unfolding waiting
  emptied s result c e = record { total = rw e (omega (arith, c)); ordered = rw e tt }

  quiet_clipboard :
      (source : Option ℕ) (success : Bool) (s : Surface)
      → calls h (clipboard_written source success s) ≡ 0
  unfolding calls clipboard_written
  quiet_clipboard none success s = refl
  quiet_clipboard (some source) success s = elim (Bool-cases (success && is_bridge s source)) [
    | inl e ↦ rw e refl
    | inr e ↦ rw e refl
  ]

  write_bytes-number :
      (bytes : Bytes) (reaction : Option Bool) (s : Surface)
      → (write_bytes bytes reaction s).1.next_snapshot_request_id ≡ s.next_snapshot_request_id
  unfolding write_bytes
  write_bytes-number bytes reaction s = react-number (if is_attached s then reaction else none) _

  perform-Conserves :
      (s : Surface) (operation : Operation)
      → IsWaiting s
      → Conserves h s (perform s operation) (asked h (operation ∷ []))
  unfolding perform asked calls
  perform-Conserves s (attaching reaction) o =
      let (c, e) = attach-calls h reaction s in emptied s (attach reaction s) c e
  perform-Conserves s detaching o = let (c, e) = detach-calls h s in emptied s (detach s) c e
  perform-Conserves s releasing o =
      unfold release_flow_control in quiet h s _ _ o (calls-notify h _ _) refl refl
  perform-Conserves s becoming_ready o = elim (Bool-cases (is_attached s)) [
    | inl e ↦ rw e (quiet h s _ s o refl refl refl)
    | inr e ↦ rw e (quiet h s _ s o refl refl refl)
  ]
  perform-Conserves s (writing bytes reaction) o =
      let (c, e) = write_bytes-calls h bytes reaction s in
      quiet h s (write_bytes bytes reaction s).0 (write_bytes bytes reaction s).1 o c e
        (write_bytes-number bytes reaction s)
  perform-Conserves s (backpressure paused) o =
      branch h s 0 (is_attached s) (on_backpressure paused s) ([], s)
        (unfold on_backpressure in quiet h s _ _ o (calls-notify h _ _) refl refl)
        (quiet h s [] s o refl refl refl)
  perform-Conserves s (capturing handler) o = capture-Conserves h s handler o
  perform-Conserves s (timing_out request_id) o =
      complete-Conserves h s s request_id false o refl refl
  perform-Conserves s (receiving source msg) o = message-Conserves h s source msg o
  perform-Conserves s (clipboard source success) o =
      quiet h s _ s o (quiet_clipboard source success s) refl refl

  asked-next :
      (operation : Operation) (operations : List Operation)
      → asked h (operation ∷ operations) ≡ asked h (operation ∷ []) + asked h operations
  unfolding asked
  asked-next (capturing (some handler)) operations = omega arith
  asked-next (capturing none) operations = omega arith
  asked-next (attaching reaction) operations = omega arith
  asked-next detaching operations = omega arith
  asked-next releasing operations = omega arith
  asked-next becoming_ready operations = omega arith
  asked-next (writing bytes reaction) operations = omega arith
  asked-next (backpressure paused) operations = omega arith
  asked-next (timing_out request_id) operations = omega arith
  asked-next (receiving source msg) operations = omega arith
  asked-next (clipboard source success) operations = omega arith

  run_from :
      (s : Surface) (operations : List Operation)
      → IsWaiting s
      → Conserves h s (run s operations) (asked h operations)
  unfolding run calls asked
  run_from s [] o = record { total = omega arith; ordered = o }
  run_from s (operation ∷ operations) o =
      let first = perform-Conserves s operation o in
      let rest = run_from (perform s operation).1 operations first.ordered in
      record {
        total = rw (asked-next operation operations) (
            omega (
              arith,
              first.total,
              rest.total,
              calls-append h (perform s operation).0 (run (perform s operation).1 operations).0,
            ));
        ordered = rest.ordered;
      }

  -- Whatever happens to a new controller, a handler of snapshots has been called as often as it was
  -- given to `captureSnapshot`, less the requests that still wait for it.
  pub run-calls :
      (buffer : TerminalOutputBuffer) (operations : List Operation)
      → calls h (run (new buffer) operations).0
          + waiting h (run (new buffer) operations).1.snapshot_completions
        ≡ asked h operations
  unfolding waiting
  run-calls buffer operations = omega (arith, (run_from (new buffer) operations tt).total)

  run-drained :
      (s : Surface) (operations : List Operation)
      → (run s (operations ++ detaching ∷ [])).1.snapshot_completions ≡ []
  unfolding run perform
  run-drained s [] = (detach-calls h s).1
  run-drained s (operation ∷ operations) = run-drained (perform s operation).1 operations

  asked-detaching :
      (operations : List Operation) → asked h (operations ++ detaching ∷ []) ≡ asked h operations
  unfolding asked
  asked-detaching [] = refl
  asked-detaching (operation ∷ operations) =
      asked-next operation (operations ++ detaching ∷ [])
      ∙ ap (λ n. asked h (operation ∷ []) + n) (asked-detaching operations)
      ∙ sym (asked-next operation operations)

  -- When a controller is detached in the end, whatever happened before, every handler of snapshots
  -- has been called exactly as often as it was given to `captureSnapshot`.
  pub run-detached :
      (buffer : TerminalOutputBuffer) (operations : List Operation)
      → calls h (run (new buffer) (operations ++ detaching ∷ [])).0 ≡ asked h operations
  unfolding waiting
  run-detached buffer operations =
      let none_left = ap (λ xs. waiting h xs) (run-drained (new buffer) operations) in
      omega (
        arith,
        run-calls buffer (operations ++ detaching ∷ []),
        asked-detaching operations,
        none_left,
      )
