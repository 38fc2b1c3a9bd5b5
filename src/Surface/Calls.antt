-- ===== src/Surface/Calls.antt =====
-- How attaching, detaching and output call the handlers of snapshots
-- (entry/src/main/ets/model/terminal/TerminalSurfaceController.ets).
use harmotty.Prelude.{
  ℕ, ◌+◌, ◌≡◌, refl, ◌∙◌, Bool, true, false, not, ◌||◌, Option, none, some, List, [], ◌∷◌, ◌++◌,
  arith, Text, ◌==◌, if◌then◌else◌, length,
}
use harmotty.Terminal.OutputBuffer.{
  Bytes, append, mark_attached, is_output_paused, take_detached_chunks,
}
use harmotty.Surface.State.{
  Event, restore_snapshot, write, init, destroy, Surface, is_attached, notify_output_pause_change,
  on_backpressure, react,
}
use harmotty.Surface.Controller.{fail_completions, detach, write_chunks, attach, write_bytes}
use harmotty.Surface.Completions.{
  calls, waiting, calls-append, calls-fail_completions, calls-notify,
}

module _ (h : ℕ) where
  react-calls :
      (reaction : Option Bool) (s : Surface)
      → (calls h (react reaction s).0 ≡ 0)
        × ((react reaction s).1.snapshot_completions ≡ s.snapshot_completions)
  unfolding react calls on_backpressure
  react-calls none s = (refl, refl)
  react-calls (some paused) s = (calls-notify h _ _, refl)

  write_chunks-calls :
      (reaction : ℕ → Option Bool) (index : ℕ) (chunks : List Bytes) (s : Surface)
      → (calls h (write_chunks reaction index chunks s).0 ≡ 0)
        × ((write_chunks reaction index chunks s).1.snapshot_completions ≡ s.snapshot_completions)
  unfolding write_chunks calls
  write_chunks-calls reaction index [] s = (refl, refl)
  write_chunks-calls reaction index (chunk ∷ chunks) s =
      let (quiet, same) = react-calls (reaction index) s in
      let (quiet_more, same_more) =
        write_chunks-calls reaction (index + 1) chunks (react (reaction index) s).1 in
      (
        calls-append h (react (reaction index) s).0 _ ∙ omega (arith, quiet, quiet_more),
        same_more ∙ same,
      )

  calls-three : (a b c : List Event) → calls h (a ++ b ++ c) ≡ calls h a + calls h b + calls h c
  calls-three a b c = rw (calls-append h (a ++ b) c, calls-append h a b) refl

  quiet_destroy : (b : Bool) → calls h (if b then destroy ∷ [] else []) ≡ 0
  unfolding calls
  quiet_destroy true = refl
  quiet_destroy false = refl

  pub detach-calls :
      (s : Surface)
      → (calls h (detach s).0 ≡ waiting h s.snapshot_completions)
        × ((detach s).1.snapshot_completions ≡ [])
  unfolding detach
  detach-calls s =
      let first = fail_completions s.snapshot_completions in
      let middle = if is_attached s then destroy ∷ [] else [] in
      let previous = is_output_paused s.output_buffer in
      let last = notify_output_pause_change previous (detach s).1 in
      (
        calls-three first middle last
            ∙ omega (
              arith,
              calls-fail_completions h s.snapshot_completions,
              quiet_destroy (is_attached s),
              calls-notify h previous (detach s).1,
            ),
        refl,
      )

  quiet_restore :
      (b : Bool) (text : Text) → calls h (if b then [] else restore_snapshot text ∷ []) ≡ 0
  unfolding calls
  quiet_restore true text = refl
  quiet_restore false text = refl

  quiet_init : calls h (init ∷ []) ≡ 0
  unfolding calls
  quiet_init = refl

  calls-five :
      (a b c d e : List Event)
      → calls h (a ++ b ++ c ++ d ++ e) ≡ calls h a + calls h b + calls h c + calls h d + calls h e
  calls-five a b c d e =
      rw (calls-append h (a ++ b ++ c ++ d) e, calls-append h (a ++ b ++ c) d, calls-three a b c)
        refl

  pub attach-calls :
      (reaction : ℕ → Option Bool) (s : Surface)
      → (calls h (attach reaction s).0 ≡ waiting h s.snapshot_completions)
        × ((attach reaction s).1.snapshot_completions ≡ [])
  unfolding attach
  attach-calls reaction s =
      let d = (detach s).1 in
      let (dropped, none_left) = detach-calls s in
      let (chunks, taken) = take_detached_chunks d.output_buffer in
      let attached = record d {
        bridge = some d.attachments;
        attachments = d.attachments + 1;
        recovered_output = not (length d.output_buffer.snapshot == 0) || not (length chunks == 0);
        output_buffer = mark_attached taken;
      } in
      let (quiet, same) = write_chunks-calls reaction 0 chunks attached in
      (
        calls-five (detach s).0
              (if length d.output_buffer.snapshot == 0
                then []
                else restore_snapshot d.output_buffer.snapshot ∷ [])
              (write_chunks reaction 0 chunks attached).0
              (notify_output_pause_change (is_output_paused taken) (attach reaction s).1)
              (init ∷ [])
            ∙ omega (
              arith,
              dropped,
              quiet,
              quiet_init,
              quiet_restore (length d.output_buffer.snapshot == 0) d.output_buffer.snapshot,
              calls-notify h (is_output_paused taken) (attach reaction s).1,
            ),
        same ∙ none_left,
      )

  quiet_write : (b : Bool) (bytes : Bytes) → calls h (if b then write bytes ∷ [] else []) ≡ 0
  unfolding calls
  quiet_write true bytes = refl
  quiet_write false bytes = refl

  pub write_bytes-calls :
      (bytes : Bytes) (reaction : Option Bool) (s : Surface)
      → (calls h (write_bytes bytes reaction s).0 ≡ 0)
        × ((write_bytes bytes reaction s).1.snapshot_completions ≡ s.snapshot_completions)
  unfolding write_bytes
  write_bytes-calls bytes reaction s =
      let appended = record s { output_buffer = append s.output_buffer bytes } in
      let reacting = if is_attached s then reaction else none in
      let (quiet, same) = react-calls reacting appended in
      let previous = is_output_paused s.output_buffer in
      (
        calls-three (if is_attached s then write bytes ∷ [] else []) (react reacting appended).0
              (notify_output_pause_change previous (react reacting appended).1)
            ∙ omega (
              arith,
              quiet,
              quiet_write (is_attached s) bytes,
              calls-notify h previous (react reacting appended).1,
            ),
        same,
      )

pub react-number :
    (reaction : Option Bool) (s : Surface)
    → (react reaction s).1.next_snapshot_request_id ≡ s.next_snapshot_request_id
unfolding react on_backpressure
react-number none s = refl
react-number (some paused) s = refl
