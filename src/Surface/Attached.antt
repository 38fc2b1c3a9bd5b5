-- ===== src/Surface/Attached.antt =====
-- What attaching a page carries (entry/src/main/ets/model/terminal/TerminalSurfaceController.ets).
use harmotty.Prelude.{
  ℕ, ◌+◌, ◌≡◌, refl, ◌∙◌, ap, Bool, true, false, not, ◌||◌, Option, none, some, List, [], ◌∷◌, ◌++◌,
  append-nil, Text, length, ◌==◌, if◌then◌else◌,
}
use harmotty.Terminal.OutputBuffer.{
  TerminalOutputBuffer, concat, mark_attached, mark_detached, is_output_paused,
  take_detached_chunks,
}
use harmotty.Surface.State.{
  SnapshotCompletion, Event, restore_snapshot, init, destroy, Surface, is_attached,
  notify_output_pause_change,
}
use harmotty.Surface.Controller.{fail_completions, detach, write_chunks, attach}
use harmotty.Transport.Runs.{offered}
use harmotty.Surface.Carried.{
  bridge_call, bridge_calls, carried, carried-append, carried-three, carried-notify, chunks-Carries,
}

carried-fail_completions :
    (completions : List SnapshotCompletion) → carried (fail_completions completions) ≡ []
unfolding fail_completions bridge_calls bridge_call offered
carried-fail_completions [] = refl
carried-fail_completions (completion ∷ completions) = carried-fail_completions completions

carried-detach : (s : Surface) → carried (detach s).0 ≡ []
unfolding detach
carried-detach s =
    carried-three (fail_completions s.snapshot_completions)
      (if is_attached s then destroy ∷ [] else [])
      (notify_output_pause_change (is_output_paused s.output_buffer) (detach s).1)
    ∙ rw
        (
          carried-fail_completions s.snapshot_completions,
          destroyed (is_attached s),
          carried-notify (is_output_paused s.output_buffer) (detach s).1,
        )
        refl
  where
    destroyed : (c : Bool) → carried (if c then destroy ∷ [] else []) ≡ []
    destroyed true = unfold bridge_calls bridge_call offered in refl
    destroyed false = unfold bridge_calls bridge_call offered in refl

quiet_restore :
    (c : Bool) (text : Text) → carried (if c then [] else restore_snapshot text ∷ []) ≡ []
unfolding bridge_calls bridge_call offered
quiet_restore true text = refl
quiet_restore false text = refl

quiet_init : carried (init ∷ []) ≡ []
unfolding bridge_calls bridge_call offered
quiet_init = refl

carried-third :
    (a b c d e : List Event)
    → carried a ≡ []
    → carried b ≡ []
    → carried d ≡ []
    → carried e ≡ []
    → carried (a ++ b ++ c ++ d ++ e) ≡ carried c
carried-third a b c d e p q r t =
    rw
      (
        carried-append (a ++ b ++ c ++ d) e,
        carried-append (a ++ b ++ c) d,
        carried-three a b c,
        p,
        q,
        r,
        t,
      )
      (append-nil _ ∙ append-nil (carried c))

held_back :
    (b : TerminalOutputBuffer)
    → b.attached ≡ false
    → (take_detached_chunks (mark_detached b)).0 ≡ b.detached_chunks
unfolding take_detached_chunks mark_detached
held_back b hidden = rw hidden refl

pub carried-attach :
    (reaction : ℕ → Option Bool) (s : Surface)
    → s.output_buffer.attached ≡ false
    → (carried (attach reaction s).0 ≡ concat s.output_buffer.detached_chunks)
      × (is_attached (attach reaction s).1 ≡ true)
unfolding attach detach
carried-attach reaction s hidden =
    let d = (detach s).1 in
    let (chunks, taken) = take_detached_chunks d.output_buffer in
    let attached = record d {
      bridge = some d.attachments;
      attachments = d.attachments + 1;
      recovered_output = not (length d.output_buffer.snapshot == 0) || not (length chunks == 0);
      output_buffer = mark_attached taken;
    } in
    let written = chunks-Carries reaction 0 chunks attached in
    let restored =
      if length d.output_buffer.snapshot == 0
      then []
      else restore_snapshot d.output_buffer.snapshot ∷ [] in
    let paused = notify_output_pause_change (is_output_paused taken) (attach reaction s).1 in
    (
      carried-third (detach s).0 restored (write_chunks reaction 0 chunks attached).0 paused
            (init ∷ []) (carried-detach s)
            (quiet_restore (length d.output_buffer.snapshot == 0) d.output_buffer.snapshot)
            (carried-notify (is_output_paused taken) (attach reaction s).1) quiet_init
          ∙ written.output
          ∙ ap concat (held_back s.output_buffer hidden),
      ap (λ b. elim b [ none ↦ false | some n ↦ true ]) written.bridge,
    )
