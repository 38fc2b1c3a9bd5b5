-- ===== src/Terminal/Delivery.antt =====
-- What `TerminalOutputBuffer` delivers of the output of a hidden pane, and when it pauses the remote.
use harmotty.Prelude.{
  ◌≤◌, ◌≡◌, refl, ap, sym, ◌∙◌, true, false, ◌||◌, List, [], ◌∷◌, ◌++◌, append_assoc, append-nil,
  arith, length, Bool-cases, inl, inr, All, ◌==◌,
}
use harmotty.Terminal.OutputBuffer.{
  Bytes, TerminalOutputBuffer, push, append, mark_detached, set_bridge_backpressured,
  take_detached_chunks, replace_snapshot, release_disconnected_flow_control, BufferOperation,
  receive, attach, detach, take_chunks, release, set_bridge, keep_snapshot, perform, run, concat,
  concat-append, is_attach, received,
}

abbrev IsHidden : BufferOperation → Type 0
IsHidden o = is_attach o ≡ false

unfoldable got : BufferOperation → Bytes
got (receive chunk) = chunk
got _ = []

received_cons :
    (o : BufferOperation) (os : List BufferOperation) → received (o ∷ os) ≡ got o ++ received os
unfolding received got
received_cons (receive chunk) os = refl
received_cons attach os = refl
received_cons detach os = refl
received_cons take_chunks os = refl
received_cons release os = refl
received_cons (set_bridge paused) os = refl
received_cons (keep_snapshot text) os = refl

nil_of_size : (chunk : Bytes) → (length chunk == 0) ≡ true → chunk ≡ []
nil_of_size [] e = refl
nil_of_size (c ∷ chunk) e = absurd (ground arith)

append-keeps :
    (b : TerminalOutputBuffer) (chunk : Bytes)
    → b.attached ≡ false
    → ((append b chunk).attached ≡ false)
      × (concat (append b chunk).detached_chunks ≡ concat b.detached_chunks ++ chunk)
unfolding append push concat
append-keeps b chunk hidden = elim (Bool-cases (b.attached || (length chunk == 0))) [
  | inl e ↦ simp e (
    hidden,
    sym (ap (λ c. concat b.detached_chunks ++ c) (nil_of_size chunk (ground arith)) ∙ append-nil _),
  )
  | inr e ↦ simp e (
    hidden,
    concat-append b.detached_chunks (chunk ∷ [])
        ∙ ap (λ c. concat b.detached_chunks ++ c) (append-nil chunk),
  )
]

detach-keeps : (b : TerminalOutputBuffer) → b.attached ≡ false → mark_detached b ≡ b
unfolding mark_detached
detach-keeps b hidden = ground arith

perform-delivers :
    (b : TerminalOutputBuffer) (o : BufferOperation)
    → IsHidden o
    → b.attached ≡ false
    → ((perform b o).1.attached ≡ false)
      × (concat (perform b o).0 ++ concat (perform b o).1.detached_chunks
          ≡ concat b.detached_chunks ++ got o)
unfolding perform got concat take_detached_chunks release_disconnected_flow_control
    set_bridge_backpressured replace_snapshot
perform-delivers b (receive chunk) h hidden = append-keeps b chunk hidden
perform-delivers b attach h hidden = absurd (cc)
perform-delivers b detach h hidden = rw (detach-keeps b hidden) (hidden, sym (append-nil _))
perform-delivers b take_chunks h hidden = (hidden, refl)
perform-delivers b release h hidden = (hidden, sym (append-nil _))
perform-delivers b (set_bridge paused) h hidden = (hidden, sym (append-nil _))
perform-delivers b (keep_snapshot text) h hidden = (hidden, sym (append-nil _))

-- While no surface is attached, what was held and what is received is what the takes hand out, in
-- order, and then what is still held: no byte is lost, repeated or moved.
pub run-delivers :
    (os : List BufferOperation) (b : TerminalOutputBuffer)
    → All (λ o. is_attach o ≡ false) os
    → b.attached ≡ false
    → concat (run b os).0 ++ concat (run b os).1.detached_chunks
      ≡ concat b.detached_chunks ++ received os
unfolding run concat received
run-delivers [] b h hidden = sym (append-nil _)
run-delivers (o ∷ os) b h hidden =
    let (still, kept) = perform-delivers b o h.0 hidden in
    let next = (perform b o).1 in
    let ih = run-delivers os next h.1 still in
    rw (concat-append (perform b o).0 (run next os).0, received_cons o os)
      (append_assoc (concat (perform b o).0) _ _
        ∙ ap (λ x. concat (perform b o).0 ++ x) ih
        ∙ sym (append_assoc (concat (perform b o).0) _ _)
        ∙ ap (λ x. x ++ received os) kept
        ∙ append_assoc (concat b.detached_chunks) _ _)

-- Held output at the high-water mark pauses the remote.
abbrev pub IsPausing : TerminalOutputBuffer → Type 0
IsPausing b =
    (1 ≤ b.hidden_high_water_bytes)
    × (b.hidden_high_water_bytes ≤ b.detached_bytes → b.detached_backpressured ≡ true)
