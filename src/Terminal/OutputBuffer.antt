-- ===== src/Terminal/OutputBuffer.antt =====
-- `TerminalOutputBuffer` (entry/src/main/ets/model/terminal/TerminalOutputBuffer.ets): the output
-- that a pane receives while no surface shows it, and the two reasons to pause the remote side.
use harmotty.Prelude.{
  ℕ, ◌+◌, ◌*◌, ◌≡◌, refl, sym, Bool, true, false, ◌||◌, List, [], ◌∷◌, ◌++◌, append_assoc,
  append-nil, arith, Text, leb, if◌then◌else◌, length, length-append, Bool-cases, inl, inr, ◌==◌,
}

abbrev pub Bytes : Type 0
Bytes = List ℕ

pub record TerminalOutputBuffer : Type 0 where
  pub detached_chunks : List Bytes
  pub detached_bytes : ℕ
  pub bridge_backpressured : Bool
  pub detached_backpressured : Bool
  pub attached : Bool
  pub snapshot : Text
  pub hidden_high_water_bytes : ℕ

abbrev pub new : ℕ → TerminalOutputBuffer
new hidden_high_water_bytes = record {
  detached_chunks = [];
  detached_bytes = 0;
  bridge_backpressured = false;
  detached_backpressured = false;
  attached = false;
  snapshot = [];
  hidden_high_water_bytes = hidden_high_water_bytes;
}

abbrev pub default_high_water_bytes : ℕ
default_high_water_bytes = 768 * 1024

unfoldable pub push : TerminalOutputBuffer → Bytes → TerminalOutputBuffer
push b chunk =
    let total = b.detached_bytes + length chunk in
    record b {
      detached_chunks = b.detached_chunks ++ chunk ∷ [];
      detached_bytes = total;
      detached_backpressured =
          if leb b.hidden_high_water_bytes total then true else b.detached_backpressured;
    }

unfoldable pub append : TerminalOutputBuffer → Bytes → TerminalOutputBuffer
append b chunk = if b.attached || (length chunk == 0) then b else push b chunk

unfoldable pub mark_attached : TerminalOutputBuffer → TerminalOutputBuffer
mark_attached b = record b { attached = true; detached_bytes = 0; detached_backpressured = false }

unfoldable pub mark_detached : TerminalOutputBuffer → TerminalOutputBuffer
mark_detached b =
    if b.attached
    then record b {
      attached = false;
      detached_chunks = [];
      detached_bytes = 0;
      detached_backpressured = false;
      bridge_backpressured = false;
    }
    else b

unfoldable pub set_bridge_backpressured : TerminalOutputBuffer → Bool → TerminalOutputBuffer
set_bridge_backpressured b paused = record b { bridge_backpressured = paused }

unfoldable pub is_output_paused : TerminalOutputBuffer → Bool
is_output_paused b = b.bridge_backpressured || b.detached_backpressured

unfoldable pub take_detached_chunks : TerminalOutputBuffer → List Bytes × TerminalOutputBuffer
take_detached_chunks b = (b.detached_chunks, record b { detached_chunks = []; detached_bytes = 0 })

unfoldable pub replace_snapshot : TerminalOutputBuffer → Text → TerminalOutputBuffer
replace_snapshot b snapshot = record b { snapshot = snapshot }

unfoldable pub release_disconnected_flow_control : TerminalOutputBuffer → TerminalOutputBuffer
release_disconnected_flow_control b = record b {
  bridge_backpressured = false;
  detached_backpressured = false;
}

-- The public methods that change the state.
pub data BufferOperation : Type 0 where
  receive : Bytes → BufferOperation
  attach detach take_chunks release : BufferOperation
  set_bridge : Bool → BufferOperation
  keep_snapshot : Text → BufferOperation

-- The bytes that the operation hands out, and the buffer after it.
unfoldable pub perform : TerminalOutputBuffer → BufferOperation → List Bytes × TerminalOutputBuffer
perform b (receive chunk) = ([], append b chunk)
perform b attach = ([], mark_attached b)
perform b detach = ([], mark_detached b)
perform b take_chunks = take_detached_chunks b
perform b release = ([], release_disconnected_flow_control b)
perform b (set_bridge paused) = ([], set_bridge_backpressured b paused)
perform b (keep_snapshot text) = ([], replace_snapshot b text)

unfoldable pub run : TerminalOutputBuffer → List BufferOperation → List Bytes × TerminalOutputBuffer
run b [] = ([], b)
run b (o ∷ os) =
    let (taken, next) = perform b o in let (more, last) = run next os in (taken ++ more, last)

unfoldable pub concat : List Bytes → Bytes
concat [] = []
concat (c ∷ cs) = c ++ concat cs

-- What is counted is what is held, unless a surface shows the output; then nothing is counted and
-- the buffer does not pause.
pub record IsCounted (b : TerminalOutputBuffer) : Type 0 where
  pub counted : b.attached ≡ false → b.detached_bytes ≡ length (concat b.detached_chunks)
  pub shown : b.attached ≡ true → (b.detached_bytes ≡ 0) × (b.detached_backpressured ≡ false)

pub concat-append : (xs ys : List Bytes) → concat (xs ++ ys) ≡ concat xs ++ concat ys
unfolding concat
concat-append [] ys = refl
concat-append (x ∷ xs) ys = rw (concat-append xs ys) (sym (append_assoc x _ _))

push_total :
    (cs : List Bytes) (chunk : Bytes)
    → length (concat (cs ++ chunk ∷ [])) ≡ length (concat cs) + length chunk
unfolding concat
push_total cs chunk =
    rw (concat-append cs (chunk ∷ []), append-nil chunk) (length-append {0} (concat cs) chunk)

append-IsCounted :
    (b : TerminalOutputBuffer) (chunk : Bytes) → IsCounted b → IsCounted (append b chunk)
unfolding append push
append-IsCounted b chunk v = elim (Bool-cases (b.attached || (length chunk == 0))) [
  | inl e ↦ rw e v
  | inr e ↦ rw e (record {
    counted = λ detached. omega (arith, push_total b.detached_chunks chunk, v.counted detached);
    shown = λ att. absurd (ground arith);
  })
]

pub perform-IsCounted :
    (b : TerminalOutputBuffer) (o : BufferOperation) → IsCounted b → IsCounted (perform b o).1
unfolding perform mark_attached mark_detached take_detached_chunks release_disconnected_flow_control
    set_bridge_backpressured replace_snapshot concat
perform-IsCounted b (receive chunk) v = append-IsCounted b chunk v
perform-IsCounted b attach v = record { counted = λ e. absurd (cc); shown = λ _. (refl, refl) }
perform-IsCounted b detach v = elim (Bool-cases b.attached) [
  | inl e ↦ rw e (record { counted = λ _. refl; shown = λ f. absurd (cc) })
  | inr e ↦ simp e v
]
perform-IsCounted b take_chunks v = record {
  counted = λ _. refl;
  shown = λ e. (refl, (v.shown e).1);
}
perform-IsCounted b release v = record { counted = v.counted; shown = λ e. ((v.shown e).0, refl) }
perform-IsCounted b (set_bridge paused) v = record { counted = v.counted; shown = v.shown }
perform-IsCounted b (keep_snapshot text) v = record { counted = v.counted; shown = v.shown }

-- After any sequence of operations the buffer counts what it holds, and does not pause while shown.
pub run-IsCounted :
    (os : List BufferOperation) (b : TerminalOutputBuffer) → IsCounted b → IsCounted (run b os).1
unfolding run
run-IsCounted [] b v = v
run-IsCounted (o ∷ os) b v = run-IsCounted os (perform b o).1 (perform-IsCounted b o v)

abbrev pub is_attach : BufferOperation → Bool
is_attach attach = true
is_attach _ = false

abbrev pub is_release : BufferOperation → Bool
is_release release = true
is_release _ = false

-- What the operations receive.
unfoldable pub received : List BufferOperation → Bytes
received [] = []
received (receive chunk ∷ os) = chunk ++ received os
received (o ∷ os) = received os
