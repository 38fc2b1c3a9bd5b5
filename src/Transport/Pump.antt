-- ===== src/Transport/Pump.antt =====
-- The loop that sends output, and `write` (entry/src/main/ets/model/bridge/TerminalBridge.ets).
use harmotty.Prelude.{
  ℕ, ◌+◌, ◌≤◌, ◌<◌, ◌≡◌, ◌∙◌, ◌⊎◌, refl, sym, inl, inr, Bool, true, false, not, List, [], ◌∷◌,
  append_assoc, append-nil, arith, length, ltb, ◌==◌, if◌then◌else◌, Bool-cases,
}
use harmotty.Terminal.OutputBuffer.{Bytes, concat}
use harmotty.Transport.Packets.{packet_of}
use harmotty.Transport.State.{
  max_pending_bytes, packet, TerminalBridge, emit, waiting, set_backpressured, update_backpressure,
  compact_pending_data, queue_data, take_off, is_open, after_sequence, post_terminal_packet,
  pump_loop, pump_pending_data, write,
}
use harmotty.Transport.Sound.{
  read, read-packet, IsSound, held, Follows, Follows-trans, Follows-same,
}
use harmotty.Transport.Counts.{take_off-IsCounted, queue_data-IsCounted, compact-IsCounted}
use harmotty.Transport.Pressure.{
  set_backpressured-same, update-same, update-IsSound, update-Follows,
}

after_sequence-bounds :
    (n : ℕ) → n < 4294967296 → (1 ≤ after_sequence n) × (after_sequence n < 4294967296)
after_sequence-bounds n h = (ground arith, ground arith)

-- Bytes that find no room pause output.
pub refused-Follows : (s : TerminalBridge) → IsSound s → Follows s [] (set_backpressured true s)
refused-Follows s h =
    let (flow, log, next, paused) = set_backpressured-same true s in
    record {
      sound = record {
        counted = rw flow h.counted;
        numbered = rw next h.numbered;
        below = rw next h.below;
        calm = λ f. absurd (let g = sym paused ∙ f in cc);
      };
      kept = rw (flow, log) (sym (append-nil (held s)));
    }

pub queued-Follows :
    (bytes : Bytes) (s : TerminalBridge)
    → IsSound s
    → s.flow.pending_bytes + length bytes ≤ max_pending_bytes
    → Follows s bytes (update_backpressure (record s { flow = queue_data bytes s.flow }))
queued-Follows bytes s h room =
    let (counted, all) = queue_data-IsCounted bytes s.flow room h.counted in
    let queued = record s { flow = queue_data bytes s.flow } in
    let (flow, log, next, calm) = update-same queued in
    record {
      sound = update-IsSound queued counted h.numbered h.below;
      kept = rw (flow, log, all) (sym (append_assoc (read s.log) (concat (waiting s.flow)) bytes));
    }

pub compacted :
    (s : TerminalBridge)
    → IsSound s
    → Follows s [] (record s { flow = compact_pending_data s.flow })
compacted s h =
    let (counted, same, total) = compact-IsCounted s.flow h.counted in
    record {
      sound = record {
        counted = counted;
        numbered = h.numbered;
        below = h.below;
        calm = λ e. rw total (h.calm e);
      };
      kept = rw same (sym (append-nil (held s)));
    }

abbrev tried : TerminalBridge → TerminalBridge
tried s = record s { next_sequence = after_sequence s.next_sequence; attempts = s.attempts + 1 }

abbrev pub sent : Bytes → TerminalBridge → TerminalBridge
sent bytes s = emit (packet (packet_of s.next_sequence bytes)) (tried s)

module _ (posts : ℕ → Bool) where
  post-cases :
      (bytes : Bytes) (s : TerminalBridge)
      → (post_terminal_packet posts bytes s ≡ (0, s))
        ⊎ (post_terminal_packet posts bytes s ≡ (0, tried s))
        ⊎ (post_terminal_packet posts bytes s ≡ (s.next_sequence, sent bytes s))
  unfolding post_terminal_packet
  post-cases bytes s = elim (Bool-cases (not s.has_port)) [
    | inl e ↦ inl (rw e refl)
    | inr e ↦ elim (Bool-cases (posts s.attempts)) [
      | inl f ↦ inr (inr (rw (e, f) refl))
      | inr f ↦ inr (inl (rw (e, f) refl))
    ]
  ]

  tried-Follows : (s : TerminalBridge) → IsSound s → Follows s [] (tried s)
  tried-Follows s h =
      let (numbered, below) = after_sequence-bounds s.next_sequence h.below in
      record {
        sound = record { counted = h.counted; numbered = numbered; below = below; calm = h.calm };
        kept = sym (append-nil (held s));
      }

  -- A chunk that is sent goes from what waits to what the page reads.
  pub sent-Follows :
      (s : TerminalBridge) (bytes : Bytes) (chunks : List Bytes)
      → IsSound s
      → waiting s.flow ≡ bytes ∷ chunks
      → is_open s.flow ≡ true
      → Follows s [] (record (sent bytes s) { flow = take_off bytes s.next_sequence s.flow })
        × (waiting (take_off bytes s.next_sequence s.flow) ≡ chunks)
  unfolding concat
  sent-Follows s bytes chunks h w free =
      let (counted, rest, same, small) =
        take_off-IsCounted s.flow bytes chunks s.next_sequence w free h.counted in
      let (numbered, below) = after_sequence-bounds s.next_sequence h.below in
      (
        record {
          sound = record {
            counted = counted;
            numbered = numbered;
            below = below;
            calm = λ e. omega (arith, same, h.calm e);
          };
          kept =
              rw (rest, read-packet s.log s.next_sequence bytes h.numbered h.below small, w)
                (append_assoc (read s.log) bytes (concat chunks) ∙ sym (append-nil _));
        },
        rest,
      )

  -- A packet that was not sent leaves its chunk in the queue.
  pump_loop-Follows :
      (chunks : List Bytes) (s : TerminalBridge)
      → IsSound s
      → waiting s.flow ≡ chunks
      → Follows s [] (pump_loop posts chunks s).1
  unfolding pump_loop
  pump_loop-Follows [] s h w = Follows-same s s h refl refl refl refl
  pump_loop-Follows (bytes ∷ chunks) s h w = elim (Bool-cases (is_open s.flow)) [
    | inr closed ↦ rw closed (Follows-same s s h refl refl refl refl)
    | inl free ↦ elim (post-cases bytes s) [
      | inl e ↦ rw (free, e) (Follows-same s s h refl refl refl refl)
      | inr (inl e) ↦ rw (free, e) (tried-Follows s h)
      | inr (inr e) ↦
          let numbered : (s.next_sequence == 0) ≡ false = let n = h.numbered in ground arith in
          let (first, rest) = sent-Follows s bytes chunks h w free in
          rw (free, e, numbered) (Follows-trans first (pump_loop-Follows chunks _ first.sound rest))
    ]
  ]

  pub pump-Follows : (s : TerminalBridge) → IsSound s → Follows s [] (pump_pending_data posts s)
  unfolding pump_pending_data
  pump-Follows s h = elim (Bool-cases (not s.ready)) [
    | inl e ↦ rw e (Follows-same s s h refl refl refl refl)
    | inr e ↦
        let result = pump_loop posts (waiting s.flow) s in
        let looped = pump_loop-Follows (waiting s.flow) s h refl in
        elim (Bool-cases result.0) [
          | inr f ↦ rw (e, f) looped
          | inl f ↦
              rw (e, f)
                (Follows-trans looped (
                  Follows-trans (compacted result.1 looped.sound)
                    (update-Follows _ (compacted result.1 looped.sound).sound)))
        ]
  ]

  -- Bytes that are taken wait behind the others.
  pub write-Follows :
      (bytes : Bytes) (s : TerminalBridge)
      → IsSound s
      → Follows s
          (if ltb max_pending_bytes (s.flow.pending_bytes + length bytes) then [] else bytes)
          (write posts bytes s)
  unfolding write
  write-Follows bytes s h =
      elim (Bool-cases (ltb max_pending_bytes (s.flow.pending_bytes + length bytes))) [
        | inl e ↦ rw e (refused-Follows s h)
        | inr e ↦
            let updated = queued-Follows bytes s h (ground arith) in
            rw e (Follows-trans updated (pump-Follows _ updated.sound))
      ]
