-- ===== src/Transport/Sound.antt =====
-- What holds of the queue of a bridge, and what the page reads
-- (entry/src/main/ets/model/bridge/TerminalBridge.ets).
use harmotty.Prelude.{
  ℕ, suc, ◌+◌, ◌≤◌, ◌<◌, ◌≡◌, ◌∙◌, refl, sym, ap, false, Option, none, some, List, [], ◌∷◌, ◌++◌,
  append_assoc, append-nil, arith, length, ◌==◌, if◌then◌else◌,
}
use harmotty.Terminal.OutputBuffer.{Bytes, concat}
use harmotty.Transport.Packets.{packet_of, parse_terminal_packet, parse_terminal_packet-packet_of}
use harmotty.Transport.State.{
  high_water_bytes, max_pending_bytes, max_in_flight_messages, Event, packet, message,
  on_backpressure, on_ready, on_message, Flow, TerminalBridge, waiting, buffered,
}

abbrev payload : Option (ℕ × Bytes) → Bytes
payload none = []
payload (some (sequence, bytes)) = bytes

-- The output that the page reads from what was posted.
unfoldable pub read : List Event → Bytes
read [] = []
read (packet raw ∷ events) = payload (parse_terminal_packet raw) ++ read events
read (_ ∷ events) = read events

pub read-append : (xs ys : List Event) → read (xs ++ ys) ≡ read xs ++ read ys
unfolding read
read-append [] ys = refl
read-append (packet raw ∷ xs) ys =
    ap (λ r. payload (parse_terminal_packet raw) ++ r) (read-append xs ys)
    ∙ sym (append_assoc (payload (parse_terminal_packet raw)) (read xs) (read ys))
read-append (message c ∷ xs) ys = read-append xs ys
read-append (on_backpressure b ∷ xs) ys = read-append xs ys
read-append (on_ready ∷ xs) ys = read-append xs ys
read-append (on_message m ∷ xs) ys = read-append xs ys

-- The page reads of a packet what was put in, also when that is nothing.
pub read-packet :
    (log : List Event) (sequence : ℕ) (bytes : Bytes)
    → 0 < sequence
    → sequence < 4294967296
    → length bytes < 4294967296
    → read (log ++ packet (packet_of sequence bytes) ∷ []) ≡ read log ++ bytes
unfolding read
read-packet log sequence bytes p q r =
    read-append log (packet (packet_of sequence bytes) ∷ [])
    ∙ ap (λ t. read log ++ t)
        (append-nil (payload (parse_terminal_packet (packet_of sequence bytes)))
          ∙ ap payload (parse_terminal_packet-packet_of sequence bytes p q r)
          ∙ read_all bytes)
  where
    read_all :
        (bytes : Bytes)
        → payload (if length bytes == 0 then none else some (sequence, bytes)) ≡ bytes
    read_all [] = refl
    read_all (b ∷ bytes) =
        let full : (suc (length bytes) == 0) ≡ false = ground arith in rw full refl

-- The bytes that wait are counted and few, and so are the packets in flight and their bytes.
pub record IsCounted (q : Flow) : Type 0 where
  pub head_in : q.pending_data_head ≤ length q.pending_data
  pub bytes : q.pending_bytes ≡ length (concat (waiting q))
  pub room : q.pending_bytes ≤ max_pending_bytes
  pub messages : q.in_flight_messages ≡ length q.in_flight_sequences
  pub limit : q.in_flight_messages ≤ max_in_flight_messages
  pub flying : q.in_flight_bytes < high_water_bytes + max_pending_bytes

-- The next packet has a number of 32 bits that is not 0, and output is paused when much is buffered.
pub record IsSound (s : TerminalBridge) : Type 0 where
  pub counted : IsCounted s.flow
  pub numbered : 1 ≤ s.next_sequence
  pub below : s.next_sequence < 4294967296
  pub calm : s.backpressured ≡ false → buffered s.flow < high_water_bytes

-- What the page has read and what waits.
abbrev pub held : TerminalBridge → Bytes
held s = read s.log ++ concat (waiting s.flow)

pub record Follows (s : TerminalBridge) (extra : Bytes) (t : TerminalBridge) : Type 0 where
  pub sound : IsSound t
  pub kept : held t ≡ held s ++ extra

pub Follows-trans :
    {s t u : TerminalBridge} {extra : Bytes}
    → Follows s extra t
    → Follows t [] u
    → Follows s extra u
Follows-trans f g = record { sound = g.sound; kept = g.kept ∙ append-nil _ ∙ f.kept }

pub Follows-same :
    (s t : TerminalBridge)
    → IsSound s
    → t.flow ≡ s.flow
    → read t.log ≡ read s.log
    → t.next_sequence ≡ s.next_sequence
    → t.backpressured ≡ s.backpressured
    → Follows s [] t
Follows-same s t h flow log next paused = record {
  sound = record {
    counted = rw flow h.counted;
    numbered = rw next h.numbered;
    below = rw next h.below;
    calm = λ e. rw flow (h.calm (sym paused ∙ e));
  };
  kept = rw (flow, log) (sym (append-nil (held s)));
}
