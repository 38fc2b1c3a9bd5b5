-- ===== src/Transport/Flights.antt =====
-- What is in flight and the answers that are due (entry/src/main/ets/model/bridge/TerminalBridge.ets).
use harmotty.Prelude.{
  ℕ, ◌+◌, ◌≤◌, ◌<◌, ◌≡◌, ◌∙◌, ◌⊎◌, refl, sym, ap, inl, inr, Bool, true, false, not, List, [], ◌∷◌,
  ◌++◌, arith, drop, drop-snoc, length, length-append, All, ◌==◌, if◌then◌else◌, Bool-cases,
}
use mathlib.Core.Path.{subst}
use harmotty.Terminal.OutputBuffer.{Bytes}
use harmotty.Transport.State.{
  Flow, TerminalBridge, waiting, update_backpressure, compact_pending_data, take_off, is_open,
  post_terminal_packet, pump_loop, pump_pending_data,
}
use harmotty.Transport.Sound.{IsSound}
use harmotty.Transport.Counts.{take_off-IsCounted, compact-IsCounted, compact-in_flight}
use harmotty.Transport.Pressure.{update-Follows}
use harmotty.Transport.Pump.{sent, sent-Follows, compacted}
use harmotty.Transport.Answers.{
  numbers, numbers-snoc, total, total-snoc, answers, answers-packet, IsAlike, update-IsAlike,
}

abbrev pub IsFull : Bytes → Type 0
IsFull bytes = 0 < length bytes

-- What is in flight is what the page has not answered after its first `k` answers; no chunk that
-- waits is empty.
pub record IsAnswered (k : ℕ) (s : TerminalBridge) : Type 0 where
  pub sound : IsSound s
  pub ready : s.ready ≡ true
  pub port : s.has_port ≡ true
  pub full : All IsFull (waiting s.flow)
  pub inside : k ≤ length (answers s.log)
  pub due : numbers (drop k (answers s.log)) ≡ s.flow.in_flight_sequences
  pub size : total (drop k (answers s.log)) ≡ s.flow.in_flight_bytes

-- Nothing waits, or there is no room in flight.
abbrev pub IsPumped : Flow → Type 0
IsPumped q = (waiting q ≡ []) ⊎ (is_open q ≡ false)

-- The packets that are not yet answered, sent or not.
abbrev pub load : Flow → ℕ
load q = length (waiting q) + q.in_flight_messages

sent-IsAnswered :
    (posts : ℕ → Bool) (k : ℕ) (s : TerminalBridge) (bytes : Bytes) (chunks : List Bytes)
    → IsAnswered k s
    → waiting s.flow ≡ bytes ∷ chunks
    → is_open s.flow ≡ true
    → IsAnswered k (record (sent bytes s) { flow = take_off bytes s.next_sequence s.flow })
sent-IsAnswered posts k s bytes chunks h w free =
    let (follows, rest) = sent-Follows posts s bytes chunks h.sound w free in
    let (counted, r, b, small) =
      take_off-IsCounted s.flow bytes chunks s.next_sequence w free h.sound.counted in
    let full : All IsFull (bytes ∷ chunks) = subst (λ l. All IsFull l) w h.full in
    let grown =
      answers-packet s.log s.next_sequence bytes h.sound.numbered h.sound.below full.0 small in
    let more =
      ap (λ l. drop k l) grown
      ∙ drop-snoc k (answers s.log) (s.next_sequence, length bytes) h.inside in
    record {
      sound = follows.sound;
      ready = h.ready;
      port = h.port;
      full = subst (λ l. All IsFull l) (sym rest) full.1;
      inside = rw grown (
          omega (
            arith,
            h.inside,
            length-append (answers s.log) ((s.next_sequence, length bytes) ∷ []),
          ));
      due = rw more (
          numbers-snoc (drop k (answers s.log)) s.next_sequence (length bytes)
          ∙ ap (λ l. l ++ s.next_sequence ∷ []) h.due);
      size = rw more (
          total-snoc (drop k (answers s.log)) s.next_sequence (length bytes)
          ∙ ap (λ n. n + length bytes) h.size);
    }

-- A state that is like one before is answered alike, if it is sound.
pub alike :
    {k : ℕ} {s t : TerminalBridge} → IsAnswered k s → IsSound t → IsAlike s t → IsAnswered k t
alike {k} h sound a = record {
  sound = sound;
  ready = a.ready ∙ h.ready;
  port = a.port ∙ h.port;
  full = rw a.flow h.full;
  inside = rw a.answered h.inside;
  due = rw (a.answered, a.flow) h.due;
  size = rw (a.answered, a.flow) h.size;
}

-- `load` is kept, and nothing more can be sent.
pub record IsSettled (k : ℕ) (s t : TerminalBridge) : Type 0 where
  pub answered : IsAnswered k t
  pub pumped : IsPumped t.flow
  pub loaded : load t.flow ≡ load s.flow

IsSettled-trans :
    {k : ℕ} {s t u : TerminalBridge} → IsSettled k s t → IsSettled k t u → IsSettled k s u
IsSettled-trans f g = record {
  answered = g.answered;
  pumped = g.pumped;
  loaded = g.loaded ∙ f.loaded;
}

pub IsSettled-alike :
    {k : ℕ} {s t u : TerminalBridge} → IsSettled k s t → IsSound u → IsAlike t u → IsSettled k s u
IsSettled-alike f sound a = record {
  answered = alike f.answered sound a;
  pumped = rw a.flow f.pumped;
  loaded = rw a.flow f.loaded;
}

compacted-IsSettled :
    (k : ℕ) (s : TerminalBridge)
    → IsAnswered k s
    → IsPumped s.flow
    → IsSettled k s (record s { flow = compact_pending_data s.flow })
compacted-IsSettled k s h pumped =
    let (counted, same, buffered) = compact-IsCounted s.flow h.sound.counted in
    let (bytes, messages, sequences) = compact-in_flight s.flow in
    record {
      answered = record {
        sound = (compacted s h.sound).sound;
        ready = h.ready;
        port = h.port;
        full = rw same h.full;
        inside = h.inside;
        due = rw sequences h.due;
        size = rw bytes h.size;
      };
      pumped = rw (same, bytes, messages) pumped;
      loaded = rw (same, messages) refl;
    }

-- The branch that is taken.
if_true :
    (P : TerminalBridge → Type 0) (c : Bool) (x y : TerminalBridge)
    → c ≡ true
    → P x
    → P (if c then x else y)
if_true P true x y e p = p
if_true P false x y e p = absurd (cc)

if_false :
    (P : TerminalBridge → Type 0) (c : Bool) (x y : TerminalBridge)
    → c ≡ false
    → P y
    → P (if c then x else y)
if_false P true x y e p = absurd (cc)
if_false P false x y e p = p

module _ (posts : ℕ → Bool) (all_post : (n : ℕ) → posts n ≡ true) where
  post-sent :
      (bytes : Bytes) (s : TerminalBridge)
      → s.has_port ≡ true
      → post_terminal_packet posts bytes s ≡ (s.next_sequence, sent bytes s)
  unfolding post_terminal_packet
  post-sent bytes s port = rw (port, all_post s.attempts) refl

  loop-IsSettled :
      (k : ℕ) (chunks : List Bytes) (s : TerminalBridge)
      → IsAnswered k s
      → waiting s.flow ≡ chunks
      → ((pump_loop posts chunks s).0 ≡ true) × IsSettled k s (pump_loop posts chunks s).1
  unfolding pump_loop
  loop-IsSettled k [] s h w = (refl, record { answered = h; pumped = inl w; loaded = refl })
  loop-IsSettled k (bytes ∷ chunks) s h w = elim (Bool-cases (is_open s.flow)) [
    | inr closed ↦ rw closed (refl, record { answered = h; pumped = inr closed; loaded = refl })
    | inl free ↦
        let numbered : (s.next_sequence == 0) ≡ false = let n = h.sound.numbered in ground arith in
        let (follows, rest) = sent-Follows posts s bytes chunks h.sound w free in
        let (finished, settled) =
          loop-IsSettled k chunks _ (sent-IsAnswered posts k s bytes chunks h w free) rest in
        rw (free, post-sent bytes s h.port, numbered)
          (
            finished,
            record {
              answered = settled.answered;
              pumped = settled.pumped;
              loaded =
                  settled.loaded ∙ omega (arith, ap (λ l. length l) rest, ap (λ l. length l) w);
            },
          )
  ]

  pub pump-IsSettled :
      (k : ℕ) (s : TerminalBridge) → IsAnswered k s → IsSettled k s (pump_pending_data posts s)
  unfolding pump_pending_data
  pump-IsSettled k s h =
      let (finished, looped) = loop-IsSettled k (waiting s.flow) s h refl in
      let next = (pump_loop posts (waiting s.flow) s).1 in
      let stored = compacted-IsSettled k next looped.answered looped.pumped in
      let compact = record next { flow = compact_pending_data next.flow } in
      let all = IsSettled-trans looped (
        IsSettled-alike stored (update-Follows compact stored.answered.sound).sound
          (update-IsAlike compact)) in
      if_false (IsSettled k s) (not s.ready) s _ (ap not h.ready)
        (if_true (IsSettled k s) _ (update_backpressure compact) next finished all)
