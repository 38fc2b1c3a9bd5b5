-- ===== src/Transport/Counts.antt =====
-- The counts of the queue, for a chunk that comes in, one that is sent, and compaction
-- (entry/src/main/ets/model/bridge/TerminalBridge.ets).
use harmotty.Prelude.{
  ℕ, zero, suc, ◌+◌, ◌≤◌, ◌<◌, ◌≡◌, ◌∙◌, refl, sym, ap, inl, inr, true, ◌&&◌, List, [], ◌∷◌, ◌++◌,
  append-nil, arith, drop, drop-snoc, drop-get_elem?, length, length-append, leb, ◌==◌, Bool-cases,
  ◌*◌,
}
use harmotty.Terminal.OutputBuffer.{Bytes, concat, concat-append}
use harmotty.Transport.State.{
  high_water_bytes, max_pending_bytes, max_in_flight_messages, Flow, waiting, buffered,
  compact_pending_data, queue_data, take_off, is_open,
}
use harmotty.Transport.Sound.{IsCounted}

drop-next :
    (n : ℕ) (xs : List Bytes) (x : Bytes) (rest : List Bytes)
    → drop n xs ≡ x ∷ rest
    → (drop (n + 1) xs ≡ rest) × (n + 1 ≤ length xs)
drop-next n xs x rest e =
    let next : n + 1 ≡ suc n = omega arith in
    let (element, after, inside) = drop-get_elem? n xs x rest e in
    (rw next after, omega (arith, inside))

pub take_off-IsCounted :
    (q : Flow) (bytes : Bytes) (chunks : List Bytes) (sequence : ℕ)
    → waiting q ≡ bytes ∷ chunks
    → is_open q ≡ true
    → IsCounted q
    → IsCounted (take_off bytes sequence q)
      × (waiting (take_off bytes sequence q) ≡ chunks)
      × (buffered (take_off bytes sequence q) ≡ buffered q)
      × (length bytes < 4294967296)
unfolding concat
take_off-IsCounted q bytes chunks sequence w o h =
    let (rest, inside) = drop-next q.pending_data_head q.pending_data bytes chunks w in
    let counted : q.pending_bytes ≡ length bytes + length (concat chunks) =
      h.bytes ∙ ap (λ l. length (concat l)) w ∙ length-append bytes (concat chunks) in
    let few : q.in_flight_bytes < high_water_bytes = ground arith in
    let free : q.in_flight_messages < max_in_flight_messages = ground arith in
    (
      record {
        head_in = inside;
        bytes = rw rest (omega (arith, counted));
        room = omega (arith, h.room);
        messages = omega (arith, h.messages, length-append q.in_flight_sequences (sequence ∷ []));
        limit = omega (arith, free);
        flying = omega (arith, few, h.room, counted);
      },
      rest,
      omega (arith, counted),
      omega (arith, h.room, counted),
    )

pub queue_data-IsCounted :
    (bytes : Bytes) (q : Flow)
    → q.pending_bytes + length bytes ≤ max_pending_bytes
    → IsCounted q
    → IsCounted (queue_data bytes q)
      × (concat (waiting (queue_data bytes q)) ≡ concat (waiting q) ++ bytes)
unfolding concat
queue_data-IsCounted bytes q room h =
    let last = drop-snoc q.pending_data_head q.pending_data bytes h.head_in in
    let all =
      ap (λ l. concat l) last
      ∙ concat-append (waiting q) (bytes ∷ [])
      ∙ ap (λ l. concat (waiting q) ++ l) (append-nil bytes) in
    (
      record {
        head_in = omega (arith, h.head_in, length-append q.pending_data (bytes ∷ []));
        bytes =
            omega
              (arith, h.bytes, ap (λ l. length l) all, length-append (concat (waiting q)) bytes);
        room = room;
        messages = h.messages;
        limit = h.limit;
        flying = h.flying;
      },
      all,
    )

drop-length : (n : ℕ) (xs : List Bytes) → n ≡ length xs → drop n xs ≡ []
drop-length zero [] e = refl
drop-length zero (x ∷ xs) e = absurd (omega (arith, e))
drop-length (suc n) [] e = refl
drop-length (suc n) (x ∷ xs) e = drop-length n xs (omega (arith, e))

requeue :
    (q : Flow) (chunks : List Bytes)
    → chunks ≡ waiting q
    → IsCounted q
    → IsCounted (record q { pending_data = chunks; pending_data_head = 0 })
requeue q chunks e h = record {
  head_in = omega arith;
  bytes = h.bytes ∙ ap (λ l. length (concat l)) (sym e);
  room = h.room;
  messages = h.messages;
  limit = h.limit;
  flying = h.flying;
}

-- Compaction changes how the queue is stored, not what it holds.
pub compact-IsCounted :
    (q : Flow)
    → IsCounted q
    → IsCounted (compact_pending_data q)
      × (waiting (compact_pending_data q) ≡ waiting q)
      × (buffered (compact_pending_data q) ≡ buffered q)
unfolding compact_pending_data
compact-IsCounted q h = elim (Bool-cases (q.pending_data_head == length q.pending_data)) [
  | inl e ↦
      let empty = drop-length q.pending_data_head q.pending_data (ground arith) in
      rw e (requeue q [] (sym empty) h, sym empty, refl)
  | inr e ↦
      elim (Bool-cases
        (leb 128 q.pending_data_head && leb (length q.pending_data) (q.pending_data_head * 2))) [
          | inl f ↦ rw (e, f) (requeue q (waiting q) refl h, refl, refl)
          | inr f ↦ rw (e, f) (h, refl, refl)
        ]
]

pub compact-in_flight :
    (q : Flow)
    → ((compact_pending_data q).in_flight_bytes ≡ q.in_flight_bytes)
      × ((compact_pending_data q).in_flight_messages ≡ q.in_flight_messages)
      × ((compact_pending_data q).in_flight_sequences ≡ q.in_flight_sequences)
unfolding compact_pending_data
compact-in_flight q = elim (Bool-cases (q.pending_data_head == length q.pending_data)) [
  | inl e ↦ rw e (refl, refl, refl)
  | inr e ↦
      elim (Bool-cases
        (leb 128 q.pending_data_head && leb (length q.pending_data) (q.pending_data_head * 2))) [
          | inl f ↦ rw (e, f) (refl, refl, refl)
          | inr f ↦ rw (e, f) (refl, refl, refl)
        ]
]
