-- ===== src/Transport/Turns.antt =====
-- The answers of the page, one after the other (entry/src/main/ets/model/bridge/TerminalBridge.ets).
use harmotty.Prelude.{
  ℕ, zero, suc, ◌+◌, ◌≡◌, ◌∙◌, refl, sym, ap, inl, inr, Bool, true, List, [], ◌∷◌, append-nil,
  arith, get_elem?, drop, drop-get_elem?, length, ◌==◌,
}
use harmotty.Terminal.OutputBuffer.{Bytes, concat}
use harmotty.Transport.State.{TerminalBridge, waiting, update_backpressure, pump_pending_data}
use harmotty.Transport.Handle.{is_first, acknowledge_flow, pump_snapshot_requests, acknowledge}
use harmotty.Transport.Sound.{read, held}
use harmotty.Transport.Pressure.{update-Follows}
use harmotty.Transport.Answers.{
  numbers, total, answers, settle, IsAlike-trans, update-IsAlike, requests-IsAlike,
}
use harmotty.Transport.Delivers.{acknowledged-Follows, requests-Follows, acknowledge-Follows}
use harmotty.Transport.Flights.{IsAnswered, IsPumped, load, IsSettled-alike, pump-IsSettled}

module _ (posts : ℕ → Bool) (all_post : (n : ℕ) → posts n ≡ true) where
  -- The page's next answer is taken, and its packet is no longer in flight.
  answered :
      (k : ℕ) (s : TerminalBridge) (sequence size : ℕ) (rest : List (ℕ × ℕ))
      → IsAnswered k s
      → drop k (answers s.log) ≡ (sequence, size) ∷ rest
      → (t : TerminalBridge) × (acknowledge posts (get_elem? (answers s.log) k) s ≡ t)
        × IsAnswered (suc k) t
        × IsPumped t.flow
        × (load t.flow + 1 ≡ load s.flow)
  unfolding acknowledge numbers total is_first
  answered k s sequence size rest h e =
      let (element, after, inside) = drop-get_elem? k (answers s.log) (sequence, size) rest e in
      let due : s.flow.in_flight_sequences ≡ sequence ∷ numbers rest = sym h.due ∙ ap numbers e in
      let bytes : s.flow.in_flight_bytes ≡ size + total rest = sym h.size ∙ ap total e in
      let first : (sequence == sequence) ≡ true = ground arith in
      let start = record s { flow = acknowledge_flow size s.flow } in
      let shorter : IsAnswered (suc k) start = record {
        sound = (acknowledged-Follows posts size s h.sound).sound;
        ready = h.ready;
        port = h.port;
        full = h.full;
        inside = inside;
        due = rw (after, due) refl;
        size = rw (after, bytes) (omega arith);
      } in
      let pumped = pump-IsSettled posts all_post (suc k) start shorter in
      let requested = requests-Follows posts _ pumped.answered.sound in
      let sound = update-Follows _ requested.sound in
      let done =
        IsSettled-alike pumped sound.sound
          (IsAlike-trans (requests-IsAlike posts _) (update-IsAlike _)) in
      (
        update_backpressure (pump_snapshot_requests posts (pump_pending_data posts start)),
        rw (element, due, first) refl,
        done.answered,
        done.pumped,
        omega (arith, done.loaded, h.sound.counted.messages, ap (λ l. length l) due),
      )

  no_answers :
      (k : ℕ) (s : TerminalBridge)
      → IsAnswered k s
      → IsPumped s.flow
      → drop k (answers s.log) ≡ []
      → load s.flow ≡ 0
  unfolding numbers total
  no_answers k s h pumped e =
      let due : s.flow.in_flight_sequences ≡ [] = sym h.due ∙ ap numbers e in
      let bytes : s.flow.in_flight_bytes ≡ 0 = sym h.size ∙ ap total e in
      let messages : s.flow.in_flight_messages ≡ 0 =
        h.sound.counted.messages ∙ ap (λ l. length l) due in
      elim pumped [
        | inl none_wait ↦ omega (arith, messages, ap (λ l. length l) none_wait)
        | inr closed ↦ absurd (ground arith)
      ]

  empty_lem : (s : TerminalBridge) → load s.flow ≡ 0 → read s.log ≡ held s
  unfolding concat
  empty_lem s e =
      rw (length-zero (waiting s.flow) (omega (arith, e))) (sym (append-nil (read s.log)))
    where
      length-zero : (xs : List Bytes) → length xs ≡ 0 → xs ≡ []
      length-zero [] e = refl
      length-zero (x ∷ xs) e = absurd (omega (arith, e))

  -- A turn with the page, as long as something is not answered.
  turn :
      (n k : ℕ) (s : TerminalBridge)
      → IsAnswered k s
      → IsPumped s.flow
      → load s.flow ≡ suc n
      → (t : TerminalBridge) × (acknowledge posts (get_elem? (answers s.log) k) s ≡ t)
        × IsAnswered (suc k) t
        × IsPumped t.flow
        × (load t.flow + 1 ≡ load s.flow)
  turn n k s h pumped e = by_answers (drop k (answers s.log)) refl
    where
      by_answers :
          (due : List (ℕ × ℕ))
          → drop k (answers s.log) ≡ due
          → (t : TerminalBridge) × (acknowledge posts (get_elem? (answers s.log) k) s ≡ t)
            × IsAnswered (suc k) t
            × IsPumped t.flow
            × (load t.flow + 1 ≡ load s.flow)
      by_answers [] f = absurd (omega (arith, e, no_answers k s h pumped f))
      by_answers ((sequence, size) ∷ rest) f = answered k s sequence size rest h f

  pub settle_lem :
      (n k : ℕ) (s : TerminalBridge)
      → IsAnswered k s
      → IsPumped s.flow
      → load s.flow ≡ n
      → (load (settle posts n k s).flow ≡ 0) × (read (settle posts n k s).log ≡ held s)
  unfolding settle
  settle_lem zero k s h pumped e = (e, empty_lem s e)
  settle_lem (suc n) k s h pumped e =
      let (t, same, next, go_on, less) = turn n k s h pumped e in
      let follows = acknowledge-Follows posts (get_elem? (answers s.log) k) s h.sound in
      let (empty, all) = settle_lem n (suc k) t next go_on (omega (arith, less, e)) in
      rw (settle, same) (empty, all ∙ ap held (sym same) ∙ follows.kept ∙ append-nil (held s))
