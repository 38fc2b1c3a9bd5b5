-- ===== src/Transport/Drains.antt =====
-- Output does not get stuck (entry/src/main/ets/model/bridge/TerminalBridge.ets).
use harmotty.Prelude.{
  ℕ, ◌+◌, ◌≡◌, ◌∙◌, refl, ap, inl, inr, Bool, true, List, [], ◌∷◌, ◌++◌, arith, drop-snoc, length,
  map, All, All-append, ltb, Bool-cases,
}
use harmotty.Terminal.OutputBuffer.{Bytes, concat}
use harmotty.Transport.State.{
  TerminalBridge, waiting, update_backpressure, compact_pending_data, pump_loop, pump_pending_data,
}
use harmotty.Transport.Handle.{pump_snapshot_requests}
use harmotty.Transport.Sound.{read, held}
use harmotty.Transport.Answers.{numbers, total, answers, settle, update-IsAlike}
use harmotty.Transport.Pump.{refused-Follows, queued-Follows}
use harmotty.Transport.State.{queue_data, write, new, new_flow, on_ready, max_pending_bytes}
use harmotty.Transport.Answers.{set_backpressured-IsAlike}
use harmotty.Transport.Handle.{
  init, become_ready, notify_ready_handler, notify_unless_awaiting, flush_theme, flush_font_size,
  flush_fit, flush_restore_snapshot, request_each, pump_search_open,
}
use harmotty.Transport.Operations.{writing, perform, run}
use harmotty.Transport.Delivers.{ready-Follows, touch}
use harmotty.Transport.Runs.{accepted, runs-Follows, new-IsSound}
use harmotty.Transport.Flights.{IsFull, IsAnswered, IsPumped, load, alike, pump-IsSettled}
use harmotty.Transport.Turns.{settle_lem}

module _ (posts : ℕ → Bool) (all_post : (n : ℕ) → posts n ≡ true) where
  write-IsAnswered :
      (k : ℕ) (bytes : Bytes) (s : TerminalBridge)
      → IsAnswered k s
      → IsPumped s.flow
      → IsFull bytes
      → IsAnswered k (write posts bytes s) × IsPumped (write posts bytes s).flow
  unfolding write
  write-IsAnswered k bytes s h pumped full =
      elim (Bool-cases (ltb max_pending_bytes (s.flow.pending_bytes + length bytes))) [
        | inl e ↦
            let like = set_backpressured-IsAlike true s in
            rw e (alike h (refused-Follows s h.sound).sound like, rw like.flow pumped)
        | inr e ↦
            let queued = record s { flow = queue_data bytes s.flow } in
            let like = update-IsAlike queued in
            let last =
              drop-snoc s.flow.pending_data_head s.flow.pending_data bytes
                h.sound.counted.head_in in
            let updated : IsAnswered k (update_backpressure queued) = record {
              sound = (queued-Follows bytes s h.sound (ground arith)).sound;
              ready = like.ready ∙ h.ready;
              port = like.port ∙ h.port;
              full =
                  rw (like.flow, last)
                    (All-append IsFull (waiting s.flow) (bytes ∷ []) h.full (full, tt));
              inside = rw like.answered h.inside;
              due = rw (like.answered, like.flow) h.due;
              size = rw (like.answered, like.flow) h.size;
            } in
            let settled = pump-IsSettled posts all_post k (update_backpressure queued) updated in
            rw e (settled.answered, settled.pumped)
      ]

  abbrev pub ready_at : ℕ → TerminalBridge
  ready_at now = become_ready posts now (init new)

  ready_lem :
      (now : ℕ)
      → ((ready_at now).flow ≡ new_flow)
        × ((ready_at now).log ≡ on_ready ∷ [])
        × ((ready_at now).ready ≡ true)
        × ((ready_at now).has_port ≡ true)
  unfolding become_ready flush_theme flush_font_size flush_fit flush_restore_snapshot
      pump_pending_data pump_loop compact_pending_data update_backpressure pump_snapshot_requests
      request_each pump_search_open notify_unless_awaiting notify_ready_handler
  ready_lem now = (refl, refl, refl, refl)

  ready-IsAnswered : (now : ℕ) → IsAnswered 0 (ready_at now)
  unfolding answers numbers total
  ready-IsAnswered now =
      let (flow, log, ready, port) = ready_lem now in
      record {
        sound =
            (ready-Follows posts now (init new)
              (touch new (init new) new-IsSound refl refl refl refl).sound).sound;
        ready = ready;
        port = port;
        full = rw flow tt;
        inside = omega arith;
        due = rw (flow, log) refl;
        size = rw (flow, log) refl;
      }

  ready-held : (now : ℕ) → held (ready_at now) ≡ []
  unfolding read concat
  ready-held now = let (flow, log, ready, port) = ready_lem now in rw (flow, log) refl

  writes-IsAnswered :
      (chunks : List Bytes) (s : TerminalBridge)
      → IsAnswered 0 s
      → IsPumped s.flow
      → All IsFull chunks
      → IsAnswered 0 (run posts s (map writing chunks))
        × IsPumped (run posts s (map writing chunks)).flow
  unfolding run perform
  writes-IsAnswered [] s h pumped full = (h, pumped)
  writes-IsAnswered (bytes ∷ chunks) s h pumped full =
      let (written, go_on) = write-IsAnswered 0 bytes s h pumped full.0 in
      writes-IsAnswered chunks _ written go_on full.1

  -- A bridge has become ready, every post comes back, and chunks that are not empty are written. Once
  -- the page has answered as many packets as wait or are in flight then, nothing waits or is in
  -- flight any more, and the page has read all the output that found room.
  pub settle-drains :
      (now : ℕ) (chunks : List Bytes)
      → All IsFull chunks
      → let s = run posts (ready_at now) (map writing chunks) in
        let t = settle posts (load s.flow) 0 s in
        (load t.flow ≡ 0) × (read t.log ≡ accepted posts (ready_at now) (map writing chunks))
  settle-drains now chunks full =
      let start = ready-IsAnswered now in
      let s = run posts (ready_at now) (map writing chunks) in
      let (written, pumped) =
        writes-IsAnswered chunks (ready_at now) start (inl (ap waiting (ready_lem now).0)) full in
      let (empty, all) = settle_lem posts all_post (load s.flow) 0 s written pumped refl in
      let kept = (runs-Follows posts (ready_at now) (map writing chunks) start.sound).kept in
      (
        empty,
        all
            ∙ kept
            ∙ ap (λ l. l ++ accepted posts (ready_at now) (map writing chunks)) (ready-held now),
      )
