-- ===== src/Transport/Pressure.antt =====
-- What pauses output and lets it go on (entry/src/main/ets/model/bridge/TerminalBridge.ets).
use harmotty.Prelude.{
  ◌≤◌, ◌<◌, ◌≡◌, ◌∙◌, refl, sym, inl, inr, Bool, true, false, not, ◌&&◌, [], append-nil, arith, leb,
  Bool-cases,
}
use harmotty.Transport.State.{
  high_water_bytes, low_water_bytes, TerminalBridge, set_backpressured, buffered,
  update_backpressure,
}
use harmotty.Transport.Sound.{read, read-append, IsCounted, IsSound, held, Follows}

-- Pausing and going on change neither the queue nor what the page reads.
pub set_backpressured-same :
    (paused : Bool) (s : TerminalBridge)
    → ((set_backpressured paused s).flow ≡ s.flow)
      × (read (set_backpressured paused s).log ≡ read s.log)
      × ((set_backpressured paused s).next_sequence ≡ s.next_sequence)
      × ((set_backpressured paused s).backpressured ≡ paused)
unfolding set_backpressured read
set_backpressured-same true s = elim (Bool-cases s.backpressured) [
  | inl e ↦ rw e (refl, refl, refl, refl)
  | inr e ↦ rw e (refl, read-append s.log _ ∙ append-nil (read s.log), refl, refl)
]
set_backpressured-same false s = elim (Bool-cases s.backpressured) [
  | inl e ↦ rw e (refl, read-append s.log _ ∙ append-nil (read s.log), refl, refl)
  | inr e ↦ rw e (refl, refl, refl, refl)
]

pub update-same :
    (s : TerminalBridge)
    → ((update_backpressure s).flow ≡ s.flow)
      × (read (update_backpressure s).log ≡ read s.log)
      × ((update_backpressure s).next_sequence ≡ s.next_sequence)
      × ((update_backpressure s).backpressured ≡ false → buffered s.flow < high_water_bytes)
unfolding update_backpressure
update-same s = elim (Bool-cases (not s.backpressured && leb high_water_bytes (buffered s.flow))) [
  | inl e ↦
      let (flow, log, next, paused) = set_backpressured-same true s in
      rw e (flow, log, next, λ f. absurd (let g = sym paused ∙ f in cc))
  | inr e ↦ elim (Bool-cases (s.backpressured && leb (buffered s.flow) low_water_bytes)) [
    | inl f ↦
        let (flow, log, next, paused) = set_backpressured-same false s in
        rw (e, f) (flow, log, next, λ g. ground arith)
    | inr f ↦ rw (e, f) (refl, refl, refl, λ g. ground arith)
  ]
]

-- A state that keeps its numbers; `calm` may be broken.
pub update-IsSound :
    (s : TerminalBridge)
    → IsCounted s.flow
    → 1 ≤ s.next_sequence
    → s.next_sequence < 4294967296
    → IsSound (update_backpressure s)
update-IsSound s c n b =
    let (flow, log, next, calm) = update-same s in
    record {
      counted = rw flow c;
      numbered = rw next n;
      below = rw next b;
      calm = λ e. rw flow (calm e);
    }

pub update-Follows : (s : TerminalBridge) → IsSound s → Follows s [] (update_backpressure s)
update-Follows s h =
    let (flow, log, next, calm) = update-same s in
    record {
      sound = update-IsSound s h.counted h.numbered h.below;
      kept = rw (flow, log) (sym (append-nil (held s)));
    }
