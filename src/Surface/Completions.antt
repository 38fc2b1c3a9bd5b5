-- ===== src/Surface/Completions.antt =====
-- The requests of snapshots that wait, and what answers one
-- (entry/src/main/ets/model/terminal/TerminalSurfaceController.ets).
use harmotty.Prelude.{
  ℕ, ◌+◌, ◌<◌, ◌≡◌, refl, ap, inl, inr, Bool, true, false, not, ◌&&◌, ◌||◌, none, some, List, [],
  ◌∷◌, ◌++◌, All, arith, ◌==◌, Bool-cases, Option-cases,
}
use harmotty.Terminal.OutputBuffer.{is_output_paused}
use harmotty.Surface.State.{
  SnapshotCompletion, Event, restore_snapshot, write, init, destroy, clear_selection,
  request_snapshot, on_ready, on_message, on_output_pause_change, on_copy_result, on_bell_attention,
  on_attention_acknowledged, on_open_url, write_clipboard, on_captured, Surface,
  notify_output_pause_change,
}
use harmotty.Surface.Controller.{
  fail_completions, remaining, completed_handler, captured_event, Operation, capturing,
}

abbrev pub one_if : Bool → ℕ
one_if true = 1
one_if false = 0

-- How often a handler is called, waits, and is given to `captureSnapshot`.
unfoldable pub calls : ℕ → List Event → ℕ
calls h [] = 0
calls h (on_captured handler captured ∷ events) = one_if (handler == h) + calls h events
calls h (_ ∷ events) = calls h events

unfoldable pub waiting : ℕ → List SnapshotCompletion → ℕ
waiting h [] = 0
waiting h (completion ∷ completions) = one_if (completion.handler == h) + waiting h completions

unfoldable pub asked : ℕ → List Operation → ℕ
asked h [] = 0
asked h (capturing (some handler) ∷ operations) = one_if (handler == h) + asked h operations
asked h (_ ∷ operations) = asked h operations

-- The requests that wait are in the order of their numbers, below the next one.
abbrev pub IsOrdered : ℕ → List SnapshotCompletion → Type 0
IsOrdered next [] = Unit
IsOrdered next (completion ∷ completions) =
    (completion.request_id < next)
    × All (λ later. completion.request_id < later.request_id) completions
    × IsOrdered next completions

module _ (h : ℕ) where
  pub calls-append : (xs ys : List Event) → calls h (xs ++ ys) ≡ calls h xs + calls h ys
  unfolding calls
  calls-append [] ys = omega arith
  calls-append (on_captured handler captured ∷ xs) ys = omega (arith, calls-append xs ys)
  calls-append (restore_snapshot t ∷ xs) ys = calls-append xs ys
  calls-append (write b ∷ xs) ys = calls-append xs ys
  calls-append (init ∷ xs) ys = calls-append xs ys
  calls-append (destroy ∷ xs) ys = calls-append xs ys
  calls-append (clear_selection ∷ xs) ys = calls-append xs ys
  calls-append (request_snapshot n ∷ xs) ys = calls-append xs ys
  calls-append (on_ready b ∷ xs) ys = calls-append xs ys
  calls-append (on_message m ∷ xs) ys = calls-append xs ys
  calls-append (on_output_pause_change b ∷ xs) ys = calls-append xs ys
  calls-append (on_copy_result b ∷ xs) ys = calls-append xs ys
  calls-append (on_bell_attention ∷ xs) ys = calls-append xs ys
  calls-append (on_attention_acknowledged ∷ xs) ys = calls-append xs ys
  calls-append (on_open_url t ∷ xs) ys = calls-append xs ys
  calls-append (write_clipboard t ∷ xs) ys = calls-append xs ys

  pub waiting-append :
      (xs ys : List SnapshotCompletion) → waiting h (xs ++ ys) ≡ waiting h xs + waiting h ys
  unfolding waiting
  waiting-append [] ys = omega arith
  waiting-append (x ∷ xs) ys = omega (arith, waiting-append xs ys)

  pub calls-fail_completions :
      (xs : List SnapshotCompletion) → calls h (fail_completions xs) ≡ waiting h xs
  unfolding calls waiting fail_completions
  calls-fail_completions [] = refl
  calls-fail_completions (x ∷ xs) =
      ap (λ n. one_if (x.handler == h) + n) (calls-fail_completions xs)

  pub calls-notify :
      (previous : Bool) (s : Surface) → calls h (notify_output_pause_change previous s) ≡ 0
  unfolding calls notify_output_pause_change
  calls-notify previous s =
      elim (Bool-cases (
        (previous && is_output_paused s.output_buffer)
        || (not previous && not (is_output_paused s.output_buffer)))) [
          | inl e ↦ rw e refl
          | inr e ↦ rw e refl
        ]

  -- No completion has the number of a later request.
  completed_none :
      (request_id : ℕ) (xs : List SnapshotCompletion)
      → All (λ later. request_id < later.request_id) xs
      → (completed_handler request_id xs ≡ none) × (remaining request_id xs ≡ xs)
  unfolding completed_handler remaining
  completed_none request_id [] o = (refl, refl)
  completed_none request_id (x ∷ xs) (o, rest) =
      let (no_handler, same) = completed_none request_id xs rest in
      let differs : (x.request_id == request_id) ≡ false = ground arith in
      (rw (no_handler, differs) refl, rw (same, differs) refl)

  completed_other :
      (request_id : ℕ) (x : SnapshotCompletion) (xs : List SnapshotCompletion)
      → (x.request_id == request_id) ≡ false
      → (completed_handler request_id (x ∷ xs) ≡ completed_handler request_id xs)
        × (remaining request_id (x ∷ xs) ≡ x ∷ remaining request_id xs)
  unfolding completed_handler remaining
  completed_other request_id x xs e = elim (Option-cases (completed_handler request_id xs)) [
    | inl f ↦ (rw (f, e) refl, rw e refl)
    | inr (handler, f) ↦ (rw f refl, rw e refl)
  ]

  handler_step :
      (x : SnapshotCompletion) (called : ℕ) (rest xs : List SnapshotCompletion) (called' : ℕ)
      (rest' : List SnapshotCompletion)
      → called' ≡ called
      → rest' ≡ x ∷ rest
      → called + waiting h rest ≡ waiting h xs
      → called' + waiting h rest' ≡ waiting h (x ∷ xs)
  unfolding waiting
  handler_step x called rest xs called' rest' e f ih = rw (e, f) (omega (arith, ih))

  pub completed_lem :
      (next request_id : ℕ) (captured : Bool) (xs : List SnapshotCompletion)
      → IsOrdered next xs
      → calls h (captured_event captured (completed_handler request_id xs))
          + waiting h (remaining request_id xs)
        ≡ waiting h xs
  unfolding calls waiting completed_handler remaining
  completed_lem next request_id captured [] o = refl
  completed_lem next request_id captured (x ∷ xs) (below, later, o) =
      elim (Bool-cases (x.request_id == request_id)) [
        | inl e ↦
            let same : x.request_id ≡ request_id = ground arith in
            let (no_handler, kept) = completed_none request_id xs (rw same at later) in
            rw (no_handler, e, kept) (omega arith)
        | inr e ↦
            let (handler_same, rest_same) = completed_other request_id x xs e in
            handler_step x (calls h (captured_event captured (completed_handler request_id xs)))
              (remaining request_id xs) xs _ _
              (ap (λ o. calls h (captured_event captured o)) handler_same) rest_same
              (completed_lem next request_id captured xs o)
      ]
