-- ===== src/Script/Restart.antt =====
-- How the harness of tools/web-terminal/test-terminal-search.mjs waits and starts a search again.
use harmotty.Prelude.{
  ℕ, ◌+◌, ◌≤◌, ◌≡◌, ◌⊎◌, refl, inl, inr, Bool, true, false, Option, none, some, List, [], ◌∷◌,
  arith, Text, ap,
}
use harmotty.Script.Waiting.{
  Outcome, met, timed_out, wait_loop, Holds, wait_loop-ends, wait_loop-fuel,
}
use harmotty.Script.Harness.{
  SearchOptions, Selection, Effect, select, clear_selection, change_results, SearchLibrary, Harness,
  take_effect, take_effects, sleep, wait_for, search_next, restart_search,
}

module _ (L : SearchLibrary) where
  open L use {wait, clear_decorations}

  take_effects-clock :
      (effects : List Effect) (h : Harness L) → (take_effects L effects h).clock ≡ h.clock
  take_effects-clock [] h = refl
  take_effects-clock (select column row size ∷ effects) h =
      take_effects-clock effects (take_effect L (select column row size) h)
  take_effects-clock (clear_selection ∷ effects) h =
      take_effects-clock effects (take_effect L clear_selection h)
  take_effects-clock (change_results event ∷ effects) h =
      take_effects-clock effects (take_effect L (change_results event) h)

  sleep-clock : (h : Harness L) → (sleep L h).clock ≡ h.clock + 10 + (wait h.terminal).0
  sleep-clock h =
      let (late, terminal, effects) = wait h.terminal in
      take_effects-clock effects (record h { terminal = terminal; clock = h.clock + 10 + late })

  -- The loop of `waitFor` with its deadline, on fuel.
  abbrev pub waited : (Harness L → Bool) → ℕ → Harness L → Option (Outcome (Harness L))
  waited predicate fuel h = wait_loop predicate (λ s. s.clock) (sleep L) (h.clock + 1500) fuel h

  -- The loop has met the predicate, and the wait goes on in that state; or it has timed out in a
  -- state past the deadline in which the predicate fails, and the wait fails.
  abbrev pub Ends : (Harness L → Bool) → ℕ → Harness L → Type 0
  Ends predicate fuel h =
      ((s : Harness L) × (waited predicate fuel h ≡ some (met s))
        × (wait_for L predicate h ≡ some (tt, s))
        × (predicate s ≡ true))
      ⊎ ((s : Harness L) × (waited predicate fuel h ≡ some (timed_out s))
          × (wait_for L predicate h ≡ none)
          × (predicate s ≡ false)
          × (h.clock + 1500 ≤ s.clock))

  outcome-Ends :
      (predicate : Harness L → Bool) (fuel : ℕ) (h : Harness L) (o : Outcome (Harness L))
      → waited predicate fuel h ≡ some o
      → waited predicate 151 h ≡ some o
      → Holds predicate (λ s. s.clock) (sleep L) (h.clock + 1500) o
      → Ends predicate fuel h
  unfolding wait_for
  outcome-Ends predicate fuel h (met s) e f holds = inl (s, e, rw (f, wait_for) refl, holds)
  outcome-Ends predicate fuel h (timed_out s) e f (no_yet, late) =
      inr (s, e, rw (f, wait_for) refl, no_yet, late)

  -- Every wait ends, as each sleep takes at least ten milliseconds. With fuel for 151 looks at the
  -- predicate, or more, the loop returns in a state in which it has found the predicate true, and
  -- the wait with it; or the loop times out, and the wait fails, in a state that is at least 1500
  -- milliseconds later than its start, where the predicate is false.
  pub wait_for-Ends :
      (predicate : Harness L → Bool) (fuel : ℕ) (h : Harness L) → 151 ≤ fuel → Ends predicate fuel h
  wait_for-Ends predicate fuel h enough =
      let (o, e, holds) =
        wait_loop-ends predicate (λ s. s.clock) (sleep L) (h.clock + 1500)
          (λ s. omega (arith, sleep-clock s)) 150 h (omega arith) in
      outcome-Ends predicate fuel h o
        (wait_loop-fuel predicate (λ s. s.clock) (sleep L) (h.clock + 1500) 151 fuel h o enough e) e
        holds

  cleared :
      (effects : List Effect) (h : Harness L) (selection : Option Selection)
      → take_effect L clear_selection (take_effects L effects (record h { selection = selection }))
        ≡ take_effect L clear_selection (take_effects L effects h)
  cleared [] h selection = refl
  cleared (select column row size ∷ effects) h selection = refl
  cleared (clear_selection ∷ effects) h selection = refl
  cleared (change_results event ∷ effects) h selection =
      cleared effects (take_effect L (change_results event) h) selection

  -- A search that is started again does not depend on what was selected before.
  pub restart_search-selection :
      (query : Text) (options : SearchOptions) (h : Harness L) (selection : Option Selection)
      → restart_search L query options (record h { selection = selection })
        ≡ restart_search L query options h
  unfolding restart_search
  restart_search-selection query options h selection = ap (search_next L query options) (
      cleared (clear_decorations h.terminal).1
        (record h { terminal = (clear_decorations h.terminal).0 }) selection)
