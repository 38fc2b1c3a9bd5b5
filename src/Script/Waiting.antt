-- ===== src/Script/Waiting.antt =====
-- `waitFor` of tools/web-terminal/test-terminal-search.mjs: the script looks at a predicate, and
-- sleeps for ten milliseconds until it holds or the deadline is over.
use harmotty.Prelude.{
  ℕ, zero, suc, ◌+◌, ◌*◌, ◌≤◌, ◌<◌, ◌≡◌, ◌∙◌, refl, inl, inr, Bool, true, false, Option, none, some,
  arith, leb, le→leb, leb→le, if◌then◌else◌, Bool-cases,
}

-- How the wait ends.
pub data Outcome {ℓ} (S : Type ℓ) : Type ℓ where
  met : S → Outcome S
  timed_out : S → Outcome S

-- `now` is the clock, and `sleep` what happens in one sleep.
module _ {S : Type 0} (predicate : S → Bool) (now : S → ℕ) (sleep : S → S) (deadline : ℕ) where
  -- The loop on fuel; `none` is that the fuel has run out.
  unfoldable pub wait_loop : ℕ → S → Option (Outcome S)
  wait_loop zero s = none
  wait_loop (suc fuel) s =
      let rest = wait_loop fuel (sleep s) in
      if predicate s
      then some (met s)
      else if leb deadline (now s)
      then some (timed_out s)
      else rest

  -- What an outcome says.
  abbrev pub Holds : Outcome S → Type 0
  Holds (met s) = predicate s ≡ true
  Holds (timed_out s) = (predicate s ≡ false) × (deadline ≤ now s)

  wait_loop-later :
      (fuel : ℕ) (s : S)
      → predicate s ≡ false
      → leb deadline (now s) ≡ false
      → wait_loop (suc fuel) s ≡ wait_loop fuel (sleep s)
  unfolding wait_loop
  wait_loop-later fuel s e early = rw (e, early) refl

  -- One look at the predicate and the clock; `rest` is what the later looks come to.
  wait_loop_first :
      (fuel : ℕ) (s : S)
      → (predicate s ≡ false
          → leb deadline (now s) ≡ false
          → (o : Outcome S) × (wait_loop fuel (sleep s) ≡ some o) × Holds o)
      → (o : Outcome S) × (wait_loop (suc fuel) s ≡ some o) × Holds o
  unfolding wait_loop
  wait_loop_first fuel s rest = elim (Bool-cases (predicate s)) [
    | inl e ↦ (met s, rw e refl, e)
    | inr e ↦ elim (Bool-cases (leb deadline (now s))) [
      | inl over ↦ (timed_out s, rw (e, over) refl, (e, leb→le deadline (now s) over))
      | inr early ↦
          let (o, f, holds) = rest e early in (o, wait_loop-later fuel s e early ∙ f, holds)
    ]
  ]

  -- If a sleep takes at least ten milliseconds, a wait ends within a tenth of the time it has, in
  -- the predicate or after the deadline.
  pub wait_loop-ends :
      ((s : S) → now s + 10 ≤ now (sleep s))
      → (fuel : ℕ) (s : S) → deadline ≤ now s + fuel * 10
      → (o : Outcome S) × (wait_loop (suc fuel) s ≡ some o) × Holds o
  wait_loop-ends slow zero s h =
      wait_loop_first 0 s
        (λ e early. absurd (let over = le→leb deadline (now s) (omega arith) in cc))
  wait_loop-ends slow (suc fuel) s h =
      wait_loop_first (suc fuel) s
        (λ e early. wait_loop-ends slow fuel (sleep s) (omega (arith, slow s)))

  -- More fuel does not change how a wait ends.
  pub wait_loop-fuel :
      (less more : ℕ) (s : S) (o : Outcome S)
      → less ≤ more
      → wait_loop less s ≡ some o
      → wait_loop more s ≡ some o
  unfolding wait_loop
  wait_loop-fuel zero more s o le e = absurd (cc)
  wait_loop-fuel (suc less) zero s o le e = absurd (omega arith)
  wait_loop-fuel (suc less) (suc more) s o le e = elim (Bool-cases (predicate s)) [
    | inl p ↦ rw p (rw p at e)
    | inr p ↦ elim (Bool-cases (leb deadline (now s))) [
      | inl over ↦ rw (p, over) (rw (p, over) at e)
      | inr early ↦
          rw (p, early) (wait_loop-fuel less more (sleep s) o (omega arith) (rw (p, early) at e))
    ]
  ]

  -- The predicate fails in time for so many sleeps, and then holds.
  abbrev pub ComesTrue : ℕ → S → Type 0
  ComesTrue zero s = predicate s ≡ true
  ComesTrue (suc k) s = (predicate s ≡ false) × (now s < deadline) × ComesTrue k (sleep s)

  abbrev pub slept : ℕ → S → S
  slept zero s = s
  slept (suc k) s = slept k (sleep s)

  -- A predicate that comes true before the deadline is met, in the state where it first holds.
  wait_loop-meets :
      (k fuel : ℕ) (s : S) → k < fuel → ComesTrue k s → wait_loop fuel s ≡ some (met (slept k s))
  unfolding wait_loop
  wait_loop-meets k zero s h c = absurd (omega arith)
  wait_loop-meets zero (suc fuel) s h c = rw c refl
  wait_loop-meets (suc k) (suc fuel) s h (no_yet, early, c) =
      let in_time : leb deadline (now s) ≡ false = ground arith in
      rw (no_yet, in_time) (wait_loop-meets k fuel (sleep s) (omega arith) c)
