-- ===== src/TerminalPolicy/Bell.antt =====
-- `createBellAttentionGate` of terminal-policy.js: a bell is delivered once until it is
-- acknowledged or its delivery is armed again.
use harmotty.Prelude.{ℕ, ◌+◌, ◌≤◌, ◌≡◌, Bool, true, false, List, [], ◌∷◌, arith, if◌then◌else◌}

pub record BellGate : Type 0 where
  pub delivery_pending : Bool
  pub acknowledgement_pending : Bool

abbrev pub create_bell_attention_gate : BellGate
create_bell_attention_gate = record { delivery_pending = false; acknowledgement_pending = false }

-- The methods of the gate, each with its result.
unfoldable pub trigger : BellGate → BellGate × Bool
trigger g =
    if g.delivery_pending
    then (record g { acknowledgement_pending = true }, false)
    else (record { delivery_pending = true; acknowledgement_pending = true }, true)

unfoldable pub acknowledge : BellGate → BellGate × Bool
acknowledge g =
    if g.acknowledgement_pending
    then (record { delivery_pending = false; acknowledgement_pending = false }, true)
    else (g, false)

unfoldable pub rearm_delivery : BellGate → BellGate × Bool
rearm_delivery g =
    if g.delivery_pending then (record g { delivery_pending = false }, true) else (g, false)

unfoldable pub is_pending : BellGate → Bool
is_pending g = g.acknowledgement_pending

-- The calls that the terminal makes.
pub data BellEvent : Type 0 where
  ring acknowledged rearmed : BellEvent

unfoldable pub call : BellEvent → BellGate → BellGate × Bool
unfolding trigger acknowledge rearm_delivery
call ring g = trigger g
call acknowledged g = acknowledge g
call rearmed g = rearm_delivery g

abbrev bit : Bool → ℕ
bit true = 1
bit false = 0

abbrev is_ring : BellEvent → Bool
is_ring ring = true
is_ring _ = false

-- How many bells a sequence of calls delivers, and how many of its other calls answer `true`.
unfoldable pub deliveries : BellGate → List BellEvent → ℕ
deliveries g [] = 0
deliveries g (e ∷ es) = (if is_ring e then bit (call e g).1 else 0) + deliveries (call e g).0 es

unfoldable pub releases : BellGate → List BellEvent → ℕ
releases g [] = 0
releases g (e ∷ es) = (if is_ring e then 0 else bit (call e g).1) + releases (call e g).0 es

unfoldable pub run : BellGate → List BellEvent → BellGate
run g [] = g
run g (e ∷ es) = run (call e g).0 es

-- A pending delivery always waits for an acknowledgement.
pub record IsValid (g : BellGate) : Type 0 where
  pub waits : g.delivery_pending ≡ true → g.acknowledgement_pending ≡ true

call-IsValid : (e : BellEvent) (g : BellGate) → IsValid g → IsValid (call e g).0
unfolding call
call-IsValid ring g v = ground arith
call-IsValid acknowledged g v = ground arith
call-IsValid rearmed g v = ground arith

-- Whatever calls are made, a gate never loses the acknowledgement of a delivery that is pending.
pub calls-IsValid : (es : List BellEvent) (g : BellGate) → IsValid g → IsValid (run g es)
unfolding run
calls-IsValid [] g v = v
calls-IsValid (e ∷ es) g v = calls-IsValid es (call e g).0 (call-IsValid e g v)

call_balance :
    (e : BellEvent) (g : BellGate)
    → IsValid g
    → (if is_ring e then bit (call e g).1 else 0) + bit g.delivery_pending
      ≤ (if is_ring e then 0 else bit (call e g).1) + bit (call e g).0.delivery_pending
unfolding call
call_balance ring g v = ground arith
call_balance acknowledged g v = ground arith
call_balance rearmed g v = ground arith

deliveries_balance :
    (es : List BellEvent) (g : BellGate)
    → IsValid g
    → deliveries g es + bit g.delivery_pending ≤ releases g es + 1
unfolding deliveries releases
deliveries_balance [] g v = ground arith
deliveries_balance (e ∷ es) g v =
    omega (arith, call_balance e g v, deliveries_balance es (call e g).0 (call-IsValid e g v))

-- From a fresh gate, however often the bell rings, the bells delivered are at most one more than
-- the acknowledgements and rearmings that took effect.
pub deliveries-le-releases :
    (es : List BellEvent)
    → deliveries create_bell_attention_gate es ≤ releases create_bell_attention_gate es + 1
deliveries-le-releases es =
    omega (arith, deliveries_balance es create_bell_attention_gate (record { waits = λ e. e }))

-- A bell that rings after an acknowledgement is always delivered.
pub trigger-acknowledge : (g : BellGate) → IsValid g → (trigger (acknowledge g).0).1 ≡ true
unfolding trigger acknowledge
trigger-acknowledge g v = ground arith
