-- ===== src/Relay/Circuit/Laws.antt =====
-- The circuit breaker as a state machine: its invariant, when it trips and when it recovers.
use smtp_relay.Prelude.{
  ℕ, zero, suc, ◌+◌, ◌≡◌, ◌<◌, ◌∙◌, max, inl, inr, true, false, Option, none, some, List, [], ◌∷◌,
  Text, arith, ltb, leb, if◌then◌else◌, Bool-cases, All, u32_mod,
}
use smtp_relay.Relay.Config.{Clock, HealthConfig}
use smtp_relay.Relay.Circuit.{
  CircuitState, closed, opened, half_open, Circuit, is_closed, activate, deactivate, circuit_state,
  record_success, record_failure, reset_circuit, record_probe, note_error, reset_trips,
}

-- Every operation that the source performs on a circuit.
pub data Op : Type 0 where
  activates deactivates resets resets_trips : Op
  reads : Clock → Op
  succeeds : Clock → HealthConfig → Op
  fails : Clock → HealthConfig → Text → Op
  probes : Clock → Option ℕ → Op
  notes : Clock → Text → Op

unfoldable pub step : Op → Circuit → Circuit
step activates c = activate c
step deactivates c = deactivate c
step resets c = reset_circuit c
step resets_trips c = reset_trips c
step (reads now) c = circuit_state now c
step (succeeds now health) c = record_success now health c
step (fails now health error) c = (record_failure now health error c).0
step (probes now latency) c = record_probe now latency c
step (notes now error) c = note_error now error c

unfoldable pub run : List Op → Circuit → Circuit
run [] c = c
run (o ∷ os) c = run os (step o c)

-- An open circuit has a deadline, and no other has one.
abbrev pub HasDeadline : CircuitState → Option ℕ → Type 0
HasDeadline opened none = ⊥
HasDeadline opened (some t) = Unit
HasDeadline closed none = Unit
HasDeadline closed (some t) = ⊥
HasDeadline half_open none = Unit
HasDeadline half_open (some t) = ⊥

abbrev pub IsValid : Circuit → Type 0
IsValid c = HasDeadline c.state c.open_until

step-IsValid : (o : Op) (c : Circuit) → IsValid c → IsValid (step o c)
unfolding step activate deactivate reset_circuit reset_trips circuit_state record_success
    record_failure record_probe note_error
step-IsValid (succeeds now health) c v = ground arith
step-IsValid (fails now health error) c v = ground arith
step-IsValid _ c v = ground arith

-- Under every sequence of the operations of the source, a circuit that has a deadline exactly while
-- it is open stays such a circuit.
pub run-IsValid : (os : List Op) (c : Circuit) → IsValid c → IsValid (run os c)
unfolding run
run-IsValid [] c v = v
run-IsValid (o ∷ os) c v = run-IsValid os (step o c) (step-IsValid o c v)

-- The operations that no operator starts.
abbrev pub IsAutomatic : Op → Type 0
IsAutomatic activates = ⊥
IsAutomatic resets = ⊥
IsAutomatic _ = Unit

record IsKeptOut (c : Circuit) : Type 0 where
  disabled : c.manually_disabled ≡ true
  tripped : is_closed c.state ≡ false

step-IsKeptOut : (o : Op) (c : Circuit) → IsAutomatic o → IsKeptOut c → IsKeptOut (step o c)
unfolding step deactivate reset_trips circuit_state record_success record_failure record_probe
    note_error
step-IsKeptOut activates c a k = elim a [ ]
step-IsKeptOut resets c a k = elim a [ ]
step-IsKeptOut _ c a k = ground arith

run-IsKeptOut :
    (os : List Op) (c : Circuit) → All IsAutomatic os → IsKeptOut c → IsKeptOut (run os c)
unfolding run
run-IsKeptOut [] c a k = k
run-IsKeptOut (o ∷ os) c a k = run-IsKeptOut os (step o c) a.1 (step-IsKeptOut o c a.0 k)

-- While an operator's deactivation stands, no sequence of operations other than an operator's
-- activation or reset closes a breaker that is not closed.
pub run-manually_disabled :
    (os : List Op) (c : Circuit)
    → All IsAutomatic os
    → c.manually_disabled ≡ true
    → is_closed c.state ≡ false
    → is_closed (run os c).state ≡ false
run-manually_disabled os c a d t =
    (run-IsKeptOut os c a (record { disabled = d; tripped = t })).tripped

-- The operations that leave an open circuit open until `deadline`: failures, probes, notes, and
-- reads before that time.
abbrev pub KeepsOpen : ℕ → Op → Type 0
KeepsOpen deadline activates = ⊥
KeepsOpen deadline resets = ⊥
KeepsOpen deadline (succeeds _ _) = ⊥
KeepsOpen deadline (reads now) = now.instant < deadline
KeepsOpen deadline _ = Unit

record IsOpenUntil (deadline : ℕ) (c : Circuit) : Type 0 where
  is_opened : c.state ≡ opened
  ends : c.open_until ≡ some deadline

step-IsOpenUntil :
    (d : ℕ) (o : Op) (c : Circuit) → KeepsOpen d o → IsOpenUntil d c → IsOpenUntil d (step o c)
unfolding step deactivate reset_trips circuit_state record_failure record_probe note_error
step-IsOpenUntil d activates c a k = elim a [ ]
step-IsOpenUntil d resets c a k = elim a [ ]
step-IsOpenUntil d (succeeds now health) c a k = elim a [ ]
step-IsOpenUntil d _ c a k = ground arith

run-IsOpenUntil :
    (d : ℕ) (os : List Op) (c : Circuit)
    → All (KeepsOpen d) os
    → IsOpenUntil d c
    → IsOpenUntil d (run os c)
unfolding run
run-IsOpenUntil d [] c a k = k
run-IsOpenUntil d (o ∷ os) c a k =
    run-IsOpenUntil d os (step o c) a.1 (step-IsOpenUntil d o c a.0 k)

-- Further failures neither end nor lengthen the cooldown: after any sequence of operations other
-- than a success, an activation or a reset, with reads only before the deadline, an open circuit
-- is read as open before its deadline and as half-open from the deadline on.
pub circuit_state-run :
    (d : ℕ) (os : List Op) (now : Clock) (c : Circuit)
    → All (KeepsOpen d) os
    → c.state ≡ opened
    → c.open_until ≡ some d
    → (circuit_state now (run os c)).state ≡ (if leb d now.instant then half_open else opened)
unfolding circuit_state
circuit_state-run d os now c a o e =
    let k = run-IsOpenUntil d os c a (record { is_opened = o; ends = e }) in
    rw (k.is_opened, k.ends) (ground arith)

module _ (now : Clock) (health : HealthConfig) (error : Text) where
  -- `n` failures in a row.
  unfoldable pub failures : ℕ → Circuit → Circuit
  failures zero c = c
  failures (suc n) c = failures n (record_failure now health error c).0

  failures-opened : (n : ℕ) (c : Circuit) → c.state ≡ opened → (failures n c).state ≡ opened
  unfolding failures record_failure
  failures-opened zero c o = o
  failures-opened (suc n) c o = failures-opened n _ (ground arith)

  -- With `auto_disable` set, a closed circuit opens at exactly the failure that brings the count of
  -- consecutive failures to the threshold (at least one), and stays open under further ones. The
  -- threshold is a 32-bit number, and the count starts below it.
  pub failures-closed :
      (n : ℕ) (c : Circuit)
      → health.auto_disable ≡ true
      → health.failure_threshold < u32_mod
      → c.state ≡ closed
      → c.consecutive_failures < max health.failure_threshold 1
      → (failures n c).state ≡ (
          if ltb (n + c.consecutive_failures) (max health.failure_threshold 1)
          then closed
          else opened)
  unfolding failures record_failure
  failures-closed zero c a w o h = ground arith
  failures-closed (suc n) c a w o h =
      elim (Bool-cases (leb (max health.failure_threshold 1) (c.consecutive_failures + 1))) [
        | inl trips ↦
            failures-opened n (record_failure now health error c).0 (ground arith) ∙ ground arith
        | inr counts ↦
            failures-closed n (record_failure now health error c).0 a w (ground arith)
              (ground arith)
            ∙ ground arith
      ]

module _ (now : Clock) (health : HealthConfig) where
  -- `n` successes in a row.
  unfoldable pub successes : ℕ → Circuit → Circuit
  successes zero c = c
  successes (suc n) c = successes n (record_success now health c)

  successes-closed : (n : ℕ) (c : Circuit) → c.state ≡ closed → (successes n c).state ≡ closed
  unfolding successes record_success
  successes-closed zero c o = o
  successes-closed (suc n) c o = successes-closed n _ (ground arith)

  -- With `auto_recover` set and no operator's deactivation, a half-open circuit with a count below the
  -- threshold closes at exactly the success that brings the count of consecutive successes to the threshold (at least one), and stays
  -- closed under further ones. The threshold is a 32-bit number.
  pub successes-half_open :
      (n : ℕ) (c : Circuit)
      → health.auto_recover ≡ true
      → health.success_threshold < u32_mod
      → c.manually_disabled ≡ false
      → c.state ≡ half_open
      → c.consecutive_successes < max health.success_threshold 1
      → (successes n c).state ≡ (
          if ltb (n + c.consecutive_successes) (max health.success_threshold 1)
          then half_open
          else closed)
  unfolding successes record_success
  successes-half_open zero c a w m o h = ground arith
  successes-half_open (suc n) c a w m o h =
      elim (Bool-cases (leb (max health.success_threshold 1) (c.consecutive_successes + 1))) [
        | inl recovers ↦
            successes-closed n (record_success now health c) (ground arith) ∙ ground arith
        | inr counts ↦
            successes-half_open n (record_success now health c) a w (ground arith) (ground arith)
              (ground arith)
            ∙ ground arith
      ]
