-- ===== src/Tests/Circuits.antt =====
-- A breaker that trips, cools down and recovers.
use smtp_relay.Prelude.{
  ◌+◌, ◌≡◌, refl, true, false, max, none, some, List, [], ◌∷◌, arith, ltb, leb, if◌then◌else◌,
  codes,
}
use smtp_relay.Relay.Circuit
use smtp_relay.Relay.Circuit.{
  CircuitState, closed, opened, half_open, Circuit, is_closed, circuit_state,
}
use smtp_relay.Relay.Circuit.Laws.{
  Op, succeeds, fails, reads, probes, run, IsValid, run-IsValid, run-manually_disabled,
  circuit_state-run, failures, failures-closed, successes, successes-half_open,
}
use smtp_relay.Tests.Relays.{moment, health}

-- A breaker that opened at instant 5000.
abbrev tripped : Circuit
tripped = record Circuit.default { state = opened; open_until = some 35000; trips = 1 }

abbrev history : List Op
history = fails moment health (codes "timeout") ∷ reads moment ∷ probes moment none ∷ []

run-IsValid_example : IsValid (run history tripped)
run-IsValid_example = run-IsValid history tripped tt

run-manually_disabled_example :
    is_closed
      (run (succeeds moment health ∷ history) (record tripped { manually_disabled = true })).state
    ≡ false
run-manually_disabled_example =
    run-manually_disabled (succeeds moment health ∷ history)
      (record tripped { manually_disabled = true }) (tt, (tt, (tt, (tt, tt)))) refl refl

circuit_state-run_example :
    (circuit_state (record moment { instant = 35000 }) (run history tripped)).state
    ≡ (if leb 35000 35000 then half_open else opened)
circuit_state-run_example =
    circuit_state-run 35000 history (record moment { instant = 35000 }) tripped
      (tt, (omega arith, (tt, tt))) refl refl

failures-closed_example :
    (failures moment health (codes "timeout") 3 Circuit.default).state
    ≡ (if ltb (3 + 0) (max 3 1) then closed else opened)
failures-closed_example =
    failures-closed moment health (codes "timeout") 3 Circuit.default refl (omega arith) refl
      (omega arith)

successes-half_open_example :
    (successes moment health 1 (record Circuit.default { state = half_open })).state
    ≡ (if ltb (1 + 0) (max 2 1) then half_open else closed)
successes-half_open_example =
    successes-half_open moment health 1 (record Circuit.default { state = half_open }) refl
      (omega arith) refl refl (omega arith)
