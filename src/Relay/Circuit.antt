-- ===== src/Relay/Circuit.antt =====
-- src/relay/pool.rs, `CircuitState` and `Circuit`: the circuit breaker of one relay. Each function
-- is one critical section of the circuit's mutex.
pub mod Laws
use smtp_relay.Prelude.{
  ℕ, ◌+◌, ◌*◌, max, Bool, true, false, ◌&&◌, not, Option, none, some, Text, leb, if◌then◌else◌,
  add_u64, saturating_add_u32,
}
use smtp_relay.Util.Strings.{truncate}
use smtp_relay.Relay.Config.{Clock, HealthConfig}

-- `CircuitState::Open` is `opened`.
pub data CircuitState : Type 0 where
  closed opened half_open : CircuitState

pub record Circuit : Type 0 where
  pub state : CircuitState
  pub open_until : Option ℕ
  pub consecutive_failures : ℕ
  pub consecutive_successes : ℕ
  pub healthy : Bool
  pub last_error : Option Text
  pub last_error_at : Option ℕ
  pub last_success_at : Option ℕ
  pub last_probe_at : Option ℕ
  pub last_probe_ms : Option ℕ
  pub trips : ℕ
  pub manually_disabled : Bool

abbrev pub default : Circuit
default = record {
  state = closed;
  open_until = none;
  consecutive_failures = 0;
  consecutive_successes = 0;
  healthy = true;
  last_error = none;
  last_error_at = none;
  last_success_at = none;
  last_probe_at = none;
  last_probe_ms = none;
  trips = 0;
  manually_disabled = false;
}

abbrev pub is_closed : CircuitState → Bool
is_closed closed = true
is_closed _ = false

abbrev pub is_open : CircuitState → Bool
is_open opened = true
is_open _ = false

abbrev pub is_half_open : CircuitState → Bool
is_half_open half_open = true
is_half_open _ = false

-- The circuit's part of `activate`.
unfoldable pub activate : Circuit → Circuit
activate c =
    let cleared = record c { manually_disabled = false } in
    if not (is_closed c.state)
    then record cleared { state = closed; open_until = none; consecutive_failures = 0 }
    else cleared

-- The circuit's part of `deactivate`.
unfoldable pub deactivate : Circuit → Circuit
deactivate c = record c { manually_disabled = true }

-- `.map(|deadline| Instant::now() >= deadline).unwrap_or(true)`.
abbrev pub expired : Clock → Option ℕ → Bool
expired now none = true
expired now (some deadline) = leb deadline now.instant

-- Moves an expired open circuit to half-open; the new state is what the source returns.
unfoldable pub circuit_state : Clock → Circuit → Circuit
circuit_state now c =
    if is_open c.state && expired now c.open_until
    then record c { state = half_open; open_until = none }
    else c

unfoldable pub record_success : Clock → HealthConfig → Circuit → Circuit
record_success now health c =
    let counted = record c {
      consecutive_failures = 0;
      consecutive_successes = saturating_add_u32 c.consecutive_successes 1;
      last_success_at = some now.utc;
      last_error = none;
      healthy = true;
    } in
    let recovers =
      not (is_closed c.state)
      && leb (max health.success_threshold 1) (saturating_add_u32 c.consecutive_successes 1)
      && health.auto_recover
      && not c.manually_disabled in
    if recovers then record counted { state = closed; open_until = none } else counted

abbrev pub cooldown_end : Clock → HealthConfig → Option ℕ
cooldown_end now health = some (now.instant + max health.cooldown_seconds 1 * 1000)

-- Whether this failure trips the breaker: the source's `should_trip`.
unfoldable pub should_trip : HealthConfig → Circuit → Bool
should_trip health c =
    health.auto_disable
    && not (is_open c.state)
    && leb (max health.failure_threshold 1) (saturating_add_u32 c.consecutive_failures 1)

unfoldable pub record_failure : Clock → HealthConfig → Text → Circuit → Circuit × Bool
unfolding should_trip
record_failure now health error c =
    let counted = record c {
      consecutive_successes = 0;
      consecutive_failures = saturating_add_u32 c.consecutive_failures 1;
      last_error = some (truncate error 400);
      last_error_at = some now.utc;
      healthy = false;
    } in
    let tripped = record counted {
      state = opened;
      open_until = cooldown_end now health;
      trips = add_u64 c.trips 1;
    } in
    let reopened = record counted { state = opened; open_until = cooldown_end now health } in
    if should_trip health c
    then (tripped, true)
    else (if is_half_open c.state then reopened else counted, false)

unfoldable pub reset_circuit : Circuit → Circuit
reset_circuit c = record c {
  state = closed;
  open_until = none;
  consecutive_failures = 0;
  last_error = none;
  healthy = true;
}

unfoldable pub record_probe : Clock → Option ℕ → Circuit → Circuit
record_probe now latency_ms c = record c {
  last_probe_at = some now.utc;
  last_probe_ms = latency_ms;
}

-- The circuit's part of `record_permanent_failure`.
unfoldable pub note_error : Clock → Text → Circuit → Circuit
note_error now error c = record c {
  last_error = some (truncate error 400);
  last_error_at = some now.utc;
}

-- The circuit's part of `reset_stats`.
unfoldable pub reset_trips : Circuit → Circuit
reset_trips c = record c { trips = 0; last_error = none }
