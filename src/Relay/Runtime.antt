-- ===== src/Relay/Runtime.antt =====
-- src/relay/pool.rs, `RelayRuntime`: one upstream relay with its mutable state. A method takes the
-- relay and returns its new state, and the clock where the source reads it; the upstream library's
-- connection object is left out.
pub mod Eligibility
pub mod CarryOver
use smtp_relay.Prelude.{
  ℕ, ◌-◌, max, min, Bool, true, false, not, Option, none, some, Text, ltb, if◌then◌else◌, add_u64,
  saturating_sub, u64_mod,
}
use smtp_relay.Relay.Config.{Clock, timestamp, HealthConfig, RelayConfig}
use smtp_relay.Relay.Circuit
use smtp_relay.Relay.Circuit.{Circuit, is_open}
use smtp_relay.Relay.Quota
use smtp_relay.Relay.Quota.{Usage}

pub record Stats : Type 0 where
  pub sent : ℕ
  pub failed : ℕ
  pub deferred : ℕ
  pub attempts : ℕ
  pub bytes_sent : ℕ
  pub latency_sum_ms : ℕ
  pub latency_count : ℕ
  pub last_latency_ms : ℕ

abbrev pub no_stats : Stats
no_stats = record {
  sent = 0;
  failed = 0;
  deferred = 0;
  attempts = 0;
  bytes_sent = 0;
  latency_sum_ms = 0;
  latency_count = 0;
  last_latency_ms = 0;
}

pub record RelayRuntime : Type 0 where
  pub config : RelayConfig
  pub active : Bool
  pub in_flight : ℕ
  pub circuit : Circuit
  pub usage : Usage
  pub stats : Stats

unfoldable pub new : RelayConfig → RelayRuntime
new config = record {
  config = config;
  active = config.enabled;
  in_flight = 0;
  circuit = Circuit.default;
  usage = Quota.default;
  stats = no_stats;
}

-- Each of the three returns whether the activation changed.
unfoldable pub activate : RelayRuntime → RelayRuntime × Bool
activate r = (record r { active = true; circuit = Circuit.activate r.circuit }, not r.active)

unfoldable pub deactivate : RelayRuntime → RelayRuntime × Bool
deactivate r = (record r { active = false; circuit = Circuit.deactivate r.circuit }, r.active)

unfoldable pub set_active : RelayRuntime → Bool → RelayRuntime × Bool
unfolding activate deactivate
set_active r active = if active then activate r else deactivate r

unfoldable pub circuit_state : Clock → RelayRuntime → RelayRuntime
circuit_state now r = record r { circuit = Circuit.circuit_state now r.circuit }

-- `latency` is in milliseconds.
unfoldable pub record_success : Clock → HealthConfig → ℕ → RelayRuntime → RelayRuntime
record_success now health latency r =
    let millis = min latency (u64_mod - 1) in
    let stats = r.stats in
    record r {
      circuit = Circuit.record_success now health r.circuit;
      stats = record stats {
        latency_sum_ms = add_u64 stats.latency_sum_ms millis;
        latency_count = add_u64 stats.latency_count 1;
        last_latency_ms = millis;
      };
    }

unfoldable pub record_failure : Clock → HealthConfig → Text → RelayRuntime → RelayRuntime × Bool
record_failure now health error r =
    let (circuit, tripped) = Circuit.record_failure now health error r.circuit in
    (record r { circuit = circuit }, tripped)

unfoldable pub reset_circuit : RelayRuntime → RelayRuntime
reset_circuit r = record r { circuit = Circuit.reset_circuit r.circuit }

unfoldable pub record_probe : Clock → Option ℕ → RelayRuntime → RelayRuntime
record_probe now latency_ms r = record r { circuit = Circuit.record_probe now latency_ms r.circuit }

unfoldable pub try_reserve_quota : Clock → RelayRuntime → RelayRuntime × Bool
try_reserve_quota now r =
    let (usage, reserved) = Quota.try_reserve_quota r.config (timestamp now) r.usage in
    (record r { usage = usage }, reserved)

unfoldable pub release_quota : RelayRuntime → RelayRuntime
release_quota r = record r { usage = Quota.release_quota r.usage }

unfoldable pub quota_exhausted : Clock → RelayRuntime → RelayRuntime × Bool
quota_exhausted now r =
    let (usage, exhausted) = Quota.quota_exhausted r.config (timestamp now) r.usage in
    (record r { usage = usage }, exhausted)

unfoldable pub hour_count : Clock → RelayRuntime → RelayRuntime × ℕ
hour_count now r =
    let (usage, count) = Quota.hour_count (timestamp now) r.usage in
    (record r { usage = usage }, count)

unfoldable pub has_capacity : RelayRuntime → Bool
has_capacity r = ltb r.in_flight (max r.config.max_concurrent 1)

unfoldable pub begin_delivery : RelayRuntime → RelayRuntime
begin_delivery r = record r { in_flight = add_u64 r.in_flight 1 }

-- `DeliveryGuard::drop`.
unfoldable pub end_delivery : RelayRuntime → RelayRuntime
end_delivery r = record r { in_flight = saturating_sub r.in_flight 1 }

-- The conjuncts are read in order, and a read is made only if those before it hold.
unfoldable pub is_eligible : Clock → RelayRuntime → RelayRuntime × Bool
unfolding circuit_state has_capacity quota_exhausted
is_eligible now r =
    let read = circuit_state now r in
    let (rolled, exhausted) = quota_exhausted now read in
    if not r.active
    then (r, false)
    else if is_open read.circuit.state
    then (read, false)
    else if not (has_capacity read)
    then (read, false)
    else (rolled, not exhausted)

pub data Reason : Type 0 where
  deactivated circuit_open quota_reached at_concurrency_limit : Reason

unfoldable pub ineligible_reason : Clock → RelayRuntime → RelayRuntime × Option Reason
unfolding circuit_state has_capacity quota_exhausted
ineligible_reason now r =
    let read = circuit_state now r in
    let (rolled, exhausted) = quota_exhausted now read in
    if not r.active
    then (r, some deactivated)
    else if is_open read.circuit.state
    then (read, some circuit_open)
    else if exhausted
    then (rolled, some quota_reached)
    else if not (has_capacity rolled)
    then (rolled, some at_concurrency_limit)
    else (rolled, none)

unfoldable pub record_delivery : Clock → ℕ → ℕ → HealthConfig → RelayRuntime → RelayRuntime
unfolding record_success
record_delivery now bytes latency health r =
    let stats = r.stats in
    let counted = record stats {
      sent = add_u64 stats.sent 1;
      attempts = add_u64 stats.attempts 1;
      bytes_sent = add_u64 stats.bytes_sent bytes;
    } in
    record_success now health latency (record r { stats = counted })

unfoldable pub record_deferral : Clock → Text → HealthConfig → RelayRuntime → RelayRuntime × Bool
unfolding record_failure
record_deferral now error health r =
    let stats = r.stats in
    let counted = record stats {
      deferred = add_u64 stats.deferred 1;
      attempts = add_u64 stats.attempts 1;
    } in
    record_failure now health error (record r { stats = counted })

unfoldable pub record_permanent_failure : Clock → Text → RelayRuntime → RelayRuntime
record_permanent_failure now error r =
    let stats = r.stats in
    record r {
      stats = record stats { failed = add_u64 stats.failed 1; attempts = add_u64 stats.attempts 1 };
      circuit = Circuit.note_error now error r.circuit;
    }

unfoldable pub reset_stats : RelayRuntime → RelayRuntime
reset_stats r = record r { stats = no_stats; circuit = Circuit.reset_trips r.circuit }

-- The minute window is not among the fields of the usage that are copied.
unfoldable pub carry_over_from : RelayRuntime → RelayRuntime → Bool → RelayRuntime
carry_over_from r previous keep_activation =
    let usage = r.usage in
    let old = previous.usage in
    record r {
      stats = previous.stats;
      usage = record usage {
        hour_key = old.hour_key;
        hour_count = old.hour_count;
        day_key = old.day_key;
        day_count = old.day_count;
        total = old.total;
      };
      circuit = previous.circuit;
      active = if keep_activation then previous.active else r.active;
    }
