-- ===== src/Relay/Runtime/Eligibility.antt =====
-- When a relay may receive traffic.
use smtp_relay.Prelude.{ℕ, ◌≡◌, ◌↔◌, true, none, arith}
use smtp_relay.Relay.Config.{Clock, RelayConfig, timestamp}
use smtp_relay.Relay.Circuit
use smtp_relay.Relay.Circuit.{Circuit}
use smtp_relay.Relay.Quota
use smtp_relay.Relay.Quota.{Usage}
use smtp_relay.Relay.Runtime.{RelayRuntime, is_eligible, ineligible_reason, try_reserve_quota}

-- The dashboard gives a reason exactly when the relay is out of rotation.
pub ineligible_reason-is_eligible :
    (now : Clock) (r : RelayRuntime)
    → ((is_eligible now r).1 ≡ true) ↔ ((ineligible_reason now r).1 ≡ none)
unfolding is_eligible ineligible_reason
ineligible_reason-is_eligible now r = ground arith

circuit_state_idem :
    (now : Clock) (c : Circuit)
    → Circuit.circuit_state now (Circuit.circuit_state now c) ≡ Circuit.circuit_state now c
unfolding Circuit.circuit_state
circuit_state_idem now c = ground arith

quota_exhausted_idem :
    (cfg : RelayConfig) (now : ℕ) (u : Usage)
    → Quota.quota_exhausted cfg now (Quota.quota_exhausted cfg now u).0
      ≡ Quota.quota_exhausted cfg now u
unfolding Quota.quota_exhausted
quota_exhausted_idem cfg now u = ground arith

-- Asking again at the same time gives the same answer and changes nothing further.
pub is_eligible-is_eligible :
    (now : Clock) (r : RelayRuntime) → is_eligible now (is_eligible now r).0 ≡ is_eligible now r
unfolding is_eligible
is_eligible-is_eligible now r =
    ground (
      arith,
      circuit_state_idem now r.circuit,
      quota_exhausted_idem r.config (timestamp now) r.usage,
    )

-- A relay that is eligible grants a reservation at the same time.
pub try_reserve_quota-is_eligible :
    (now : Clock) (r : RelayRuntime)
    → (is_eligible now r).1 ≡ true
    → (try_reserve_quota now (is_eligible now r).0).1 ≡ true
unfolding is_eligible try_reserve_quota Circuit.circuit_state Quota.quota_exhausted
    Quota.try_reserve_quota
try_reserve_quota-is_eligible now r e = ground arith
