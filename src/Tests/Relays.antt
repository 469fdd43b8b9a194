-- ===== src/Tests/Relays.antt =====
-- A pool of two relays, one of them switched off, and what holds of it.
use smtp_relay.Prelude.{
  ℕ, ◌≡◌, ◌≤◌, refl, ap, true, false, not, none, some, List, [], ◌∷◌, map, length, arith,
  if◌then◌else◌, All, Text, codes, ok, err,
}
use smtp_relay.Prelude.Int.{pos}
use smtp_relay.Relay.Config.{Clock, HealthConfig, RelayConfig, weighted, unsticky}
use smtp_relay.Relay.Circuit
use smtp_relay.Relay.Circuit.{
  CircuitState, closed, opened, half_open, Circuit, is_closed, circuit_state,
}
use smtp_relay.Relay.Quota
use smtp_relay.Relay.Quota.{Usage, roll, try_reserve_quota, release_quota, quota_exhausted}
use smtp_relay.Relay.Quota.Limits.{
  granted, minute, granted-le-limit, try_reserve_quota-quota_exhausted,
}
use smtp_relay.Relay.Quota.Release.{
  release_quota-try_reserve_quota, try_reserve_quota-release_quota,
}
use smtp_relay.Relay.Runtime
use smtp_relay.Relay.Runtime.{RelayRuntime, is_eligible, ineligible_reason, carry_over_from}
use smtp_relay.Relay.Runtime.Eligibility.{try_reserve_quota-is_eligible}
use smtp_relay.Relay.Runtime.CarryOver.{try_reserve_quota-carry_over_from}
use smtp_relay.Relay.Pool.{Pool, relay_at, build_index, empty_index, set_exclusive, mentions}
use smtp_relay.Relay.Pool.Activation.{differing, set_exclusive-active}
use smtp_relay.Relay.Weights.{smooth_weighted_pick}
use smtp_relay.Relay.Weights.Balance.{sum, sum-smooth_weighted_pick}
use smtp_relay.Relay.Selector.{RouteRequest, by_strategy, Counts, none_eligible}
use smtp_relay.Relay.Selector.Stages.{CanCarry, IsPassedOver}
use smtp_relay.Relay.Routing.{select, includes}
use smtp_relay.Relay.Strategy.{pick}
use smtp_relay.Relay.Config.{failover, least_used}
use smtp_relay.Relay.Routing.Minimal.{Ranked, Prior, LessUsed, pick-IsLeast}
use smtp_relay.Relay.Routing.Sound.{select-CanCarry, select-none_eligible}

abbrev alpha_id : Text
alpha_id = codes "alpha"

abbrev beta_id : Text
beta_id = codes "beta"

abbrev alpha : RelayConfig
alpha = record {
  id = alpha_id;
  enabled = true;
  weight = 2;
  priority = 10;
  max_concurrent = 4;
  max_per_minute = some 2;
  max_per_hour = none;
  max_per_day = none;
  smtp_detail_id = none;
  in_rotation_pool = true;
}

abbrev beta : RelayConfig
beta = record alpha { id = beta_id; enabled = false }

abbrev pub moment : Clock
moment = record { instant = 5000; utc = 1700000000000 }

abbrev pub health : HealthConfig
health = record {
  failure_threshold = 3;
  success_threshold = 2;
  cooldown_seconds = 30;
  auto_disable = true;
  auto_recover = true;
}

abbrev relays : List RelayRuntime
relays = Runtime.new alpha ∷ Runtime.new beta ∷ []

abbrev pub pool : Pool
pool = record {
  relays = relays;
  index = build_index 0 relays empty_index;
  routing = record {
    strategy = weighted;
    sticky = unsticky;
    domain_overrides = [];
    fallback_on_failure = true;
    max_attempts_per_message = 3;
  };
  smtp_details = [];
  cursor = 0;
  smooth_weights = pos 0 ∷ pos 0 ∷ [];
}

abbrev request : List Text → RouteRequest
request tried = record {
  sender = codes "a@example.org";
  recipients = codes "b@example.net" ∷ [];
  exclude = tried;
  auth_user = none;
  helo = codes "client";
}

abbrev pub hash : Text → ℕ
hash t = length t

abbrev selected : Pool
selected = (select hash moment (request []) pool).0

selected_route :
    (select hash moment (request []) pool).1
    ≡ ok (record { relay = 0; reason = by_strategy weighted })
unfolding select Runtime.new is_eligible Circuit.circuit_state quota_exhausted smooth_weighted_pick
selected_route = refl

select-CanCarry_example : (r : RelayRuntime) × (relay_at selected 0 ≡ some r) × CanCarry moment [] r
select-CanCarry_example =
    select-CanCarry hash moment (request []) pool selected
      (record { relay = 0; reason = by_strategy weighted }) (ap (λ r. (selected, r)) selected_route)

-- Once the first relay has been tried, nobody is left.
abbrev leftover : Counts
leftover = record {
  total = 2;
  excluded = 1;
  deactivated_count = 1;
  circuit_open_count = 0;
  quota = 0;
  saturated = 0;
}

nobody : (select hash moment (request (alpha_id ∷ [])) pool).1 ≡ err (none_eligible leftover)
unfolding select Runtime.new is_eligible Circuit.circuit_state quota_exhausted ineligible_reason
nobody = refl

select-none_eligible_example : All (IsPassedOver moment (alpha_id ∷ [])) pool.relays
select-none_eligible_example =
    select-none_eligible hash moment (request (alpha_id ∷ [])) pool
      (select hash moment (request (alpha_id ∷ [])) pool).0 leftover
      (ap (λ r. ((select hash moment (request (alpha_id ∷ [])) pool).0, r)) nobody)

-- Three attempts within the same minute; the limit is two.
abbrev attempts : List ℕ
attempts = 1700000000 ∷ 1700000001 ∷ 1700000002 ∷ []

granted-le-limit_example : granted alpha attempts Quota.default ≤ 2
granted-le-limit_example =
    granted-le-limit alpha 2 (omega arith) minute 28333333 attempts Quota.default refl
      (refl, (refl, (refl, tt)))

try_reserve_quota-quota_exhausted_example :
    ((try_reserve_quota alpha 1700000000 Quota.default).1
      ≡ not (quota_exhausted alpha 1700000000 Quota.default).1)
    × ((if (try_reserve_quota alpha 1700000000 Quota.default).1
          then (quota_exhausted alpha 1700000000 Quota.default).0
          else (try_reserve_quota alpha 1700000000 Quota.default).0)
        ≡ (quota_exhausted alpha 1700000000 Quota.default).0)
try_reserve_quota-quota_exhausted_example =
    try_reserve_quota-quota_exhausted alpha 1700000000 Quota.default

release_quota-try_reserve_quota_example :
    release_quota (try_reserve_quota alpha 1700000000 Quota.default).0
    ≡ roll 1700000000 Quota.default
unfolding try_reserve_quota
release_quota-try_reserve_quota_example =
    release_quota-try_reserve_quota alpha 1700000000 Quota.default
      (record {
        minute_room = omega arith;
        hour_room = omega arith;
        day_room = omega arith;
        total_room = omega arith;
      })
      refl

-- A minute in which both slots are taken.
abbrev full_minute : Usage
full_minute = record {
  minute_key = 28333333;
  minute_count = 2;
  hour_key = 472222;
  hour_count = 2;
  day_key = 19675;
  day_count = 2;
  total = 2;
}

try_reserve_quota-release_quota_example :
    ((try_reserve_quota alpha 1700000000 full_minute).1 ≡ false)
    × ((try_reserve_quota alpha 1700000000 (release_quota full_minute)).1 ≡ true)
try_reserve_quota-release_quota_example =
    try_reserve_quota-release_quota alpha 1700000000 2 full_minute refl refl refl refl refl
      (omega arith)

abbrev busy : RelayRuntime
busy = record (Runtime.new alpha) { usage = full_minute }

try_reserve_quota-carry_over_from_example :
    ((Runtime.try_reserve_quota moment busy).1 ≡ false)
    × ((Runtime.try_reserve_quota moment (carry_over_from (Runtime.new alpha) busy true)).1 ≡ true)
unfolding Runtime.new
try_reserve_quota-carry_over_from_example =
    try_reserve_quota-carry_over_from moment busy 2 true refl refl refl (omega arith) refl
      (omega arith)

try_reserve_quota-is_eligible_example :
    (Runtime.try_reserve_quota moment (is_eligible moment (Runtime.new alpha)).0).1 ≡ true
unfolding is_eligible Runtime.new Circuit.circuit_state quota_exhausted
try_reserve_quota-is_eligible_example =
    try_reserve_quota-is_eligible moment (Runtime.new alpha) refl

sum-smooth_weighted_pick_example :
    sum (smooth_weighted_pick pool (0 ∷ 1 ∷ [])).0.smooth_weights ≡ sum pool.smooth_weights
sum-smooth_weighted_pick_example =
    sum-smooth_weighted_pick pool 0 (1 ∷ []) refl (omega arith, (omega arith, tt))

set_exclusive-active_example :
    (map (λ r. r.active) (set_exclusive pool (beta_id ∷ [])).0.relays
      ≡ map (λ r. mentions (beta_id ∷ []) r.config.id) pool.relays)
    × (map (λ r. r.config) (set_exclusive pool (beta_id ∷ [])).0.relays
        ≡ map (λ r. r.config) pool.relays)
    × ((set_exclusive pool (beta_id ∷ [])).1
        ≡ differing (λ r. mentions (beta_id ∷ []) r.config.id) pool.relays)
    × ((set_exclusive (set_exclusive pool (beta_id ∷ [])).0 (beta_id ∷ [])).1 ≡ [])
set_exclusive-active_example = set_exclusive-active pool (beta_id ∷ [])

pick-IsLeast_example :
    (includes (0 ∷ 1 ∷ []) (pick moment failover pool 0 (1 ∷ [])).1 ≡ true)
    × Ranked Prior pool (pick moment failover pool 0 (1 ∷ [])).1 (0 ∷ 1 ∷ [])
    × (includes (0 ∷ 1 ∷ []) (pick moment least_used pool 0 (1 ∷ [])).1 ≡ true)
    × Ranked (LessUsed moment) pool (pick moment least_used pool 0 (1 ∷ [])).1 (0 ∷ 1 ∷ [])
pick-IsLeast_example = pick-IsLeast moment pool 0 (1 ∷ []) (omega arith, (omega arith, tt))
