-- ===== src/Relay/Runtime/CarryOver.antt =====
-- What a relay keeps when the configuration is loaded again.
use smtp_relay.Prelude.{
  ℕ, ◌/◌, ◌≡◌, ◌<◌, ◌≤◌, Bool, true, false, some, none, arith, refl, if◌then◌else◌,
}
use smtp_relay.Relay.Config.{Clock, RelayConfig, timestamp}
use smtp_relay.Relay.Quota
use smtp_relay.Relay.Quota.{default}
use smtp_relay.Relay.Runtime.{RelayRuntime, new, carry_over_from, try_reserve_quota, hour_count}

-- A reload under unchanged limits keeps the hourly count, the breaker, the statistics and, when the
-- configured activation did not change, the operator's switch; no delivery is in flight on the new
-- relay.
pub carry_over_from-new :
    (now : Clock) (cfg : RelayConfig) (old : RelayRuntime) (keep : Bool)
    → ((hour_count now (carry_over_from (new cfg) old keep)).1 ≡ (hour_count now old).1)
      × ((carry_over_from (new cfg) old keep).circuit ≡ old.circuit)
      × ((carry_over_from (new cfg) old keep).stats ≡ old.stats)
      × ((carry_over_from (new cfg) old keep).active ≡ (if keep then old.active else cfg.enabled))
      × ((carry_over_from (new cfg) old keep).in_flight ≡ 0)
unfolding carry_over_from new hour_count Quota.hour_count
carry_over_from-new now cfg old keep = (refl, refl, refl, refl, refl)

-- The per-minute count is not kept: a relay whose minute is full grants a reservation again, in the
-- same minute, once the configuration has been loaded. It has no hourly or daily limit here.
pub try_reserve_quota-carry_over_from :
    (now : Clock) (old : RelayRuntime) (limit : ℕ) (keep : Bool)
    → old.config.max_per_minute ≡ some limit
    → old.config.max_per_hour ≡ none
    → old.config.max_per_day ≡ none
    → 0 < limit
    → old.usage.minute_key ≡ timestamp now / 60
    → limit ≤ old.usage.minute_count
    → ((try_reserve_quota now old).1 ≡ false)
      × ((try_reserve_quota now (carry_over_from (new old.config) old keep)).1 ≡ true)
unfolding carry_over_from new try_reserve_quota Quota.try_reserve_quota
try_reserve_quota-carry_over_from now old limit keep m h d p k f = (ground arith, ground arith)
