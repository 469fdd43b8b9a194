-- ===== src/Relay/Quota/Release.antt =====
-- Giving a reservation back after a failed attempt.
use smtp_relay.Prelude.{ℕ, ◌+◌, ◌/◌, ◌≡◌, ◌<◌, true, false, some, none, arith, u64_mod}
use smtp_relay.Relay.Config.{RelayConfig}
use smtp_relay.Relay.Quota.{Usage, roll, try_reserve_quota, release_quota}

-- The counters are 64-bit words that have not reached their last value.
pub record HasRoom (u : Usage) : Type 0 where
  pub minute_room : u.minute_count + 1 < u64_mod
  pub hour_room : u.hour_count + 1 < u64_mod
  pub day_room : u.day_count + 1 < u64_mod
  pub total_room : u.total + 1 < u64_mod

-- A reservation that is granted and given back leaves every counter as the roll to that second left
-- it, when no counter stands at the end of its word.
pub release_quota-try_reserve_quota :
    (cfg : RelayConfig) (now : ℕ) (u : Usage)
    → HasRoom u
    → (try_reserve_quota cfg now u).1 ≡ true
    → release_quota (try_reserve_quota cfg now u).0 ≡ roll now u
unfolding release_quota try_reserve_quota roll
release_quota-try_reserve_quota cfg now u r g = ground arith

-- When the current minute has reached its limit, a reservation is refused, but a release, which does
-- not say in which minute its slot was counted, lets one more through in that full minute. The relay
-- has a positive limit per minute, and none per hour or day.
pub try_reserve_quota-release_quota :
    (cfg : RelayConfig) (now limit : ℕ) (u : Usage)
    → cfg.max_per_minute ≡ some limit
    → cfg.max_per_hour ≡ none
    → cfg.max_per_day ≡ none
    → u.minute_key ≡ now / 60
    → u.minute_count ≡ limit
    → 0 < limit
    → ((try_reserve_quota cfg now u).1 ≡ false)
      × ((try_reserve_quota cfg now (release_quota u)).1 ≡ true)
unfolding release_quota try_reserve_quota
try_reserve_quota-release_quota cfg now limit u m h d k c p = (ground arith, ground arith)
