-- ===== src/Relay/Quota.antt =====
-- src/relay/pool.rs, `Usage` and the quota methods of `RelayRuntime`: reservations against the
-- per-minute, hourly and daily limits. The time is a number of seconds from 1970 on; each function
-- is one critical section of the usage mutex.
pub mod Limits
pub mod Release
use smtp_relay.Prelude.{
  ℕ, ◌+◌, ◌/◌, Bool, true, false, not, ◌||◌, Option, none, some, leb, ◌==◌, if◌then◌else◌, add_u64,
  saturating_sub,
}
use smtp_relay.Relay.Config.{RelayConfig}

pub record Usage : Type 0 where
  pub minute_key : ℕ
  pub minute_count : ℕ
  pub hour_key : ℕ
  pub hour_count : ℕ
  pub day_key : ℕ
  pub day_count : ℕ
  pub total : ℕ

abbrev pub default : Usage
default = record {
  minute_key = 0;
  minute_count = 0;
  hour_key = 0;
  hour_count = 0;
  day_key = 0;
  day_count = 0;
  total = 0;
}

unfoldable pub roll : ℕ → Usage → Usage
roll now u = record u {
  minute_key = now / 60;
  minute_count = if u.minute_key == now / 60 then u.minute_count else 0;
  hour_key = now / 3600;
  hour_count = if u.hour_key == now / 3600 then u.hour_count else 0;
  day_key = now / 86400;
  day_count = if u.day_key == now / 86400 then u.day_count else 0;
}

-- `if let Some(limit) = …` with `count >= limit`.
abbrev pub full : Option ℕ → ℕ → Bool
full none count = false
full (some limit) count = leb limit count

unfoldable pub exhausted : RelayConfig → Usage → Bool
exhausted cfg u =
    full cfg.max_per_minute u.minute_count
    || full cfg.max_per_hour u.hour_count
    || full cfg.max_per_day u.day_count

abbrev pub counted : Usage → Usage
counted u = record u {
  minute_count = add_u64 u.minute_count 1;
  hour_count = add_u64 u.hour_count 1;
  day_count = add_u64 u.day_count 1;
  total = add_u64 u.total 1;
}

unfoldable pub try_reserve_quota : RelayConfig → ℕ → Usage → Usage × Bool
unfolding roll
try_reserve_quota cfg now u =
    let rolled = roll now u in
    if full cfg.max_per_minute rolled.minute_count
    then (rolled, false)
    else if full cfg.max_per_hour rolled.hour_count
    then (rolled, false)
    else if full cfg.max_per_day rolled.day_count
    then (rolled, false)
    else (counted rolled, true)

unfoldable pub release_quota : Usage → Usage
release_quota u = record u {
  minute_count = saturating_sub u.minute_count 1;
  hour_count = saturating_sub u.hour_count 1;
  day_count = saturating_sub u.day_count 1;
  total = saturating_sub u.total 1;
}

unfoldable pub quota_exhausted : RelayConfig → ℕ → Usage → Usage × Bool
unfolding roll exhausted
quota_exhausted cfg now u = (roll now u, exhausted cfg (roll now u))

unfoldable pub hour_count : ℕ → Usage → Usage × ℕ
unfolding roll
hour_count now u = (roll now u, (roll now u).hour_count)
