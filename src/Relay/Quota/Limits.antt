-- ===== src/Relay/Quota/Limits.antt =====
-- No sequence of reservations exceeds a limit within its window.
use smtp_relay.Prelude.{
  ℕ, ◌+◌, ◌/◌, ◌≡◌, ◌≤◌, ◌<◌, Option, some, not, max, List, [], ◌∷◌, arith, if◌then◌else◌, All,
  u64_mod,
}
use smtp_relay.Relay.Config.{RelayConfig}
use smtp_relay.Relay.Quota.{Usage, try_reserve_quota, quota_exhausted}

-- The number of reservations that are granted when one is tried at each of the given seconds.
unfoldable pub granted : RelayConfig → List ℕ → Usage → ℕ
granted cfg [] u = 0
granted cfg (now ∷ later) u =
    granted cfg later (try_reserve_quota cfg now u).0
    + (if (try_reserve_quota cfg now u).1 then 1 else 0)

-- The three windows: their lengths in seconds, and their fields.
pub data Window : Type 0 where
  minute hour day : Window

abbrev pub seconds : Window → ℕ
seconds minute = 60
seconds hour = 3600
seconds day = 86400

abbrev pub limit_of : Window → RelayConfig → Option ℕ
limit_of minute cfg = cfg.max_per_minute
limit_of hour cfg = cfg.max_per_hour
limit_of day cfg = cfg.max_per_day

abbrev pub key_of : Window → Usage → ℕ
key_of minute u = u.minute_key
key_of hour u = u.hour_key
key_of day u = u.day_key

abbrev pub count_of : Window → Usage → ℕ
count_of minute u = u.minute_count
count_of hour u = u.hour_count
count_of day u = u.day_count

module _ (cfg : RelayConfig) (limit : ℕ) (fits : limit < u64_mod) where
  granted_from :
      (w : Window) (k : ℕ) (times : List ℕ) (u : Usage)
      → limit_of w cfg ≡ some limit
      → All (λ t. t / seconds w ≡ k) times
      → key_of w u ≡ k
      → granted cfg times u + count_of w u ≤ max limit (count_of w u)
  unfolding granted try_reserve_quota
  granted_from w k [] u c a e = omega arith
  granted_from minute k (t ∷ ts) u c a e =
      ground (arith, granted_from minute k ts (try_reserve_quota cfg t u).0 c a.1)
  granted_from hour k (t ∷ ts) u c a e =
      ground (arith, granted_from hour k ts (try_reserve_quota cfg t u).0 c a.1)
  granted_from day k (t ∷ ts) u c a e =
      ground (arith, granted_from day k ts (try_reserve_quota cfg t u).0 c a.1)

  -- Within one minute, hour or day no more reservations are granted than that window's limit, in
  -- whatever order and at whatever seconds of it they are tried, and whatever was counted before.
  -- The limit is below 2^64.
  pub granted-le-limit :
      (w : Window) (k : ℕ) (times : List ℕ) (u : Usage)
      → limit_of w cfg ≡ some limit
      → All (λ t. t / seconds w ≡ k) times
      → granted cfg times u ≤ limit
  unfolding granted try_reserve_quota
  granted-le-limit w k [] u c a = omega arith
  granted-le-limit minute k (t ∷ ts) u c a =
      ground (arith, granted_from minute k ts (try_reserve_quota cfg t u).0 c a.1)
  granted-le-limit hour k (t ∷ ts) u c a =
      ground (arith, granted_from hour k ts (try_reserve_quota cfg t u).0 c a.1)
  granted-le-limit day k (t ∷ ts) u c a =
      ground (arith, granted_from day k ts (try_reserve_quota cfg t u).0 c a.1)

-- A reservation is granted exactly when `quota_exhausted` answers no at that second, and a refusal
-- leaves the same usage as that question.
pub try_reserve_quota-quota_exhausted :
    (cfg : RelayConfig) (now : ℕ) (u : Usage)
    → ((try_reserve_quota cfg now u).1 ≡ not (quota_exhausted cfg now u).1)
      × ((if (try_reserve_quota cfg now u).1
            then (quota_exhausted cfg now u).0
            else (try_reserve_quota cfg now u).0)
          ≡ (quota_exhausted cfg now u).0)
unfolding try_reserve_quota quota_exhausted
try_reserve_quota-quota_exhausted cfg now u = (ground arith, ground arith)
