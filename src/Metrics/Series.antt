-- ===== src/Metrics/Series.antt =====
-- src/metrics.rs: `TimeSeries`, the counts of the last minutes, oldest first. The clock reads `now`
-- seconds after 1970.
pub mod Snapshots
pub mod Recording
pub mod Counting
use smtp_relay.Prelude.{
  ℕ, zero, suc, ◌+◌, ◌-◌, ◌*◌, ◌/◌, min, max, Bool, true, false, not, Option, none, some, List, [],
  ◌∷◌, ◌++◌, length, ltb, leb, ◌==◌, if◌then◌else◌, add_u64,
}

pub record Bucket : Type 0 where
  pub minute : ℕ
  pub received : ℕ
  pub delivered : ℕ
  pub failed : ℕ
  pub deferred : ℕ

pub data Sample : Type 0 where
  received delivered failed deferred : Sample

-- `SERIES_MINUTES`.
abbrev pub series_minutes : ℕ
series_minutes = 120

-- `Bucket::empty`.
abbrev pub empty_bucket : ℕ → Bucket
empty_bucket minute = record {
  minute = minute;
  received = 0;
  delivered = 0;
  failed = 0;
  deferred = 0;
}

abbrev pub current_minute : ℕ → ℕ
current_minute now = now / 60 * 60

abbrev pub sampled : Sample → Bucket → Bucket
sampled received b = record b { received = add_u64 b.received 1 }
sampled delivered b = record b { delivered = add_u64 b.delivered 1 }
sampled failed b = record b { failed = add_u64 b.failed 1 }
sampled deferred b = record b { deferred = add_u64 b.deferred 1 }

-- `buckets.back().map(|b| b.minute != minute).unwrap_or(true)`.
abbrev pub needs_new : ℕ → List Bucket → Bool
needs_new minute [] = true
needs_new minute (b ∷ []) = not (b.minute == minute)
needs_new minute (b ∷ c ∷ bs) = needs_new minute (c ∷ bs)

-- `while buckets.len() > SERIES_MINUTES { buckets.pop_front(); }`.
abbrev pub shortened : List Bucket → List Bucket
shortened [] = []
shortened (b ∷ bs) =
    let rest = shortened bs in if ltb series_minutes (length (b ∷ bs)) then rest else b ∷ bs

abbrev pub update_back : (Bucket → Bucket) → List Bucket → List Bucket
update_back f [] = []
update_back f (b ∷ []) = f b ∷ []
update_back f (b ∷ c ∷ bs) = b ∷ update_back f (c ∷ bs)

unfoldable pub record_sample : ℕ → Sample → List Bucket → List Bucket
record_sample now sample buckets =
    let minute = current_minute now in
    let ready =
      if needs_new minute buckets
      then shortened (buckets ++ (empty_bucket minute ∷ []))
      else buckets in
    update_back (sampled sample) ready

-- The cursor moves past the older buckets.
abbrev pub past : ℕ → List Bucket → List Bucket
past minute [] = []
past minute (b ∷ bs) = let rest = past minute bs in if ltb b.minute minute then rest else b ∷ bs

abbrev pub taken : ℕ → List Bucket → Bucket × List Bucket
taken minute [] = (empty_bucket minute, [])
taken minute (b ∷ bs) = if b.minute == minute then (b, bs) else (empty_bucket minute, b ∷ bs)

-- `while minute <= now`, which ends after at most the given number of rounds.
abbrev pub filled : ℕ → ℕ → ℕ → List Bucket → List Bucket
filled zero minute now cursor = []
filled (suc n) minute now cursor =
    let (b, rest) = taken minute (past minute cursor) in
    let later = filled n (minute + 60) now rest in if leb minute now then b ∷ later else []

abbrev pub window_of : ℕ → ℕ
window_of minutes = min (max minutes 1) series_minutes

unfoldable pub snapshot : ℕ → ℕ → List Bucket → List Bucket
snapshot minutes now buckets =
    let window = window_of minutes in
    let minute = current_minute now in filled window (minute - (window - 1) * 60) minute buckets
