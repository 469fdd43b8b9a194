-- ===== src/Metrics/Series/Snapshots.antt =====
-- The series that the dashboard plots, against a lookup of each of its minutes.
use smtp_relay.Prelude.{
  ℕ, zero, suc, ◌+◌, ◌-◌, ◌*◌, ◌/◌, min, max, ◌≡◌, ◌≤◌, ◌<◌, refl, ◌∙◌, true, List, [], ◌∷◌, ltb,
  leb, ◌==◌, if◌then◌else◌, inl, inr, arith, Bool-cases, All, All-mono,
}
use smtp_relay.Metrics.Series.{Bucket, empty_bucket, past, taken, filled, snapshot}

-- The second at which the minute of the clock began.
abbrev pub minute_of : ℕ → ℕ
minute_of now = now / 60 * 60

-- How many minutes are shown when some number of them is asked for.
abbrev pub shown : ℕ → ℕ
shown minutes = min (max minutes 1) 120

-- The bucket of a minute, which is empty where nothing was recorded.
abbrev pub bucket_at : ℕ → List Bucket → Bucket
bucket_at m [] = record { minute = m; received = 0; delivered = 0; failed = 0; deferred = 0 }
bucket_at m (b ∷ bs) = let later = bucket_at m bs in if b.minute == m then b else later

-- The minutes increase.
abbrev pub Sorted : List Bucket → Type 0
Sorted [] = Unit
Sorted (b ∷ bs) = All (λ c. b.minute < c.minute) bs × Sorted bs

-- The buckets of `n` minutes from `minute` on.
abbrev pub buckets_from : ℕ → ℕ → List Bucket → List Bucket
buckets_from zero minute bs = []
buckets_from (suc n) minute bs = bucket_at minute bs ∷ buckets_from n (minute + 60) bs

pub bucket_at-above :
    (m : ℕ) (bs : List Bucket) → All (λ c. m < c.minute) bs → bucket_at m bs ≡ empty_bucket m
bucket_at-above m [] h = refl
bucket_at-above m (b ∷ bs) (h, hs) = ground (arith, bucket_at-above m bs hs)

past-bucket_at : (m k : ℕ) (bs : List Bucket) → m ≤ k → bucket_at k (past m bs) ≡ bucket_at k bs
past-bucket_at m k [] h = refl
past-bucket_at m k (b ∷ bs) h = ground (arith, past-bucket_at m k bs h)

past-Sorted : (m : ℕ) (bs : List Bucket) → Sorted bs → Sorted (past m bs)
past-Sorted m [] h = tt
past-Sorted m (b ∷ bs) h = elim (Bool-cases (ltb b.minute m)) [
  | inl e ↦ rw e (past-Sorted m bs h.1)
  | inr e ↦ rw e h
]

-- The head of what is left is not before the minute.
abbrev StartsAt : ℕ → List Bucket → Type 0
StartsAt m [] = Unit
StartsAt m (b ∷ bs) = m ≤ b.minute

past-StartsAt : (m : ℕ) (bs : List Bucket) → StartsAt m (past m bs)
past-StartsAt m [] = tt
past-StartsAt m (b ∷ bs) = elim (Bool-cases (ltb b.minute m)) [
  | inl e ↦ rw e (past-StartsAt m bs)
  | inr e ↦ rw e (ground arith)
]

taken-bucket_at :
    (m : ℕ) (bs : List Bucket) → Sorted bs → StartsAt m bs → (taken m bs).0 ≡ bucket_at m bs
taken-bucket_at m [] s h = refl
taken-bucket_at m (b ∷ bs) s h = elim (Bool-cases (b.minute == m)) [
  | inl e ↦ rw e refl
  | inr e ↦
      rw (e, bucket_at-above m bs (All-mono bs (λ c (l : b.minute < c.minute). omega arith) s.0))
        refl
]

taken-rest : (m k : ℕ) (bs : List Bucket) → m < k → bucket_at k (taken m bs).1 ≡ bucket_at k bs
taken-rest m k [] h = refl
taken-rest m k (b ∷ bs) h = ground arith

taken-Sorted : (m : ℕ) (bs : List Bucket) → Sorted bs → Sorted (taken m bs).1
taken-Sorted m [] s = tt
taken-Sorted m (b ∷ bs) s = elim (Bool-cases (b.minute == m)) [ inl e ↦ rw e s.1 | inr e ↦ rw e s ]

buckets_from-eq :
    (n k : ℕ) (bs cs : List Bucket)
    → ((j : ℕ) → k ≤ j → bucket_at j bs ≡ bucket_at j cs)
    → buckets_from n k bs ≡ buckets_from n k cs
buckets_from-eq zero k bs cs h = refl
buckets_from-eq (suc n) k bs cs h =
    rw (h k (omega arith), buckets_from-eq n (k + 60) bs cs (λ j l. h j (omega arith))) refl

filled-buckets_from :
    (n m now : ℕ) (bs : List Bucket)
    → Sorted bs
    → m + n * 60 ≤ now + 60
    → filled n m now bs ≡ buckets_from n m bs
filled-buckets_from zero m now bs s h = refl
filled-buckets_from (suc n) m now bs s h =
    let cursor = past m bs in
    let sorted = past-Sorted m bs s in
    let e : leb m now ≡ true = ground arith in
    rw
      (
        e,
        taken-bucket_at m cursor sorted (past-StartsAt m bs),
        past-bucket_at m m bs (omega arith),
        filled-buckets_from n (m + 60) now (taken m cursor).1 (taken-Sorted m cursor sorted)
            (omega arith),
        buckets_from-eq n (m + 60) (taken m cursor).1 bs
            (λ j l. taken-rest m j cursor (omega arith) ∙ past-bucket_at m j bs (omega arith)),
      )
      refl

-- The snapshot of a series whose minutes increase is the list of the buckets of the last minutes, one
-- for each minute of the window up to the current one, in order and with an empty bucket where
-- nothing was recorded. The window is at least one minute and at most 120, and the clock reads a time
-- at which the window lies after 1970.
pub snapshot-bucket_at :
    (minutes now : ℕ) (bs : List Bucket)
    → Sorted bs
    → (shown minutes - 1) * 60 ≤ minute_of now
    → snapshot minutes now bs
      ≡ buckets_from (shown minutes) (minute_of now - (shown minutes - 1) * 60) bs
unfolding snapshot
snapshot-bucket_at minutes now bs s h =
    filled-buckets_from (shown minutes) (minute_of now - (shown minutes - 1) * 60) (minute_of now)
      bs s (omega arith)
