-- ===== src/Metrics/Series/Counting.antt =====
-- The counts of every minute after a sample has been recorded.
use smtp_relay.Prelude.{
  ℕ, suc, ◌≡◌, ◌≤◌, ◌<◌, refl, ◌∙◌, true, false, List, [], ◌∷◌, ◌++◌, length, ltb, leb, ◌==◌, ◌&&◌,
  Bool, not, any, add_u64, if◌then◌else◌, inl, inr, arith, Bool-cases, All, All-mono, length-append,
  ==_iff,
}
use smtp_relay.Metrics.Series.{
  Bucket, Sample, empty_bucket, sampled, needs_new, update_back, shortened, record_sample, received,
  delivered, failed, deferred, series_minutes,
}
use smtp_relay.Metrics.Series.Snapshots.{bucket_at, bucket_at-above, Sorted, minute_of}
use smtp_relay.Metrics.Series.Recording.{
  IsSeries, needs_new-before, needs_new-shortened, needs_new-snoc, sampled-minute,
  record_sample-current,
}

-- One of the four counts of a bucket.
abbrev pub count_of : Sample → Bucket → ℕ
count_of received b = b.received
count_of delivered b = b.delivered
count_of failed b = b.failed
count_of deferred b = b.deferred

abbrev pub same : Sample → Sample → Bool
same received received = true
same delivered delivered = true
same failed failed = true
same deferred deferred = true
same _ _ = false

-- A full series in which nothing was recorded in the minute `m` yet loses its oldest bucket.
abbrev pub expires : ℕ → ℕ → List Bucket → Bool
expires m k [] = false
expires m k (b ∷ bs) =
    b.minute == k && leb series_minutes (length (b ∷ bs)) && not (any (λ c. c.minute == m) (b ∷ bs))

sampled-count_of :
    (other sample : Sample) (b : Bucket)
    → count_of other (sampled sample b)
      ≡ (if same other sample then add_u64 (count_of other b) 1 else count_of other b)
sampled-count_of received received b = refl
sampled-count_of received delivered b = refl
sampled-count_of received failed b = refl
sampled-count_of received deferred b = refl
sampled-count_of delivered received b = refl
sampled-count_of delivered delivered b = refl
sampled-count_of delivered failed b = refl
sampled-count_of delivered deferred b = refl
sampled-count_of failed received b = refl
sampled-count_of failed delivered b = refl
sampled-count_of failed failed b = refl
sampled-count_of failed deferred b = refl
sampled-count_of deferred received b = refl
sampled-count_of deferred delivered b = refl
sampled-count_of deferred failed b = refl
sampled-count_of deferred deferred b = refl

-- The other minutes' buckets stay.
update_back-others :
    (m k : ℕ) (sample : Sample) (bs : List Bucket)
    → needs_new m bs ≡ false
    → (k == m) ≡ false
    → bucket_at k (update_back (sampled sample) bs) ≡ bucket_at k bs
update_back-others m k sample [] e n = refl
update_back-others m k sample (b ∷ []) e n =
    let f : (b.minute == k) ≡ false = ground arith in rw (sampled-minute sample b, f) refl
update_back-others m k sample (b ∷ c ∷ bs) e n =
    ground (arith, update_back-others m k sample (c ∷ bs) e n)

bucket_at-snoc :
    (m k : ℕ) (bs : List Bucket)
    → (k == m) ≡ false
    → bucket_at k (bs ++ (empty_bucket m ∷ [])) ≡ bucket_at k bs
bucket_at-snoc m k [] n = ground arith
bucket_at-snoc m k (b ∷ bs) n = ground (arith, bucket_at-snoc m k bs n)

shortened-short : (bs : List Bucket) → length bs ≤ series_minutes → shortened bs ≡ bs
shortened-short [] h = refl
shortened-short (b ∷ bs) h =
    let e : ltb series_minutes (length (b ∷ bs)) ≡ false = ground arith in rw e refl

absent :
    (m : ℕ) (bs : List Bucket) → All (λ b. b.minute < m) bs → any (λ c. c.minute == m) bs ≡ false
absent m [] h = refl
absent m (b ∷ bs) (h, hs) = ground (arith, absent m bs hs)

present : (m : ℕ) (bs : List Bucket) → needs_new m bs ≡ false → any (λ c. c.minute == m) bs ≡ true
present m [] e = absurd (ground arith)
present m (b ∷ []) e = ground arith
present m (b ∷ c ∷ bs) e = ground (arith, present m (c ∷ bs) e)

-- Of a series without the minute `m`, the oldest bucket goes when it is full.
shortened-others :
    (m k : ℕ) (bs : List Bucket)
    → Sorted bs
    → All (λ b. b.minute < m) bs
    → length bs ≤ series_minutes
    → (k == m) ≡ false
    → bucket_at k (shortened (bs ++ (empty_bucket m ∷ [])))
      ≡ (if expires m k bs then empty_bucket k else bucket_at k bs)
shortened-others m k [] s h l n = ground arith
shortened-others m k (b ∷ bs) s h l n =
    let longer = bs ++ (empty_bucket m ∷ []) in
    let size : length longer ≡ suc (length bs) =
      length-append bs (empty_bucket m ∷ []) ∙ omega arith in
    elim (Bool-cases (ltb series_minutes (length (b ∷ longer)))) [
      | inl e ↦
          let full : leb series_minutes (length (b ∷ bs)) ≡ true = ground arith in
          rw
            (
              e,
              shortened-short longer (omega arith),
              bucket_at-snoc m k bs n,
              full,
              absent m (b ∷ bs) h,
            )
            (elim (Bool-cases (b.minute == k)) [
              | inl f ↦ rw f (
                  bucket_at-above k bs
                    (All-mono bs (λ c (g : b.minute < c.minute). ground arith) s.0))
              | inr f ↦ rw f refl
            ])
      | inr e ↦
          let room : leb series_minutes (length (b ∷ bs)) ≡ false = ground arith in
          rw (e, room) (ground (arith, bucket_at-snoc m k (b ∷ bs) n))
    ]

expires-present :
    (m k : ℕ) (bs : List Bucket) → any (λ c. c.minute == m) bs ≡ true → expires m k bs ≡ false
expires-present m k [] h = refl
expires-present m k (b ∷ bs) h = ground arith

expires-current : (m : ℕ) (bs : List Bucket) → expires m m bs ≡ false
expires-current m [] = refl
expires-current m (b ∷ bs) = ground arith

record_sample-others :
    (now k : ℕ) (sample : Sample) (bs : List Bucket)
    → IsSeries now bs
    → (k == minute_of now) ≡ false
    → bucket_at k (record_sample now sample bs)
      ≡ (if expires (minute_of now) k bs then empty_bucket k else bucket_at k bs)
unfolding record_sample
record_sample-others now k sample bs v n =
    let m = minute_of now in
    elim (Bool-cases (needs_new m bs)) [
      | inr e ↦
          rw (e, expires-present m k bs (present m bs e)) (update_back-others m k sample bs e n)
      | inl e ↦
          let longer = bs ++ (empty_bucket m ∷ []) in
          let before = needs_new-before m bs v.sorted v.reached e in
          rw e (
            update_back-others m k sample (shortened longer)
              (needs_new-shortened m longer (needs_new-snoc m bs)) n
            ∙ shortened-others m k bs v.sorted before v.bounded n)
    ]

-- After a sample has been recorded, each of the four counts of each minute is known: the count of
-- the sample in the current minute is one more, as a 64-bit number; those of the oldest minute are
-- gone when the series was full and had no bucket of the current minute; all others are as before.
-- The series stays one: its minutes increase, none is later than the current minute, and there are
-- at most 120 buckets. No bucket was later than the current minute before.
pub record_sample-bucket_at :
    (now k : ℕ) (sample other : Sample) (bs : List Bucket)
    → IsSeries now bs
    → IsSeries now (record_sample now sample bs)
      × (count_of other (bucket_at k (record_sample now sample bs)) ≡ (
          if (k == minute_of now) && same other sample
          then add_u64 (count_of other (bucket_at k bs)) 1
          else if expires (minute_of now) k bs
          then 0
          else count_of other (bucket_at k bs)))
record_sample-bucket_at now k sample other bs v =
    let m = minute_of now in
    let (valid, current) = record_sample-current now sample bs v in
    (
      valid,
      elim (Bool-cases (k == m)) [
        | inl e ↦
            let here : k ≡ m = (==_iff k m).0 e in
            rw (e, here, current, expires-current m bs)
              (sampled-count_of other sample (bucket_at m bs))
        | inr e ↦
            rw (e, record_sample-others now k sample bs v e)
              (count_of-if other k (expires m k bs) (bucket_at k bs))
      ],
    )
  where
    count_of-if :
        (other : Sample) (k : ℕ) (gone : Bool) (b : Bucket)
        → count_of other (if gone then empty_bucket k else b)
          ≡ (if gone then 0 else count_of other b)
    count_of-if received k true b = refl
    count_of-if delivered k true b = refl
    count_of-if failed k true b = refl
    count_of-if deferred k true b = refl
    count_of-if other k false b = refl
