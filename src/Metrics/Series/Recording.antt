-- ===== src/Metrics/Series/Recording.antt =====
-- What a recorded sample does to the series.
use smtp_relay.Prelude.{
  ℕ, suc, ◌≡◌, ◌≤◌, ◌<◌, refl, sym, ap, ◌∙◌, true, false, List, [], ◌∷◌, ◌++◌, length, ltb, ◌==◌,
  inl, inr, arith, Bool-cases, All,
}
use smtp_relay.Metrics.Series.{
  Bucket, Sample, empty_bucket, current_minute, sampled, needs_new, update_back, shortened,
  record_sample, received, delivered, failed, deferred, series_minutes,
}
use smtp_relay.Metrics.Series.Snapshots.{bucket_at, Sorted, minute_of}

-- Recording keeps this: the minutes increase, none is later than the current one, and there are at
-- most 120.
pub record IsSeries (now : ℕ) (bs : List Bucket) : Type 0 where
  pub sorted : Sorted bs
  pub reached : All (λ b. b.minute ≤ minute_of now) bs
  pub bounded : length bs ≤ 120

-- No bucket is the current minute's when the last one is not.
pub needs_new-before :
    (m : ℕ) (bs : List Bucket)
    → Sorted bs
    → All (λ b. b.minute ≤ m) bs
    → needs_new m bs ≡ true
    → All (λ b. b.minute < m) bs
needs_new-before m [] s r e = tt
needs_new-before m (b ∷ []) s r e = (ground arith, tt)
needs_new-before m (b ∷ c ∷ bs) s r e =
    let later = needs_new-before m (c ∷ bs) s.1 r.1 e in (omega (arith, s.0.0, later.0), later)

Sorted-snoc :
    (bs : List Bucket) (b : Bucket)
    → Sorted bs
    → All (λ c. c.minute < b.minute) bs
    → Sorted (bs ++ (b ∷ []))
Sorted-snoc [] b s h = (tt, tt)
Sorted-snoc (c ∷ bs) b s h = (snoc bs s.0, Sorted-snoc bs b s.1 h.1)
  where
    snoc :
        (ds : List Bucket)
        → All (λ d. c.minute < d.minute) ds
        → All (λ d. c.minute < d.minute) (ds ++ (b ∷ []))
    snoc [] k = (h.0, tt)
    snoc (d ∷ ds) k = (k.0, snoc ds k.1)

shortened-Sorted : (bs : List Bucket) → Sorted bs → Sorted (shortened bs)
shortened-Sorted [] s = tt
shortened-Sorted (b ∷ bs) s = elim (Bool-cases (ltb series_minutes (length (b ∷ bs)))) [
  | inl e ↦ rw e (shortened-Sorted bs s.1)
  | inr e ↦ rw e s
]

length-shortened : (bs : List Bucket) → length (shortened bs) ≤ series_minutes
length-shortened [] = omega arith
length-shortened (b ∷ bs) = elim (Bool-cases (ltb series_minutes (length (b ∷ bs)))) [
  | inl e ↦ rw e (length-shortened bs)
  | inr e ↦ rw e (ground arith)
]

-- The last bucket stays, since fewer than 120 are dropped.
pub needs_new-shortened :
    (m : ℕ) (bs : List Bucket) → needs_new m bs ≡ false → needs_new m (shortened bs) ≡ false
needs_new-shortened m [] e = e
needs_new-shortened m (b ∷ []) e = e
needs_new-shortened m (b ∷ c ∷ bs) e =
    elim (Bool-cases (ltb series_minutes (length (b ∷ c ∷ bs)))) [
      | inl f ↦ rw f (needs_new-shortened m (c ∷ bs) e)
      | inr f ↦ rw f e
    ]

pub needs_new-snoc : (m : ℕ) (bs : List Bucket) → needs_new m (bs ++ (empty_bucket m ∷ [])) ≡ false
needs_new-snoc m [] = ground arith
needs_new-snoc m (b ∷ []) = ground arith
needs_new-snoc m (b ∷ c ∷ bs) = needs_new-snoc m (c ∷ bs)

length-update_back :
    (f : Bucket → Bucket) (bs : List Bucket) → length (update_back f bs) ≡ length bs
length-update_back f [] = refl
length-update_back f (b ∷ []) = refl
length-update_back f (b ∷ c ∷ bs) = ap suc (length-update_back f (c ∷ bs))

pub sampled-minute : (sample : Sample) (b : Bucket) → (sampled sample b).minute ≡ b.minute
sampled-minute received b = refl
sampled-minute delivered b = refl
sampled-minute failed b = refl
sampled-minute deferred b = refl

update_back-All :
    (P : ℕ → Type 0) (sample : Sample) (bs : List Bucket)
    → All (λ b. P b.minute) bs
    → All (λ b. P b.minute) (update_back (sampled sample) bs)
update_back-All P sample [] h = tt
update_back-All P sample (b ∷ []) h = (rw (sampled-minute sample b) h.0, tt)
update_back-All P sample (b ∷ c ∷ bs) h = (h.0, update_back-All P sample (c ∷ bs) h.1)

update_back-Sorted :
    (sample : Sample) (bs : List Bucket) → Sorted bs → Sorted (update_back (sampled sample) bs)
update_back-Sorted sample [] s = tt
update_back-Sorted sample (b ∷ []) s = (tt, tt)
update_back-Sorted sample (b ∷ c ∷ bs) s = (
  update_back-All (λ m. b.minute < m) sample (c ∷ bs) s.0,
  update_back-Sorted sample (c ∷ bs) s.1,
)

last-above :
    (k m : ℕ) (bs : List Bucket) → needs_new m bs ≡ false → All (λ b. k < b.minute) bs → k < m
last-above k m [] e h = absurd (ground arith)
last-above k m (b ∷ []) e h = ground arith
last-above k m (b ∷ c ∷ bs) e h = last-above k m (c ∷ bs) e h.1

update_back-bucket_at :
    (m : ℕ) (sample : Sample) (bs : List Bucket)
    → Sorted bs
    → needs_new m bs ≡ false
    → bucket_at m (update_back (sampled sample) bs) ≡ sampled sample (bucket_at m bs)
update_back-bucket_at m sample [] s e = absurd (ground arith)
update_back-bucket_at m sample (b ∷ []) s e =
    let f : (b.minute == m) ≡ true = ground arith in rw (sampled-minute sample b, f) refl
update_back-bucket_at m sample (b ∷ c ∷ bs) s e =
    let l = last-above b.minute m (c ∷ bs) e s.0 in
    let f : (b.minute == m) ≡ false = ground arith in
    rw f (update_back-bucket_at m sample (c ∷ bs) s.1 e)

shortened-All :
    (P : ℕ → Type 0) (bs : List Bucket)
    → All (λ b. P b.minute) bs
    → All (λ b. P b.minute) (shortened bs)
shortened-All P [] h = tt
shortened-All P (b ∷ bs) h = elim (Bool-cases (ltb series_minutes (length (b ∷ bs)))) [
  | inl e ↦ rw e (shortened-All P bs h.1)
  | inr e ↦ rw e h
]

reached-snoc :
    (m : ℕ) (bs : List Bucket)
    → All (λ b. b.minute ≤ m) bs
    → All (λ b. b.minute ≤ m) (bs ++ (empty_bucket m ∷ []))
reached-snoc m [] h = (omega arith, tt)
reached-snoc m (b ∷ bs) h = (h.0, reached-snoc m bs h.1)

shortened-bucket_at :
    (m : ℕ) (bs : List Bucket)
    → All (λ b. b.minute < m) bs
    → bucket_at m (shortened (bs ++ (empty_bucket m ∷ []))) ≡ empty_bucket m
shortened-bucket_at m [] h = ground arith
shortened-bucket_at m (b ∷ bs) h =
    elim (Bool-cases (ltb series_minutes (length (b ∷ (bs ++ (empty_bucket m ∷ [])))))) [
      | inl e ↦ rw e (shortened-bucket_at m bs h.1)
      | inr e ↦
          let f : (b.minute == m) ≡ false = let l = h.0 in ground arith in
          rw (e, f) (empty-snoc bs h.1)
    ]
  where
    empty-snoc :
        (cs : List Bucket)
        → All (λ c. c.minute < m) cs
        → bucket_at m (cs ++ (empty_bucket m ∷ [])) ≡ empty_bucket m
    empty-snoc [] k = ground arith
    empty-snoc (c ∷ cs) k =
        let f : (c.minute == m) ≡ false = let l = k.0 in ground arith in rw f (empty-snoc cs k.1)

bucket_at-below :
    (m : ℕ) (bs : List Bucket) → All (λ c. c.minute < m) bs → bucket_at m bs ≡ empty_bucket m
bucket_at-below m [] h = refl
bucket_at-below m (b ∷ bs) (h, hs) = ground (arith, bucket_at-below m bs hs)

-- The bucket of the current minute is sampled, and the series stays one.
pub record_sample-current :
    (now : ℕ) (sample : Sample) (bs : List Bucket)
    → IsSeries now bs
    → IsSeries now (record_sample now sample bs)
      × (bucket_at (current_minute now) (record_sample now sample bs)
          ≡ sampled sample (bucket_at (current_minute now) bs))
unfolding record_sample
record_sample-current now sample bs v =
    let m = current_minute now in
    elim (Bool-cases (needs_new m bs)) [
      | inr e ↦ rw e (updated bs v.sorted v.reached v.bounded e refl)
      | inl e ↦
          let before = needs_new-before m bs v.sorted v.reached e in
          let longer = bs ++ (empty_bucket m ∷ []) in
          rw e (
            updated (shortened longer)
              (shortened-Sorted longer (Sorted-snoc bs (empty_bucket m) v.sorted before))
              (shortened-All (λ k. k ≤ m) longer (reached-snoc m bs v.reached))
              (length-shortened longer) (needs_new-shortened m longer (needs_new-snoc m bs))
              (shortened-bucket_at m bs before ∙ sym (bucket_at-below m bs before)))
    ]
  where
    updated :
        (cs : List Bucket)
        → Sorted cs
        → All (λ b. b.minute ≤ current_minute now) cs
        → length cs ≤ series_minutes
        → needs_new (current_minute now) cs ≡ false
        → bucket_at (current_minute now) cs ≡ bucket_at (current_minute now) bs
        → IsSeries now (update_back (sampled sample) cs)
          × (bucket_at (current_minute now) (update_back (sampled sample) cs)
              ≡ sampled sample (bucket_at (current_minute now) bs))
    updated cs s r b e q = (
      record {
        sorted = update_back-Sorted sample cs s;
        reached = update_back-All (λ k. k ≤ current_minute now) sample cs r;
        bounded = rw (length-update_back (sampled sample) cs) b;
      },
      update_back-bucket_at (current_minute now) sample cs s e ∙ ap (sampled sample) q,
    )
