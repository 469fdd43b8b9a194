-- ===== src/Tests/Series.antt =====
-- A series with a gap of a minute.
use smtp_relay.Prelude.{◌≡◌, ◌-◌, ◌*◌, [], ◌∷◌, List, arith, ◌==◌, ◌&&◌, add_u64, if◌then◌else◌}
use smtp_relay.Metrics.Series.{Bucket, delivered, empty_bucket, sampled, record_sample, snapshot}
use smtp_relay.Metrics.Series.Snapshots.{
  bucket_at, buckets_from, shown, minute_of, snapshot-bucket_at,
}
use smtp_relay.Metrics.Series.Recording.{IsSeries}
use smtp_relay.Metrics.Series.Counting.{count_of, same, expires, record_sample-bucket_at}

abbrev gapped : List Bucket
gapped = empty_bucket 6000 ∷ sampled delivered (empty_bucket 6120) ∷ []

snapshot-bucket_at_example :
    snapshot 4 6190 gapped ≡ buckets_from (shown 4) (minute_of 6190 - (shown 4 - 1) * 60) gapped
snapshot-bucket_at_example =
    snapshot-bucket_at 4 6190 gapped ((omega arith, tt), (tt, tt)) (omega arith)

record_sample-bucket_at_example :
    IsSeries 6190 (record_sample 6190 delivered gapped)
    × (count_of delivered (bucket_at 6180 (record_sample 6190 delivered gapped)) ≡ (
        if (6180 == minute_of 6190) && same delivered delivered
        then add_u64 (count_of delivered (bucket_at 6180 gapped)) 1
        else if expires (minute_of 6190) 6180 gapped
        then 0
        else count_of delivered (bucket_at 6180 gapped)))
record_sample-bucket_at_example =
    record_sample-bucket_at 6190 6180 delivered delivered gapped (record {
      sorted = ((omega arith, tt), (tt, tt));
      reached = (omega arith, (omega arith, tt));
      bounded = omega arith;
    })
