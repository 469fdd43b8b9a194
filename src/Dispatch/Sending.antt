-- ===== src/Dispatch/Sending.antt =====
-- The try at one relay, from the rewriting of the message to the relay's answer.
use smtp_relay.Prelude.{
  ℕ, suc, ◌≡◌, true, false, [], ◌∷◌, ◌++◌, inl, inr, arith, Bool-cases, Result-cases, Text,
  length-append, Result, ok, err,
}
use smtp_relay.Failure.{DeliveryError, should_retry}
use smtp_relay.Metrics.Counters.{Counters}
use smtp_relay.Queue.Schedule.{QueuedMessage}
use smtp_relay.Relay.Runtime.{RelayRuntime}
use smtp_relay.Relay.Pool.{mentions}
use smtp_relay.Dispatch.{
  World, DispatchConfig, Rewritten, DeliveryReport, Reason, sending, AttemptOutcome, Round, on_all,
  noted, finish_deferred, finish_failed, after_send, send,
}
use smtp_relay.Dispatch.Outcomes.{Distinct-snoc, IsDone, IsUnderWay, All-snoc}

module _ (world : World) (cfg : DispatchConfig) (c : Counters) (m : QueuedMessage) (limit : ℕ) where
  pub finish_deferred-IsDone :
      (n : ℕ) (reason : Reason) (s : Round)
      → IsUnderWay c m limit n s
      → IsDone c m limit (finish_deferred world cfg reason s)
  unfolding finish_deferred
  finish_deferred-IsDone n reason s v =
      let few = v.few in
      let a = v.no_delivered in
      let b = v.no_failed in
      let d = v.no_deferred in
      record {
        distinct = v.distinct;
        few = omega arith;
        counted = ground arith;
        same_id = v.same_id;
        same_attempts = v.same_attempts;
        same_raw = v.same_raw;
      }

  pub finish_failed-IsDone :
      (n : ℕ) (reason : Reason) (s : Round)
      → IsUnderWay c m limit n s
      → IsDone c m limit (finish_failed world cfg reason s)
  unfolding finish_failed
  finish_failed-IsDone n reason s v =
      let few = v.few in
      let a = v.no_delivered in
      let b = v.no_failed in
      let d = v.no_deferred in
      record {
        distinct = v.distinct;
        few = omega arith;
        counted = ground arith;
        same_id = v.same_id;
        same_attempts = v.same_attempts;
        same_raw = v.same_raw;
      }

  -- The next try does what a round should.
  abbrev pub Continues : ℕ → (Round → Round × AttemptOutcome) → Type 0
  Continues n go = (s : Round) → IsUnderWay c m limit n s → IsDone c m limit (go s)

  pub after_send-IsDone :
      (go : Round → Round × AttemptOutcome) (n i : ℕ) (id : Text) (rewritten : Rewritten)
      (s : Round) (answer : Result DeliveryReport DeliveryError)
      → Continues n go
      → IsUnderWay c m limit n s
      → IsDone c m limit (after_send world cfg go n i id rewritten s answer)
  unfolding after_send
  after_send-IsDone go n i id rewritten s (ok report) f v =
      let few = v.few in
      let a = v.no_delivered in
      let b = v.no_failed in
      let d = v.no_deferred in
      record {
        distinct = v.distinct;
        few = omega arith;
        counted = ground arith;
        same_id = v.same_id;
        same_attempts = v.same_attempts;
        same_raw = v.same_raw;
      }
  after_send-IsDone go n i id rewritten s (err e) f v = elim (Bool-cases (should_retry e)) [
    | inr a ↦ rw a (finish_failed-IsDone n _ _ v)
    | inl a ↦ elim (Bool-cases cfg.fallback_on_failure) [
      | inl b ↦ rw (a, b) (f _ v)
      | inr b ↦ rw (a, b) (finish_deferred-IsDone n _ _ v)
    ]
  ]

  -- A send to a relay that has just been noted as tried.
  pub send-IsDone :
      (go : Round → Round × AttemptOutcome) (n i : ℕ) (r : RelayRuntime) (s : Round)
      → Continues n go
      → mentions s.sends r.config.id ≡ false
      → mentions s.attempted r.config.id ≡ true
      → IsUnderWay c m limit (suc n) s
      → IsDone c m limit (send world cfg go n i r.config s)
  unfolding send
  send-IsDone go n i r s f new noted v = elim (Result-cases (world.rewrite r.config s.message)) [
    | inr (error, e) ↦ rw (e, send) (finish_failed-IsDone (suc n) _ _ v)
    | inl (rewritten, e) ↦
        let few = v.few in
        let longer = length-append s.sends (r.config.id ∷ []) in
        rw (e, send)
          (after_send-IsDone go n i r.config.id rewritten
            (record s {
              pool = on_all (world.others sending n) s.pool;
              sends = s.sends ++ (r.config.id ∷ []);
            })
            (world.deliver n r.config rewritten s.message.recipients) f
            (record {
              among = All-snoc _ s.sends r.config.id v.among noted;
              distinct = Distinct-snoc s.sends r.config.id v.distinct new;
              few = omega arith;
              no_delivered = v.no_delivered;
              no_failed = v.no_failed;
              no_deferred = v.no_deferred;
              same_id = v.same_id;
              same_attempts = v.same_attempts;
              same_raw = v.same_raw;
            }))
  ]
