-- ===== src/Dispatch/Submission/Accepted.antt =====
-- What the client's answer promises: an accepted message has been delivered, or it is safe.
use smtp_relay.Prelude.{
  ℕ, ◌+◌, ◌≡◌, refl, sym, not, some, List, inl, inr, arith, Bool-cases, Text, leb, max, Result, ok,
  err,
}
use smtp_relay.Metrics.Counters.{Counters, inc}
use smtp_relay.Queue.Schedule.{QueuedMessage}
use smtp_relay.Queue.{Queue, EnqueueError, depth, enqueue, schedule, write_spool}
use smtp_relay.Queue.Durability.{IsSaved, IsValid, IsNew, enqueue-IsValid, IsSaved-write_spool_self}
use smtp_relay.Queue.Recovery.{Contains, insert-Contains_self}
use smtp_relay.Smtp.Session.{InboundMessage, SubmitOutcome, delivered, queued, rejected}
use smtp_relay.Dispatch
use smtp_relay.Dispatch.{
  World, DispatchConfig, SubmissionMode, queue_mode, direct, hybrid, AttemptOutcome, Round,
  attempt_delivery, rounds,
}
use smtp_relay.Dispatch.Outcomes.{KeepsConfig, IsDone}
use smtp_relay.Dispatch.Rounds.{attempt_delivery-IsDone}
use smtp_relay.Dispatch.Queueing.{Dispatcher}
use smtp_relay.Dispatch.Submission.{
  counted_in, to_queued, after_enqueue, enqueue_new, after_retry, schedule_retry, left_by,
  answer_direct, answer_hybrid, by_mode, submit,
}

-- A message with this id and these bytes waits in the queue, with its files in the spool.
pub record IsSafe (id : Text) (raw : List ℕ) (q : Queue) : Type 0 where
  pub message : QueuedMessage
  pub same_id : message.id ≡ id
  pub same_raw : message.raw ≡ raw
  pub waits : Contains message q.scheduled
  pub saved : IsSaved q id

-- What an answer promises, given how many deliveries were counted before.
abbrev pub Promise : Text → List ℕ → ℕ → Dispatcher → SubmitOutcome → Type 0
Promise id raw before d (delivered relay_id response) = d.counters.messages_delivered ≡ inc before
Promise id raw before d queued = IsSafe id raw d.queue
Promise id raw before d (rejected code enhanced message) = d.counters.messages_delivered ≡ before

record Keeps (id : Text) (raw : List ℕ) (before : ℕ) (res : Dispatcher × SubmitOutcome)
    : Type 0 where
  valid : IsValid res.0.queue
  promise : Promise id raw before res.0 res.1

enqueued-IsSafe :
    (m : QueuedMessage) (q : Queue) → IsValid q → IsSafe m.id m.raw (write_spool m (schedule m q))
unfolding write_spool schedule
enqueued-IsSafe m q v = record {
  message = m;
  same_id = refl;
  same_raw = refl;
  waits = ground (
    arith,
    insert-Contains_self (record { due = m.next_attempt_at; number = q.sequence }) m q.scheduled,
  );
  saved = IsSaved-write_spool_self m (schedule m q) v.persistent;
}

-- What `Queue::enqueue` returns with the queue that it leaves.
abbrev Enqueued : QueuedMessage → Queue × Result (Unit {0}) EnqueueError → Type 0
Enqueued m (q, ok _) = IsSafe m.id m.raw q
Enqueued m (q, err e) = Unit

enqueue-Enqueued : (m : QueuedMessage) (q : Queue) → IsValid q → Enqueued m (enqueue m q)
unfolding enqueue
enqueue-Enqueued m q v = elim (Bool-cases (not q.enabled)) [
  | inl a ↦ rw a tt
  | inr a ↦ elim (Bool-cases (leb q.capacity (depth q))) [
    | inl b ↦ rw (a, b) tt
    | inr b ↦ rw (a, b) (enqueued-IsSafe m q v)
  ]
]

after_enqueue-Keeps :
    (world : World) (cfg : DispatchConfig) (m : QueuedMessage) (d : Dispatcher)
    (res : Queue × Result (Unit {0}) EnqueueError)
    → IsValid res.0
    → Enqueued m res
    → Keeps m.id m.raw d.counters.messages_delivered (after_enqueue world cfg d res)
after_enqueue-Keeps world cfg m d (q, ok _) v s = record { valid = v; promise = s }
after_enqueue-Keeps world cfg m d (q, err e) v s = record { valid = v; promise = refl }

after_retry-Keeps :
    (world : World) (cfg : DispatchConfig) (m : QueuedMessage) (d : Dispatcher)
    (res : Queue × Result (Unit {0}) EnqueueError)
    → IsValid res.0
    → Enqueued m res
    → Keeps m.id m.raw d.counters.messages_delivered (after_retry world cfg d res)
after_retry-Keeps world cfg m d (q, ok _) v s = record { valid = v; promise = s }
after_retry-Keeps world cfg m d (q, err e) v s = record { valid = v; promise = refl }

-- After a delivery round that started with these counters and this message.
answer_direct-Keeps :
    (world : World) (cfg : DispatchConfig) (c : Counters) (m : QueuedMessage) (limit : ℕ)
    (d : Dispatcher) (s : Round) (o : AttemptOutcome)
    → IsValid d.queue
    → IsDone c m limit (s, o)
    → Keeps m.id m.raw c.messages_delivered (answer_direct world cfg d (s, o))
unfolding answer_direct
answer_direct-Keeps world cfg c m limit d s (Dispatch.delivered i r) v done = record {
  valid = v;
  promise = done.counted.0;
}
answer_direct-Keeps world cfg c m limit d s (Dispatch.deferred e) v done = record {
  valid = v;
  promise = done.counted.0;
}
answer_direct-Keeps world cfg c m limit d s (Dispatch.failed e) v done = record {
  valid = v;
  promise = done.counted.0;
}

schedule_retry-Keeps :
    (world : World) (cfg : DispatchConfig) (now : ℕ) (m : QueuedMessage) (d : Dispatcher)
    → IsNew d.queue m.id
    → IsValid d.queue
    → Keeps m.id m.raw d.counters.messages_delivered (schedule_retry world cfg now m d)
unfolding schedule_retry
schedule_retry-Keeps world cfg now m d n v =
    let later : QueuedMessage = record m {
      next_attempt_at = now + world.backoff_for (max m.attempts 1);
    } in
    after_retry-Keeps world cfg later d (enqueue later d.queue) (enqueue-IsValid later d.queue n v)
      (enqueue-Enqueued later d.queue v)

answer_hybrid-Keeps :
    (world : World) (cfg : DispatchConfig) (now : ℕ) (c : Counters) (m : QueuedMessage) (limit : ℕ)
    (d : Dispatcher) (s : Round) (o : AttemptOutcome)
    → IsNew d.queue m.id
    → IsValid d.queue
    → IsDone c m limit (s, o)
    → Keeps m.id m.raw c.messages_delivered (answer_hybrid world cfg now d (s, o))
unfolding answer_hybrid
answer_hybrid-Keeps world cfg now c m limit d s (Dispatch.delivered i r) n v done = record {
  valid = v;
  promise = done.counted.0;
}
answer_hybrid-Keeps world cfg now c m limit d s (Dispatch.failed e) n v done = record {
  valid = v;
  promise = done.counted.0;
}
answer_hybrid-Keeps world cfg now c m limit d s (Dispatch.deferred e) n v done =
    let kept =
      schedule_retry-Keeps world cfg now (record (s.message) { last_error = some e })
        (left_by world cfg d s) (rw done.same_id n) v in
    rw (sym done.same_id, sym done.same_raw, sym (done.counted.0)) kept

by_mode-Keeps :
    (world : World) (cfg : DispatchConfig) (mode : SubmissionMode) (now later : ℕ)
    (m : QueuedMessage) (d : Dispatcher)
    → KeepsConfig world
    → IsNew d.queue m.id
    → IsValid d.queue
    → Keeps m.id m.raw d.counters.messages_delivered (by_mode world cfg mode now later m d)
unfolding by_mode enqueue_new
by_mode-Keeps world cfg queue_mode now later m d keeps n v =
    after_enqueue-Keeps world cfg m d (enqueue m d.queue) (enqueue-IsValid m d.queue n v)
      (enqueue-Enqueued m d.queue v)
by_mode-Keeps world cfg direct now later m d keeps n v =
    answer_direct-Keeps world cfg d.counters _ (rounds world cfg) d _ _ v
      (attempt_delivery-IsDone world cfg d.pool d.counters m keeps)
by_mode-Keeps world cfg hybrid now later m d keeps n v =
    answer_hybrid-Keeps world cfg later d.counters _ (rounds world cfg) d _ _ n v
      (attempt_delivery-IsDone world cfg d.pool d.counters m keeps)

-- When `submit` answers that the message has been delivered, one more delivery has been counted;
-- when it answers that the message is queued, the message waits in the queue with its id and its
-- bytes, and its metadata and its body are in the spool; when it rejects, no delivery is counted.
-- The queue stays valid. The queue is valid and persists, the id is new to it, and other tasks do
-- not change the relays' settings.
pub submit-Promise :
    (world : World) (cfg : DispatchConfig) (now later : ℕ) (inbound : InboundMessage)
    (d : Dispatcher)
    → KeepsConfig world
    → IsNew d.queue inbound.id
    → IsValid d.queue
    → IsValid (submit world cfg now later inbound d).0.queue
      × Promise inbound.id inbound.raw d.counters.messages_delivered
          (submit world cfg now later inbound d).0
          (submit world cfg now later inbound d).1
unfolding submit to_queued
submit-Promise world cfg now later inbound d keeps n v =
    let c = d.counters in
    let k =
      by_mode-Keeps world cfg cfg.submission_mode now later (to_queued world cfg now inbound)
        (record d { counters = counted_in inbound c }) keeps n v in
    (k.valid, k.promise)
