-- ===== src/Dispatch/Submission.antt =====
-- src/dispatch.rs: `submit`, which delivers a message at once or puts it on the queue. The clock
-- reads `now` milliseconds.
pub mod Accepted
use smtp_relay.Prelude.{
  ℕ, ◌+◌, max, none, some, List, [], ◌++◌, Text, codes, length, is_empty, if◌then◌else◌, Result, ok,
  err,
}
use smtp_relay.Metrics.Counters.{Counters, inc, add}
use smtp_relay.Queue.Schedule.{QueuedMessage}
use smtp_relay.Queue.{Queue, EnqueueError, disabled, queue_full, enqueue}
use smtp_relay.Smtp.Session.{InboundMessage, SubmitOutcome, delivered, queued, rejected}
use smtp_relay.Dispatch.{
  World, DispatchConfig, SubmissionMode, queue_mode, direct, hybrid, AttemptOutcome, Round,
  not_queued, attempt_delivery,
}
use smtp_relay.Dispatch
use smtp_relay.Dispatch.Queueing.{Dispatcher}

abbrev pub counted_in : InboundMessage → Counters → Counters
counted_in m c = record c {
  messages_received = inc c.messages_received;
  recipients_total = add c.recipients_total (length m.recipients);
  bytes_received = add c.bytes_received (length m.raw);
}

abbrev pub code_of : EnqueueError → ℕ
code_of (queue_full capacity) = 452
code_of disabled = 451

module _ (world : World) (cfg : DispatchConfig) where
  unfoldable pub to_queued : ℕ → InboundMessage → QueuedMessage
  to_queued now m = record {
    id = m.id;
    sender = m.sender;
    recipients = m.recipients;
    original_from = world.original_from m;
    subject = world.subject m;
    client_ip = m.client_ip;
    helo = m.helo;
    received_at = now;
    attempts = 0;
    next_attempt_at = now;
    tried_relays = [];
    last_error = none;
    auth_user = m.auth_user;
    raw = m.raw;
  }

  abbrev pub after_enqueue :
      Dispatcher → Queue × Result (Unit {0}) EnqueueError → Dispatcher × SubmitOutcome
  after_enqueue d (q, ok _) =
      let c = d.counters in
      (
        record d { queue = q; counters = record c { queue_enqueued = inc c.queue_enqueued } },
        queued,
      )
  after_enqueue d (q, err e) =
      let c = d.counters in
      (
        record d { queue = q; counters = record c { messages_rejected = inc c.messages_rejected } },
        rejected (code_of e) (codes "4.3.1") (world.describe (not_queued e)),
      )

  -- `enqueue` of the dispatcher.
  unfoldable pub enqueue_new : QueuedMessage → Dispatcher → Dispatcher × SubmitOutcome
  unfolding enqueue
  enqueue_new m d = after_enqueue d (enqueue m d.queue)

  -- A refused retry is not counted among the rejected messages.
  abbrev pub after_retry :
      Dispatcher → Queue × Result (Unit {0}) EnqueueError → Dispatcher × SubmitOutcome
  after_retry d (q, ok _) =
      let c = d.counters in
      (
        record d { queue = q; counters = record c { queue_enqueued = inc c.queue_enqueued } },
        queued,
      )
  after_retry d (q, err e) =
      (record d { queue = q }, rejected 451 (codes "4.3.1") (world.describe (not_queued e)))

  unfoldable pub schedule_retry : ℕ → QueuedMessage → Dispatcher → Dispatcher × SubmitOutcome
  unfolding enqueue
  schedule_retry now m d =
      let due = now + world.backoff_for (max m.attempts 1) in
      after_retry d (enqueue (record m { next_attempt_at = due }) d.queue)

  abbrev pub left_by : Dispatcher → Round → Dispatcher
  left_by d s = record d { pool = s.pool; counters = s.counters }

  -- `Direct`: the client owns the retry.
  unfoldable pub answer_direct : Dispatcher → Round × AttemptOutcome → Dispatcher × SubmitOutcome
  answer_direct d (s, Dispatch.delivered relay_id response) =
      (left_by d s, delivered relay_id response)
  answer_direct d (s, Dispatch.deferred error) =
      (left_by d s, rejected 451 (codes "4.4.1") (codes "upstream relay unavailable: " ++ error))
  answer_direct d (s, Dispatch.failed error) = (
    left_by d s,
    rejected 550 (codes "5.7.1") (codes "upstream relay rejected the message: " ++ error),
  )

  -- `Hybrid`: a transient failure falls back to the queue.
  unfoldable pub answer_hybrid :
      ℕ → Dispatcher → Round × AttemptOutcome → Dispatcher × SubmitOutcome
  unfolding schedule_retry
  answer_hybrid now d (s, Dispatch.delivered relay_id response) =
      (left_by d s, delivered relay_id response)
  answer_hybrid now d (s, Dispatch.deferred error) =
      let m = s.message in schedule_retry now (record m { last_error = some error }) (left_by d s)
  answer_hybrid now d (s, Dispatch.failed error) = (
    left_by d s,
    rejected 550 (codes "5.7.1") (codes "upstream relay rejected the message: " ++ error),
  )

  unfoldable pub by_mode :
      SubmissionMode → ℕ → ℕ → QueuedMessage → Dispatcher → Dispatcher × SubmitOutcome
  unfolding enqueue_new answer_direct answer_hybrid attempt_delivery
  by_mode queue_mode now later m d = enqueue_new m d
  by_mode direct now later m d = answer_direct d (attempt_delivery world cfg d.pool d.counters m)
  by_mode hybrid now later m d =
      answer_hybrid later d (attempt_delivery world cfg d.pool d.counters m)

  -- A retry is scheduled at `later`.
  unfoldable pub submit : ℕ → ℕ → InboundMessage → Dispatcher → Dispatcher × SubmitOutcome
  unfolding to_queued by_mode
  submit now later inbound d =
      by_mode cfg.submission_mode now later (to_queued now inbound)
        (record d { counters = counted_in inbound d.counters })
