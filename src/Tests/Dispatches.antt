-- ===== src/Tests/Dispatches.antt =====
-- The dispatcher with a pool of two relays, the first of which defers: rounds, turns of the worker,
-- and a submission.
use smtp_relay.Prelude.{
  ◌+◌, ◌*◌, ◌≤◌, refl, true, none, [], ◌∷◌, map, codes, arith, add_u32, ok, err,
}
use smtp_relay.Failure.{transient_error}
use smtp_relay.Metrics.Counters.{Counters}
use smtp_relay.Prelude.Assoc.{lookup}
use smtp_relay.Queue.{new, enqueue}
use smtp_relay.Queue.Schedule
use smtp_relay.Queue.Schedule.{QueuedMessage}
use smtp_relay.Queue.Durability.{IsValid, enqueue-IsValid}
use smtp_relay.Queue.History.{new-IsValid}
use smtp_relay.Smtp.Session.{InboundMessage}
use smtp_relay.Dispatch.{World, DispatchConfig, hybrid, attempt_delivery, rounds}
use smtp_relay.Dispatch.Queueing.{Dispatcher}
use smtp_relay.Dispatch.Queueing.Retries.{run, budget, run-budget}
use smtp_relay.Dispatch.Outcomes.{IsDone}
use smtp_relay.Dispatch.Rounds.{attempt_delivery-IsDone}
use smtp_relay.Dispatch.Submission.{submit}
use smtp_relay.Dispatch.Submission.Accepted.{Promise, submit-Promise}
use smtp_relay.Tests.Relays.{pool, hash, moment, health}
use smtp_relay.Tests.Queues.{settings, message}

abbrev zeros : Counters
zeros = record {
  connections_total = 0;
  connections_active = 0;
  connections_rejected = 0;
  sessions_timed_out = 0;
  messages_received = 0;
  messages_delivered = 0;
  messages_failed = 0;
  messages_deferred = 0;
  messages_dead = 0;
  messages_rejected = 0;
  recipients_total = 0;
  bytes_received = 0;
  bytes_delivered = 0;
  auth_success = 0;
  auth_failure = 0;
  queue_enqueued = 0;
  queue_retries = 0;
  routing_no_relay_available = 0;
  rewrite_errors = 0;
  validation_passed = 0;
  validation_skipped = 0;
}

abbrev world : World
world = record {
  clock = λ stage n. moment;
  others = λ stage n r. r;
  hash = hash;
  filter_recipients = λ rs. map (λ r. record { address = r; deliver = true }) rs;
  rewrite = λ relay m. ok (record { raw = m.raw; envelope_from = m.sender });
  deliver = λ n relay rewritten rs. err (transient_error (codes "greylisted"));
  backoff_for = λ n. 60000 * n;
  describe = λ reason. codes "deferred";
  original_from = λ m. m.sender;
  subject = λ m. none;
}

abbrev config : DispatchConfig
config = record {
  submission_mode = hybrid;
  validation_enabled = true;
  max_attempts_per_message = 3;
  fallback_on_failure = true;
  health = health;
  max_attempts = 5;
}

attempt_delivery-IsDone_example :
    IsDone zeros
      (record message { attempts = add_u32 message.attempts 1 })
      (rounds world config)
      (attempt_delivery world config pool zeros message)
attempt_delivery-IsDone_example =
    attempt_delivery-IsDone world config pool zeros message (λ stage n r. refl)

abbrev started : Dispatcher
started = record { pool = pool; queue = (enqueue message (new settings true)).0; counters = zeros }

started-IsValid : IsValid started.queue
unfolding new lookup
started-IsValid =
    enqueue-IsValid message (new settings true) (refl, refl) (new-IsValid settings refl)

run-budget_example :
    IsValid (run config ((world, 2000, 3000) ∷ (world, 2500, 4000) ∷ []) started).0.queue
    × ((run config ((world, 2000, 3000) ∷ (world, 2500, 4000) ∷ []) started).1
          + budget config.max_attempts
              (run config
                ((world, 2000, 3000) ∷ (world, 2500, 4000) ∷ [])
                started).0.queue.scheduled
        ≤ budget config.max_attempts started.queue.scheduled)
unfolding enqueue new Schedule.insert
run-budget_example =
    run-budget config ((world, 2000, 3000) ∷ (world, 2500, 4000) ∷ []) started (omega arith)
      ((λ stage n r. refl), ((λ stage n r. refl), tt)) started-IsValid ((omega arith), tt)

abbrev inbound : InboundMessage
inbound = record {
  id = codes "id";
  sender = codes "a@example.org";
  recipients = codes "b@example.net" ∷ [];
  raw = codes "hello";
  client_ip = none;
  helo = codes "client";
  auth_user = none;
}

abbrev empty_handed : Dispatcher
empty_handed = record { pool = pool; queue = new settings true; counters = zeros }

submit-Promise_example :
    IsValid (submit world config 1000 2000 inbound empty_handed).0.queue
    × Promise
        (codes "id")
        (codes "hello")
        0
        (submit world config 1000 2000 inbound empty_handed).0
        (submit world config 1000 2000 inbound empty_handed).1
unfolding new lookup
submit-Promise_example =
    submit-Promise world config 1000 2000 inbound empty_handed (λ stage n r. refl) (refl, refl)
      (new-IsValid settings refl)
