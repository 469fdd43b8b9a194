-- ===== src/Dispatch/Queueing.antt =====
-- src/dispatch.rs: one turn of the queue worker. The loop around it ends at shutdown.
pub mod Retries
use smtp_relay.Prelude.{
  ℕ, zero, suc, Bool, true, false, Option, none, some, Text, ltb, leb, if◌then◌else◌,
}
use smtp_relay.Metrics.Counters.{Counters, inc}
use smtp_relay.Queue.Schedule.{QueuedMessage}
use smtp_relay.Queue.{Queue, take_due, finish, requeue}
use smtp_relay.Relay.Pool.{Pool}
use smtp_relay.Dispatch.{
  World, DispatchConfig, AttemptOutcome, delivered, deferred, failed, Round, attempt_delivery,
}

-- The state that the workers share.
pub record Dispatcher : Type 0 where
  pub pool : Pool
  pub queue : Queue
  pub counters : Counters

module _ (world : World) (cfg : DispatchConfig) where
  -- What the worker does with the outcome; the clock reads `now` milliseconds.
  unfoldable pub settle : ℕ → Queue → Text → Round × AttemptOutcome → Dispatcher
  unfolding finish requeue
  settle now q id (s, delivered relay_id response) = record {
    pool = s.pool;
    queue = finish id q;
    counters = s.counters;
  }
  settle now q id (s, failed error) = record {
    pool = s.pool;
    queue = finish id q;
    counters = s.counters;
  }
  settle now q id (s, deferred error) =
      let c = s.counters in
      let m = s.message in
      if leb cfg.max_attempts m.attempts
      then record {
        pool = s.pool;
        queue = finish id q;
        counters = record c {
          messages_dead = inc c.messages_dead;
          messages_failed = inc c.messages_failed;
        };
      }
      else record {
        pool = s.pool;
        queue = requeue now (record m { last_error = some error }) (world.backoff_for m.attempts) q;
        counters = c;
      }

  abbrev pub retry_counted : QueuedMessage → Counters → Counters
  retry_counted m c =
      if ltb 0 m.attempts then record c { queue_retries = inc c.queue_retries } else c

  -- `false` when no message is due.
  abbrev pub after_take : ℕ → Dispatcher → Queue × Option QueuedMessage → Dispatcher × Bool
  after_take later d (q, none) = (record d { queue = q }, false)
  after_take later d (q, some m) =
      (settle later q m.id (attempt_delivery world cfg d.pool (retry_counted m d.counters) m), true)

  -- The message is taken at `now`, and put back, if it is, at `later`.
  unfoldable pub work : ℕ → ℕ → Dispatcher → Dispatcher × Bool
  unfolding take_due settle attempt_delivery
  work now later d = after_take later d (take_due now d.queue)
