-- ===== src/Lib.antt =====
-- A verification library of smtp-relay, an SMTP relay that accepts messages from clients, queues
-- them, and hands each to one of several upstream relays.
--
-- The program's parts and how they interact. A session (src/smtp/session.rs) reads command lines and
-- message bodies from its client through a bounded line reader (src/smtp/lines.rs) and hands each
-- message to the dispatcher (src/dispatch.rs), which delivers it at once or puts it on the queue
-- (src/queue.rs). A delivery asks the selector (src/relay/selector.rs) for a relay of the pool
-- (src/relay/pool.rs), reserves a slot of its quota, sends, and reports the outcome to the relay's
-- circuit breaker; a failed delivery gives the slot back and tries another relay. The guard against
-- guessed passwords (src/state.rs) stands before the logins of the dashboard.
--
-- Which file models which part:
--   Util/Strings        src/util.rs: `truncate`, `address_domain`, `looks_like_email`
--   Relay/Config        src/config.rs: the settings that the other parts read, and the clock
--   Relay/Circuit       src/relay/pool.rs: `CircuitState`, `Circuit` and the methods that change it
--   Relay/Quota         src/relay/pool.rs: `Usage` and the quota methods
--   Relay/Runtime       src/relay/pool.rs: `RelayRuntime`
--   Relay/Pool          src/relay/pool.rs: `Pool`
--   Relay/Weights       src/relay/pool.rs: `Pool::smooth_weighted_pick`
--   Relay/Selector      src/relay/selector.rs: the candidates of `select`
--   Relay/Strategy      src/relay/selector.rs: the strategies that pick one candidate
--   Relay/Routing       src/relay/selector.rs: overrides, stickiness and `select`
--   Queue               src/queue.rs: `Queue`, its spool directory and its recovery
--   Queue/Schedule      src/queue.rs: the ordered map of due messages
--   Failure             src/error.rs: `DeliveryError` and its classification
--   Metrics/Counters    src/metrics.rs: `Counters`
--   Metrics/Series      src/metrics.rs: `TimeSeries`
--   Util/Utf8           the standard library's conversions between texts and bytes
--   Util/Secrets        src/util.rs: `secret_eq`, `b64_decode`
--   Message/Headers     src/message/headers.rs: `Header`, `Message`, the codec and `peek`
--   Message/Headers/Fields   src/message/headers.rs: the methods that look up and edit fields
--   Message/Mailboxes   src/message/headers.rs: `parse_mailbox` and what it scans with
--   Dispatch            src/dispatch.rs: `attempt_delivery`
--   Dispatch/Queueing   src/dispatch.rs: a turn of `run_queue_worker`
--   Dispatch/Submission src/dispatch.rs: `submit`, `enqueue`, `schedule_retry`
--   Smtp/Command        src/smtp/command.rs: `parse`
--   Smtp/Session/Auth   src/smtp/session.rs: `handle_auth` and its exchanges
--   Smtp/Session/Loop   src/smtp/session.rs: `handle` and `command_loop`
--   Smtp/Lines          src/smtp/lines.rs: `LineReader::read_line`
--   Smtp/Body           src/smtp/session.rs: `read_body`
--   Smtp/Session        src/smtp/session.rs: the handlers of a mail transaction
--   State/AuthGuard     src/state.rs: `AuthGuard`
-- The modules below these hold the proofs, Prelude the shared types, and Tests concrete runs.
--
-- The state of a part is a record with the source's fields, and a method is a function of the same
-- name that returns the new state; a method that takes `&self` and changes an atomic or a mutex
-- does so too. A shared reference to a relay is its position in the pool. Where the source reads
-- the clock, the function takes the time. Numbers are naturals; sums that can leave their word wrap
-- or saturate as the source does. A text is its list of code points, a byte string its list of
-- bytes, and an error is a value that carries what the source puts into its text.
--
-- Fuel: `read_body` runs on fuel, since the stream of a client has no bound; each round takes
-- at least one byte, so more fuel than bytes is enough, and more than lines where the payload ends.
-- `command_loop` takes the number of its turns, and the queue's workers take a list of turns.
-- `try_relays` counts the tries that the settings allow. All other loops are structural.
--
-- The dispatcher meets the outside through a `World`: the clock at each stage of each try, what other
-- tasks do to the relays in between, the checks of the recipients, the rewriting of a message for a
-- relay, the upstream's answers, the backoff, and the words of an error. Theorems that need it assume
-- that other tasks do not change a relay's settings, which only a reload does, in a new pool. The
-- base64 library and the standard hasher are parameters, too.
--
-- Not modelled: the connection to the upstream relay and the health probes (the mail library), the
-- asynchronous runtime and the wake-ups of workers, floating-point weight percentages and backoff,
-- texts for people, the activity log, the histogram of the dashboard and its server, writes to disk
-- that fail, and the fallback of `requeue` for a delay that the library of dates cannot represent,
-- since times are unbounded here. Rewriting, rotation, recipient validation and the
-- validation of a configuration are not modelled either.
mod Prelude
pub mod Util
pub mod Relay
pub mod Queue
pub mod Smtp
pub mod State
pub mod Failure
pub mod Metrics
pub mod Dispatch
mod Tests
pub mod Message
