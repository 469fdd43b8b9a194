-- ===== src/Dispatch.antt =====
-- src/dispatch.rs: one delivery round of a message, which routes, reserves, rewrites, sends and
-- classifies. What the round meets outside is a `World`: the clock at each stage of each try, what
-- other tasks do meanwhile to each relay, the recipients' checks, the rewriting, and the upstream's
-- answers. The activity log and the events for the dashboard are left out; `sends` is the history
-- of the relays to which the message was handed.
pub mod Queueing
pub mod Submission
pub mod Outcomes
pub mod Sending
pub mod Rounds
use smtp_relay.Prelude.{
  ℕ, zero, suc, ◌+◌, max, Bool, true, false, not, ◌&&◌, Option, none, some, List, [], ◌∷◌, ◌++◌,
  map, Text, any, length, is_empty, set, ◌==◌, text_eq, if◌then◌else◌, add_u32, Result, ok, err,
}
use smtp_relay.Util.Strings.{truncate}
use smtp_relay.Failure.{DeliveryError, should_retry}
use smtp_relay.Metrics.Counters.{Counters, inc, add}
use smtp_relay.Queue.Schedule.{QueuedMessage}
use smtp_relay.Queue.{EnqueueError}
use smtp_relay.Smtp.Session.{InboundMessage}
use smtp_relay.Relay.Config.{Clock, HealthConfig, RelayConfig}
use smtp_relay.Relay.Runtime
use smtp_relay.Relay.Runtime.{RelayRuntime}
use smtp_relay.Relay.Pool.{Pool, relay_at}
use smtp_relay.Relay.Selector.{RouteRequest, Route, NoRouteAvailable}
use smtp_relay.Relay.Routing.{select}

pub record RecipientCheck : Type 0 where
  pub address : Text
  pub deliver : Bool

-- What `rewrite` gives: the message for DATA, and the envelope's sender.
pub record Rewritten : Type 0 where
  pub raw : List ℕ
  pub envelope_from : Text

-- `latency` is in milliseconds.
pub record DeliveryReport : Type 0 where
  pub latency : ℕ
  pub response : Text

-- Why a round ended without a delivery, or a message was not queued.
pub data Reason : Type 0 where
  no_route : NoRouteAvailable → Option DeliveryError → Reason
  last_failure : DeliveryError → Reason
  nothing_tried : Reason
  all_recipients_invalid : Reason
  not_rewritten : Text → Reason
  refused : DeliveryError → Reason
  not_queued : EnqueueError → Reason

-- The stages of one try between which other tasks run.
pub data Stage : Type 0 where
  selecting reserving sending : Stage

-- The tries of a round are numbered downwards. `describe` puts a reason into words. `original_from`
-- and `subject` read the message's headers.
pub record World : Type 0 where
  pub clock : Stage → ℕ → Clock
  pub others : Stage → ℕ → RelayRuntime → RelayRuntime
  pub hash : Text → ℕ
  pub filter_recipients : List Text → List RecipientCheck
  pub rewrite : RelayConfig → QueuedMessage → Result Rewritten Text
  pub deliver : ℕ → RelayConfig → Rewritten → List Text → Result DeliveryReport DeliveryError
  pub backoff_for : ℕ → ℕ
  pub describe : Reason → Text
  pub original_from : InboundMessage → Text
  pub subject : InboundMessage → Option Text

pub data SubmissionMode : Type 0 where
  queue_mode direct hybrid : SubmissionMode

pub record DispatchConfig : Type 0 where
  pub submission_mode : SubmissionMode
  pub validation_enabled : Bool
  pub max_attempts_per_message : ℕ
  pub fallback_on_failure : Bool
  pub health : HealthConfig
  pub max_attempts : ℕ

pub data AttemptOutcome : Type 0 where
  delivered : (relay_id response : Text) → AttemptOutcome
  deferred : (error : Text) → AttemptOutcome
  failed : (error : Text) → AttemptOutcome

pub record Round : Type 0 where
  pub pool : Pool
  pub counters : Counters
  pub message : QueuedMessage
  pub attempted : List Text
  pub last_error : Option DeliveryError
  pub sends : List Text

-- A method called through the reference to the relay at a position.
abbrev pub on_relay : ℕ → (RelayRuntime → RelayRuntime) → Pool → Pool
on_relay i f p = elim (relay_at p i) [
  | none ↦ p
  | some r ↦ record p { relays = set p.relays i (f r) }
]

abbrev pub on_all : (RelayRuntime → RelayRuntime) → Pool → Pool
on_all f p = record p { relays = map f p.relays }

-- `if !tried_relays.iter().any(|id| …) { tried_relays.push(…) }`.
abbrev pub push_new : List Text → Text → List Text
push_new ids id = if any (λ x. text_eq x id) ids then ids else ids ++ (id ∷ [])

abbrev pub request_of : Round → RouteRequest
request_of s = record {
  sender = s.message.original_from;
  recipients = s.message.recipients;
  exclude = s.attempted;
  auth_user = s.message.auth_user;
  helo = s.message.helo;
}

abbrev pub deferral_reason : Option DeliveryError → Reason
deferral_reason none = nothing_tried
deferral_reason (some e) = last_failure e

module _ (world : World) (cfg : DispatchConfig) where
  unfoldable pub finish_deferred : Reason → Round → Round × AttemptOutcome
  finish_deferred reason s =
      let c = s.counters in
      (
        record s { counters = record c { messages_deferred = inc c.messages_deferred } },
        deferred (truncate (world.describe reason) 500),
      )

  unfoldable pub finish_failed : Reason → Round → Round × AttemptOutcome
  finish_failed reason s =
      let c = s.counters in
      (
        record s { counters = record c { messages_failed = inc c.messages_failed } },
        failed (truncate (world.describe reason) 500),
      )

  -- What the relay's answer does; `go` is the next try. The guard of the slot is dropped last.
  unfoldable pub after_send :
      (Round → Round × AttemptOutcome)
      → ℕ
      → ℕ
      → Text
      → Rewritten
      → Round
      → Result DeliveryReport DeliveryError
      → Round × AttemptOutcome
  unfolding finish_deferred finish_failed
  after_send go n i id rewritten s (ok report) =
      let now = world.clock sending n in
      let bytes = length rewritten.raw in
      let c = s.counters in
      (
        record s {
          pool =
              on_relay i
                (λ r.
                  Runtime.end_delivery
                    (Runtime.record_delivery now bytes report.latency cfg.health r))
                s.pool;
          counters = record c {
            messages_delivered = inc c.messages_delivered;
            bytes_delivered = add c.bytes_delivered bytes;
          };
        },
        delivered id report.response,
      )
  after_send go n i id rewritten s (err e) =
      let now = world.clock sending n in
      let deferral = record s {
        pool =
            on_relay i
              (λ r.
                Runtime.end_delivery
                  (Runtime.record_deferral now e.message cfg.health (Runtime.release_quota r)).0)
              s.pool;
        last_error = some e;
      } in
      let failure = record s {
        pool =
            on_relay i
              (λ r.
                Runtime.end_delivery
                  (Runtime.record_permanent_failure now e.message (Runtime.release_quota r)))
              s.pool;
      } in
      if should_retry e
      then (if cfg.fallback_on_failure
          then go deferral
          else finish_deferred (last_failure e) deferral)
      else finish_failed (refused e) failure

  -- The slot is reserved and taken.
  unfoldable pub send :
      (Round → Round × AttemptOutcome) → ℕ → ℕ → RelayConfig → Round → Round × AttemptOutcome
  unfolding after_send
  send go n i relay s = elim (world.rewrite relay s.message) [
    | err error ↦
        let c = s.counters in
        finish_failed (not_rewritten error) (record s {
          pool = on_relay i (λ r. Runtime.end_delivery (Runtime.release_quota r)) s.pool;
          counters = record c { rewrite_errors = inc c.rewrite_errors };
        })
    | ok rewritten ↦
        after_send go n i relay.id rewritten
          (record s {
            pool = on_all (world.others sending n) s.pool;
            sends = s.sends ++ (relay.id ∷ []);
          })
          (world.deliver n relay rewritten s.message.recipients)
  ]

  -- The relay at position `i` has been selected.
  unfoldable pub reserve :
      (Round → Round × AttemptOutcome) → ℕ → ℕ → RelayRuntime → Round → Round × AttemptOutcome
  unfolding send
  reserve go n i r s =
      let (r', reserved) = Runtime.try_reserve_quota (world.clock reserving n) r in
      let taken = record s { pool = on_relay i (λ _. Runtime.begin_delivery r') s.pool } in
      let skipped = record s { pool = on_relay i (λ _. r') s.pool } in
      if reserved then send go n i r.config taken else go skipped

  abbrev pub noted : Text → Pool → Round → Round
  noted id p s =
      let m = s.message in
      record s {
        pool = p;
        attempted = s.attempted ++ (id ∷ []);
        message = record m { tried_relays = push_new m.tried_relays id };
      }

  -- The relay that a route names; the position is one of the pool.
  unfoldable pub reserve_at :
      (Round → Round × AttemptOutcome)
      → ℕ
      → ℕ
      → Pool
      → Round
      → Option RelayRuntime
      → Round × AttemptOutcome
  unfolding reserve
  reserve_at go n i p s none = go (record s { pool = p })
  reserve_at go n i p s (some r) = reserve go n i r (noted r.config.id p s)

  unfoldable pub after_select :
      (Round → Round × AttemptOutcome)
      → ℕ
      → Round
      → Pool × Result Route NoRouteAvailable
      → Round × AttemptOutcome
  unfolding finish_deferred reserve_at
  after_select go n s (p, err missing) =
      let c = s.counters in
      finish_deferred (no_route missing s.last_error) (record s {
        pool = p;
        counters = record c { routing_no_relay_available = inc c.routing_no_relay_available };
      })
  after_select go n s (p, ok route) =
      let p' = on_all (world.others reserving n) p in
      reserve_at go n route.relay p' s (relay_at p' route.relay)

  -- The tries that are left.
  unfoldable pub try_relays : ℕ → Round → Round × AttemptOutcome
  unfolding after_select reserve_at select finish_deferred
  try_relays zero s = finish_deferred (deferral_reason s.last_error) s
  try_relays (suc n) s = after_select (try_relays n) n s (
      select world.hash (world.clock selecting n) (request_of s)
        (on_all (world.others selecting n) s.pool))

  -- The recipients that may be delivered to, and the counts of the checks.
  abbrev pub valid_of : List RecipientCheck → List Text
  valid_of [] = []
  valid_of (c ∷ cs) = if c.deliver then c.address ∷ valid_of cs else valid_of cs

  abbrev pub checked : List RecipientCheck → Counters → Counters
  checked [] c = c
  checked (k ∷ ks) c = checked ks (
      if k.deliver
      then record c { validation_passed = inc c.validation_passed }
      else record c { validation_skipped = inc c.validation_skipped })

  abbrev pub rounds : ℕ
  rounds = max cfg.max_attempts_per_message 1

  unfoldable pub attempt_delivery : Pool → Counters → QueuedMessage → Round × AttemptOutcome
  unfolding try_relays finish_failed
  attempt_delivery p c message =
      let m : QueuedMessage = record message { attempts = add_u32 message.attempts 1 } in
      let checks = world.filter_recipients m.recipients in
      let start : Round = record {
        pool = p;
        counters = c;
        message = m;
        attempted = [];
        last_error = none;
        sends = [];
      } in
      let counted = record start { counters = checked checks c } in
      let filtered = record counted { message = record m { recipients = valid_of checks } } in
      if m.attempts == 1 && cfg.validation_enabled
      then (if is_empty (valid_of checks)
          then finish_failed all_recipients_invalid counted
          else try_relays rounds filtered)
      else try_relays rounds start
