-- ===== src/Queue.antt =====
-- src/queue.rs: the delivery queue. Each function is one critical section of the queue's mutex, and
-- takes the time in milliseconds where the source reads the clock. The wake-up of waiting workers is
-- left out. The spool directory is the two maps `metas` (the `.json` files, which do not hold the
-- message's bytes) and `bodies` (the `.eml` files); a write to it succeeds.
pub mod Schedule
pub mod Order
pub mod Draining
pub mod Durability
pub mod History
pub mod Recovery
use smtp_relay.Prelude.{
  ℕ, suc, ◌+◌, ◌-◌, max, Bool, true, false, not, ◌&&◌, ◌||◌, Option, none, some, List, [], ◌∷◌, map,
  Text, length, is_empty, ltb, leb, ◌==◌, if◌then◌else◌, add_u64, Result, ok, err,
}
use smtp_relay.Util.Strings.{take}
use smtp_relay.Prelude.Assoc
use smtp_relay.Queue.Schedule.{
  QueuedMessage, ScheduleKey, Entry, insert, remove_key, lookup_key, due_keys,
}

pub data EnqueueError : Type 0 where
  disabled : EnqueueError
  queue_full : ℕ → EnqueueError

pub record Queue : Type 0 where
  pub scheduled : List Entry
  pub by_id : List (Text × ScheduleKey)
  pub in_flight : List (Text × ℕ)
  pub sequence : ℕ
  pub enabled : Bool
  pub capacity : ℕ
  pub persist : Bool
  pub metas : List (Text × QueuedMessage)
  pub bodies : List (Text × List ℕ)

pub record QueueConfig : Type 0 where
  pub enabled : Bool
  pub persist : Bool
  pub capacity : ℕ

-- `directory_exists` is what the file system says after the attempt to create the directory.
unfoldable pub new : QueueConfig → Bool → Queue
new config directory_exists = record {
  scheduled = [];
  by_id = [];
  in_flight = [];
  sequence = 0;
  enabled = config.enabled;
  capacity = max config.capacity 1;
  persist = config.enabled && config.persist && directory_exists;
  metas = [];
  bodies = [];
}

abbrev pub depth : Queue → ℕ
depth q = length q.scheduled

unfoldable pub due_count : ℕ → Queue → ℕ
due_count now q = length (due_keys now q.scheduled)

-- The files of a message. `raw` is skipped by the serialiser.
unfoldable pub write_spool : QueuedMessage → Queue → Queue
write_spool m q =
    if q.persist
    then record q {
      metas = Assoc.insert m.id (record m { raw = [] }) q.metas;
      bodies = Assoc.insert m.id m.raw q.bodies;
    }
    else q

unfoldable pub remove_spool : Text → Queue → Queue
remove_spool id q =
    if q.persist
    then record q { metas = Assoc.remove id q.metas; bodies = Assoc.remove id q.bodies }
    else q

-- Puts a message under a new key, which takes the next number of the sequence.
unfoldable pub schedule : QueuedMessage → Queue → Queue
schedule m q =
    let key : ScheduleKey = record { due = m.next_attempt_at; number = q.sequence } in
    record q {
      sequence = add_u64 q.sequence 1;
      by_id = Assoc.insert m.id key q.by_id;
      scheduled = insert key m q.scheduled;
    }

unfoldable pub enqueue : QueuedMessage → Queue → Queue × Result (Unit {0}) EnqueueError
unfolding schedule write_spool
enqueue m q =
    if not q.enabled
    then (q, err disabled)
    else if leb q.capacity (depth q)
    then (q, err (queue_full q.capacity))
    else (write_spool m (schedule m q), ok tt)

-- The earliest entry, if it is due, leaves the schedule and is marked as in flight.
unfoldable pub take_first : ℕ → Queue → List Entry → Queue × Option QueuedMessage
take_first now q [] = (q, none)
take_first now q (e ∷ rest) =
    if leb e.key.due now
    then (
      record q {
        scheduled = rest;
        by_id = Assoc.remove e.message.id q.by_id;
        in_flight = Assoc.insert e.message.id now q.in_flight;
      },
      some e.message,
    )
    else (q, none)

unfoldable pub take_due : ℕ → Queue → Queue × Option QueuedMessage
unfolding take_first
take_due now q = take_first now q q.scheduled

unfoldable pub finish : Text → Queue → Queue
unfolding remove_spool
finish id q = remove_spool id (record q { in_flight = Assoc.remove id q.in_flight })

-- `delay` is in milliseconds, and is one that the library of dates can represent: the source's
-- fallback for any other is left out. The capacity is not looked at.
unfoldable pub requeue : ℕ → QueuedMessage → ℕ → Queue → Queue
unfolding schedule write_spool
requeue now message delay q =
    let m : QueuedMessage = record message { next_attempt_at = now + delay } in
    let landed = record q { in_flight = Assoc.remove m.id q.in_flight } in
    write_spool m (schedule m landed)

unfoldable pub remove : Text → Queue → Queue × Bool
unfolding remove_spool
remove id q = elim (Assoc.lookup id q.by_id) [
  | none ↦ (q, false)
  | some key ↦
      let unlisted = record q { by_id = Assoc.remove id q.by_id } in
      elim (lookup_key key q.scheduled) [
        | none ↦ (unlisted, false)
        | some m ↦
            (remove_spool id (record unlisted { scheduled = remove_key key q.scheduled }), true)
      ]
]

abbrev moved : ℕ → Queue → ScheduleKey → Option QueuedMessage → Queue
moved now q key none = q
moved now q key (some m) =
    schedule (record m { next_attempt_at = now })
      (record q { scheduled = remove_key key q.scheduled })

-- The loop over the keys that were not due.
unfoldable pub flush_keys : ℕ → List ScheduleKey → Queue → Queue
unfolding schedule
flush_keys now [] q = q
flush_keys now (k ∷ ks) q = flush_keys now ks (moved now q k (lookup_key k q.scheduled))

abbrev pub later_keys : ℕ → List Entry → List ScheduleKey
later_keys now [] = []
later_keys now (e ∷ es) = if ltb now e.key.due then e.key ∷ later_keys now es else later_keys now es

unfoldable pub flush_now : ℕ → Queue → Queue × ℕ
unfolding flush_keys
flush_now now q =
    let pending = later_keys now q.scheduled in (flush_keys now pending q, length pending)

unfoldable pub remove_each : List Text → Queue → Queue × ℕ
unfolding remove
remove_each [] q = (q, 0)
remove_each (id ∷ ids) q =
    let (q', removed) = remove id q in
    let (q'', n) = remove_each ids q' in (q'', (if removed then 1 else 0) + n)

unfoldable pub purge : Queue → Queue × ℕ
unfolding remove_each
purge q = remove_each (Assoc.keys q.by_id) q

abbrev until_first : ℕ → List Entry → Option ℕ
until_first now [] = none
until_first now (e ∷ es) = some (e.key.due - now)

-- In milliseconds; `(due - now).max(0)` is the truncated difference.
unfoldable pub time_until_due : ℕ → Queue → Option ℕ
time_until_due now q = until_first now q.scheduled

unfoldable pub list : ℕ → Queue → List QueuedMessage
list limit q = map (λ e. e.message) (take limit q.scheduled)

unfoldable pub get : Text → Queue → Option QueuedMessage
get id q = elim (Assoc.lookup id q.by_id) [ none ↦ none | some key ↦ lookup_key key q.scheduled ]

-- One `.json` file of the spool: a body that is missing or empty discards both files.
abbrev pub body_of : Queue → Text → List ℕ
body_of q id = elim (Assoc.lookup id q.bodies) [ none ↦ [] | some raw ↦ raw ]

-- The loop over the directory's entries, in the order in which it lists them. It ends early when
-- the queue is at capacity.
unfoldable pub recover_entries : List (Text × QueuedMessage) → Queue → Queue × ℕ
unfolding schedule
recover_entries [] q = (q, 0)
recover_entries ((id, meta) ∷ rest) q =
    let raw = body_of q meta.id in
    let discarded = record q {
      metas = Assoc.remove id q.metas;
      bodies = Assoc.remove meta.id q.bodies;
    } in
    let next = if is_empty raw then discarded else schedule (record meta { raw = raw }) q in
    let (q', n) = recover_entries rest next in
    if is_empty raw then (q', n) else if leb q.capacity (depth q) then (q, 0) else (q', suc n)

unfoldable pub recover : Queue → Queue × ℕ
unfolding recover_entries
recover q = if q.persist then recover_entries q.metas q else (q, 0)
