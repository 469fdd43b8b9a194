-- ===== src/Tests/Queues.antt =====
-- A queue that saves its messages: one is submitted, taken by a worker, and put back.
use smtp_relay.Prelude.{arith, ◌≡◌, ◌<◌, refl, true, none, List, [], ◌∷◌, codes, All, text_eq}
use smtp_relay.Prelude.Assoc
use smtp_relay.Prelude.Assoc.{keys, lookup}
use smtp_relay.Queue.Schedule
use smtp_relay.Queue.Schedule.{QueuedMessage, ScheduleKey, Entry}
use smtp_relay.Queue.{Queue, QueueConfig, new, enqueue, take_due, recover}
use smtp_relay.Queue.Order.{take_due-none}
use smtp_relay.Queue.Draining.{submitted, drained, by_due, due_at, drained-by_due}
use smtp_relay.Queue.Durability.{IsSaved}
use smtp_relay.Queue.Recovery.{IsRestored, recover-IsRestored}
use smtp_relay.Queue.History.{Op, enqueues, takes, requeues, run, run-IsSaved}

abbrev pub settings : QueueConfig
settings = record { enabled = true; persist = true; capacity = 10 }

abbrev pub message : QueuedMessage
message = record {
  id = codes "id";
  sender = codes "a@example.org";
  recipients = codes "b@example.net" ∷ [];
  original_from = codes "a@example.org";
  subject = none;
  client_ip = none;
  helo = codes "client";
  received_at = 1000;
  attempts = 0;
  next_attempt_at = 1000;
  tried_relays = [];
  last_error = none;
  auth_user = none;
  raw = codes "hello";
}

abbrev calls : List Op
calls = enqueues message ∷ takes 1500 ∷ requeues 1600 message 60000 ∷ []

run-IsSaved_example :
    All
      (λ e. IsSaved (run calls (new settings true)) e.message.id)
      (run calls (new settings true)).scheduled
    × All (IsSaved (run calls (new settings true))) (keys (run calls (new settings true)).in_flight)
unfolding new lookup take_due enqueue Schedule.insert Assoc.remove Assoc.insert text_eq
run-IsSaved_example = run-IsSaved settings calls refl ((refl, refl), (tt, (refl, tt)))

abbrev later : QueuedMessage
later = record message { id = codes "later" }

abbrev first_entry : Entry
first_entry = record { key = record { due = 1000; number = 1 }; message = message }

abbrev last_entry : Entry
last_entry = record { key = record { due = 2000; number = 0 }; message = later }

abbrev waiting : Queue
waiting = record (new settings true) { scheduled = first_entry ∷ last_entry ∷ [] }

-- The second message is due first, and the third as early as the first.
abbrev three : List QueuedMessage
three = message ∷ record later { next_attempt_at = 900 } ∷ record later { id = codes "last" } ∷ []

drained-by_due_example :
    drained 5 1500 (submitted three (new settings true)) ≡ due_at 1500 (by_due [] three)
drained-by_due_example =
    drained-by_due settings true three 5 1500 refl (omega arith) (omega arith) (omega arith)

take_due-none_example : (waiting ≡ waiting) × All (λ e. 500 < e.key.due) waiting.scheduled
unfolding take_due
take_due-none_example = take_due-none 500 waiting waiting ((refl, tt), (tt, tt)) refl

-- The queue as a restart finds it: nothing in memory, one message in the spool.
abbrev restarted : Queue
restarted = record (new settings true) {
  metas = (codes "id", record message { raw = [] }) ∷ [];
  bodies = (codes "id", codes "hello") ∷ [];
}

recover-IsRestored_example :
    All (IsRestored restarted (recover restarted).0.scheduled) restarted.metas
    × ((recover restarted).1 ≡ 1)
unfolding new lookup text_eq
recover-IsRestored_example =
    recover-IsRestored restarted refl
      (record { capacious = omega arith; countable = omega arith; fresh = tt }) (refl, tt)
