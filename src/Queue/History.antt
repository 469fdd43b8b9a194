-- ===== src/Queue/History.antt =====
-- The queue under any sequence of calls by the session and the workers.
use smtp_relay.Prelude.{ℕ, ◌≡◌, true, none, List, [], ◌∷◌, Text, All, All-mono}
use smtp_relay.Prelude.Assoc.{lookup, keys, All-keys}
use smtp_relay.Queue.Schedule.{QueuedMessage}
use smtp_relay.Queue.Durability.{
  IsSaved, IsValid, IsNew, enqueue-IsValid, requeue-IsValid, finish-IsValid, take_due-IsValid,
}
use smtp_relay.Queue.{Queue, QueueConfig, new, enqueue, take_due, finish, requeue}

pub data Op : Type 0 where
  enqueues : QueuedMessage → Op
  takes : ℕ → Op
  finishes : Text → Op
  requeues : ℕ → QueuedMessage → ℕ → Op

-- A submitted message has a new id; a worker ends or puts back a message that is not scheduled.
abbrev pub IsAllowed : Op → Queue → Type 0
IsAllowed (enqueues m) q = IsNew q m.id
IsAllowed (takes now) q = Unit
IsAllowed (finishes id) q = lookup id q.by_id ≡ none
IsAllowed (requeues now m delay) q = lookup m.id q.by_id ≡ none

abbrev pub step : Op → Queue → Queue
step (enqueues m) q = (enqueue m q).0
step (takes now) q = (take_due now q).0
step (finishes id) q = finish id q
step (requeues now m delay) q = requeue now m delay q

unfoldable pub run : List Op → Queue → Queue
run [] q = q
run (o ∷ os) q = run os (step o q)

abbrev pub IsHistory : List Op → Queue → Type 0
IsHistory [] q = Unit
IsHistory (o ∷ os) q = IsAllowed o q × IsHistory os (step o q)

step-IsValid : (o : Op) (q : Queue) → IsAllowed o q → IsValid q → IsValid (step o q)
step-IsValid (enqueues m) q a v = enqueue-IsValid m q a v
step-IsValid (takes now) q a v = take_due-IsValid now q v
step-IsValid (finishes id) q a v = finish-IsValid id q a v
step-IsValid (requeues now m delay) q a v = requeue-IsValid now m delay q a v

run-IsValid : (os : List Op) (q : Queue) → IsHistory os q → IsValid q → IsValid (run os q)
unfolding run
run-IsValid [] q h v = v
run-IsValid (o ∷ os) q h v = run-IsValid os (step o q) h.1 (step-IsValid o q h.0 v)

pub new-IsValid : (c : QueueConfig) → (new c true).persist ≡ true → IsValid (new c true)
unfolding new lookup
new-IsValid c p = record {
  persistent = p;
  sorted = tt;
  listed = tt;
  apart = tt;
  saved = tt;
  saved_in_flight = λ id h. cc;
}

-- Whatever the session and the workers do from the start of a queue that persists, every message
-- that is scheduled or being delivered has its metadata and its body in the spool directory. A
-- submitted message has an id that the queue does not know, and a worker completes or puts back
-- only a message that is not scheduled.
pub run-IsSaved :
    (c : QueueConfig) (os : List Op)
    → (new c true).persist ≡ true
    → IsHistory os (new c true)
    → All (λ e. IsSaved (run os (new c true)) e.message.id) (run os (new c true)).scheduled
      × All (IsSaved (run os (new c true))) (keys (run os (new c true)).in_flight)
run-IsSaved c os p h =
    let q = run os (new c true) in
    let v = run-IsValid os (new c true) h (new-IsValid c p) in
    (v.saved, All-mono (keys q.in_flight) (λ id k. v.saved_in_flight id k) (All-keys q.in_flight))
