-- ===== src/Dispatch/Queueing/Retries.antt =====
-- The queue under its workers: no message is lost between taking and settling, and the retries end.
use smtp_relay.Prelude.{
  ℕ, suc, ◌+◌, ◌-◌, ◌≡◌, ◌≤◌, ◌<◌, refl, sym, ap, subst, ◌∙◌, Bool, true, false, Option, none, some,
  List, [], ◌∷◌, inl, inr, arith, All, Bool-cases, Text, leb, if◌then◌else◌, u32_mod, text_eq_refl,
}
use smtp_relay.Prelude.Assoc
use smtp_relay.Prelude.Assoc.{lookup, lookup-remove}
use smtp_relay.Queue.Schedule.{QueuedMessage, ScheduleKey, Entry, insert}
use smtp_relay.Queue.Order.{take_due-some, take_due-none, insert-All}
use smtp_relay.Queue.{
  Queue, take_due, take_first, finish, requeue, remove_spool, write_spool, schedule,
}
use smtp_relay.Queue.Durability.{IsValid, take_due-IsValid, finish-IsValid, requeue-IsValid}
use smtp_relay.Dispatch.{
  World, DispatchConfig, AttemptOutcome, delivered, deferred, failed, Round, attempt_delivery,
}
use smtp_relay.Dispatch.Outcomes.{KeepsConfig}
use smtp_relay.Dispatch.Rounds.{attempt_delivery-IsDone}
use smtp_relay.Dispatch.Queueing.{Dispatcher, settle, retry_counted, after_take, work}

-- The message that is taken is no longer listed by its id.
take_first-by_id :
    (now : ℕ) (q q' : Queue) (m : QueuedMessage) (es : List Entry)
    → take_first now q es ≡ (q', some m)
    → lookup m.id q'.by_id ≡ none
unfolding take_first
take_first-by_id now q q' m [] e = absurd (ground arith)
take_first-by_id now q q' m (x ∷ es) e =
    let gone = lookup-remove x.message.id x.message.id q.by_id in
    let same = text_eq_refl x.message.id in
    let rest : q'.by_id ≡ Assoc.remove x.message.id q.by_id = ground arith in
    let it : x.message ≡ m = ground arith in rw (rest, sym it, gone, same) refl

taken-by_id :
    (now : ℕ) (q q' : Queue) (m : QueuedMessage)
    → take_due now q ≡ (q', some m)
    → lookup m.id q'.by_id ≡ none
unfolding take_due
taken-by_id now q q' m e = take_first-by_id now q q' m q.scheduled e

settle-IsValid :
    (world : World) (cfg : DispatchConfig) (now : ℕ) (q : Queue) (id : Text) (s : Round)
    (o : AttemptOutcome)
    → s.message.id ≡ id
    → lookup id q.by_id ≡ none
    → IsValid q
    → IsValid (settle world cfg now q id (s, o)).queue
unfolding settle
settle-IsValid world cfg now q id s (delivered i r) e n v = finish-IsValid id q n v
settle-IsValid world cfg now q id s (failed r) e n v = finish-IsValid id q n v
settle-IsValid world cfg now q id s (deferred r) e n v =
    elim (Bool-cases (leb cfg.max_attempts s.message.attempts)) [
      | inl a ↦ rw a (finish-IsValid id q n v)
      | inr a ↦
          rw a (requeue-IsValid now (record (s.message) { last_error = some r }) _ q (rw e n) v)
    ]

-- The tries that the messages of a schedule have left, and one more for each message.
abbrev pub budget : ℕ → List Entry → ℕ
budget limit [] = 0
budget limit (e ∷ es) = suc (limit - e.message.attempts) + budget limit es

budget-insert :
    (limit : ℕ) (k : ScheduleKey) (m : QueuedMessage) (es : List Entry)
    → budget limit (insert k m es) ≤ suc (limit - m.attempts) + budget limit es
unfolding insert
budget-insert limit k m [] = omega arith
budget-insert limit k m (e ∷ es) = ground (arith, budget-insert limit k m es)

-- No message is at the last value of its 32-bit counter.
abbrev pub HasCount : List Entry → Type 0
HasCount = All (λ e. e.message.attempts + 1 < u32_mod)

finish-scheduled : (id : Text) (q : Queue) → (finish id q).scheduled ≡ q.scheduled
unfolding finish remove_spool
finish-scheduled id q = ground arith

requeue-scheduled :
    (now : ℕ) (m : QueuedMessage) (delay : ℕ) (q : Queue)
    → (requeue now m delay q).scheduled
      ≡ insert
          (record { due = now + delay; number = q.sequence })
          (record m { next_attempt_at = now + delay })
          q.scheduled
unfolding requeue write_spool schedule
requeue-scheduled now m delay q = ground arith

-- What a settled turn leaves to do: less than before the message was taken.
record Spends (cfg : DispatchConfig) (before : ℕ) (q : Queue) : Type 0 where
  valid : IsValid q
  counts : HasCount q.scheduled
  less : budget cfg.max_attempts q.scheduled < before

settle-Spends :
    (world : World) (cfg : DispatchConfig) (now : ℕ) (q : Queue) (m : QueuedMessage) (s : Round)
    (o : AttemptOutcome)
    → cfg.max_attempts < u32_mod
    → s.message.id ≡ m.id
    → s.message.attempts ≡ m.attempts + 1
    → lookup m.id q.by_id ≡ none
    → IsValid q
    → HasCount q.scheduled
    → Spends cfg
        (suc (cfg.max_attempts - m.attempts) + budget cfg.max_attempts q.scheduled)
        (settle world cfg now q m.id (s, o)).queue
unfolding settle
settle-Spends world cfg now q m s (delivered i r) w e a n v h = record {
  valid = settle-IsValid world cfg now q m.id s (delivered i r) e n v;
  counts = rw (finish-scheduled m.id q) h;
  less = rw (finish-scheduled m.id q) (omega arith);
}
settle-Spends world cfg now q m s (failed r) w e a n v h = record {
  valid = settle-IsValid world cfg now q m.id s (failed r) e n v;
  counts = rw (finish-scheduled m.id q) h;
  less = rw (finish-scheduled m.id q) (omega arith);
}
settle-Spends world cfg now q m s (deferred r) w e a n v h =
    let valid = settle-IsValid world cfg now q m.id s (deferred r) e n v in
    elim (Bool-cases (leb cfg.max_attempts s.message.attempts)) [
      | inl b ↦ rw b (record {
        valid = rw b at valid;
        counts = rw (finish-scheduled m.id q) h;
        less = rw (finish-scheduled m.id q) (omega arith);
      })
      | inr b ↦
          let back : QueuedMessage = record (s.message) { last_error = some r } in
          let delay = world.backoff_for s.message.attempts in
          let where_to = requeue-scheduled now back delay q in
          let cost =
            budget-insert cfg.max_attempts (record { due = now + delay; number = q.sequence })
              (record back { next_attempt_at = now + delay }) q.scheduled in
          rw b (record {
            valid = rw b at valid;
            counts = rw where_to (
                insert-All _ _ (record back { next_attempt_at = now + delay }) q.scheduled
                  (ground arith) h);
            less = rw where_to (ground arith);
          })
    ]

-- What a turn leaves, and whether it found a message.
abbrev Turned : DispatchConfig → Dispatcher → Dispatcher × Bool → Type 0
Turned cfg d (d', false) = d'.queue ≡ d.queue
Turned cfg d (d', true) = Spends cfg (budget cfg.max_attempts d.queue.scheduled) d'.queue

after_take-Turned :
    (world : World) (cfg : DispatchConfig) (now later : ℕ) (d : Dispatcher)
    (res : Queue × Option QueuedMessage)
    → KeepsConfig world
    → cfg.max_attempts < u32_mod
    → take_due now d.queue ≡ res
    → IsValid d.queue
    → HasCount d.queue.scheduled
    → Turned cfg d (after_take world cfg later d res)
after_take-Turned world cfg now later d (q, none) keeps w e v h =
    (take_due-none now d.queue q v.sorted e).0
after_take-Turned world cfg now later d (q, some m) keeps w e v h =
    let (k, whole, due, above) = take_due-some now d.queue q m v.sorted e in
    let count = rw whole at h in
    let round = attempt_delivery world cfg d.pool (retry_counted world cfg m d.counters) m in
    let done =
      attempt_delivery-IsDone world cfg d.pool (retry_counted world cfg m d.counters) m keeps in
    let fits = count.0 in
    let valid =
      subst (λ (r : Queue × Option QueuedMessage). IsValid r.0) e
        (take_due-IsValid now d.queue v) in
    rw whole (
      settle-Spends world cfg later q m round.0 round.1 w done.same_id
        (done.same_attempts ∙ omega arith) (taken-by_id now d.queue q m e) valid count.1)

-- The turns of the workers, each with what it meets and its two times.
unfoldable pub run : DispatchConfig → List (World × ℕ × ℕ) → Dispatcher → Dispatcher × ℕ
unfolding work
run cfg [] d = (d, 0)
run cfg ((world, now, later) ∷ turns) d =
    let (d', busy) = work world cfg now later d in
    let (d'', n) = run cfg turns d' in (d'', if busy then suc n else n)

abbrev pub AllKeepConfig : List (World × ℕ × ℕ) → Type 0
AllKeepConfig = All (λ (t : World × ℕ × ℕ). KeepsConfig t.0)

record Drains (cfg : DispatchConfig) (before : ℕ) (res : Dispatcher × ℕ) : Type 0 where
  valid : IsValid res.0.queue
  spent : res.1 + budget cfg.max_attempts res.0.queue.scheduled ≤ before

-- One turn before the others.
turn-Drains :
    (cfg : DispatchConfig) (turns : List (World × ℕ × ℕ)) (d : Dispatcher) (res : Dispatcher × Bool)
    → ((d' : Dispatcher)
        → IsValid d'.queue
        → HasCount d'.queue.scheduled
        → Drains cfg (budget cfg.max_attempts d'.queue.scheduled) (run cfg turns d'))
    → IsValid d.queue
    → HasCount d.queue.scheduled
    → Turned cfg d res
    → Drains cfg (budget cfg.max_attempts d.queue.scheduled) (
      (run cfg turns res.0).0,
      if res.1 then suc (run cfg turns res.0).1 else (run cfg turns res.0).1,
    )
turn-Drains cfg turns d (d', false) f v h t =
    let ih = f d' (rw t v) (rw t h) in
    let spent = ih.spent in
    let same = ap (λ (q : Queue). budget cfg.max_attempts q.scheduled) t in
    record { valid = ih.valid; spent = omega arith }
turn-Drains cfg turns d (d', true) f v h t =
    let ih = f d' t.valid t.counts in
    let spent = ih.spent in let less = t.less in record { valid = ih.valid; spent = omega arith }

run-Drains :
    (cfg : DispatchConfig) (turns : List (World × ℕ × ℕ)) (d : Dispatcher)
    → cfg.max_attempts < u32_mod
    → AllKeepConfig turns
    → IsValid d.queue
    → HasCount d.queue.scheduled
    → Drains cfg (budget cfg.max_attempts d.queue.scheduled) (run cfg turns d)
unfolding run work
run-Drains cfg [] d w keeps v h = record { valid = v; spent = omega arith }
run-Drains cfg ((world, now, later) ∷ turns) d w keeps v h =
    turn-Drains cfg turns d _ (λ d' v' h'. run-Drains cfg turns d' w keeps.1 v' h') v h
      (after_take-Turned world cfg now later d _ keeps.0 w refl v h)

-- Whatever the upstreams answer and other tasks do to the relays, their settings apart, the workers'
-- turns keep the queue valid, so that every message which waits or is being delivered has its files
-- in the spool; and the number of turns that find a message due is at most what the schedule has to
-- give: for each message the attempts that it has left and one more, less what is still there
-- afterwards. So the retries of the messages end. Nothing is submitted meanwhile, and no message
-- stands at the last value of its 32-bit count of attempts.
pub run-budget :
    (cfg : DispatchConfig) (turns : List (World × ℕ × ℕ)) (d : Dispatcher)
    → cfg.max_attempts < u32_mod
    → AllKeepConfig turns
    → IsValid d.queue
    → HasCount d.queue.scheduled
    → IsValid (run cfg turns d).0.queue
      × ((run cfg turns d).1 + budget cfg.max_attempts (run cfg turns d).0.queue.scheduled
          ≤ budget cfg.max_attempts d.queue.scheduled)
run-budget cfg turns d w keeps v h =
    let r = run-Drains cfg turns d w keeps v h in (r.valid, r.spent)
