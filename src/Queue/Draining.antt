-- ===== src/Queue/Draining.antt =====
-- Messages leave the queue in the order of their due times, first come first served.
use smtp_relay.Prelude.{
  ℕ, zero, suc, ◌+◌, ◌≡◌, ◌≤◌, ◌<◌, refl, sym, subst, ap, ◌∙◌, Bool, true, false, none, some, List,
  [], ◌∷◌, map, length, ltb, leb, if◌then◌else◌, inl, inr, arith, All, All-mono, Bool-cases,
  u64_mod, add_u64,
}
use smtp_relay.Queue.Schedule.{QueuedMessage, Entry, ScheduleKey, key_lt, key_eq, insert}
use smtp_relay.Queue.{Queue, QueueConfig, new, enqueue, take_due, take_first, schedule, write_spool}
use smtp_relay.Queue.Order.{Sorted, insert-All, insert-Sorted}
use smtp_relay.Queue.Recovery.{length-insert}

-- Sessions submit the messages one after another.
abbrev pub submitted : List QueuedMessage → Queue → Queue
submitted [] q = q
submitted (m ∷ ms) q = submitted ms (enqueue m q).0

-- What up to `n` takes at the time `now` return, until one returns nothing.
abbrev pub drained : ℕ → ℕ → Queue → List QueuedMessage
drained zero now q = []
drained (suc n) now q =
    let (q', taken) = take_due now q in
    let rest = drained n now q' in elim taken [ none ↦ [] | some m ↦ m ∷ rest ]

-- A message stands behind all that are due no later.
abbrev pub insert_after : QueuedMessage → List QueuedMessage → List QueuedMessage
insert_after m [] = m ∷ []
insert_after m (x ∷ xs) =
    let rest = insert_after m xs in
    if ltb m.next_attempt_at x.next_attempt_at then m ∷ x ∷ xs else x ∷ rest

-- The messages by due time; of equal times the one that was submitted first comes first.
abbrev pub by_due : List QueuedMessage → List QueuedMessage → List QueuedMessage
by_due sorted [] = sorted
by_due sorted (m ∷ ms) = by_due (insert_after m sorted) ms

abbrev pub due_at : ℕ → List QueuedMessage → List QueuedMessage
due_at now [] = []
due_at now (m ∷ ms) =
    let rest = due_at now ms in if leb m.next_attempt_at now then m ∷ rest else rest

abbrev messages : Queue → List QueuedMessage
messages q = map (λ e. e.message) q.scheduled

-- The entry stands under its message's due time, with a number that was given out before.
abbrev Keyed : ℕ → Entry → Type 0
Keyed next e = (e.key.due ≡ e.message.next_attempt_at) × (e.key.number < next)

-- An enabled queue in order that has room for some more messages.
record HasRoom (room : ℕ) (q : Queue) : Type 0 where
  enabled : q.enabled ≡ true
  capacious : length q.scheduled + room ≤ q.capacity
  countable : q.sequence + room < u64_mod
  sorted : Sorted q.scheduled
  keyed : All (Keyed q.sequence) q.scheduled

insert-messages :
    (next : ℕ) (m : QueuedMessage) (es : List Entry)
    → All (Keyed next) es
    → map (λ e. e.message) (insert (record { due = m.next_attempt_at; number = next }) m es)
      ≡ insert_after m (map (λ e. e.message) es)
unfolding insert
insert-messages next m [] h = refl
insert-messages next m (e ∷ es) h =
    let k : ScheduleKey = record { due = m.next_attempt_at; number = next } in
    let (due, below) = h.0 in
    let differ : key_eq k e.key ≡ false = ground arith in
    let same : key_lt k e.key ≡ ltb m.next_attempt_at e.message.next_attempt_at = ground arith in
    rw (same, differ)
      (elim (Bool-cases (ltb m.next_attempt_at e.message.next_attempt_at)) [
        | inl f ↦ rw f refl
        | inr f ↦ rw f (ap (λ xs. e.message ∷ xs) (insert-messages next m es h.1))
      ])

-- The fields of the queue after a submission for which there is room.
record Accepts (m : QueuedMessage) (q q' : Queue) : Type 0 where
  enabled : q'.enabled ≡ true
  capacity : q'.capacity ≡ q.capacity
  sequence : q'.sequence ≡ suc q.sequence
  scheduled :
      q'.scheduled ≡ insert (record { due = m.next_attempt_at; number = q.sequence }) m q.scheduled

schedule-Accepts :
    (m : QueuedMessage) (q : Queue)
    → q.enabled ≡ true
    → suc q.sequence < u64_mod
    → Accepts m q (write_spool m (schedule m q))
unfolding write_spool schedule
schedule-Accepts m q e h =
    let next : add_u64 q.sequence 1 ≡ suc q.sequence = ground arith in
    elim (Bool-cases q.persist) [
      | inl p ↦ rw p (record { enabled = e; capacity = refl; sequence = next; scheduled = refl })
      | inr p ↦ rw p (record { enabled = e; capacity = refl; sequence = next; scheduled = refl })
    ]

enqueue-Accepts :
    (room : ℕ) (m : QueuedMessage) (q : Queue) → HasRoom (suc room) q → Accepts m q (enqueue m q).0
unfolding enqueue
enqueue-Accepts room m q v =
    let open_yet : leb q.capacity (length q.scheduled) ≡ false =
      let h = v.capacious in ground arith in
    let h = v.countable in
    let accepted : (enqueue m q).0 ≡ write_spool m (schedule m q) =
      let enabled = v.enabled in ground arith in
    subst (Accepts m q) (sym accepted) (schedule-Accepts m q v.enabled (omega arith))

enqueue-HasRoom :
    (room : ℕ) (m : QueuedMessage) (q q' : Queue)
    → HasRoom (suc room) q
    → Accepts m q q'
    → HasRoom room q'
      × (messages q' ≡ insert_after m (messages q))
      × (length q'.scheduled ≤ suc (length q.scheduled))
enqueue-HasRoom room m q q' v a =
    let k : ScheduleKey = record { due = m.next_attempt_at; number = q.sequence } in
    let size = length-insert k m q.scheduled in
    let capacious = v.capacious in
    let countable = v.countable in
    (
      record {
        enabled = a.enabled;
        capacious = rw (a.scheduled, a.capacity) (omega arith);
        countable = rw a.sequence (omega arith);
        sorted = rw a.scheduled (insert-Sorted k m q.scheduled v.sorted);
        keyed =
            rw (a.scheduled, a.sequence)
              (insert-All (Keyed (suc q.sequence)) k m q.scheduled (refl, omega arith)
                (All-mono q.scheduled (λ e (h : Keyed q.sequence e). (h.0, omega (arith, h.1)))
                  v.keyed));
      },
      rw a.scheduled (insert-messages q.sequence m q.scheduled v.keyed),
      rw a.scheduled size,
    )

submitted-HasRoom :
    (ms : List QueuedMessage) (q : Queue)
    → HasRoom (length ms) q
    → HasRoom 0 (submitted ms q)
      × (messages (submitted ms q) ≡ by_due (messages q) ms)
      × (length (submitted ms q).scheduled ≤ length ms + length q.scheduled)
submitted-HasRoom [] q v = (v, refl, omega arith)
submitted-HasRoom (m ∷ ms) q v =
    let (room, stands, size) =
      enqueue-HasRoom (length ms) m q (enqueue m q).0 v (enqueue-Accepts (length ms) m q v) in
    let (last, order, more) = submitted-HasRoom ms (enqueue m q).0 room in
    (last, order ∙ ap (λ sorted. by_due sorted ms) stands, omega arith)

not_due :
    (now next : ℕ) (es : List Entry)
    → All (Keyed next) es
    → All (λ e. now < e.key.due) es
    → due_at now (map (λ e. e.message) es) ≡ []
not_due now next [] k h = refl
not_due now next (e ∷ es) k h =
    let late : leb e.message.next_attempt_at now ≡ false =
      let (same, _) = k.0 in let l = h.0 in ground arith in
    rw late (not_due now next es k.1 h.1)

-- What a take makes of a first entry that is due.
take_due-first :
    (now : ℕ) (q : Queue) (x : Entry) (es : List Entry)
    → q.scheduled ≡ x ∷ es
    → leb x.key.due now ≡ true
    → ((take_due now q).1 ≡ some x.message) × ((take_due now q).0.scheduled ≡ es)
unfolding take_due take_first
take_due-first now q x es e f = (
  ap (λ l. (take_first now q l).1) e ∙ taken,
  ap (λ l. (take_first now q l).0.scheduled) e ∙ left,
)
  where
    taken : (take_first now q (x ∷ es)).1 ≡ some x.message
    taken = rw f refl

    left : (take_first now q (x ∷ es)).0.scheduled ≡ es
    left = rw f refl

take_due-late :
    (now : ℕ) (q : Queue) (x : Entry) (es : List Entry)
    → q.scheduled ≡ x ∷ es
    → leb x.key.due now ≡ false
    → take_due now q ≡ (q, none)
unfolding take_due take_first
take_due-late now q x es e f = ap (take_first now q) e ∙ (rw f refl)

take_due-empty : (now : ℕ) (q : Queue) → q.scheduled ≡ [] → take_due now q ≡ (q, none)
unfolding take_due take_first
take_due-empty now q e = ap (take_first now q) e

-- Taking from a queue in order returns the messages that are due, in that order.
drained-due_at :
    (n now next : ℕ) (q : Queue) (es : List Entry)
    → q.scheduled ≡ es
    → Sorted es
    → All (Keyed next) es
    → length es < n
    → drained n now q ≡ due_at now (map (λ e. e.message) es)
drained-due_at zero now next q es e s k h = absurd (omega arith)
drained-due_at (suc n) now next q [] e s k h = rw (drained, take_due-empty now q e) refl
drained-due_at (suc n) now next q (x ∷ es) e s k h = elim (Bool-cases (leb x.key.due now)) [
  | inl f ↦
      let due : leb x.message.next_attempt_at now ≡ true = let (same, _) = k.0 in ground arith in
      let (taken, rest) = take_due-first now q x es e f in
      rw (drained, taken, due)
        (ap (λ later. x.message ∷ later)
          (drained-due_at n now next (take_due now q).0 es rest s.1 k.1 (omega arith)))
  | inr f ↦
      let all_late : All (λ y. now < y.key.due) (x ∷ es) =
        (ground arith, All-mono es (λ y (g : key_lt x.key y.key ≡ true). ground arith) s.0) in
      rw (drained, take_due-late now q x es e f) (sym (not_due now next (x ∷ es) k all_late))
]

-- Messages that are submitted one after another to a new queue with room for all of them leave it,
-- when all takes happen at one time, in the order of their due times, and those with equal due times
-- in the order in which they were submitted. Exactly those that are due at that time leave. The queue
-- is enabled, there are more takes than messages, and the messages are fewer than 2^64.
pub drained-by_due :
    (cfg : QueueConfig) (directory_exists : Bool) (ms : List QueuedMessage) (n now : ℕ)
    → cfg.enabled ≡ true
    → length ms ≤ cfg.capacity
    → length ms < u64_mod
    → length ms < n
    → drained n now (submitted ms (new cfg directory_exists)) ≡ due_at now (by_due [] ms)
unfolding new
drained-by_due cfg directory_exists ms n now e c w h =
    let start : HasRoom (length ms) (new cfg directory_exists) = record {
      enabled = e;
      capacious = ground arith;
      countable = omega arith;
      sorted = tt;
      keyed = tt;
    } in
    let (v, order, size) = submitted-HasRoom ms (new cfg directory_exists) start in
    let q = submitted ms (new cfg directory_exists) in
    drained-due_at n now q.sequence q q.scheduled refl v.sorted v.keyed (omega arith)
    ∙ ap (due_at now) order
