-- ===== src/Queue/Durability.antt =====
-- No accepted message is lost: while it waits or is being delivered its files stand in the spool,
-- and the queue's three maps agree.
use smtp_relay.Prelude.{
  ℕ, ◌+◌, ◌≡◌, refl, subst, true, false, not, some, none, List, [], ◌∷◌, inl, inr, Text, arith, All,
  All-mono, Bool-cases, leb, text_eq, text_eq_iff,
}
use smtp_relay.Prelude.Assoc
use smtp_relay.Prelude.Assoc.{lookup, has, lookup-insert, lookup-remove}
use smtp_relay.Queue.Schedule.{QueuedMessage, ScheduleKey, Entry, key_lt}
use smtp_relay.Queue.Order.{Sorted, insert-All, insert-Sorted}
use smtp_relay.Queue.{
  Queue, depth, enqueue, take_due, take_first, finish, requeue, schedule, write_spool, remove_spool,
}

-- Both files of a message stand in the spool.
abbrev pub IsSaved : Queue → Text → Type 0
IsSaved q id = (has id q.metas ≡ true) × (has id q.bodies ≡ true)

pub record IsValid (q : Queue) : Type 0 where
  pub persistent : q.persist ≡ true
  pub sorted : Sorted q.scheduled
  pub listed : All (λ e. lookup e.message.id q.by_id ≡ some e.key) q.scheduled
  pub apart : All (λ e. lookup e.message.id q.in_flight ≡ none) q.scheduled
  pub saved : All (λ e. IsSaved q e.message.id) q.scheduled
  pub saved_in_flight : (id : Text) → has id q.in_flight ≡ true → IsSaved q id

-- An id that the queue does not know.
abbrev pub IsNew : Queue → Text → Type 0
IsNew q id = (lookup id q.by_id ≡ none) × (lookup id q.in_flight ≡ none)

-- Saving a message's files keeps those of every other.
IsSaved-write_spool :
    (m : QueuedMessage) (q : Queue) (id : Text) → IsSaved q id → IsSaved (write_spool m q) id
unfolding write_spool
IsSaved-write_spool m q id s = ground (
  arith,
  lookup-insert m.id id (record m { raw = [] }) q.metas,
  lookup-insert m.id id m.raw q.bodies,
)

pub IsSaved-write_spool_self :
    (m : QueuedMessage) (q : Queue) → q.persist ≡ true → IsSaved (write_spool m q) m.id
unfolding write_spool
IsSaved-write_spool_self m q p = ground (
  arith,
  lookup-insert m.id m.id (record m { raw = [] }) q.metas,
  lookup-insert m.id m.id m.raw q.bodies,
  text_eq_iff m.id m.id,
)

-- Removing a message's files keeps those of every other.
IsSaved-remove_spool :
    (j : Text) (q : Queue) (id : Text)
    → text_eq j id ≡ false
    → IsSaved q id
    → IsSaved (remove_spool j q) id
unfolding remove_spool
IsSaved-remove_spool j q id ne s =
    ground (arith, lookup-remove j id q.metas, lookup-remove j id q.bodies)

-- The parts of the queue that `write_spool` leaves alone.
write_spool_frame :
    (m : QueuedMessage) (q : Queue)
    → ((write_spool m q).scheduled ≡ q.scheduled)
      × ((write_spool m q).by_id ≡ q.by_id)
      × ((write_spool m q).in_flight ≡ q.in_flight)
      × ((write_spool m q).persist ≡ q.persist)
unfolding write_spool
write_spool_frame m q = ground arith

-- A message whose id is new is put on the schedule, and saved.
scheduled-IsValid :
    (m : QueuedMessage) (q : Queue)
    → IsNew q m.id
    → IsValid q
    → IsValid (write_spool m (schedule m q))
unfolding schedule
scheduled-IsValid m q n v =
    let s = schedule m q in
    let (f1, f2, f3, f4) = write_spool_frame m s in
    let key : ScheduleKey = record { due = m.next_attempt_at; number = q.sequence } in
    record {
      persistent = rw f4 v.persistent;
      sorted = rw f1 (insert-Sorted key m q.scheduled v.sorted);
      listed =
          rw (f1, f2)
            (insert-All _ key m q.scheduled
              (rw (lookup-insert m.id m.id key q.by_id) (ground (arith, text_eq_iff m.id m.id)))
              (All-mono q.scheduled
                (λ e (h : lookup e.message.id q.by_id ≡ some e.key). ground (
                  arith,
                  lookup-insert m.id e.message.id key q.by_id,
                  text_eq_iff m.id e.message.id,
                ))
                v.listed));
      apart = rw (f1, f3) (insert-All _ key m q.scheduled n.1 v.apart);
      saved = rw f1 (
          insert-All (λ e. IsSaved (write_spool m s) e.message.id) key m q.scheduled
            (IsSaved-write_spool_self m s v.persistent)
            (All-mono q.scheduled
              (λ e (h : IsSaved q e.message.id). IsSaved-write_spool m s e.message.id h) v.saved));
      saved_in_flight = λ id h. IsSaved-write_spool m s id (v.saved_in_flight id (rw f3 at h));
    }

pub enqueue-IsValid :
    (m : QueuedMessage) (q : Queue) → IsNew q m.id → IsValid q → IsValid (enqueue m q).0
unfolding enqueue
enqueue-IsValid m q n v = elim (Bool-cases (not q.enabled)) [
  | inl a ↦ rw a v
  | inr a ↦ rw a (elim (Bool-cases (leb q.capacity (depth q))) [
    | inl b ↦ rw b v
    | inr b ↦ rw b (scheduled-IsValid m q n v)
  ])
]

-- A message that a worker holds is put back.
pub requeue-IsValid :
    (now : ℕ) (m : QueuedMessage) (delay : ℕ) (q : Queue)
    → lookup m.id q.by_id ≡ none
    → IsValid q
    → IsValid (requeue now m delay q)
unfolding requeue
requeue-IsValid now m delay q n v =
    scheduled-IsValid (record m { next_attempt_at = now + delay })
      (record q { in_flight = Assoc.remove m.id q.in_flight })
      (n, ground (arith, lookup-remove m.id m.id q.in_flight, text_eq_iff m.id m.id))
      (record {
        persistent = v.persistent;
        sorted = v.sorted;
        listed = v.listed;
        apart =
            All-mono q.scheduled
              (λ e (h : lookup e.message.id q.in_flight ≡ none).
                ground (arith, lookup-remove m.id e.message.id q.in_flight))
              v.apart;
        saved = v.saved;
        saved_in_flight =
            λ id h. v.saved_in_flight id (ground (arith, lookup-remove m.id id q.in_flight));
      })

-- What `remove_spool` leaves alone.
remove_spool_frame :
    (id : Text) (q : Queue)
    → ((remove_spool id q).scheduled ≡ q.scheduled)
      × ((remove_spool id q).by_id ≡ q.by_id)
      × ((remove_spool id q).in_flight ≡ q.in_flight)
      × ((remove_spool id q).persist ≡ q.persist)
unfolding remove_spool
remove_spool_frame id q = ground arith

-- A worker reports the end of a message that is not scheduled: only that message's files go.
pub finish-IsValid :
    (id : Text) (q : Queue) → lookup id q.by_id ≡ none → IsValid q → IsValid (finish id q)
unfolding finish
finish-IsValid id q n v =
    let s : Queue = record q { in_flight = Assoc.remove id q.in_flight } in
    let (f1, f2, f3, f4) = remove_spool_frame id s in
    record {
      persistent = rw f4 v.persistent;
      sorted = rw f1 v.sorted;
      listed = rw (f1, f2) v.listed;
      apart =
          rw (f1, f3)
            (All-mono q.scheduled
              (λ e (h : lookup e.message.id q.in_flight ≡ none).
                ground (arith, lookup-remove id e.message.id q.in_flight))
              v.apart);
      saved = rw f1 (others q.scheduled v.listed v.saved);
      saved_in_flight = λ j h. in_flight j (rw f3 at h);
    }
  where
    s : Queue
    s = record q { in_flight = Assoc.remove id q.in_flight }

    others :
        (es : List Entry)
        → All (λ e. lookup e.message.id q.by_id ≡ some e.key) es
        → All (λ e. IsSaved q e.message.id) es
        → All (λ e. IsSaved (remove_spool id s) e.message.id) es
    others [] l h = tt
    others (e ∷ es) l h = (
      IsSaved-remove_spool id s e.message.id (ground (arith, text_eq_iff id e.message.id)) h.0,
      others es l.1 h.1,
    )

    in_flight :
        (j : Text) → has j (Assoc.remove id q.in_flight) ≡ true → IsSaved (remove_spool id s) j
    in_flight j h =
        IsSaved-remove_spool id s j (ground (arith, lookup-remove id j q.in_flight))
          (v.saved_in_flight j (ground (arith, lookup-remove id j q.in_flight)))

-- The earliest message leaves the schedule for a worker; its files stay.
take_first-IsValid :
    (now : ℕ) (q : Queue) (es : List Entry)
    → q.scheduled ≡ es
    → IsValid q
    → Sorted es
    → All (λ e. lookup e.message.id q.by_id ≡ some e.key) es
    → All (λ e. lookup e.message.id q.in_flight ≡ none) es
    → All (λ e. IsSaved q e.message.id) es
    → IsValid (take_first now q es).0
unfolding take_first
take_first-IsValid now q [] same v so l a s = v
take_first-IsValid now q (x ∷ es) same v so l a s = elim (Bool-cases (leb x.key.due now)) [
  | inr b ↦ rw b v
  | inl b ↦ rw b (record {
    persistent = v.persistent;
    sorted = so.1;
    listed = rest_listed es so.0 l.1;
    apart = rest_apart es so.0 l.1 a.1;
    saved = s.1;
    saved_in_flight = λ id h. elim (Bool-cases (text_eq x.message.id id)) [
      | inl e ↦ subst (IsSaved q) ((text_eq_iff x.message.id id).0 e) s.0
      | inr e ↦ v.saved_in_flight id (ground (arith, lookup-insert x.message.id id now q.in_flight))
    ];
  })
]
  where
    rest_listed :
        (ys : List Entry)
        → All (λ e. key_lt x.key e.key ≡ true) ys
        → All (λ e. lookup e.message.id q.by_id ≡ some e.key) ys
        → All (λ e. lookup e.message.id (Assoc.remove x.message.id q.by_id) ≡ some e.key) ys
    rest_listed [] k h = tt
    rest_listed (y ∷ ys) k h = (
      ground (
        arith,
        lookup-remove x.message.id y.message.id q.by_id,
        text_eq_iff x.message.id y.message.id,
        l.0,
      ),
      rest_listed ys k.1 h.1,
    )

    rest_apart :
        (ys : List Entry)
        → All (λ e. key_lt x.key e.key ≡ true) ys
        → All (λ e. lookup e.message.id q.by_id ≡ some e.key) ys
        → All (λ e. lookup e.message.id q.in_flight ≡ none) ys
        → All (λ e. lookup e.message.id (Assoc.insert x.message.id now q.in_flight) ≡ none) ys
    rest_apart [] k h n = tt
    rest_apart (y ∷ ys) k h n = (
      ground (
        arith,
        lookup-insert x.message.id y.message.id now q.in_flight,
        text_eq_iff x.message.id y.message.id,
        l.0,
      ),
      rest_apart ys k.1 h.1 n.1,
    )

pub take_due-IsValid : (now : ℕ) (q : Queue) → IsValid q → IsValid (take_due now q).0
unfolding take_due
take_due-IsValid now q v =
    take_first-IsValid now q q.scheduled refl v v.sorted v.listed v.apart v.saved
