-- ===== src/Queue/Recovery.antt =====
-- What a restarted queue finds in its spool directory.
use smtp_relay.Prelude.{
  ℕ, suc, ◌+◌, ◌≡◌, ◌≤◌, ◌<◌, refl, ap, ◌⊎◌, inl, inr, Bool, true, false, List, [], ◌∷◌, arith, All,
  All-mono, Bool-cases, Text, length, is_empty, leb, if◌then◌else◌, u64_mod, add_u64,
}
use smtp_relay.Queue.Schedule.{QueuedMessage, ScheduleKey, Entry, insert, key_lt, key_eq}
use smtp_relay.Queue.Order.{insert-All}
use smtp_relay.Queue.{Queue, depth, schedule, body_of, recover_entries, recover}

abbrev pub Contains : QueuedMessage → List Entry → Type 0
Contains m [] = ⊥
Contains m (e ∷ es) = (e.message ≡ m) ⊎ Contains m es

pub insert-Contains_self :
    (k : ScheduleKey) (m : QueuedMessage) (es : List Entry) → Contains m (insert k m es)
unfolding insert
insert-Contains_self k m [] = inl refl
insert-Contains_self k m (e ∷ es) = elim (Bool-cases (key_lt k e.key)) [
  | inl a ↦ rw a (inl refl)
  | inr a ↦ rw a (elim (Bool-cases (key_eq k e.key)) [
    | inl b ↦ rw b (inl refl)
    | inr b ↦ rw b (inr (insert-Contains_self k m es))
  ])
]

insert-Contains :
    (k : ScheduleKey) (m m' : QueuedMessage) (es : List Entry)
    → All (λ e. key_eq k e.key ≡ false) es
    → Contains m' es
    → Contains m' (insert k m es)
unfolding insert
insert-Contains k m m' [] f h = elim h [ ]
insert-Contains k m m' (e ∷ es) f h = elim (Bool-cases (key_lt k e.key)) [
  | inl a ↦ rw a (inr h)
  | inr a ↦
      rw (a, f.0)
        (elim h [ inl here ↦ inl here | inr there ↦ inr (insert-Contains k m m' es f.1 there) ])
]

pub length-insert :
    (k : ScheduleKey) (m : QueuedMessage) (es : List Entry)
    → length (insert k m es) ≤ suc (length es)
unfolding insert
length-insert k m [] = omega arith
length-insert k m (e ∷ es) = ground (arith, length-insert k m es)

-- Room for `n` more messages: of the capacity, and of the sequence numbers, which are all used in
-- order.
pub record HasRoom (n : ℕ) (q : Queue) : Type 0 where
  pub capacious : depth q + n ≤ q.capacity
  pub countable : q.sequence + n < u64_mod
  pub fresh : All (λ e. e.key.number < q.sequence) q.scheduled

schedule-HasRoom :
    (n : ℕ) (m : QueuedMessage) (q : Queue) → HasRoom (suc n) q → HasRoom n (schedule m q)
unfolding schedule
schedule-HasRoom n m q h =
    let longer =
      length-insert (record { due = m.next_attempt_at; number = q.sequence }) m q.scheduled in
    let room = h.countable in
    let next : add_u64 q.sequence 1 ≡ q.sequence + 1 = ground arith in
    let space = h.capacious in
    record {
      capacious = omega arith;
      countable = rw next (omega arith);
      fresh = rw next (
          insert-All _ _ m q.scheduled (omega arith)
            (All-mono q.scheduled (λ e (l : e.key.number < q.sequence). omega arith) h.fresh));
    }

schedule-Contains :
    (n : ℕ) (m m' : QueuedMessage) (q : Queue)
    → HasRoom n q
    → Contains m' q.scheduled
    → Contains m' (schedule m q).scheduled
unfolding schedule
schedule-Contains n m m' q h c =
    insert-Contains _ m m' q.scheduled
      (All-mono q.scheduled (λ e (l : e.key.number < q.sequence). ground arith) h.fresh) c

-- The message of which the spool holds the metadata `meta` and a body.
abbrev pub restored : Queue → QueuedMessage → QueuedMessage
restored q meta = record meta { raw = body_of q meta.id }

abbrev pub HasBody : Queue → Text × QueuedMessage → Type 0
HasBody q (id, meta) = is_empty (body_of q meta.id) ≡ false

abbrev pub IsRestored : Queue → List Entry → Text × QueuedMessage → Type 0
IsRestored q es (id, meta) = Contains (restored q meta) es

record Recovers (q : Queue) (entries : List (Text × QueuedMessage)) (res : Queue × ℕ) : Type 0 where
  kept : (m : QueuedMessage) → Contains m q.scheduled → Contains m res.0.scheduled
  found : All (IsRestored q res.0.scheduled) entries
  counted : res.1 ≡ length entries

recover_entries-Recovers :
    (entries : List (Text × QueuedMessage)) (q : Queue)
    → HasRoom (length entries) q
    → All (HasBody q) entries
    → Recovers q entries (recover_entries entries q)
unfolding recover_entries schedule
recover_entries-Recovers [] q h b = record { kept = λ m c. c; found = tt; counted = refl }
recover_entries-Recovers ((id, meta) ∷ rest) q h b =
    let space = h.capacious in
    let below : leb q.capacity (depth q) ≡ false = ground arith in
    let next = schedule (restored q meta) q in
    let ih =
      recover_entries-Recovers rest next (schedule-HasRoom (length rest) (restored q meta) q h)
        b.1 in
    rw (b.0, below)
      (record {
        kept = λ m c. ih.kept m (schedule-Contains _ (restored q meta) m q h c);
        found = (
          ih.kept (restored q meta) (insert-Contains_self _ (restored q meta) q.scheduled),
          ih.found,
        );
        counted = ground (arith, ih.counted);
      })

recover-recover_entries : (q : Queue) → q.persist ≡ true → recover q ≡ recover_entries q.metas q
unfolding recover
recover-recover_entries q p = ap (λ (b : Bool). if b then recover_entries q.metas q else (q, 0)) p

-- A restarted queue that persists schedules again every message of which the spool holds the
-- metadata and a body that is not empty, with that body, and returns how many these are. Every
-- entry of the spool has such a body, and there is room for all of them: in the capacity, and in the
-- sequence numbers, which are above those in use.
pub recover-IsRestored :
    (q : Queue)
    → q.persist ≡ true
    → HasRoom (length q.metas) q
    → All (HasBody q) q.metas
    → All (IsRestored q (recover q).0.scheduled) q.metas × ((recover q).1 ≡ length q.metas)
recover-IsRestored q p h b =
    let r = recover_entries-Recovers q.metas q h b in
    rw (recover-recover_entries q p) (r.found, r.counted)
