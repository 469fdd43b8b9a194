-- ===== src/Queue/Order.antt =====
-- The schedule stays in order, and the earliest message that is due leaves first.
use smtp_relay.Prelude.{
  ℕ, ◌≡◌, ◌≤◌, ◌<◌, refl, subst, true, some, none, List, [], ◌∷◌, inl, inr, arith, All, All-mono,
  Bool-cases, sym,
}
use smtp_relay.Queue.Schedule.{
  QueuedMessage, ScheduleKey, Entry, key_lt, key_eq, insert, remove_key, lookup_key,
}
use smtp_relay.Queue.{Queue, take_first, take_due}

abbrev pub Above : ScheduleKey → List Entry → Type 0
Above k = All (λ e. key_lt k e.key ≡ true)

-- Keys grow along the list.
abbrev pub Sorted : List Entry → Type 0
Sorted [] = Unit
Sorted (e ∷ es) = Above e.key es × Sorted es

pub insert-All :
    (P : Entry → Type 0) (k : ScheduleKey) (m : QueuedMessage) (es : List Entry)
    → P (record { key = k; message = m })
    → All P es
    → All P (insert k m es)
unfolding insert
insert-All P k m [] p h = (p, tt)
insert-All P k m (e ∷ es) p h = elim (Bool-cases (key_lt k e.key)) [
  | inl a ↦ rw a (p, h)
  | inr a ↦ rw a (elim (Bool-cases (key_eq k e.key)) [
    | inl b ↦ rw b (p, h.1)
    | inr b ↦ rw b (h.0, insert-All P k m es p h.1)
  ])
]

pub remove_key-All :
    (P : Entry → Type 0) (k : ScheduleKey) (es : List Entry) → All P es → All P (remove_key k es)
unfolding remove_key
remove_key-All P k [] h = tt
remove_key-All P k (e ∷ es) h = elim (Bool-cases (key_eq k e.key)) [
  | inl a ↦ rw a h.1
  | inr a ↦ rw a (h.0, remove_key-All P k es h.1)
]

key_lt_trans : (a b c : ScheduleKey) → key_lt a b ≡ true → key_lt b c ≡ true → key_lt a c ≡ true
key_lt_trans a b c h k = ground arith

Above-trans : (j k : ScheduleKey) (es : List Entry) → key_lt j k ≡ true → Above k es → Above j es
Above-trans j k es h = All-mono es (λ e (a : key_lt k e.key ≡ true). key_lt_trans j k e.key h a)

pub insert-Sorted :
    (k : ScheduleKey) (m : QueuedMessage) (es : List Entry) → Sorted es → Sorted (insert k m es)
unfolding insert
insert-Sorted k m [] s = (tt, tt)
insert-Sorted k m (e ∷ es) s = elim (Bool-cases (key_lt k e.key)) [
  | inl a ↦ rw a ((a, Above-trans k e.key es a s.0), s)
  | inr a ↦ rw a (elim (Bool-cases (key_eq k e.key)) [
    | inl b ↦ rw b (All-mono es (λ x (h : key_lt e.key x.key ≡ true). ground arith) s.0, s.1)
    | inr b ↦ rw b (insert-All _ k m es (ground arith) s.0, insert-Sorted k m es s.1)
  ])
]

pub remove_key-Sorted : (k : ScheduleKey) (es : List Entry) → Sorted es → Sorted (remove_key k es)
unfolding remove_key
remove_key-Sorted k [] s = tt
remove_key-Sorted k (e ∷ es) s = elim (Bool-cases (key_eq k e.key)) [
  | inl a ↦ rw a s.1
  | inr a ↦ rw a (remove_key-All _ k es s.0, remove_key-Sorted k es s.1)
]

-- A message that was put under a key is found under it.
pub lookup_key-insert :
    (k : ScheduleKey) (m : QueuedMessage) (es : List Entry) → lookup_key k (insert k m es) ≡ some m
unfolding lookup_key insert
lookup_key-insert k m [] = ground arith
lookup_key-insert k m (e ∷ es) = ground (arith, lookup_key-insert k m es)

-- Of a schedule in order, what `take_due` returns is due and stands before everything that stays.
pub take_due-some :
    (now : ℕ) (q q' : Queue) (m : QueuedMessage)
    → Sorted q.scheduled
    → take_due now q ≡ (q', some m)
    → (k : ScheduleKey) × (q.scheduled ≡ record { key = k; message = m } ∷ q'.scheduled)
      × (k.due ≤ now)
      × Above k q'.scheduled
unfolding take_due
take_due-some now q q' m s e = go q.scheduled refl s e
  where
    go :
        (es : List Entry)
        → q.scheduled ≡ es
        → Sorted es
        → take_first now q es ≡ (q', some m)
        → (k : ScheduleKey) × (q.scheduled ≡ record { key = k; message = m } ∷ q'.scheduled)
          × (k.due ≤ now)
          × Above k q'.scheduled
    go [] same s e = absurd (ground arith)
    go (x ∷ es) same s e =
        let stays : q'.scheduled ≡ es = ground arith in
        (x.key, ground arith, ground arith, subst (Above x.key) (sym stays) s.0)

take_first-none :
    (now : ℕ) (q q' : Queue) (es : List Entry)
    → Sorted es
    → take_first now q es ≡ (q', none)
    → (q' ≡ q) × All (λ e. now < e.key.due) es
unfolding take_first
take_first-none now q q' [] s e = (ground arith, tt)
take_first-none now q q' (x ∷ es) s e = (
  ground arith,
  (ground arith, All-mono es (λ y (h : key_lt x.key y.key ≡ true). ground arith) s.0),
)

-- Of a schedule in order, `take_due` returns nothing only when nothing is due, and changes nothing.
pub take_due-none :
    (now : ℕ) (q q' : Queue)
    → Sorted q.scheduled
    → take_due now q ≡ (q', none)
    → (q' ≡ q) × All (λ e. now < e.key.due) q.scheduled
unfolding take_due
take_due-none now q q' s e = take_first-none now q q' q.scheduled s e
