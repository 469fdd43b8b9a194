-- ===== src/Relay/Routing/Minimal.antt =====
-- The two strategies that sort the candidates take a relay before which none comes.
use smtp_relay.Prelude.{
  ℕ, zero, suc, ◌/◌, ◌≡◌, ◌<◌, ◌≤◌, ◌⊎◌, refl, subst, true, false, some, List, [], ◌∷◌, inl, inr,
  arith, All, Bool-cases, length, get_elem?, ltb, ◌==◌, if◌then◌else◌,
}
use smtp_relay.Relay.Config.{Clock, least_used, failover}
use smtp_relay.Relay.Quota
use smtp_relay.Relay.Quota.{roll}
use smtp_relay.Relay.Pool.{Pool, relay_at}
use smtp_relay.Relay.Runtime.{RelayRuntime}
use smtp_relay.Relay.Routing.{includes}
use smtp_relay.Relay.Strategy.{Key, key_lt, usage_key, priority_key, pick}
use smtp_relay.Relay.Routing.Picks.{pick-All}
use smtp_relay.Relay.Routing.Sorting.{
  IsLeast, includes-All_self, pick-IsLeast_failover, pick-IsLeast_least_used,
}

-- Both are relays of the pool, and the first precedes the second.
abbrev pub Ranked : (RelayRuntime → ℕ → RelayRuntime → ℕ → Type 0) → Pool → ℕ → List ℕ → Type 0
Ranked Precedes p c cs =
    (r : RelayRuntime) × (relay_at p c ≡ some r)
    × All (λ d. (r' : RelayRuntime) × (relay_at p d ≡ some r') × Precedes r c r' d) cs

-- The order of failover, of relays and their positions: a smaller number in the settings is the
-- higher priority, and the position decides between equal ones.
abbrev pub Prior : RelayRuntime → ℕ → RelayRuntime → ℕ → Type 0
Prior r c r' d =
    (r.config.priority < r'.config.priority) ⊎ ((r.config.priority ≡ r'.config.priority) × (c ≤ d))

-- The reservations of a relay in the hour of the clock.
abbrev pub this_hour : Clock → RelayRuntime → ℕ
this_hour now r = if r.usage.hour_key == now.utc / 1000 / 3600 then r.usage.hour_count else 0

-- The order of least use.
abbrev pub LessUsed : Clock → RelayRuntime → ℕ → RelayRuntime → ℕ → Type 0
LessUsed now r c r' d =
    (this_hour now r < this_hour now r')
    ⊎ ((this_hour now r ≡ this_hour now r')
        × ((r.in_flight < r'.in_flight) ⊎ ((r.in_flight ≡ r'.in_flight) × (c ≤ d))))

relay_at-below :
    (p : Pool) (c : ℕ) → c < length p.relays → (r : RelayRuntime) × (relay_at p c ≡ some r)
relay_at-below p c h = go p.relays c h
  where
    go :
        (rs : List RelayRuntime) (c : ℕ)
        → c < length rs
        → (r : RelayRuntime) × (get_elem? rs c ≡ some r)
    go [] c h = absurd (omega arith)
    go (r ∷ rs) zero h = (r, refl)
    go (r ∷ rs) (suc c) h = go rs c (omega arith)

ℕ-trichotomy : (a b : ℕ) → (a < b) ⊎ (a ≡ b) ⊎ (b < a)
ℕ-trichotomy a b = elim (Bool-cases (ltb a b)) [
  | inl e ↦ inl (ground arith)
  | inr e ↦ elim (Bool-cases (a == b)) [
    | inl f ↦ inr (inl (ground arith))
    | inr f ↦ inr (inr (ground arith))
  ]
]

-- The order of keys, field by field.
abbrev Before : Key → Key → Type 0
Before a b = (a.0 < b.0) ⊎ ((a.0 ≡ b.0) × ((a.1 < b.1) ⊎ ((a.1 ≡ b.1) × (a.2 ≤ b.2))))

key_lt-Before : (a b : Key) → key_lt b a ≡ false → Before a b
key_lt-Before a b h = elim (ℕ-trichotomy a.0 b.0) [
  | inl l ↦ inl l
  | inr (inr l) ↦ absurd (ground arith)
  | inr (inl e) ↦ inr (
    e,
    elim (ℕ-trichotomy a.1 b.1) [
      | inl l ↦ inl l
      | inr (inr l) ↦ absurd (ground arith)
      | inr (inl f) ↦ inr (f, ground arith)
    ],
  )
]

module _ (p : Pool) (c d : ℕ) (r r' : RelayRuntime) (at : relay_at p c ≡ some r)
    (other : relay_at p d ≡ some r') where
  priority_key-Prior :
      key_lt (priority_key p.relays d) (priority_key p.relays c) ≡ false → Prior r c r' d
  priority_key-Prior h =
      let k : priority_key p.relays c ≡ (r.config.priority, 0, c) = rw (at, priority_key) refl in
      let l : priority_key p.relays d ≡ (r'.config.priority, 0, d) =
        rw (other, priority_key) refl in
      let before : Before (r.config.priority, 0, c) (r'.config.priority, 0, d) =
        subst (Before _) l
          (subst (λ x. Before x (priority_key p.relays d)) k (key_lt-Before _ _ h)) in
      elim before [
        | inl a ↦ inl a
        | inr (e, inl a) ↦ absurd (omega arith)
        | inr (e, inr (f, g)) ↦ inr (e, g)
      ]

  usage_key-LessUsed :
      (now : Clock)
      → key_lt (usage_key now p.relays d) (usage_key now p.relays c) ≡ false
      → LessUsed now r c r' d
  unfolding Quota.hour_count roll
  usage_key-LessUsed now h =
      let k : usage_key now p.relays c ≡ (this_hour now r, r.in_flight, c) =
        rw (at, usage_key) refl in
      let l : usage_key now p.relays d ≡ (this_hour now r', r'.in_flight, d) =
        rw (other, usage_key) refl in
      subst (Before _) l (subst (λ x. Before x (usage_key now p.relays d)) k (key_lt-Before _ _ h))

IsLeast-Ranked :
    (key : ℕ → Key) (Precedes : RelayRuntime → ℕ → RelayRuntime → ℕ → Type 0) (p : Pool) (c : ℕ)
    (cs : List ℕ)
    → ((d : ℕ) (r r' : RelayRuntime)
        → relay_at p c ≡ some r
        → relay_at p d ≡ some r'
        → key_lt (key d) (key c) ≡ false
        → Precedes r c r' d)
    → c < length p.relays
    → All (λ d. d < length p.relays) cs
    → IsLeast key c cs
    → Ranked Precedes p c cs
IsLeast-Ranked key Precedes p c cs order h all least =
    let (r, e) = relay_at-below p c h in (r, e, each r e cs all least)
  where
    each :
        (r : RelayRuntime)
        → relay_at p c ≡ some r
        → (ds : List ℕ) → All (λ d. d < length p.relays) ds
        → IsLeast key c ds
        → All (λ d. (r' : RelayRuntime) × (relay_at p d ≡ some r') × Precedes r c r' d) ds
    each r e [] a l = tt
    each r e (d ∷ ds) a l =
        let (r', f) = relay_at-below p d a.0 in ((r', f, order d r r' e f l.0), each r e ds a.1 l.1)

-- Of candidates that are relays of the pool, the failover strategy picks one before which no
-- candidate comes: its priority number is the smallest, and among equal ones its position is. The
-- strategy for the least used relay picks one with the fewest reservations in the hour of the clock,
-- among equal ones with the fewest deliveries in flight, and then with the smallest position.
pub pick-IsLeast :
    (now : Clock) (p : Pool) (c : ℕ) (cs : List ℕ)
    → All (λ d. d < length p.relays) (c ∷ cs)
    → (includes (c ∷ cs) (pick now failover p c cs).1 ≡ true)
      × Ranked Prior p (pick now failover p c cs).1 (c ∷ cs)
      × (includes (c ∷ cs) (pick now least_used p c cs).1 ≡ true)
      × Ranked (LessUsed now) p (pick now least_used p c cs).1 (c ∷ cs)
pick-IsLeast now p c cs h =
    let among = includes-All_self (c ∷ cs) in
    let first = (pick now failover p c cs).1 in
    let idle = (pick now least_used p c cs).1 in
    (
      pick-All (λ q. includes (c ∷ cs) q ≡ true) now failover p c cs among,
      IsLeast-Ranked (priority_key p.relays) Prior p first (c ∷ cs) (priority_key-Prior p first)
          (pick-All (λ q. q < length p.relays) now failover p c cs h) h
          (pick-IsLeast_failover now p c cs),
      pick-All (λ q. includes (c ∷ cs) q ≡ true) now least_used p c cs among,
      IsLeast-Ranked (usage_key now p.relays) (LessUsed now) p idle (c ∷ cs)
          (λ d r r' e f. usage_key-LessUsed p idle d r r' e f now)
          (pick-All (λ q. q < length p.relays) now least_used p c cs h) h
          (pick-IsLeast_least_used now p c cs),
    )
