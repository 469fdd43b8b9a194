-- ===== src/Dispatch/Outcomes.antt =====
-- What a delivery round keeps, and what it leaves.
use smtp_relay.Prelude.{
  ℕ, zero, suc, ◌+◌, ◌≡◌, ◌≤◌, refl, true, false, some, List, [], ◌∷◌, ◌++◌, map, inl, inr, arith,
  All, Bool-cases, Text, length, get_elem?, text_eq, text_eq_iff, if◌then◌else◌,
}
use smtp_relay.Metrics.Counters.{Counters, inc}
use smtp_relay.Queue.Schedule.{QueuedMessage}
use smtp_relay.Relay.Runtime.{RelayRuntime}
use smtp_relay.Relay.Pool.{mentions}
use smtp_relay.Dispatch.{World, Stage, AttemptOutcome, delivered, deferred, failed, Round}

-- No text stands in the list twice.
abbrev pub Distinct : List Text → Type 0
Distinct [] = Unit
Distinct (x ∷ xs) = (mentions xs x ≡ false) × Distinct xs

-- Other tasks do not change a relay's settings.
abbrev pub KeepsConfig : World → Type 0
KeepsConfig world =
    (stage : Stage) (n : ℕ) (r : RelayRuntime) → (world.others stage n r).config ≡ r.config

pub mentions-append :
    (xs ys : List Text) (x : Text)
    → mentions (xs ++ ys) x ≡ (if mentions xs x then true else mentions ys x)
mentions-append [] ys x = refl
mentions-append (y ∷ xs) ys x = ground (arith, mentions-append xs ys x)

pub Distinct-snoc :
    (xs : List Text) (x : Text) → Distinct xs → mentions xs x ≡ false → Distinct (xs ++ (x ∷ []))
Distinct-snoc [] x d h = (refl, tt)
Distinct-snoc (y ∷ xs) x d h = (
  ground (arith, mentions-append xs (x ∷ []) y, text_eq_iff x y, text_eq_iff y x),
  Distinct-snoc xs x d.1 (ground arith),
)

pub All-snoc :
    (P : Text → Type 0) (xs : List Text) (x : Text) → All P xs → P x → All P (xs ++ (x ∷ []))
All-snoc P [] x h p = (p, tt)
All-snoc P (y ∷ xs) x h p = (h.0, All-snoc P xs x h.1 p)

-- What all members of a list have, a text that lacks it cannot be among them.
pub mentions-outside :
    (ids xs : List Text) (x : Text)
    → All (λ y. mentions ids y ≡ true) xs
    → mentions ids x ≡ false
    → mentions xs x ≡ false
mentions-outside ids [] x h n = refl
mentions-outside ids (y ∷ xs) x h n = elim (Bool-cases (text_eq y x)) [
  | inl e ↦ let same = (text_eq_iff y x).0 e in absurd (ground arith)
  | inr e ↦ rw e (mentions-outside ids xs x h.1 n)
]

pub get_elem?-map :
    (f : RelayRuntime → RelayRuntime) (rs : List RelayRuntime) (i : ℕ) (r : RelayRuntime)
    → get_elem? (map f rs) i ≡ some r
    → (q : RelayRuntime) × (get_elem? rs i ≡ some q) × (f q ≡ r)
get_elem?-map f [] i r e = cc
get_elem?-map f (q ∷ rs) zero r e = (q, refl, cc)
get_elem?-map f (q ∷ rs) (suc i) r e = get_elem?-map f rs i r e

-- What a round keeps of its start, the counters `c` and the message `m`: with at most `n` tries to go
-- of `limit`, the sends are distinct and among the tried relays, and no outcome is counted yet.
pub record Holds (c : Counters) (m : QueuedMessage) (limit n : ℕ) (attempted sends : List Text)
    (delivered failed deferred : ℕ) (id : Text) (attempts : ℕ) (raw : List ℕ) : Type 0 where
  pub among : All (λ x. mentions attempted x ≡ true) sends
  pub distinct : Distinct sends
  pub few : length sends + n ≤ limit
  pub no_delivered : delivered ≡ c.messages_delivered
  pub no_failed : failed ≡ c.messages_failed
  pub no_deferred : deferred ≡ c.messages_deferred
  pub same_id : id ≡ m.id
  pub same_attempts : attempts ≡ m.attempts
  pub same_raw : raw ≡ m.raw

abbrev pub IsUnderWay : Counters → QueuedMessage → ℕ → ℕ → Round → Type 0
IsUnderWay c m limit n s =
    Holds c m limit n s.attempted s.sends s.counters.messages_delivered s.counters.messages_failed
      s.counters.messages_deferred s.message.id s.message.attempts s.message.raw

-- Exactly one of the three counters counts the round.
abbrev pub IsCounted : Counters → Counters → AttemptOutcome → Type 0
IsCounted c d (delivered id response) =
    (d.messages_delivered ≡ inc c.messages_delivered)
    × (d.messages_failed ≡ c.messages_failed)
    × (d.messages_deferred ≡ c.messages_deferred)
IsCounted c d (failed error) =
    (d.messages_delivered ≡ c.messages_delivered)
    × (d.messages_failed ≡ inc c.messages_failed)
    × (d.messages_deferred ≡ c.messages_deferred)
IsCounted c d (deferred error) =
    (d.messages_delivered ≡ c.messages_delivered)
    × (d.messages_failed ≡ c.messages_failed)
    × (d.messages_deferred ≡ inc c.messages_deferred)

-- What a round leaves: the message went to at most `limit` relays, to none of them twice, the outcome
-- is counted once, and the message is the one that it was, with the attempts counted.
pub record IsDone (c : Counters) (m : QueuedMessage) (limit : ℕ) (res : Round × AttemptOutcome)
    : Type 0 where
  pub distinct : Distinct res.0.sends
  pub few : length res.0.sends ≤ limit
  pub counted : IsCounted c res.0.counters res.1
  pub same_id : res.0.message.id ≡ m.id
  pub same_attempts : res.0.message.attempts ≡ m.attempts
  pub same_raw : res.0.message.raw ≡ m.raw
