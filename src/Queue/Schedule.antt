-- ===== src/Queue/Schedule.antt =====
-- src/queue.rs, the message and the `BTreeMap` that orders the messages by due time: a list of
-- entries in increasing order of their keys.
use smtp_relay.Prelude.{
  ℕ, Bool, ◌&&◌, ◌||◌, Option, none, some, List, [], ◌∷◌, Text, ltb, leb, ◌==◌, if◌then◌else◌,
}

-- Times are in milliseconds from 1970 on, an IP address is the list of its octets.
pub record QueuedMessage : Type 0 where
  pub id : Text
  pub sender : Text
  pub recipients : List Text
  pub original_from : Text
  pub subject : Option Text
  pub client_ip : Option (List ℕ)
  pub helo : Text
  pub received_at : ℕ
  pub attempts : ℕ
  pub next_attempt_at : ℕ
  pub tried_relays : List Text
  pub last_error : Option Text
  pub auth_user : Option Text
  pub raw : List ℕ

-- Due time first, then insertion order.
pub record ScheduleKey : Type 0 where
  pub due : ℕ
  pub number : ℕ

pub record Entry : Type 0 where
  pub key : ScheduleKey
  pub message : QueuedMessage

abbrev pub key_lt : ScheduleKey → ScheduleKey → Bool
key_lt a b = ltb a.due b.due || (a.due == b.due && ltb a.number b.number)

abbrev pub key_eq : ScheduleKey → ScheduleKey → Bool
key_eq a b = a.due == b.due && a.number == b.number

-- `BTreeMap::insert`: an equal key is replaced.
unfoldable pub insert : ScheduleKey → QueuedMessage → List Entry → List Entry
insert k m [] = record { key = k; message = m } ∷ []
insert k m (e ∷ es) =
    if key_lt k e.key
    then record { key = k; message = m } ∷ e ∷ es
    else if key_eq k e.key
    then record { key = k; message = m } ∷ es
    else e ∷ insert k m es

unfoldable pub remove_key : ScheduleKey → List Entry → List Entry
remove_key k [] = []
remove_key k (e ∷ es) = if key_eq k e.key then es else e ∷ remove_key k es

unfoldable pub lookup_key : ScheduleKey → List Entry → Option QueuedMessage
lookup_key k [] = none
lookup_key k (e ∷ es) = if key_eq k e.key then some e.message else lookup_key k es

-- `keys().take_while(due <= now)`.
unfoldable pub due_keys : ℕ → List Entry → List ScheduleKey
due_keys now [] = []
due_keys now (e ∷ es) = if leb e.key.due now then e.key ∷ due_keys now es else []
