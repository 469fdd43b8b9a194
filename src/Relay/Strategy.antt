-- ===== src/Relay/Strategy.antt =====
-- src/relay/selector.rs: the four strategies by which `select` picks one of several candidates.
use smtp_relay.Prelude.{
  ℕ, Bool, ◌&&◌, ◌||◌, Option, none, some, List, [], ◌∷◌, length, get_elem?, ltb, ◌==◌,
  if◌then◌else◌,
}
use smtp_relay.Relay.Config.{
  Clock, timestamp, Strategy, round_robin, weighted, least_used, failover,
}
use smtp_relay.Relay.Quota
use smtp_relay.Relay.Runtime.{RelayRuntime}
use smtp_relay.Relay.Pool.{Pool, next_cursor}
use smtp_relay.Relay.Weights.{smooth_weighted_pick}

-- `candidates[i]`, of an index within the list.
abbrev pub nth : List ℕ → ℕ → ℕ → ℕ
nth cs i d = elim (get_elem? cs i) [ none ↦ d | some c ↦ c ]

-- The sort keys. A candidate has been rolled to this time by `is_eligible`, so reading its hourly
-- count here changes nothing.
abbrev pub Key : Type 0
Key = ℕ × ℕ × ℕ

abbrev pub usage_key : Clock → List RelayRuntime → ℕ → Key
usage_key now rs position = elim (get_elem? rs position) [
  | none ↦ (0, 0, position)
  | some r ↦ ((Quota.hour_count (timestamp now) r.usage).1, r.in_flight, position)
]

abbrev pub priority_key : List RelayRuntime → ℕ → Key
priority_key rs position = elim (get_elem? rs position) [
  | none ↦ (0, 0, position)
  | some r ↦ (r.config.priority, 0, position)
]

-- The order of Rust's tuples.
abbrev pub key_lt : Key → Key → Bool
key_lt a b = ltb a.0 b.0 || (a.0 == b.0 && (ltb a.1 b.1 || (a.1 == b.1 && ltb a.2 b.2)))

-- `sort_by_key`, which keeps the order of equal keys.
unfoldable pub insert_by : (ℕ → Key) → ℕ → List ℕ → List ℕ
insert_by key c [] = c ∷ []
insert_by key c (d ∷ ds) = if key_lt (key d) (key c) then d ∷ insert_by key c ds else c ∷ d ∷ ds

unfoldable pub sort_by_key : (ℕ → Key) → List ℕ → List ℕ
unfolding insert_by
sort_by_key key [] = []
sort_by_key key (c ∷ cs) = insert_by key c (sort_by_key key cs)

abbrev pub or_first : Option ℕ → ℕ → ℕ
or_first none c = c
or_first (some d) c = d

unfoldable pub pick : Clock → Strategy → Pool → ℕ → List ℕ → Pool × ℕ
unfolding sort_by_key
pick now round_robin p c cs =
    let (p', i) = next_cursor p (length (c ∷ cs)) in (p', nth (c ∷ cs) i c)
pick now weighted p c cs = let (p', best) = smooth_weighted_pick p (c ∷ cs) in (p', or_first best c)
pick now least_used p c cs = (p, nth (sort_by_key (usage_key now p.relays) (c ∷ cs)) 0 c)
pick now failover p c cs = (p, nth (sort_by_key (priority_key p.relays) (c ∷ cs)) 0 c)
