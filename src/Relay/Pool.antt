-- ===== src/Relay/Pool.antt =====
-- src/relay/pool.rs, `Pool`: the configured relays with the routing state. A shared `Arc` to a relay
-- is its position in the pool: a method called through it updates the relay at that position.
-- `transport_error` stands for the upstream library's connection builder: the message with which it
-- refuses a relay's settings, if it does.
pub mod Activation
use smtp_relay.Prelude.{
  ℕ, zero, suc, ◌+◌, ◌%◌, Bool, true, false, not, Option, none, some, List, [], ◌∷◌, ◌++◌, Text,
  any, length, set, get_elem?, ◌==◌, text_eq, if◌then◌else◌, add_u64, Result, ok, err, ◌>>=◌,
}
use smtp_relay.Relay.Config.{Clock, RelayConfig, RoutingConfig, SmtpDetail}
use smtp_relay.Relay.Runtime
use smtp_relay.Relay.Runtime.{RelayRuntime}
use smtp_relay.Prelude.Int.{ℤ, pos}

-- The fields of `Config` that the pool is built from.
pub record PoolConfig : Type 0 where
  pub relays : List RelayConfig
  pub routing : RoutingConfig
  pub smtp_details : List SmtpDetail
  pub timeout_seconds : ℕ

-- A `HashMap<String, usize>`.
abbrev pub Index : Type 0
Index = Text → Option ℕ

pub record Pool : Type 0 where
  pub relays : List RelayRuntime
  pub index : Index
  pub routing : RoutingConfig
  pub smtp_details : List SmtpDetail
  pub cursor : ℕ
  pub smooth_weights : List ℤ

abbrev pub empty_index : Index
empty_index id = none

abbrev pub insert : Text → ℕ → Index → Index
insert id position m = λ other. if text_eq id other then some position else m other

-- `relays.iter().enumerate().map(…).collect()`: a later relay of the same id takes its place.
unfoldable pub build_index : ℕ → List RelayRuntime → Index → Index
build_index position [] m = m
build_index position (r ∷ rs) m = build_index (suc position) rs (insert r.config.id position m)

abbrev pub zeros {ℓ} : {A : Type ℓ} → List A → List ℤ
zeros [] = []
zeros (x ∷ xs) = pos 0 ∷ zeros xs

module _ (transport_error : RelayConfig → ℕ → Option Text) where
  unfoldable pub build_relays : ℕ → List RelayConfig → Result (List RelayRuntime) (Text × Text)
  build_relays timeout [] = ok []
  build_relays timeout (c ∷ cs) = elim (transport_error c timeout) [
    | some message ↦ err (c.id, message)
    | none ↦ do rs ← build_relays timeout cs; ok (Runtime.new c ∷ rs)
  ]

  unfoldable pub build : PoolConfig → Result Pool (Text × Text)
  unfolding build_relays build_index
  build config = do
    relays ← build_relays config.timeout_seconds config.relays
    ok (record {
      relays = relays;
      index = build_index 0 relays empty_index;
      routing = config.routing;
      smtp_details = config.smtp_details;
      cursor = 0;
      smooth_weights = zeros relays;
    })

abbrev pub is_empty : Pool → Bool
is_empty p = smtp_relay.Prelude.is_empty p.relays

abbrev pub position_of : Pool → Text → Option ℕ
position_of p id = p.index id

-- The relay is `pool.relays[position]`.
abbrev pub relay_at : Pool → ℕ → Option RelayRuntime
relay_at p position = get_elem? p.relays position

unfoldable pub get : Pool → Text → Option (ℕ × RelayRuntime)
get p id = elim (p.index id) [
  | none ↦ none
  | some position ↦ elim (relay_at p position) [ none ↦ none | some r ↦ some (position, r) ]
]

abbrev pub contains : Pool → Text → Bool
contains p id = elim (p.index id) [ none ↦ false | some _ ↦ true ]

-- `old.config.enabled == relay.config.enabled`.
abbrev pub same : Bool → Bool → Bool
same a b = if a then b else not b

abbrev pub carried : Pool → RelayRuntime → RelayRuntime
carried previous r = elim (get previous r.config.id) [
  | none ↦ r
  | some (_, old) ↦ Runtime.carry_over_from r old (same old.config.enabled r.config.enabled)
]

module _ (transport_error : RelayConfig → ℕ → Option Text) where
  unfoldable pub rebuild_from : Pool → PoolConfig → Result Pool (Text × Text)
  unfolding build get
  rebuild_from previous config = do
    pool ← build transport_error config
    ok (record pool { relays = smtp_relay.Prelude.map (carried previous) pool.relays })

-- The relays after `set_active(active r)` on each, and the ids of those that changed.
unfoldable pub set_each : (RelayRuntime → Bool) → List RelayRuntime → List RelayRuntime × List Text
set_each active [] = ([], [])
set_each active (r ∷ rs) =
    let (r', changed) = Runtime.set_active r (active r) in
    let (rs', ids) = set_each active rs in (r' ∷ rs', if changed then r.config.id ∷ ids else ids)

unfoldable pub set_all : Pool → Bool → Pool × List Text
unfolding set_each
set_all p active =
    let (relays, changed) = set_each (λ _. active) p.relays in
    (record p { relays = relays }, changed)

abbrev pub mentions : List Text → Text → Bool
mentions ids id = any (λ x. text_eq x id) ids

unfoldable pub set_many : Pool → List Text → Bool → Pool × List Text × List Text
unfolding get
set_many p [] active = (p, [], [])
set_many p (id ∷ ids) active = elim (get p id) [
  | none ↦ let (p', changed, unknown) = set_many p ids active in (p', changed, id ∷ unknown)
  | some (position, r) ↦
      let (r', toggled) = Runtime.set_active r active in
      let (p', changed, unknown) =
        set_many (record p { relays = set p.relays position r' }) ids active in
      (p', if toggled then id ∷ changed else changed, unknown)
]

abbrev pub unknown_ids : Pool → List Text → List Text
unknown_ids p [] = []
unknown_ids p (id ∷ ids) = if contains p id then unknown_ids p ids else id ∷ unknown_ids p ids

unfoldable pub set_exclusive : Pool → List Text → Pool × List Text × List Text
unfolding set_each
set_exclusive p ids =
    let (relays, changed) = set_each (λ r. mentions ids r.config.id) p.relays in
    (record p { relays = relays }, changed, unknown_ids p ids)

-- `modulo` 0 leaves the cursor where it is.
unfoldable pub next_cursor : Pool → ℕ → Pool × ℕ
next_cursor p modulo =
    if modulo == 0 then (p, 0) else (record p { cursor = add_u64 p.cursor 1 }, p.cursor % modulo)
