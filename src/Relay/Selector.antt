-- ===== src/Relay/Selector.antt =====
-- src/relay/selector.rs: which relay carries a message. `select` reads one clock. A reason or an
-- error is a value that carries what the source puts into its text. `hash` is the standard
-- library's `DefaultHasher` over a text.
pub mod Stages
use smtp_relay.Prelude.{
  ℕ, suc, ◌+◌, ◌-◌, ◌%◌, Bool, true, false, not, ◌&&◌, ◌||◌, Option, none, some, List, [], ◌∷◌,
  ◌++◌, Text, any, length, get_elem?, ltb, leb, ◌==◌, text_eq, eq_ignore_ascii_case, if◌then◌else◌,
  Result, ok, err, is_empty,
}
use smtp_relay.Util.Strings.{
  trim, trim_end_matches, to_ascii_lowercase, strip_prefix, ends_with, address_domain,
}
use smtp_relay.Relay.Config.{
  Clock, timestamp, RelayConfig, Strategy, round_robin, weighted, least_used, failover, StickyMode,
  unsticky, sender, recipient_domain, DomainOverride, SmtpDetail,
}
use smtp_relay.Relay.Quota
use smtp_relay.Relay.Runtime
use smtp_relay.Relay.Runtime.{
  RelayRuntime, Reason, deactivated, circuit_open, quota_reached, at_concurrency_limit, is_eligible,
  ineligible_reason,
}
use smtp_relay.Relay.Pool.{Pool, position_of, mentions, next_cursor}
use smtp_relay.Relay.Pool
use smtp_relay.Relay.Weights.{relay_weight, smooth_weighted_pick}

pub record RouteRequest : Type 0 where
  pub sender : Text
  pub recipients : List Text
  pub exclude : List Text
  pub auth_user : Option Text
  pub helo : Text

pub data RouteReason : Type 0 where
  smtp_detail domain_override sticky : RouteReason
  by_strategy : Strategy → RouteReason

-- `relay` is a position of the pool.
pub record Route : Type 0 where
  pub relay : ℕ
  pub reason : RouteReason

-- How many relays there are, and how many are out for each reason.
pub record Counts : Type 0 where
  pub total : ℕ
  pub excluded : ℕ
  pub deactivated_count : ℕ
  pub circuit_open_count : ℕ
  pub quota : ℕ
  pub saturated : ℕ

pub data NoRouteAvailable : Type 0 where
  no_relays : NoRouteAvailable
  no_detail_relay : SmtpDetail → NoRouteAvailable
  none_eligible : Counts → NoRouteAvailable
  override_unavailable : Text → NoRouteAvailable

-- -- SMTP detail matching

abbrev user_matches : Option Text → SmtpDetail → Bool
user_matches none detail = false
user_matches (some user) detail = not (is_empty user) && eq_ignore_ascii_case detail.username user

unfoldable pub detail_matches : RouteRequest → SmtpDetail → Bool
unfolding eq_ignore_ascii_case address_domain
detail_matches request detail =
    let sender_domain = address_domain request.sender in
    user_matches request.auth_user detail
    || (not (is_empty detail.hostname)
        && ((not (is_empty request.helo) && eq_ignore_ascii_case detail.hostname request.helo)
            || (not (is_empty sender_domain)
                && eq_ignore_ascii_case detail.hostname sender_domain)))
    || (not (is_empty detail.label)
        && not (is_empty request.helo)
        && eq_ignore_ascii_case detail.label request.helo)

abbrev pub find {ℓ} : {A : Type ℓ} → (A → Bool) → List A → Option A
find p [] = none
find p (x ∷ xs) = if p x then some x else find p xs

-- `relay.config.smtp_detail_id.as_deref() == Some(text)`.
abbrev pub points_at : RelayConfig → Text → Bool
points_at c text = elim c.smtp_detail_id [ none ↦ false | some id ↦ text_eq id text ]

unfoldable pub is_linked : SmtpDetail → RelayRuntime → Bool
is_linked detail r =
    points_at r.config detail.id
    || (not (is_empty detail.label) && points_at r.config detail.label)
    || (not (is_empty detail.hostname) && points_at r.config detail.hostname)

-- -- Candidates

abbrev pub is_none {ℓ} : {A : Type ℓ} → Option A → Bool
is_none none = true
is_none (some a) = false

-- A relay of the general rotation: in the pool, and dedicated to no detail.
abbrev pub in_general_pool : RelayRuntime → Bool
in_general_pool r = r.config.in_rotation_pool && is_none r.config.smtp_detail_id

abbrev pub everywhere : RelayRuntime → Bool
everywhere r = true

-- `enumerate().filter(keep).filter(is_eligible).filter(not excluded).map(position)`, from a
-- position on, with the relays as the eligibility checks leave them.
unfoldable pub scan :
    Clock → List Text → (RelayRuntime → Bool) → ℕ → List RelayRuntime → List RelayRuntime × List ℕ
scan now exclude keep position [] = ([], [])
scan now exclude keep position (r ∷ rs) =
    let (r', eligible) = if keep r then is_eligible now r else (r, false) in
    let (rs', positions) = scan now exclude keep (suc position) rs in
    (
      r' ∷ rs',
      if eligible && not (mentions exclude r.config.id) then position ∷ positions else positions,
    )

-- The general rotation, or any relay if that has none to offer.
unfoldable pub general_candidates :
    Clock → RouteRequest → List RelayRuntime → List RelayRuntime × List ℕ
unfolding scan
general_candidates now request rs =
    let (rs', pool_relays) = scan now request.exclude in_general_pool 0 rs in
    if is_empty pool_relays then scan now request.exclude everywhere 0 rs' else (rs', pool_relays)

abbrev pub in_pool_at : List RelayRuntime → ℕ → Bool
in_pool_at rs position = elim (get_elem? rs position) [
  | none ↦ false
  | some r ↦ r.config.in_rotation_pool
]

unfoldable pub keep_positions : (ℕ → Bool) → List ℕ → List ℕ
keep_positions p [] = []
keep_positions p (c ∷ cs) = if p c then c ∷ keep_positions p cs else keep_positions p cs

-- The relays that are linked to a detail, those of the rotation pool if there are any.
unfoldable pub linked_candidates :
    Clock → RouteRequest → SmtpDetail → List RelayRuntime → List RelayRuntime × List ℕ
unfolding scan is_linked keep_positions
linked_candidates now request detail rs =
    let (rs', eligible_linked) = scan now request.exclude (is_linked detail) 0 rs in
    let in_pool = keep_positions (in_pool_at rs') eligible_linked in
    (rs', if is_empty in_pool then eligible_linked else in_pool)

-- The candidates, with whether they are bound to an SMTP detail.
unfoldable pub candidates_for :
    Clock → RouteRequest → Pool → List RelayRuntime × Result (List ℕ × Bool) NoRouteAvailable
unfolding detail_matches is_linked general_candidates linked_candidates
candidates_for now request p =
    let general = general_candidates now request p.relays in
    let unbound : List RelayRuntime × Result (List ℕ × Bool) NoRouteAvailable =
      (general.0, ok (general.1, false)) in
    elim (find (detail_matches request) p.smtp_details) [
      | none ↦ unbound
      | some detail ↦
          let linked = linked_candidates now request detail p.relays in
          if any (is_linked detail) p.relays
          then (
            linked.0,
            if is_empty linked.1 then err (no_detail_relay detail) else ok (linked.1, true),
          )
          else unbound
    ]
