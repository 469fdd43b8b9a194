-- ===== src/Relay/Routing.antt =====
-- src/relay/selector.rs, from the candidates to the route: domain overrides, stickiness
-- and `select` itself. `hash` is the standard library's `DefaultHasher` over a text.
pub mod Sound
pub mod Picks
pub mod Sorting
pub mod Minimal
use smtp_relay.Prelude.{
  ℕ, suc, ◌+◌, ◌-◌, ◌%◌, max, Bool, true, false, not, ◌&&◌, ◌||◌, Option, none, some, List, [], ◌∷◌,
  ◌++◌, Text, any, length, get_elem?, ltb, leb, ◌==◌, text_eq, if◌then◌else◌, Result, ok, err,
  is_empty, u64_mod,
}
use smtp_relay.Util.Strings.{
  trim, trim_end_matches, to_ascii_lowercase, strip_prefix, ends_with, address_domain,
}
use smtp_relay.Relay.Config.{
  Clock, timestamp, Strategy, round_robin, weighted, least_used, failover, StickyMode, unsticky,
  sender, recipient_domain, DomainOverride,
}
use smtp_relay.Relay.Quota
use smtp_relay.Relay.Runtime.{
  RelayRuntime, Reason, deactivated, circuit_open, quota_reached, at_concurrency_limit,
  ineligible_reason,
}
use smtp_relay.Relay.Pool.{Pool, position_of, mentions, next_cursor}
use smtp_relay.Relay.Pool
use smtp_relay.Relay.Weights.{relay_weight, smooth_weighted_pick}
use smtp_relay.Relay.Selector.{
  RouteRequest, RouteReason, smtp_detail, domain_override, sticky, by_strategy, Route, Counts,
  NoRouteAvailable, no_relays, none_eligible, override_unavailable, candidates_for, find,
}
use smtp_relay.Relay.Strategy.{
  nth, Key, usage_key, priority_key, key_lt, insert_by, sort_by_key, or_first, pick,
}

-- -- explain_empty

abbrev zero_counts : Counts
zero_counts = record {
  total = 0;
  excluded = 0;
  deactivated_count = 0;
  circuit_open_count = 0;
  quota = 0;
  saturated = 0;
}

abbrev tally : Counts → Option Reason → Counts
tally n none = n
tally n (some deactivated) = record n { deactivated_count = n.deactivated_count + 1 }
tally n (some circuit_open) = record n { circuit_open_count = n.circuit_open_count + 1 }
tally n (some quota_reached) = record n { quota = n.quota + 1 }
tally n (some at_concurrency_limit) = record n { saturated = n.saturated + 1 }

unfoldable pub explain_empty :
    Clock → List Text → Counts → List RelayRuntime → List RelayRuntime × Counts
explain_empty now exclude n [] = ([], n)
explain_empty now exclude n (r ∷ rs) =
    let (r', reason) = ineligible_reason now r in
    let m = tally n reason in
    let seen = record m {
      total = m.total + 1;
      excluded = m.excluded + (if mentions exclude r.config.id then 1 else 0);
    } in
    let (rs', counts) = explain_empty now exclude seen rs in (r' ∷ rs', counts)

-- -- Domain overrides

abbrev is_dot : ℕ → Bool
is_dot c = c == b'.'

unfoldable pub matches_exactly : Text → DomainOverride → Bool
unfolding trim to_ascii_lowercase text_eq
matches_exactly needle rule = text_eq (to_ascii_lowercase (trim rule.domain)) needle

abbrev matches_suffix : Text → Option Text → Bool
matches_suffix needle none = false
matches_suffix needle (some suffix) = text_eq needle suffix || ends_with needle (b'.' ∷ suffix)

unfoldable pub matches_wildcard : Text → DomainOverride → Bool
unfolding trim to_ascii_lowercase strip_prefix text_eq ends_with
matches_wildcard needle rule =
    matches_suffix needle (strip_prefix (b'*' ∷ b'.' ∷ []) (to_ascii_lowercase (trim rule.domain)))

-- An exact match is preferred over a wildcard.
unfoldable pub match_override : List DomainOverride → Text → Option DomainOverride
unfolding trim trim_end_matches to_ascii_lowercase matches_exactly matches_wildcard
match_override rules domain =
    let needle = to_ascii_lowercase (trim_end_matches is_dot (trim domain)) in
    elim (find (matches_exactly needle) rules) [
      | some rule ↦ some rule
      | none ↦ find (matches_wildcard needle) rules
    ]

abbrev pub includes : List ℕ → ℕ → Bool
includes cs c = any (λ x. x == c) cs

-- The rule's relays that are candidates, in the rule's order.
unfoldable pub restricted_to : Pool → List ℕ → List Text → List ℕ
restricted_to p candidates [] = []
restricted_to p candidates (id ∷ ids) = elim (position_of p id) [
  | none ↦ restricted_to p candidates ids
  | some position ↦
      if includes candidates position
      then position ∷ restricted_to p candidates ids
      else restricted_to p candidates ids
]

abbrev pub first_domain : List Text → Option Text
first_domain [] = none
first_domain (r ∷ rs) = some (address_domain r)

-- -- Stickiness

abbrev non_empty : Text → Option Text
non_empty [] = none
non_empty (c ∷ s) = some (c ∷ s)

unfoldable pub sticky_key : StickyMode → RouteRequest → Option Text → Option Text
unfolding trim to_ascii_lowercase
sticky_key unsticky request domain = none
sticky_key sender request domain = non_empty (to_ascii_lowercase (trim request.sender))
sticky_key recipient_domain request none = none
sticky_key recipient_domain request (some d) = non_empty (to_ascii_lowercase (trim d))

unfoldable pub total_weight : List RelayRuntime → List ℕ → ℕ
total_weight rs [] = 0
total_weight rs (c ∷ cs) = relay_weight rs c + total_weight rs cs

-- The loop that walks the candidates by weight; it ends at the last candidate.
unfoldable pub walk_weights : List RelayRuntime → ℕ → ℕ → List ℕ → ℕ
walk_weights rs target c [] = c
walk_weights rs target c (d ∷ ds) =
    if ltb target (relay_weight rs c) then c else walk_weights rs (target - relay_weight rs c) d ds

-- Of a non-empty list of candidates `c ∷ cs`; a candidate weighs at least 1.
unfoldable pub weighted_pick_by_hash : List RelayRuntime → ℕ → List ℕ → ℕ → ℕ
unfolding total_weight walk_weights
weighted_pick_by_hash rs c cs hash =
    if total_weight rs (c ∷ cs) == 0
    then c
    else walk_weights rs (hash % total_weight rs (c ∷ cs)) c cs

-- -- select

abbrev pub matched_rule : RouteRequest → Pool → Option DomainOverride
matched_rule request p = elim (first_domain request.recipients) [
  | none ↦ none
  | some domain ↦ match_override p.routing.domain_overrides domain
]

abbrev pub at : ℕ → RouteReason → Route
at position reason = record { relay = position; reason = reason }

-- What a matched rule does, given the route that the later stages choose and the rule's relays
-- among the candidates: its first relay, else those stages, if falling back is allowed.
abbrev pub by_rule :
    Pool → Pool × Route → DomainOverride → List ℕ → Pool × Result Route NoRouteAvailable
by_rule p free rule (position ∷ _) = (p, ok (at position domain_override))
by_rule p free rule [] =
    if p.routing.fallback_on_failure
    then (free.0, ok free.1)
    else (p, err (override_unavailable rule.domain))

abbrev pub with_rule :
    Pool → List ℕ → Pool × Route → Option DomainOverride → Pool × Result Route NoRouteAvailable
with_rule p candidates free none = (free.0, ok free.1)
with_rule p candidates free (some rule) =
    by_rule p free rule (restricted_to p candidates rule.relay_ids)

module _ (hash : Text → ℕ) where
  -- Stages 2 and 3.
  unfoldable pub route_freely : Clock → RouteRequest → Pool → ℕ → List ℕ → Pool × Route
  unfolding sticky_key pick
  route_freely now request p c cs =
      let (p', position) = pick now p.routing.strategy p c cs in
      let by_strategy_route : Pool × Route = (p', at position (by_strategy p.routing.strategy)) in
      if ltb 1 (length (c ∷ cs))
      then elim (sticky_key p.routing.sticky request (first_domain request.recipients)) [
        | none ↦ by_strategy_route
        | some key ↦ (p, at (weighted_pick_by_hash p.relays c cs (hash key)) sticky)
      ]
      else by_strategy_route

  -- Stages 1 to 3, of the candidates `c ∷ cs`.
  unfoldable pub route_among :
      Clock → RouteRequest → Pool → ℕ → List ℕ → Pool × Result Route NoRouteAvailable
  unfolding route_freely restricted_to match_override
  route_among now request p c cs =
      with_rule p (c ∷ cs) (route_freely now request p c cs) (matched_rule request p)

  unfoldable pub route_candidates :
      Clock → RouteRequest → Pool → List ℕ → Bool → Pool × Result Route NoRouteAvailable
  unfolding route_among explain_empty
  route_candidates now request p [] bound =
      let (relays, counts) = explain_empty now request.exclude zero_counts p.relays in
      (record p { relays = relays }, err (none_eligible counts))
  route_candidates now request p (c ∷ cs) bound =
      if bound && length (c ∷ cs) == 1
      then (p, ok (at c smtp_detail))
      else route_among now request p c cs

  abbrev pub routed :
      Clock
      → RouteRequest
      → Pool
      → Result (List ℕ × Bool) NoRouteAvailable
      → Pool × Result Route NoRouteAvailable
  routed now request p (err e) = (p, err e)
  routed now request p (ok (candidates, bound)) = route_candidates now request p candidates bound

  unfoldable pub select : Clock → RouteRequest → Pool → Pool × Result Route NoRouteAvailable
  unfolding route_candidates candidates_for
  select now request p =
      let found = candidates_for now request p in
      if Pool.is_empty p
      then (p, err no_relays)
      else routed now request (record p { relays = found.0 }) found.1
