-- ===== src/Relay/Routing/Picks.antt =====
-- Every way to pick from the candidates picks one of them: a predicate that holds of all candidates
-- holds of the pick.
use smtp_relay.Prelude.{
  ℕ, zero, suc, ◌-◌, ◌≡◌, refl, subst, Bool, true, false, ◌&&◌, Option, none, some, List, [], ◌∷◌,
  inl, inr, Text, arith, All, Result, ok, err, Bool-cases, Option-cases, ◌==◌, ==_iff,
  if◌then◌else◌, length, ltb,
}
use smtp_relay.Relay.Config.{
  Clock, Strategy, round_robin, weighted, least_used, failover, DomainOverride,
}
use smtp_relay.Relay.Runtime.{RelayRuntime}
use smtp_relay.Relay.Pool.{Pool, position_of, next_cursor}
use smtp_relay.Relay.Weights.{relay_weight, pick_loop, smooth_weighted_pick}
use smtp_relay.Relay.Selector.{RouteRequest, Route, NoRouteAvailable}
use smtp_relay.Prelude.Int.{ℤ}
use smtp_relay.Relay.Routing.{
  total_weight, walk_weights, first_domain, sticky_key, matched_rule, weighted_pick_by_hash,
  includes, by_rule, with_rule, restricted_to, route_freely, route_among, route_candidates,
}
use smtp_relay.Relay.Strategy.{
  nth, or_first, key_lt, usage_key, priority_key, insert_by, sort_by_key, pick, Key,
}

module _ (P : ℕ → Type 0) where
  abbrev pub OfSome : Option ℕ → Type 0
  OfSome none = Unit
  OfSome (some c) = P c

  abbrev pub OfRoute : Result Route NoRouteAvailable → Type 0
  OfRoute (err e) = Unit
  OfRoute (ok r) = P r.relay

  nth-All : (cs : List ℕ) (i d : ℕ) → All P cs → P d → P (nth cs i d)
  nth-All [] i d h k = k
  nth-All (c ∷ cs) zero d h k = h.0
  nth-All (c ∷ cs) (suc i) d h k = nth-All cs i d h.1 k

  walk_weights-All :
      (rs : List RelayRuntime) (t c : ℕ) (cs : List ℕ) → P c → All P cs → P (walk_weights rs t c cs)
  unfolding walk_weights
  walk_weights-All rs t c [] k h = k
  walk_weights-All rs t c (d ∷ ds) k h = elim (Bool-cases (ltb t (relay_weight rs c))) [
    | inl e ↦ rw e k
    | inr e ↦ rw e (walk_weights-All rs (t - relay_weight rs c) d ds h.0 h.1)
  ]

  weighted_pick_by_hash-All :
      (rs : List RelayRuntime) (c : ℕ) (cs : List ℕ) (hash : ℕ)
      → All P (c ∷ cs)
      → P (weighted_pick_by_hash rs c cs hash)
  unfolding weighted_pick_by_hash
  weighted_pick_by_hash-All rs c cs hash h = elim (Bool-cases (total_weight rs (c ∷ cs) == 0)) [
    | inl e ↦ rw e h.0
    | inr e ↦ rw e (walk_weights-All rs _ c cs h.0 h.1)
  ]

  insert_by-All :
      (key : ℕ → Key) (c : ℕ) (cs : List ℕ) → P c → All P cs → All P (insert_by key c cs)
  unfolding insert_by
  insert_by-All key c [] k h = (k, tt)
  insert_by-All key c (d ∷ ds) k h = elim (Bool-cases (key_lt (key d) (key c))) [
    | inl e ↦ rw e (h.0, insert_by-All key c ds k h.1)
    | inr e ↦ rw e (k, h)
  ]

  sort_by_key-All : (key : ℕ → Key) (cs : List ℕ) → All P cs → All P (sort_by_key key cs)
  unfolding sort_by_key
  sort_by_key-All key [] h = tt
  sort_by_key-All key (c ∷ cs) h = insert_by-All key c _ h.0 (sort_by_key-All key cs h.1)

  better-OfSome :
      (b : Bool) (c : ℕ) (best : Option ℕ) → P c → OfSome best → OfSome (if b then some c else best)
  better-OfSome true c best k h = k
  better-OfSome false c best k h = h

  pick_loop-OfSome :
      (rs : List RelayRuntime) (cs : List ℕ) (ws : List ℤ) (total : ℕ) (best : Option ℕ)
      → All P cs
      → OfSome best
      → OfSome (pick_loop rs cs ws total best).2
  unfolding pick_loop
  pick_loop-OfSome rs [] ws total best h k = k
  pick_loop-OfSome rs (c ∷ cs) ws total best h k =
      pick_loop-OfSome rs cs _ _ _ h.1 (better-OfSome _ c best h.0 k)

  or_first-OfSome : (o : Option ℕ) (c : ℕ) → OfSome o → P c → P (or_first o c)
  or_first-OfSome none c h k = k
  or_first-OfSome (some d) c h k = h

  pub pick-All :
      (now : Clock) (s : Strategy) (p : Pool) (c : ℕ) (cs : List ℕ)
      → All P (c ∷ cs)
      → P (pick now s p c cs).1
  unfolding pick smooth_weighted_pick
  pick-All now round_robin p c cs h = nth-All (c ∷ cs) _ c h h.0
  pick-All now weighted p c cs h =
      or_first-OfSome _ c (pick_loop-OfSome p.relays (c ∷ cs) _ 0 none h tt) h.0
  pick-All now least_used p c cs h =
      nth-All _ 0 c (sort_by_key-All (usage_key now p.relays) (c ∷ cs) h) h.0
  pick-All now failover p c cs h =
      nth-All _ 0 c (sort_by_key-All (priority_key p.relays) (c ∷ cs) h) h.0

  includes-All : (cs : List ℕ) (q : ℕ) → includes cs q ≡ true → All P cs → P q
  includes-All [] q e h = cc
  includes-All (c ∷ cs) q e h = elim (Bool-cases (c == q)) [
    | inl same ↦ subst P ((==_iff c q).0 same) h.0
    | inr differ ↦ includes-All cs q (ground arith) h.1
  ]

  restricted_to-All :
      (p : Pool) (cs : List ℕ) (ids : List Text) → All P cs → All P (restricted_to p cs ids)
  unfolding restricted_to
  restricted_to-All p cs [] h = tt
  restricted_to-All p cs (id ∷ ids) h = elim (Option-cases (position_of p id)) [
    | inl e ↦ rw (e, restricted_to) (restricted_to-All p cs ids h)
    | inr (q, e) ↦
        rw (e, restricted_to)
          (elim (Bool-cases (includes cs q)) [
            | inl found ↦ rw found (includes-All cs q found h, restricted_to-All p cs ids h)
            | inr missing ↦ rw missing (restricted_to-All p cs ids h)
          ])
  ]

  route_freely-All :
      (hash : Text → ℕ) (now : Clock) (request : RouteRequest) (p : Pool) (c : ℕ) (cs : List ℕ)
      → All P (c ∷ cs)
      → P (route_freely hash now request p c cs).1.relay
  unfolding route_freely
  route_freely-All hash now request p c cs h = elim (Bool-cases (ltb 1 (length (c ∷ cs)))) [
    | inr single ↦ rw single (pick-All now p.routing.strategy p c cs h)
    | inl many ↦
        rw many
          (elim (Option-cases
            (sticky_key p.routing.sticky request (first_domain request.recipients))) [
              | inl e ↦ rw (e, route_freely) (pick-All now p.routing.strategy p c cs h)
              | inr (key, e) ↦
                  rw (e, route_freely) (weighted_pick_by_hash-All p.relays c cs (hash key) h)
            ])
  ]

  by_rule-OfRoute :
      (p : Pool) (free : Pool × Route) (rule : DomainOverride) (rs : List ℕ)
      → P free.1.relay
      → All P rs
      → OfRoute (by_rule p free rule rs).1
  by_rule-OfRoute p free rule (q ∷ qs) k h = h.0
  by_rule-OfRoute p free rule [] k h = elim (Bool-cases p.routing.fallback_on_failure) [
    | inl e ↦ rw e k
    | inr e ↦ rw e tt
  ]

  with_rule-OfRoute :
      (p : Pool) (cs : List ℕ) (free : Pool × Route) (rule : Option DomainOverride)
      → P free.1.relay
      → All P cs
      → OfRoute (with_rule p cs free rule).1
  with_rule-OfRoute p cs free none k h = k
  with_rule-OfRoute p cs free (some rule) k h =
      by_rule-OfRoute p free rule _ k (restricted_to-All p cs rule.relay_ids h)

  pub route_candidates-OfRoute :
      (hash : Text → ℕ) (now : Clock) (request : RouteRequest) (p : Pool) (cs : List ℕ)
      (bound : Bool)
      → All P cs
      → OfRoute (route_candidates hash now request p cs bound).1
  unfolding route_candidates route_among
  route_candidates-OfRoute hash now request p [] bound h = tt
  route_candidates-OfRoute hash now request p (c ∷ cs) bound h =
      elim (Bool-cases (bound && length (c ∷ cs) == 1)) [
        | inl e ↦ rw e h.0
        | inr e ↦ rw e (
            with_rule-OfRoute p (c ∷ cs) _ (matched_rule request p)
              (route_freely-All hash now request p c cs h) h)
      ]

-- Choosing among candidates changes no relay.
pick-relays :
    (now : Clock) (s : Strategy) (p : Pool) (c : ℕ) (cs : List ℕ)
    → (pick now s p c cs).0.relays ≡ p.relays
unfolding pick next_cursor smooth_weighted_pick
pick-relays now round_robin p c cs = ground arith
pick-relays now _ p c cs = refl

route_freely-relays :
    (hash : Text → ℕ) (now : Clock) (request : RouteRequest) (p : Pool) (c : ℕ) (cs : List ℕ)
    → (route_freely hash now request p c cs).0.relays ≡ p.relays
unfolding route_freely
route_freely-relays hash now request p c cs =
    ground (arith, pick-relays now p.routing.strategy p c cs)

by_rule-relays :
    (p : Pool) (free : Pool × Route) (rule : DomainOverride) (rs : List ℕ)
    → free.0.relays ≡ p.relays
    → (by_rule p free rule rs).0.relays ≡ p.relays
by_rule-relays p free rule (q ∷ qs) k = refl
by_rule-relays p free rule [] k = ground arith

with_rule-relays :
    (p : Pool) (cs : List ℕ) (free : Pool × Route) (rule : Option DomainOverride)
    → free.0.relays ≡ p.relays
    → (with_rule p cs free rule).0.relays ≡ p.relays
with_rule-relays p cs free none k = k
with_rule-relays p cs free (some rule) k = by_rule-relays p free rule _ k

pub route_candidates-relays :
    (hash : Text → ℕ) (now : Clock) (request : RouteRequest) (p : Pool) (c : ℕ) (cs : List ℕ)
    (bound : Bool)
    → (route_candidates hash now request p (c ∷ cs) bound).0.relays ≡ p.relays
unfolding route_candidates route_among
route_candidates-relays hash now request p c cs bound =
    elim (Bool-cases (bound && length (c ∷ cs) == 1)) [
      | inl e ↦ rw e refl
      | inr e ↦ rw e (
          with_rule-relays p (c ∷ cs) _ (matched_rule request p)
            (route_freely-relays hash now request p c cs))
    ]
