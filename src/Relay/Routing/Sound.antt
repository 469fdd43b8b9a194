-- ===== src/Relay/Routing/Sound.antt =====
-- What `select` promises of the route that it returns.
use smtp_relay.Prelude.{
  ℕ, ◌-◌, ◌≡◌, ap, subst, Bool, ◌&&◌, length, ◌==◌, Option, none, some, List, [], ◌∷◌, inl, inr,
  Text, arith, All, Bool-cases, Result, ok, err,
}
use smtp_relay.Relay.Config.{Clock, DomainOverride}
use smtp_relay.Relay.Runtime.{RelayRuntime}
use smtp_relay.Relay.Pool.{Pool, relay_at}
use smtp_relay.Relay.Pool
use smtp_relay.Relay.Selector.{
  RouteRequest, Route, Counts, NoRouteAvailable, no_relays, no_detail_relay, none_eligible,
  override_unavailable,
}
use smtp_relay.Relay.Selector.Stages.{
  CanCarry, Carrier, OfCandidates, candidates_for-OfCandidates, IsPassedOver, OfEmpty,
  candidates_for-OfEmpty,
}
use smtp_relay.Relay.Routing.{
  select, routed, route_candidates, route_among, by_rule, with_rule, restricted_to, matched_rule,
}
use smtp_relay.Relay.Routing.Picks.{OfRoute, route_candidates-OfRoute, route_candidates-relays}

module _ (hash : Text → ℕ) (now : Clock) (request : RouteRequest) where
  -- The relay that a route names, in the pool as the call leaves it.
  abbrev pub Carries : Pool → ℕ → Type 0
  Carries p q = (r : RelayRuntime) × (relay_at p q ≡ some r) × CanCarry now request.exclude r

  abbrev pub OfSelected : Pool × Result Route NoRouteAvailable → Type 0
  OfSelected (p, err e) = Unit
  OfSelected (p, ok route) = Carries p route.relay

  Carrier-Carries :
      (p p' : Pool) (q : ℕ)
      → p'.relays ≡ p.relays
      → Carrier now request.exclude 0 p.relays q
      → Carries p' q
  Carrier-Carries p p' q e c =
      let z : q - 0 ≡ q = omega arith in (c.relay, rw e (rw z at c.stands), c.carries)

  OfRoute-OfSelected :
      (p : Pool) (res : Pool × Result Route NoRouteAvailable)
      → res.0.relays ≡ p.relays
      → OfRoute (Carrier now request.exclude 0 p.relays) res.1
      → OfSelected res
  OfRoute-OfSelected p (p', err e) same h = tt
  OfRoute-OfSelected p (p', ok route) same h = Carrier-Carries p p' route.relay same h

  route_candidates-OfSelected :
      (p : Pool) (cs : List ℕ) (bound : Bool)
      → All (Carrier now request.exclude 0 p.relays) cs
      → OfSelected (route_candidates hash now request p cs bound)
  route_candidates-OfSelected p [] bound h = unfold route_candidates in tt
  route_candidates-OfSelected p (c ∷ cs) bound h =
      OfRoute-OfSelected p (route_candidates hash now request p (c ∷ cs) bound)
        (route_candidates-relays hash now request p c cs bound)
        (route_candidates-OfRoute _ hash now request p (c ∷ cs) bound h)

  routed-OfSelected :
      (p : Pool) (rs : List RelayRuntime) (found : Result (List ℕ × Bool) NoRouteAvailable)
      → OfCandidates now request (rs, found)
      → OfSelected (routed hash now request (record p { relays = rs }) found)
  routed-OfSelected p rs (err e) h = tt
  routed-OfSelected p rs (ok (cs, bound)) h =
      route_candidates-OfSelected (record p { relays = rs }) cs bound h

  select-OfSelected : (p : Pool) → OfSelected (select hash now request p)
  unfolding select
  select-OfSelected p = elim (Bool-cases (Pool.is_empty p)) [
    | inl e ↦ rw e tt
    | inr e ↦ rw e (routed-OfSelected p _ _ (candidates_for-OfCandidates now request p))
  ]

  -- The route that `select` returns names a relay of the pool that is eligible at that time (active,
  -- breaker not open, a free slot, no quota used up) and that was not tried yet for the message,
  -- whichever of the stages chose it.
  pub select-CanCarry :
      (p p' : Pool) (route : Route)
      → select hash now request p ≡ (p', ok route)
      → Carries p' route.relay
  select-CanCarry p p' route e = subst OfSelected e (select-OfSelected p)

  -- What an error says of the relays `rs`.
  abbrev pub OfError : List RelayRuntime → Result Route NoRouteAvailable → Type 0
  OfError rs (err (none_eligible counts)) = All (IsPassedOver now request.exclude) rs
  OfError rs _ = Unit

  with_rule-OfError :
      (rs : List RelayRuntime) (p : Pool) (cs : List ℕ) (free : Pool × Route)
      (rule : Option DomainOverride)
      → OfError rs (with_rule p cs free rule).1
  with_rule-OfError rs p cs free none = tt
  with_rule-OfError rs p cs free (some rule) = go (restricted_to p cs rule.relay_ids)
    where
      go : (qs : List ℕ) → OfError rs (by_rule p free rule qs).1
      go (q ∷ qs) = tt
      go [] = elim (Bool-cases p.routing.fallback_on_failure) [ inl e ↦ rw e tt | inr e ↦ rw e tt ]

  routed-OfError :
      (rs : List RelayRuntime) (p : Pool) (found : Result (List ℕ × Bool) NoRouteAvailable)
      → OfEmpty now request rs found
      → OfError rs (routed hash now request p found).1
  unfolding route_candidates route_among
  routed-OfError rs p (err no_relays) h = tt
  routed-OfError rs p (err (no_detail_relay d)) h = tt
  routed-OfError rs p (err (none_eligible n)) h = h
  routed-OfError rs p (err (override_unavailable d)) h = tt
  routed-OfError rs p (ok ([], bound)) h = h
  routed-OfError rs p (ok (c ∷ cs, bound)) h = elim (Bool-cases (bound && length (c ∷ cs) == 1)) [
    | inl e ↦ rw e tt
    | inr e ↦ rw e (with_rule-OfError rs p (c ∷ cs) _ (matched_rule request p))
  ]

  select-OfError : (p : Pool) → OfError p.relays (select hash now request p).1
  unfolding select
  select-OfError p = elim (Bool-cases (Pool.is_empty p)) [
    | inl e ↦ rw e tt
    | inr e ↦ rw e (routed-OfError p.relays _ _ (candidates_for-OfEmpty now request p))
  ]

  -- `select` says that none of the relays is eligible only if every relay of the pool is out of
  -- rotation at that time or was already tried for the message.
  pub select-none_eligible :
      (p p' : Pool) (counts : Counts)
      → select hash now request p ≡ (p', err (none_eligible counts))
      → All (IsPassedOver now request.exclude) p.relays
  select-none_eligible p p' counts e =
      subst (OfError p.relays) (ap (λ (x : Pool × Result Route NoRouteAvailable). x.1) e)
        (select-OfError p)
