-- ===== src/Relay/Selector/Stages.antt =====
-- The candidates: every one is an eligible relay that the request does not exclude, and none is
-- left out.
use smtp_relay.Prelude.{
  ℕ, suc, ◌-◌, ◌≡◌, ◌≤◌, refl, Bool, true, false, not, ◌&&◌, some, List, [], ◌∷◌, inl, inr, Text,
  arith, All, All-mono, Bool-cases, Option-cases, if◌then◌else◌, get_elem?, Result, ok, err,
  is_empty, any,
}
use smtp_relay.Relay.Config.{Clock, SmtpDetail}
use smtp_relay.Relay.Runtime.{RelayRuntime, is_eligible}
use smtp_relay.Relay.Runtime.Eligibility.{is_eligible-is_eligible}
use smtp_relay.Relay.Pool.{Pool, mentions}
use smtp_relay.Relay.Selector.{
  RouteRequest, NoRouteAvailable, none_eligible, scan, general_candidates, linked_candidates,
  keep_positions, candidates_for, find, is_linked, everywhere, in_general_pool, in_pool_at,
  detail_matches,
}

-- A relay that may carry the message: eligible at this time, and not tried yet.
abbrev pub CanCarry : Clock → List Text → RelayRuntime → Type 0
CanCarry now exclude r = ((is_eligible now r).1 ≡ true) × (mentions exclude r.config.id ≡ false)

-- The relay at a position counted from `start`.
pub record Carrier (now : Clock) (exclude : List Text) (start : ℕ) (rs : List RelayRuntime) (q : ℕ)
    : Type 0 where
  pub relay : RelayRuntime
  pub later : start ≤ q
  pub stands : get_elem? rs (q - start) ≡ some relay
  pub carries : CanCarry now exclude relay

is_eligible-config : (now : Clock) (r : RelayRuntime) → (is_eligible now r).0.config ≡ r.config
unfolding is_eligible
is_eligible-config now r = ground arith

module _ (now : Clock) (exclude : List Text) where
  Carrier-suc :
      (start : ℕ) (r : RelayRuntime) (rs : List RelayRuntime) (q : ℕ)
      → Carrier now exclude (suc start) rs q
      → Carrier now exclude start (r ∷ rs) q
  Carrier-suc start r rs q c =
      let h = c.later in
      let e : q - start ≡ suc (q - suc start) = omega arith in
      record { relay = c.relay; later = omega arith; stands = rw e c.stands; carries = c.carries }

  Carrier-self :
      (start : ℕ) (r : RelayRuntime) (rs : List RelayRuntime)
      → CanCarry now exclude r
      → Carrier now exclude start (r ∷ rs) start
  Carrier-self start r rs c =
      let e : start - start ≡ 0 = omega arith in
      record { relay = r; later = omega arith; stands = rw e refl; carries = c }

  checked : (RelayRuntime → Bool) → RelayRuntime → RelayRuntime × Bool
  checked keep r = if keep r then is_eligible now r else (r, false)

  checked-CanCarry :
      (keep : RelayRuntime → Bool) (r : RelayRuntime)
      → ((checked keep r).1 && not (mentions exclude r.config.id)) ≡ true
      → CanCarry now exclude (checked keep r).0
  unfolding checked
  checked-CanCarry keep r e = elim (Bool-cases (keep r)) [
    | inl k ↦ rw k (ground (arith, is_eligible-is_eligible now r, is_eligible-config now r))
    | inr k ↦ absurd (ground arith)
  ]

  scan-Carrier :
      (keep : RelayRuntime → Bool) (start : ℕ) (rs : List RelayRuntime)
      → All
          (Carrier now exclude start (scan now exclude keep start rs).0)
          (scan now exclude keep start rs).1
  unfolding scan checked
  scan-Carrier keep start [] = tt
  scan-Carrier keep start (r ∷ rs) =
      let later =
        All-mono _ (Carrier-suc start (checked keep r).0 _) (scan-Carrier keep (suc start) rs) in
      elim (Bool-cases ((checked keep r).1 && not (mentions exclude r.config.id))) [
        | inl e ↦ rw e (Carrier-self start _ _ (checked-CanCarry keep r e), later)
        | inr e ↦ rw e later
      ]

  abbrev pub Carriers : List RelayRuntime × List ℕ → Type 0
  Carriers found = All (Carrier now exclude 0 found.0) found.1

  keep_positions-All :
      (P : ℕ → Type 0) (p : ℕ → Bool) (cs : List ℕ) → All P cs → All P (keep_positions p cs)
  unfolding keep_positions
  keep_positions-All P p [] h = tt
  keep_positions-All P p (c ∷ cs) h = elim (Bool-cases (p c)) [
    | inl e ↦ rw e (h.0, keep_positions-All P p cs h.1)
    | inr e ↦ rw e (keep_positions-All P p cs h.1)
  ]

module _ (now : Clock) (request : RouteRequest) where
  general_candidates-Carriers :
      (rs : List RelayRuntime) → Carriers now request.exclude (general_candidates now request rs)
  unfolding general_candidates
  general_candidates-Carriers rs =
      let first = scan now request.exclude in_general_pool 0 rs in
      elim (Bool-cases (is_empty first.1)) [
        | inl e ↦ rw e (scan-Carrier now request.exclude everywhere 0 first.0)
        | inr e ↦ rw e (scan-Carrier now request.exclude in_general_pool 0 rs)
      ]

  linked_candidates-Carriers :
      (detail : SmtpDetail) (rs : List RelayRuntime)
      → Carriers now request.exclude (linked_candidates now request detail rs)
  unfolding linked_candidates
  linked_candidates-Carriers detail rs =
      let found = scan now request.exclude (is_linked detail) 0 rs in
      let all = scan-Carrier now request.exclude (is_linked detail) 0 rs in
      elim (Bool-cases (is_empty (keep_positions (in_pool_at found.0) found.1))) [
        | inl e ↦ rw e all
        | inr e ↦ rw e (keep_positions-All now request.exclude _ (in_pool_at found.0) found.1 all)
      ]

  abbrev pub OfCandidates : List RelayRuntime × Result (List ℕ × Bool) NoRouteAvailable → Type 0
  OfCandidates (rs, err e) = Unit
  OfCandidates (rs, ok (cs, bound)) = Carriers now request.exclude (rs, cs)

  -- Every candidate is a relay that can carry the message.
  pub candidates_for-OfCandidates : (p : Pool) → OfCandidates (candidates_for now request p)
  unfolding candidates_for
  candidates_for-OfCandidates p =
      let general = general_candidates-Carriers p.relays in
      elim (Option-cases (find (detail_matches request) p.smtp_details)) [
        | inl e ↦ rw (e, candidates_for) general
        | inr (detail, e) ↦
            rw (e, candidates_for)
              (elim (Bool-cases (any (is_linked detail) p.relays)) [
                | inr f ↦ rw f general
                | inl f ↦
                    rw f
                      (elim (Bool-cases
                        (is_empty (linked_candidates now request detail p.relays).1)) [
                          | inl g ↦ rw g tt
                          | inr g ↦ rw g (linked_candidates-Carriers detail p.relays)
                        ])
              ])
      ]

-- -- What is left out

module _ (now : Clock) (exclude : List Text) where
  -- A relay that a scan for any relay passes over.
  abbrev pub IsPassedOver : RelayRuntime → Type 0
  IsPassedOver r = ((is_eligible now r).1 && not (mentions exclude r.config.id)) ≡ false

  scan-IsPassedOver :
      (start : ℕ) (rs : List RelayRuntime)
      → (scan now exclude everywhere start rs).1 ≡ []
      → All IsPassedOver rs
  unfolding scan
  scan-IsPassedOver start [] e = tt
  scan-IsPassedOver start (r ∷ rs) e =
      (ground arith, scan-IsPassedOver (suc start) rs (ground arith))

  scanned-IsPassedOver :
      (keep : RelayRuntime → Bool) (start : ℕ) (rs : List RelayRuntime)
      → All IsPassedOver (scan now exclude keep start rs).0
      → All IsPassedOver rs
  unfolding scan
  scanned-IsPassedOver keep start [] h = tt
  scanned-IsPassedOver keep start (r ∷ rs) h = (
    ground (arith, is_eligible-is_eligible now r, is_eligible-config now r, h.0),
    scanned-IsPassedOver keep (suc start) rs h.1,
  )

module _ (now : Clock) (request : RouteRequest) where
  general_candidates-IsPassedOver :
      (rs : List RelayRuntime)
      → (general_candidates now request rs).1 ≡ []
      → All (IsPassedOver now request.exclude) rs
  unfolding general_candidates
  general_candidates-IsPassedOver rs e =
      let first = scan now request.exclude in_general_pool 0 rs in
      elim (Bool-cases (is_empty first.1)) [
        | inl f ↦
            scanned-IsPassedOver now request.exclude in_general_pool 0 rs
              (scan-IsPassedOver now request.exclude 0 first.0 (ground arith))
        | inr f ↦ absurd (ground arith)
      ]

  -- What an empty list of candidates says of the relays `rs`.
  abbrev pub OfEmpty : List RelayRuntime → Result (List ℕ × Bool) NoRouteAvailable → Type 0
  OfEmpty rs (err (none_eligible counts)) = All (IsPassedOver now request.exclude) rs
  OfEmpty rs (err e) = Unit
  OfEmpty rs (ok ([], bound)) = All (IsPassedOver now request.exclude) rs
  OfEmpty rs (ok (c ∷ cs, bound)) = Unit

  ok-OfEmpty :
      (rs : List RelayRuntime) (cs : List ℕ) (bound : Bool)
      → (cs ≡ [] → All (IsPassedOver now request.exclude) rs)
      → OfEmpty rs (ok (cs, bound))
  ok-OfEmpty rs [] bound h = h refl
  ok-OfEmpty rs (c ∷ cs) bound h = tt

  -- The candidates are empty only if every relay is out.
  pub candidates_for-OfEmpty : (p : Pool) → OfEmpty p.relays (candidates_for now request p).1
  unfolding candidates_for
  candidates_for-OfEmpty p =
      let general = ok-OfEmpty p.relays _ false (general_candidates-IsPassedOver p.relays) in
      elim (Option-cases (find (detail_matches request) p.smtp_details)) [
        | inl e ↦ rw (e, candidates_for) general
        | inr (detail, e) ↦
            rw (e, candidates_for)
              (elim (Bool-cases (any (is_linked detail) p.relays)) [
                | inr f ↦ rw f general
                | inl f ↦
                    rw f
                      (elim (Bool-cases
                        (is_empty (linked_candidates now request detail p.relays).1)) [
                          | inl g ↦ rw g tt
                          | inr g ↦ rw g (ok-OfEmpty p.relays _ true (λ n. absurd (ground arith)))
                        ])
              ])
      ]
