-- ===== src/Dispatch/Rounds.antt =====
-- What one round of tries does, whatever other tasks do to the relays meanwhile.
use smtp_relay.Prelude.{
  ℕ, zero, suc, ◌≡◌, refl, true, false, ◌&&◌, Option, none, some, List, [], ◌∷◌, ◌++◌, inl, inr,
  arith, All, All-mono, Bool-cases, Text, is_empty, text_eq_refl, add_u32, ◌==◌, Result, ok, err,
}
use smtp_relay.Metrics.Counters.{Counters}
use smtp_relay.Queue.Schedule.{QueuedMessage}
use smtp_relay.Relay.Runtime
use smtp_relay.Relay.Runtime.{RelayRuntime}
use smtp_relay.Relay.Pool.{Pool, relay_at, mentions}
use smtp_relay.Relay.Selector.{Route, NoRouteAvailable}
use smtp_relay.Relay.Routing.{select}
use smtp_relay.Relay.Routing.Sound.{select-CanCarry}
use smtp_relay.Dispatch.{
  World, DispatchConfig, RecipientCheck, selecting, reserving, AttemptOutcome, Round, on_all,
  on_relay, request_of, noted, reserve, reserve_at, after_select, try_relays, attempt_delivery,
  rounds, checked, valid_of,
}
use smtp_relay.Dispatch.Outcomes.{
  Holds, IsDone, IsUnderWay, KeepsConfig, get_elem?-map, mentions-append, mentions-outside,
}
use smtp_relay.Dispatch.Sending.{
  finish_deferred-IsDone, finish_failed-IsDone, send-IsDone, Continues,
}

module _ (world : World) (cfg : DispatchConfig) (c : Counters) (m : QueuedMessage) (limit : ℕ) where
  reserve-IsDone :
      (go : Round → Round × AttemptOutcome) (n i : ℕ) (r : RelayRuntime) (s : Round)
      → Continues world cfg c m limit n go
      → mentions s.sends r.config.id ≡ false
      → mentions s.attempted r.config.id ≡ true
      → IsUnderWay c m limit (suc n) s
      → IsDone c m limit (reserve world cfg go n i r s)
  unfolding reserve
  reserve-IsDone go n i r s f new noted v =
      let few = v.few in
      elim (Bool-cases (Runtime.try_reserve_quota (world.clock reserving n) r).1) [
        | inl e ↦ rw e (
            send-IsDone world cfg c m limit go n i r
              (record s {
                pool =
                    on_relay i
                      (λ _.
                        Runtime.begin_delivery
                          (Runtime.try_reserve_quota (world.clock reserving n) r).0)
                      s.pool;
              })
              f new noted v)
        | inr e ↦ rw e (
            f _ (record {
              among = v.among;
              distinct = v.distinct;
              few = omega arith;
              no_delivered = v.no_delivered;
              no_failed = v.no_failed;
              no_deferred = v.no_deferred;
              same_id = v.same_id;
              same_attempts = v.same_attempts;
              same_raw = v.same_raw;
            }))
      ]

  among-noted :
      (ids : List Text) (id : Text) (xs : List Text)
      → All (λ x. mentions ids x ≡ true) xs
      → All (λ x. mentions (ids ++ (id ∷ [])) x ≡ true) xs
  among-noted ids id xs h =
      All-mono xs (λ x (k : mentions ids x ≡ true). ground (arith, mentions-append ids (id ∷ []) x))
        h

  reserve_at-IsDone :
      (go : Round → Round × AttemptOutcome) (n i : ℕ) (p : Pool) (s : Round)
      (found : Option RelayRuntime)
      → Continues world cfg c m limit n go
      → ((r : RelayRuntime) → found ≡ some r → mentions s.attempted r.config.id ≡ false)
      → IsUnderWay c m limit (suc n) s
      → IsDone c m limit (reserve_at world cfg go n i p s found)
  unfolding reserve_at
  reserve_at-IsDone go n i p s none f fresh v =
      let few = v.few in
      f _ (record {
        among = v.among;
        distinct = v.distinct;
        few = omega arith;
        no_delivered = v.no_delivered;
        no_failed = v.no_failed;
        no_deferred = v.no_deferred;
        same_id = v.same_id;
        same_attempts = v.same_attempts;
        same_raw = v.same_raw;
      })
  reserve_at-IsDone go n i p s (some r) f fresh v =
      let id = r.config.id in
      reserve-IsDone go n i r (noted world cfg id p s) f
        (mentions-outside s.attempted s.sends id v.among (fresh r refl))
        (ground (arith, mentions-append s.attempted (id ∷ []) id, text_eq_refl id))
        (record {
          among = among-noted s.attempted id s.sends v.among;
          distinct = v.distinct;
          few = v.few;
          no_delivered = v.no_delivered;
          no_failed = v.no_failed;
          no_deferred = v.no_deferred;
          same_id = v.same_id;
          same_attempts = v.same_attempts;
          same_raw = v.same_raw;
        })

  -- The id of the relay that a selection names was not tried yet.
  fresh_id :
      (n : ℕ) (s : Round) (p : Pool) (route : Route)
      → KeepsConfig world
      → select world.hash
          (world.clock selecting n)
          (request_of s)
          (on_all (world.others selecting n) s.pool)
        ≡ (p, ok route)
      → (r : RelayRuntime) → relay_at (on_all (world.others reserving n) p) route.relay ≡ some r
      → mentions s.attempted r.config.id ≡ false
  fresh_id n s p route keeps e r at =
      let (q, stands, carries) =
        select-CanCarry world.hash (world.clock selecting n) (request_of s) _ p route e in
      let (q', stands', same) =
        get_elem?-map (world.others reserving n) p.relays route.relay r at in
      let one : q ≡ q' = cc in
      let kept = keeps reserving n q' in let id : r.config.id ≡ q.config.id = cc in rw id carries.1

  after_select-IsDone :
      (go : Round → Round × AttemptOutcome) (n : ℕ) (s : Round)
      (res : Pool × Result Route NoRouteAvailable)
      → KeepsConfig world
      → Continues world cfg c m limit n go
      → select world.hash
          (world.clock selecting n)
          (request_of s)
          (on_all (world.others selecting n) s.pool)
        ≡ res
      → IsUnderWay c m limit (suc n) s
      → IsDone c m limit (after_select world cfg go n s res)
  unfolding after_select
  after_select-IsDone go n s (p, err missing) keeps f e v =
      finish_deferred-IsDone world cfg c m limit (suc n) _ _ v
  after_select-IsDone go n s (p, ok route) keeps f e v =
      reserve_at-IsDone go n route.relay (on_all (world.others reserving n) p) s _ f
        (fresh_id n s p route keeps e) v

  try_relays-IsDone :
      (n : ℕ) (s : Round)
      → KeepsConfig world
      → IsUnderWay c m limit n s
      → IsDone c m limit (try_relays world cfg n s)
  unfolding try_relays
  try_relays-IsDone zero s keeps v = finish_deferred-IsDone world cfg c m limit zero _ s v
  try_relays-IsDone (suc n) s keeps v =
      after_select-IsDone (try_relays world cfg n) n s _ keeps
        (λ s' v'. try_relays-IsDone n s' keeps v') refl v

-- Counting the checks leaves the outcomes' counters alone.
checked_frame :
    (world : World) (cfg : DispatchConfig) (cs : List RecipientCheck) (c : Counters)
    → ((checked world cfg cs c).messages_delivered ≡ c.messages_delivered)
      × ((checked world cfg cs c).messages_failed ≡ c.messages_failed)
      × ((checked world cfg cs c).messages_deferred ≡ c.messages_deferred)
checked_frame world cfg [] c = (refl, refl, refl)
checked_frame world cfg (k ∷ cs) c = elim (Bool-cases k.deliver) [
  | inl e ↦ rw e (checked_frame world cfg cs _)
  | inr e ↦ rw e (checked_frame world cfg cs _)
]

-- A delivery round hands the message to at most the configured number of relays (at least one), and
-- to none of them twice, whatever the upstreams answer and whatever other tasks do to the relays
-- meanwhile, their settings apart. It ends, and exactly one of the counters of delivered, failed and
-- deferred messages, the one of the outcome, counts it once. The message keeps its id and its
-- bytes, and its attempts are one more, as a 32-bit number.
pub attempt_delivery-IsDone :
    (world : World) (cfg : DispatchConfig) (p : Pool) (c : Counters) (message : QueuedMessage)
    → KeepsConfig world
    → IsDone c
        (record message { attempts = add_u32 message.attempts 1 })
        (rounds world cfg)
        (attempt_delivery world cfg p c message)
unfolding attempt_delivery
attempt_delivery-IsDone world cfg p c message keeps =
    let n = rounds world cfg in
    let m : QueuedMessage = record message { attempts = add_u32 message.attempts 1 } in
    let checks = world.filter_recipients message.recipients in
    let (a, b, d) = checked_frame world cfg checks c in
    let start : Holds c m n n [] [] c.messages_delivered c.messages_failed c.messages_deferred m.id
        m.attempts m.raw =
      record {
        among = tt;
        distinct = tt;
        few = omega arith;
        no_delivered = refl;
        no_failed = refl;
        no_deferred = refl;
        same_id = refl;
        same_attempts = refl;
        same_raw = refl;
      } in
    let counted : Holds c m n n [] [] (checked world cfg checks c).messages_delivered
        (checked world cfg checks c).messages_failed (checked world cfg checks c).messages_deferred
        m.id m.attempts m.raw =
      record {
        among = tt;
        distinct = tt;
        few = omega arith;
        no_delivered = a;
        no_failed = b;
        no_deferred = d;
        same_id = refl;
        same_attempts = refl;
        same_raw = refl;
      } in
    elim (Bool-cases (add_u32 message.attempts 1 == 1 && cfg.validation_enabled)) [
      | inr e ↦ rw e (try_relays-IsDone world cfg c m n n _ keeps start)
      | inl e ↦ elim (Bool-cases (is_empty (valid_of world cfg checks))) [
        | inr f ↦ rw (e, f) (try_relays-IsDone world cfg c m n n _ keeps counted)
        | inl f ↦ rw (e, f) (finish_failed-IsDone world cfg c m n n _ _ counted)
      ]
    ]
