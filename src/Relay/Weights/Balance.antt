-- ===== src/Relay/Weights/Balance.antt =====
-- The smooth weights of a pool always sum to the same: what a step hands out, it takes back.
use smtp_relay.Prelude.{
  ℕ, Bool, true, false, zero, suc, ◌+◌, ◌≡◌, ◌<◌, refl, ap, ◌∙◌, Option, none, some, List, [], ◌∷◌,
  arith, All, All-mono, length, length-set, set, ==_iff, if◌then◌else◌,
}
use smtp_relay.Prelude.Int.{ℤ, pos, pos_part, neg_part, ◌+ℤ◌, ◌-ℤ◌, int_laws}
use smtp_relay.Relay.Runtime.{RelayRuntime}
use smtp_relay.Relay.Pool.{Pool}
use smtp_relay.Relay.Weights.{
  weight_at, relay_weight, is_better, pick_loop, charge, smooth_weighted_pick,
}

pub sum : List ℤ → ℤ
sum [] = pos 0
sum (w ∷ ws) = w +ℤ sum ws

sum-set :
    (ws : List ℤ) (i : ℕ) (v : ℤ) → i < length ws → sum (set ws i v) +ℤ weight_at ws i ≡ sum ws +ℤ v
unfolding sum
sum-set [] i v h = elim h [ ]
sum-set (w ∷ ws) zero v h = omega int_laws
sum-set (w ∷ ws) (suc i) v h =
    let ih = sum-set ws i v (omega arith) in omega (int_laws, ap pos_part ih, ap neg_part ih)

-- The loop adds to the weights what it adds to the total.
pick_loop-sum :
    (rs : List RelayRuntime) (cs : List ℕ) (ws : List ℤ) (total : ℕ) (best : Option ℕ)
    → All (λ c. c < length ws) cs
    → (sum (pick_loop rs cs ws total best).0 +ℤ pos total
        ≡ sum ws +ℤ pos (pick_loop rs cs ws total best).1)
      × (length (pick_loop rs cs ws total best).0 ≡ length ws)
unfolding pick_loop
pick_loop-sum rs [] ws total best h = (refl, refl)
pick_loop-sum rs (c ∷ cs) ws total best h =
    let w = relay_weight rs c in
    let v = weight_at ws c +ℤ pos w in
    let kept = length-set ws c v in
    let next = if is_better (set ws c v) c best then some c else best in
    let (ih, len) =
      pick_loop-sum rs cs (set ws c v) (total + w) next
        (All-mono cs (λ x (k : x < length ws). omega arith) h.1) in
    let here = sum-set ws c v h.0 in
    (
      omega (int_laws, ap pos_part ih, ap neg_part ih, ap pos_part here, ap neg_part here),
      len ∙ kept,
    )

charge-sum :
    (ws : List ℤ) (total chosen : ℕ)
    → chosen < length ws
    → sum (charge ws total (some chosen)) +ℤ pos total ≡ sum ws
charge-sum ws total chosen h =
    let e = sum-set ws chosen (weight_at ws chosen -ℤ pos total) h in
    omega (int_laws, ap pos_part e, ap neg_part e)

-- A loop that has a best position ends with one, of those that it was given.
abbrev IsChosen : (ℕ → Type 0) → Option ℕ → Type 0
IsChosen P none = ⊥
IsChosen P (some d) = P d

better-IsChosen :
    (P : ℕ → Type 0) (b : Bool) (c : ℕ) (best : Option ℕ)
    → P c
    → IsChosen P best
    → IsChosen P (if b then some c else best)
better-IsChosen P true c best k h = k
better-IsChosen P false c best k h = h

pick_loop-IsChosen :
    (P : ℕ → Type 0) (rs : List RelayRuntime) (cs : List ℕ) (ws : List ℤ) (total : ℕ)
    (best : Option ℕ)
    → All P cs
    → IsChosen P best
    → IsChosen P (pick_loop rs cs ws total best).2
unfolding pick_loop
pick_loop-IsChosen P rs [] ws total best h k = k
pick_loop-IsChosen P rs (c ∷ cs) ws total best h k =
    pick_loop-IsChosen P rs cs _ _ _ h.1 (better-IsChosen P _ c best h.0 k)

chosen : (P : ℕ → Type 0) (o : Option ℕ) → IsChosen P o → (d : ℕ) × (o ≡ some d) × P d
chosen P none k = elim k [ ]
chosen P (some d) k = (d, refl, k)

step-IsChosen :
    (P : ℕ → Type 0) (rs : List RelayRuntime) (c : ℕ) (cs : List ℕ) (ws : List ℤ)
    → All P (c ∷ cs)
    → IsChosen P (pick_loop rs (c ∷ cs) ws 0 none).2
unfolding pick_loop
step-IsChosen P rs c cs ws h = pick_loop-IsChosen P rs cs _ _ (some c) h.1 h.0

-- The whole step on the weights alone.
abbrev stepped : List RelayRuntime → List ℕ → List ℤ → List ℤ × ℕ × Option ℕ
stepped rs cs ws = pick_loop rs cs ws 0 none

step-sum :
    (rs : List RelayRuntime) (c : ℕ) (cs : List ℕ) (ws : List ℤ)
    → All (λ q. q < length ws) (c ∷ cs)
    → sum (charge (stepped rs (c ∷ cs) ws).0 (stepped rs (c ∷ cs) ws).1 (stepped rs (c ∷ cs) ws).2)
      ≡ sum ws
step-sum rs c cs ws h =
    let (loop, len) = pick_loop-sum rs (c ∷ cs) ws 0 none h in
    let (d, e, k) =
      chosen (λ q. q < length ws) _ (step-IsChosen (λ q. q < length ws) rs c cs ws h) in
    let charged =
      charge-sum (stepped rs (c ∷ cs) ws).0 (stepped rs (c ∷ cs) ws).1 d (omega arith) in
    rw e (
      omega
        (int_laws, ap pos_part loop, ap neg_part loop, ap pos_part charged, ap neg_part charged))

-- A step of smooth weighted round-robin leaves the sum of all the weights as it was, for any non-
-- empty list of positions of a pool that has one weight for each relay.
pub sum-smooth_weighted_pick :
    (p : Pool) (c : ℕ) (cs : List ℕ)
    → length p.smooth_weights ≡ length p.relays
    → All (λ q. q < length p.relays) (c ∷ cs)
    → sum (smooth_weighted_pick p (c ∷ cs)).0.smooth_weights ≡ sum p.smooth_weights
unfolding smooth_weighted_pick
sum-smooth_weighted_pick p c cs same h =
    rw ((==_iff (length p.smooth_weights) (length p.relays)).1 same) (
      step-sum p.relays c cs p.smooth_weights
        (All-mono (c ∷ cs) (λ x (k : x < length p.relays). omega arith) h))
