-- ===== src/Relay/Weights.antt =====
-- src/relay/pool.rs, `Pool::smooth_weighted_pick`: one step of smooth weighted round-robin. The
-- weights are integers; in the source they are 64-bit, which sums of 32-bit weights stay within.
pub mod Balance
use smtp_relay.Prelude.{
  ℕ, zero, suc, ◌+◌, max, Bool, true, false, Option, none, some, List, [], ◌∷◌, length, set,
  get_elem?, ◌==◌, if◌then◌else◌,
}
use smtp_relay.Prelude.Int.{ℤ, pos, ◌+ℤ◌, ◌-ℤ◌, ltb_ℤ}
use smtp_relay.Relay.Runtime.{RelayRuntime}
use smtp_relay.Relay.Pool.{Pool}

-- `weights[i]`, of an index within the list.
abbrev pub weight_at : List ℤ → ℕ → ℤ
weight_at [] i = pos 0
weight_at (w ∷ ws) zero = w
weight_at (w ∷ ws) (suc i) = weight_at ws i

-- `Vec::resize(n, 0)`.
abbrev pub resize : ℕ → List ℤ → List ℤ
resize zero ws = []
resize (suc n) [] = pos 0 ∷ resize n []
resize (suc n) (w ∷ ws) = w ∷ resize n ws

-- `relays[position].config.weight.max(1)`, of a position within the pool.
abbrev pub relay_weight : List RelayRuntime → ℕ → ℕ
relay_weight rs position = elim (get_elem? rs position) [
  | none ↦ 0
  | some r ↦ max r.config.weight 1
]

abbrev pub is_better : List ℤ → ℕ → Option ℕ → Bool
is_better ws candidate none = true
is_better ws candidate (some current) = ltb_ℤ (weight_at ws current) (weight_at ws candidate)

-- The loop over the candidates: the weights, their total and the best position so far.
unfoldable pub pick_loop :
    List RelayRuntime → List ℕ → List ℤ → ℕ → Option ℕ → List ℤ × ℕ × Option ℕ
unfolding ◌+ℤ◌
pick_loop rs [] ws total best = (ws, total, best)
pick_loop rs (c ∷ cs) ws total best =
    let ws' = set ws c (weight_at ws c +ℤ pos (relay_weight rs c)) in
    pick_loop rs cs ws' (total + relay_weight rs c) (if is_better ws' c best then some c else best)

abbrev pub charge : List ℤ → ℕ → Option ℕ → List ℤ
charge ws total none = ws
charge ws total (some chosen) = set ws chosen (weight_at ws chosen -ℤ pos total)

unfoldable pub smooth_weighted_pick : Pool → List ℕ → Pool × Option ℕ
unfolding pick_loop ◌-ℤ◌
smooth_weighted_pick p [] = (p, none)
smooth_weighted_pick p (c ∷ cs) =
    let ready =
      if length p.smooth_weights == length p.relays
      then p.smooth_weights
      else resize (length p.relays) p.smooth_weights in
    let (ws, total, best) = pick_loop p.relays (c ∷ cs) ready 0 none in
    (record p { smooth_weights = charge ws total best }, best)
