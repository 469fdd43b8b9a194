-- ===== src/Relay/Routing/Sorting.antt =====
-- The two strategies that sort the candidates take the least of their keys.
use smtp_relay.Prelude.{
  ℕ, ◌≡◌, true, false, List, [], ◌∷◌, inl, inr, arith, All, All-mono, Bool-cases,
}
use smtp_relay.Relay.Config.{Clock, least_used, failover}
use smtp_relay.Relay.Pool.{Pool}
use smtp_relay.Relay.Routing.{includes}
use smtp_relay.Relay.Strategy.{
  Key, key_lt, insert_by, sort_by_key, usage_key, priority_key, nth, pick,
}

-- None of the candidates comes before `c`.
abbrev pub IsLeast : (ℕ → Key) → ℕ → List ℕ → Type 0
IsLeast key c = All (λ d. key_lt (key d) (key c) ≡ false)

abbrev HeadIsLeast : (ℕ → Key) → List ℕ → List ℕ → Type 0
HeadIsLeast key [] cs = ⊥
HeadIsLeast key (h ∷ t) cs = IsLeast key h cs

key_lt_irrefl : (a : Key) → key_lt a a ≡ false
key_lt_irrefl a = ground arith

key_lt_asym : (a b : Key) → key_lt a b ≡ true → key_lt b a ≡ false
key_lt_asym a b h = ground arith

key_lt_trans : (a b c : Key) → key_lt b a ≡ false → key_lt c b ≡ false → key_lt c a ≡ false
key_lt_trans a b c h k = ground arith

insert_by-HeadIsLeast :
    (key : ℕ → Key) (c : ℕ) (sorted cs : List ℕ)
    → HeadIsLeast key sorted cs
    → HeadIsLeast key (insert_by key c sorted) (c ∷ cs)
unfolding insert_by
insert_by-HeadIsLeast key c [] cs h = elim h [ ]
insert_by-HeadIsLeast key c (d ∷ ds) cs h = elim (Bool-cases (key_lt (key d) (key c))) [
  | inl e ↦ rw e (key_lt_asym (key d) (key c) e, h)
  | inr e ↦ rw e (
    key_lt_irrefl (key c),
    All-mono cs (λ x (l : key_lt (key x) (key d) ≡ false). key_lt_trans (key c) (key d) (key x) e l)
        h,
  )
]

sort_by_key-HeadIsLeast :
    (key : ℕ → Key) (c : ℕ) (cs : List ℕ) → HeadIsLeast key (sort_by_key key (c ∷ cs)) (c ∷ cs)
unfolding sort_by_key insert_by
sort_by_key-HeadIsLeast key c [] = (key_lt_irrefl (key c), tt)
sort_by_key-HeadIsLeast key c (d ∷ ds) =
    insert_by-HeadIsLeast key c (sort_by_key key (d ∷ ds)) (d ∷ ds)
      (sort_by_key-HeadIsLeast key d ds)

nth-IsLeast :
    (key : ℕ → Key) (sorted cs : List ℕ) (d : ℕ)
    → HeadIsLeast key sorted cs
    → IsLeast key (nth sorted 0 d) cs
nth-IsLeast key [] cs d h = elim h [ ]
nth-IsLeast key (c ∷ sorted) cs d h = h

pub includes-All_self : (cs : List ℕ) → All (λ c. includes cs c ≡ true) cs
includes-All_self [] = tt
includes-All_self (c ∷ cs) = (
  ground arith,
  All-mono cs (λ x (h : includes cs x ≡ true). ground arith) (includes-All_self cs),
)

pub pick-IsLeast_failover :
    (now : Clock) (p : Pool) (c : ℕ) (cs : List ℕ)
    → IsLeast (priority_key p.relays) (pick now failover p c cs).1 (c ∷ cs)
unfolding pick
pick-IsLeast_failover now p c cs =
    nth-IsLeast (priority_key p.relays) _ (c ∷ cs) c
      (sort_by_key-HeadIsLeast (priority_key p.relays) c cs)

pub pick-IsLeast_least_used :
    (now : Clock) (p : Pool) (c : ℕ) (cs : List ℕ)
    → IsLeast (usage_key now p.relays) (pick now least_used p c cs).1 (c ∷ cs)
unfolding pick
pick-IsLeast_least_used now p c cs =
    nth-IsLeast (usage_key now p.relays) _ (c ∷ cs) c
      (sort_by_key-HeadIsLeast (usage_key now p.relays) c cs)
