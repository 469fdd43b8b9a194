-- ===== src/Relay/Pool/Activation.antt =====
-- src/relay/pool.rs, `Pool::set_exclusive`: exactly the named relays are active afterwards.
use smtp_relay.Prelude.{
  ◌≡◌, refl, ap, ◌∙◌, Bool, true, false, not, List, [], ◌∷◌, map, arith, if◌then◌else◌, Text,
}
use smtp_relay.Relay.Runtime.{RelayRuntime, set_active, activate, deactivate}
use smtp_relay.Relay.Pool.{Pool, set_each, set_exclusive, mentions, same}

set_active-frame :
    (r : RelayRuntime) (active : Bool)
    → ((set_active r active).0.active ≡ active)
      × ((set_active r active).0.config ≡ r.config)
      × ((set_active r active).1 ≡ not (same r.active active))
unfolding set_active activate deactivate
set_active-frame r true = (refl, refl, ground arith)
set_active-frame r false = (refl, refl, ground arith)

same_self : (b : Bool) → not (same b b) ≡ false
same_self true = refl
same_self false = refl

-- The ids of the relays whose activation is not the wanted one.
abbrev pub differing : (RelayRuntime → Bool) → List RelayRuntime → List Text
differing active [] = []
differing active (r ∷ rs) =
    if not (same r.active (active r))
    then r.config.id ∷ differing active rs
    else differing active rs

set_each-frame :
    (active : RelayRuntime → Bool) (rs : List RelayRuntime)
    → (map (λ r. r.active) (set_each active rs).0 ≡ map active rs)
      × (map (λ r. r.config) (set_each active rs).0 ≡ map (λ r. r.config) rs)
      × ((set_each active rs).1 ≡ differing active rs)
unfolding set_each
set_each-frame active [] = (refl, refl, refl)
set_each-frame active (r ∷ rs) =
    let (a, c, t) = set_active-frame r (active r) in
    let (rest, cs, ts) = set_each-frame active rs in
    (rw (a, rest) refl, rw (c, cs) refl, rw (t, ts) refl)

-- Nothing differs once the activation is the wanted one.
differing-none :
    (ids : List Text) (rs rs' : List RelayRuntime)
    → map (λ r. r.active) rs' ≡ map (λ r. mentions ids r.config.id) rs
    → map (λ r. r.config) rs' ≡ map (λ r. r.config) rs
    → differing (λ r. mentions ids r.config.id) rs' ≡ []
differing-none ids [] [] a c = refl
differing-none ids [] (r' ∷ rs') a c = cc
differing-none ids (r ∷ rs) [] a c = refl
differing-none ids (r ∷ rs) (r' ∷ rs') a c =
    let active : r'.active ≡ mentions ids r.config.id = cc in
    let config : r'.config ≡ r.config = cc in
    let a' : map (λ r. r.active) rs' ≡ map (λ r. mentions ids r.config.id) rs = cc in
    let c' : map (λ r. r.config) rs' ≡ map (λ r. r.config) rs = cc in
    let ih = differing-none ids rs rs' a' c' in
    let mine : mentions ids r'.config.id ≡ mentions ids r.config.id =
      ap (λ c. mentions ids c.id) config in
    let kept : not (same r'.active (mentions ids r'.config.id)) ≡ false =
      rw (mine, active) (same_self (mentions ids r.config.id)) in
    rw (kept, ih) refl

-- After `set_exclusive`, each relay is active if and only if its id is among the named ones; the
-- relays and their order are as before. The call returns the ids of the relays of which it has
-- changed the activation, and a second call with the same ids changes none.
pub set_exclusive-active :
    (p : Pool) (ids : List Text)
    → (map (λ r. r.active) (set_exclusive p ids).0.relays
        ≡ map (λ r. mentions ids r.config.id) p.relays)
      × (map (λ r. r.config) (set_exclusive p ids).0.relays ≡ map (λ r. r.config) p.relays)
      × ((set_exclusive p ids).1 ≡ differing (λ r. mentions ids r.config.id) p.relays)
      × ((set_exclusive (set_exclusive p ids).0 ids).1 ≡ [])
unfolding set_exclusive
set_exclusive-active p ids =
    let wanted : RelayRuntime → Bool = λ r. mentions ids r.config.id in
    let (a, c, t) = set_each-frame wanted p.relays in
    let again = set_each-frame wanted (set_each wanted p.relays).0 in
    (a, c, t, again.2 ∙ differing-none ids p.relays (set_each wanted p.relays).0 a c)
