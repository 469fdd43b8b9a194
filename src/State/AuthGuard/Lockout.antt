-- ===== src/State/AuthGuard/Lockout.antt =====
-- When the guard blocks an address, and for how long.
use smtp_relay.Prelude.{ℕ, ◌+◌, ◌≡◌, Bool, true, false, Option, none, some, List, [], ◌∷◌, Text}
use smtp_relay.Prelude.Assoc.{lookup}
use smtp_relay.State.AuthGuard.{AuthGuard, LoginAttempts, or_new, fail}

-- Failed logins of one address, at the given instants.
abbrev pub fail_all : Text → ℕ → ℕ → List ℕ → AuthGuard → AuthGuard
fail_all ip max_failures block [] guard = guard
fail_all ip max_failures block (t ∷ ts) guard =
    fail_all ip max_failures block ts (fail t t ip max_failures block guard).0

-- The entry of an address with `n` failures behind it that has not been blocked.
abbrev pub CountsTo : Text → ℕ → AuthGuard → Type 0
CountsTo ip n guard = or_new (lookup ip guard) ≡ record { failures = n; blocked_until = none }

-- The entry after failure `n` at the instant `t`, and what it returns: the last one blocks.
abbrev after_failure : Bool → ℕ → ℕ → ℕ → LoginAttempts × Option ℕ
after_failure true block t n =
    (record { failures = n; blocked_until = some (t + block) }, some block)
after_failure false block t n = (record { failures = n; blocked_until = none }, none)
