-- ===== src/State/AuthGuard.antt =====
-- src/state.rs, `AuthGuard`. Instants and durations are in milliseconds; where the source reads the
-- clock twice, a method takes both readings. An IP address is the list of its octets.
pub mod Lockout
use smtp_relay.Prelude.{
  ℕ, ◌+◌, ◌-◌, Bool, true, false, Option, none, some, List, [], ◌∷◌, Text, ltb, leb, ◌==◌,
  if◌then◌else◌, saturating_add_u32, saturating_sub, Result, ok, err,
}
use smtp_relay.Prelude.Assoc.{lookup, insert, remove}

pub record LoginAttempts : Type 0 where
  pub failures : ℕ
  pub blocked_until : Option ℕ

abbrev pub AuthGuard : Type 0
AuthGuard = List (Text × LoginAttempts)

abbrev pub new : AuthGuard
new = []

abbrev pub no_attempts : LoginAttempts
no_attempts = record { failures = 0; blocked_until = none }

abbrev pub or_new : Option LoginAttempts → LoginAttempts
or_new none = no_attempts
or_new (some entry) = entry

-- The time left of a block, when it is still running.
unfoldable pub still_blocked : ℕ → ℕ → LoginAttempts → Option ℕ
still_blocked now later entry = elim entry.blocked_until [
  | none ↦ none
  | some until ↦ if ltb now until then some (saturating_sub until later) else none
]

-- A block that has run out is forgotten, with the failures that led to it.
unfoldable pub unblocked : LoginAttempts → LoginAttempts
unblocked entry = elim entry.blocked_until [ none ↦ entry | some until ↦ no_attempts ]

unfoldable pub check_entry :
    ℕ → ℕ → Text → AuthGuard → Option LoginAttempts → AuthGuard × Result (Unit {0}) ℕ
unfolding still_blocked unblocked
check_entry now later ip guard none = (guard, ok tt)
check_entry now later ip guard (some entry) = elim (still_blocked now later entry) [
  | some remaining ↦ (guard, err remaining)
  | none ↦ (insert ip (unblocked entry) guard, ok tt)
]

-- `err` with the remaining time when the address is blocked.
unfoldable pub check : ℕ → ℕ → Text → AuthGuard → AuthGuard × Result (Unit {0}) ℕ
unfolding lookup check_entry
check now later ip guard = check_entry now later ip guard (lookup ip guard)

-- Records a failure on an entry that is not blocked.
unfoldable pub count_failure : ℕ → ℕ → ℕ → LoginAttempts → LoginAttempts × Option ℕ
count_failure later max_failures block entry =
    let failures = saturating_add_u32 entry.failures 1 in
    if leb max_failures failures
    then (record { failures = failures; blocked_until = some (later + block) }, some block)
    else (record entry { failures = failures }, none)

unfoldable pub fail : ℕ → ℕ → Text → ℕ → ℕ → AuthGuard → AuthGuard × Option ℕ
unfolding lookup insert still_blocked unblocked count_failure
fail now later ip max_failures block guard =
    let entry = or_new (lookup ip guard) in
    let (counted, blocked) = count_failure later max_failures block (unblocked entry) in
    if max_failures == 0 then (guard, none) else (elim (still_blocked now later entry) [
      | some remaining ↦ (guard, some remaining)
      | none ↦ (insert ip counted guard, blocked)
    ])

unfoldable pub success : Text → AuthGuard → AuthGuard
unfolding remove
success ip guard = remove ip guard
