-- ===== src/Failure.antt =====
-- src/error.rs: how a failed delivery is classified.
use smtp_relay.Prelude.{ℕ, Bool, true, false, ◌&&◌, ◌||◌, Option, none, some, Text, ltb, leb, ◌==◌}

pub data FailureKind : Type 0 where
  transient permanent : FailureKind

abbrev pub is_transient : FailureKind → Bool
is_transient transient = true
is_transient permanent = false

pub record DeliveryError : Type 0 where
  pub kind : FailureKind
  pub message : Text
  pub status_code : Option ℕ

-- `DeliveryError::transient` and `DeliveryError::permanent`.
unfoldable pub transient_error : Text → DeliveryError
transient_error message = record { kind = transient; message = message; status_code = none }

unfoldable pub permanent_error : Text → DeliveryError
permanent_error message = record { kind = permanent; message = message; status_code = none }

unfoldable pub with_status : DeliveryError → ℕ → DeliveryError
with_status e code = record e { status_code = some code }

unfoldable pub is_fault_code : ℕ → Bool
is_fault_code code =
    (leb 400 code && ltb code 500)
    || (code == 530 || code == 534 || code == 535 || code == 538)
    || (leb 500 code && leb code 504)

unfoldable pub is_relay_fault : DeliveryError → Bool
unfolding is_fault_code
is_relay_fault e = elim e.status_code [ none ↦ true | some code ↦ is_fault_code code ]

unfoldable pub should_retry : DeliveryError → Bool
unfolding is_relay_fault
should_retry e = is_transient e.kind || is_relay_fault e
