-- ===== src/Metrics/Counters.antt =====
-- src/metrics.rs, `Counters`, with `inc` and `add`. A counter is a 64-bit word that wraps around.
use smtp_relay.Prelude.{ℕ, add_u64}

pub record Counters : Type 0 where
  pub connections_total : ℕ
  pub connections_active : ℕ
  pub connections_rejected : ℕ
  pub sessions_timed_out : ℕ
  pub messages_received : ℕ
  pub messages_delivered : ℕ
  pub messages_failed : ℕ
  pub messages_deferred : ℕ
  pub messages_dead : ℕ
  pub messages_rejected : ℕ
  pub recipients_total : ℕ
  pub bytes_received : ℕ
  pub bytes_delivered : ℕ
  pub auth_success : ℕ
  pub auth_failure : ℕ
  pub queue_enqueued : ℕ
  pub queue_retries : ℕ
  pub routing_no_relay_available : ℕ
  pub rewrite_errors : ℕ
  pub validation_passed : ℕ
  pub validation_skipped : ℕ

abbrev pub inc : ℕ → ℕ
inc n = add_u64 n 1

abbrev pub add : ℕ → ℕ → ℕ
add n k = add_u64 n k
