-- ===== src/Relay/Config.antt =====
-- src/config.rs: the settings that the relay pool, the selector and the dispatcher read, and the
-- two clocks. Texts and numbers of the settings that only reach the dashboard or the upstream
-- library are left out of the records.
use smtp_relay.Prelude.{ℕ, ◌/◌, Bool, Option, List, Text}

-- `Instant::now()` and `Utc::now()`, both in milliseconds.
pub record Clock : Type 0 where
  pub instant : ℕ
  pub utc : ℕ

-- `DateTime::timestamp`: whole seconds.
abbrev pub timestamp : Clock → ℕ
timestamp now = now.utc / 1000

pub record HealthConfig : Type 0 where
  pub failure_threshold : ℕ
  pub success_threshold : ℕ
  pub cooldown_seconds : ℕ
  pub auto_disable : Bool
  pub auto_recover : Bool

pub record RelayConfig : Type 0 where
  pub id : Text
  pub enabled : Bool
  pub weight : ℕ
  pub priority : ℕ
  pub max_concurrent : ℕ
  pub max_per_minute : Option ℕ
  pub max_per_hour : Option ℕ
  pub max_per_day : Option ℕ
  pub smtp_detail_id : Option Text
  pub in_rotation_pool : Bool

pub data Strategy : Type 0 where
  round_robin weighted least_used failover : Strategy

pub data StickyMode : Type 0 where
  unsticky sender recipient_domain : StickyMode

pub record DomainOverride : Type 0 where
  pub domain : Text
  pub relay_ids : List Text

pub record RoutingConfig : Type 0 where
  pub strategy : Strategy
  pub sticky : StickyMode
  pub domain_overrides : List DomainOverride
  pub fallback_on_failure : Bool
  pub max_attempts_per_message : ℕ

pub record SmtpDetail : Type 0 where
  pub id : Text
  pub label : Text
  pub hostname : Text
  pub username : Text
  pub password : Text
