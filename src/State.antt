-- ===== src/State.antt =====
-- src/state.rs: the guard that blocks an address after failed logins.
pub mod AuthGuard
