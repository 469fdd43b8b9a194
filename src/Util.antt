-- ===== src/Util.antt =====
-- src/util.rs: small helpers of the other parts.
pub mod Strings
pub mod Utf8
pub mod Trimming
pub mod Secrets
