-- ===== src/Metrics.antt =====
-- src/metrics.rs: the counters and the series of minutes.
pub mod Counters
pub mod Series
