-- ===== src/Relay.antt =====
-- src/relay: the upstream relays, their runtime state, the pool and the routing decision.
pub mod Config
pub mod Circuit
pub mod Quota
pub mod Runtime
pub mod Pool
pub mod Weights
pub mod Selector
pub mod Strategy
pub mod Routing
