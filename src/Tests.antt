-- ===== src/Tests.antt =====
-- Concrete runs of the relay, the queue and the server at which the theorems apply.
mod Relays
mod Circuits
mod Queues
mod Servers
mod Dispatches
mod Messages
mod Sessions
mod Series
