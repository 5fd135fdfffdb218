-- ===== src/Events.antt =====
-- The package events.
pub mod Types
pub mod Memory
pub mod Broadcaster
pub mod Callback
pub mod Broker
pub mod Postgres
pub mod Names
mod Tests
