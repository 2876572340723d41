-- ===== src/Realtime.antt =====
-- The realtime sessions of crates/agents-realtime/src.
pub mod Config
pub mod Settings
pub mod Updates
pub mod Events
pub mod Session
pub mod Writes
pub mod Replayed
pub mod Stream
pub mod Delivery
mod Tests
