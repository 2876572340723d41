-- ===== src/Conversation.antt =====
-- The tracker of conversations that the server keeps, crates/agents-core/src/internal/oai_conversation.rs.
pub mod Sources
pub mod Accounts
pub mod Matching
pub mod Tracker
pub mod Once
mod Tests
