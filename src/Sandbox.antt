-- ===== src/Sandbox.antt =====
-- The checks of shell commands and paths of crates/agents-core/src/sandbox/mod.rs. The file system
-- is not modelled: these checks read texts alone.
pub mod Shell
pub mod Quoting
pub mod Paths
pub mod Confined
pub mod Resolved
mod Tests
