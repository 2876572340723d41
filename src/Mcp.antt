-- ===== src/Mcp.antt =====
-- `MCPServerManager` of crates/agents-core/src/mcp/manager.rs.
-- A server is its connect and cleanup operations, which are not the manager's: they are parameters
-- that read the log of what has happened so far. A set of names and a map of error texts are lists,
-- their newest entry first.
pub mod Manager
pub mod Cleanup
pub mod Retried
pub mod Rollback
pub mod Settled
mod Tests
use openai_agents_rust.Prelude.{String, Bool, Option, List}
use openai_agents_rust.Errors.{AgentsError}

-- What a server reports: `none` is `Ok(())`. The log holds it with the server.
pub data Event (Server : Type 0) : Type 0 where
  connected cleaned_up : Server → Event Server
  connect_failed cleanup_failed : Server → AgentsError → Event Server

pub record Servers : Type 1 where
  pub Server : Type 0
  pub name : Server → String
  pub connect : List (Event Server) → Server → Option AgentsError
  pub cleanup : List (Event Server) → Server → Option AgentsError
  pub to_string : AgentsError → String

abbrev pub Log : Servers → Type 0
Log S = List (Event S.Server)

pub record McpServerManager (S : Servers) : Type 0 where
  pub all_servers : List S.Server
  pub active_servers : List S.Server
  pub connected_server_names : List String
  pub failed_servers : List String
  pub errors : List (String × String)
  pub drop_failed_servers : Bool
  pub strict : Bool
