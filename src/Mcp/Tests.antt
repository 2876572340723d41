-- ===== src/Mcp/Tests.antt =====
-- Runs of crates/agents-core/src/mcp/manager.rs, and instances of its laws.
use openai_agents_rust.Prelude.{
  String, ◌≡◌, refl, Bool, true, false, not, ◌&&◌, Option, none, some, List, [], ◌∷◌, contains,
  str_eq,
}
use openai_agents_rust.Errors.{AgentsError, message, ok, err}
use openai_agents_rust.Mcp.{connected, connect_failed, Servers, McpServerManager}
use openai_agents_rust.Mcp.Manager.{connect_all, cleanup_all, reconnect}
use openai_agents_rust.Mcp.Settled.{live, Settled, connect_all-Settled}
use openai_agents_rust.Mcp.Cleanup.{named, cleanup_all-live}
use openai_agents_rust.Mcp.Retried.{reconnect-Settled}
use openai_agents_rust.Mcp.Rollback.{RolledBack, connect_all-RolledBack}

-- Servers that are their names, of which the one called `bad` never connects.
abbrev fail_bad : String → Option AgentsError
fail_bad s = elim (str_eq s "bad") [ true ↦ some (message "refused") | false ↦ none ]

abbrev servers : Servers
servers = record {
  Server = String;
  name = λ s. s;
  connect = λ log s. fail_bad s;
  cleanup = λ log s. none;
  to_string = λ e. "refused";
}

abbrev manager : Bool → List String → McpServerManager servers
manager strict connected_names = record {
  all_servers = "a" ∷ "bad" ∷ "b" ∷ [];
  active_servers = "a" ∷ "bad" ∷ "b" ∷ [];
  connected_server_names = connected_names;
  failed_servers = [];
  errors = [];
  drop_failed_servers = true;
  strict = strict;
}

drops_the_failed : (connect_all (manager false []) []).0 ≡ ok ("a" ∷ "b" ∷ [])
unfolding connect_all
drops_the_failed = refl

-- A strict manager that held `a` as connected, and whose `connect_all` failed, still does.
holds_a_dead_server :
    (((connect_all (manager true ("a" ∷ [])) (connected "a" ∷ [])).0 ≡ err (message "refused"))
      × (contains "a"
            (connect_all (manager true ("a" ∷ [])) (connected "a" ∷ [])).1.connected_server_names
          ≡ true))
    × (live servers "a" (connect_all (manager true ("a" ∷ [])) (connected "a" ∷ [])).2 ≡ false)
unfolding connect_all live
holds_a_dead_server = ((refl, refl), refl)

retries_the_failed :
    (reconnect true (connect_all (manager false []) []).1 []).2
    ≡ connect_failed "bad" (message "refused") ∷ []
unfolding connect_all reconnect
retries_the_failed = refl

connect_all-Settled_example :
    ((connect_all (manager false []) []).0
      ≡ ok (connect_all (manager false []) []).1.active_servers)
    × Settled (connect_all (manager false []) []).1 (connect_all (manager false []) []).2
connect_all-Settled_example = connect_all-Settled (manager false []) [] refl

cleanup_all-live_example :
    ((cleanup_all (manager false ("a" ∷ [])) (connected "a" ∷ [])).1.connected_server_names ≡ [])
    × ((cleanup_all (manager false ("a" ∷ [])) (connected "a" ∷ [])).1.active_servers ≡ [])
    × ((n : String)
        → live servers n (cleanup_all (manager false ("a" ∷ [])) (connected "a" ∷ [])).2 ≡ (
            not (named servers n ("a" ∷ "bad" ∷ "b" ∷ []) && contains n ("a" ∷ []))
            && live servers n (connected "a" ∷ [])))
unfolding cleanup_all
cleanup_all-live_example =
    cleanup_all-live servers (manager false ("a" ∷ [])) (connected "a" ∷ []) refl

connect_all-RolledBack_example :
    RolledBack servers
      (manager true ("a" ∷ []))
      (connect_all (manager true ("a" ∷ [])) (connected "a" ∷ [])).1
      (connected "a" ∷ [])
      (connect_all (manager true ("a" ∷ [])) (connected "a" ∷ [])).2
      (message "refused")
unfolding connect_all
connect_all-RolledBack_example =
    connect_all-RolledBack servers (manager true ("a" ∷ [])) (connected "a" ∷ [])
      (message "refused") (λ log s. refl) refl refl

abbrev once : McpServerManager servers
once = (connect_all (manager false []) []).1

reconnect-Settled_example :
    ((reconnect true once (connect_all (manager false []) []).2).0
      ≡ ok (reconnect true once (connect_all (manager false []) []).2).1.active_servers)
    × Settled
        (reconnect true once (connect_all (manager false []) []).2).1
        (reconnect true once (connect_all (manager false []) []).2).2
unfolding connect_all
reconnect-Settled_example =
    reconnect-Settled once (connect_all (manager false []) []).2
      (connect_all-Settled (manager false []) [] refl).1 refl
