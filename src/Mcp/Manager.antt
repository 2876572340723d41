-- ===== src/Mcp/Manager.antt =====
-- The operations of `MCPServerManager` in crates/agents-core/src/mcp/manager.rs.
-- Each returns its result, the manager that it leaves, and the log.
use openai_agents_rust.Prelude.{
  String, Bool, true, false, not, ◌&&◌, Option, none, some, List, [], ◌∷◌, ◌++◌, map, reverse,
  keep_if, contains, if◌then◌else◌,
}
use openai_agents_rust.Errors.{AgentsError, Result, ok, err}
use openai_agents_rust.Mcp.{
  connected, cleaned_up, connect_failed, cleanup_failed, Servers, Log, McpServerManager,
}

-- The locals that the loops of `connect_all` and `reconnect` fill.
pub record Round (S : Servers) : Type 0 where
  pub next_connected_server_names : List String
  pub next_failed_servers : List String
  pub next_errors : List (String × String)
  pub next_active_servers : List S.Server
  pub newly_connected_servers : List S.Server

-- How such a loop ends: past its last server, or with the error of a strict manager.
pub data Loop (S : Servers) : Type 0 where
  finished : Round S → Loop S
  failed_with : Round S → AgentsError → Loop S

abbrev pub Outcome : Servers → Type 0
Outcome S = Result (List S.Server) × McpServerManager S × Log S

unfoldable pub restore_active_servers {ℓ} :
    {A : Type ℓ} → List A → List A → List String → Bool → List A
restore_active_servers all_servers previous [] drop_failed = if drop_failed then [] else all_servers
restore_active_servers all_servers previous (n ∷ ns) drop_failed = previous

module _ (S : Servers) where
  -- `cleanup().await?` for each server; the first error ends it.
  unfoldable pub cleanup_each : List S.Server → Log S → Option AgentsError × Log S
  cleanup_each [] log = (none, log)
  cleanup_each (s ∷ ss) log = elim (S.cleanup log s) [
    | none ↦ cleanup_each ss (cleaned_up s ∷ log)
    | some error ↦ (some error, cleanup_failed s error ∷ log)
  ]

  -- `cleanup_connected_servers(None)`: which servers its loop cleans up, given those cleaned already.
  unfoldable pub to_clean : List String → List String → List S.Server → List S.Server
  to_clean names cleaned [] = []
  to_clean names cleaned (s ∷ ss) =
      elim (contains (S.name s) names && not (contains (S.name s) cleaned)) [
        | true ↦ s ∷ to_clean names (S.name s ∷ cleaned) ss
        | false ↦ to_clean names cleaned ss
      ]

module _ {S : Servers} where
  unfoldable pub new : List S.Server → McpServerManager S
  new servers = record {
    all_servers = servers;
    active_servers = servers;
    connected_server_names = [];
    failed_servers = [];
    errors = [];
    drop_failed_servers = true;
    strict = false;
  }

  unfoldable pub active_server_names : McpServerManager S → List String
  active_server_names m = map S.name m.active_servers

  -- The arm `Ok(())`.
  unfoldable pub add_connected : S.Server → Round S → Round S
  add_connected s r = record r {
    next_connected_server_names = S.name s ∷ r.next_connected_server_names;
    newly_connected_servers = r.newly_connected_servers ++ s ∷ [];
    next_active_servers = r.next_active_servers ++ s ∷ [];
  }

  -- The arm `Err(error)` of `connect_all`, before the test of `strict`.
  unfoldable pub add_failed : S.Server → AgentsError → Round S → Round S
  add_failed s error r = record r {
    next_failed_servers =
        if contains (S.name s) r.next_failed_servers
        then r.next_failed_servers
        else r.next_failed_servers ++ S.name s ∷ [];
    next_errors = (S.name s, S.to_string error) ∷ r.next_errors;
  }

  -- Its end, for a manager that is not strict.
  unfoldable pub keep_failed : Bool → S.Server → Round S → Round S
  keep_failed drop_failed_servers s r = record r {
    next_active_servers =
        if drop_failed_servers then r.next_active_servers else r.next_active_servers ++ s ∷ [];
  }

  -- The arm `Err(error)` of `reconnect`, before the test of `strict`.
  unfoldable pub add_failed_again : S.Server → AgentsError → Round S → Round S
  add_failed_again s error r = record r {
    next_failed_servers = r.next_failed_servers ++ S.name s ∷ [];
    next_errors = (S.name s, S.to_string error) ∷ r.next_errors;
  }

  -- The loop of `connect_all`.
  unfoldable pub connect_loop : Bool → Bool → List S.Server → Round S → Log S → Loop S × Log S
  unfolding add_connected add_failed keep_failed
  connect_loop strict drop_failed [] r log = (finished r, log)
  connect_loop strict drop_failed (s ∷ ss) r log = elim (S.connect log s) [
    | none ↦ connect_loop strict drop_failed ss (add_connected s r) (connected s ∷ log)
    | some error ↦ elim strict [
      | true ↦ (failed_with (add_failed s error r) error, connect_failed s error ∷ log)
      | false ↦
          connect_loop strict drop_failed ss (keep_failed drop_failed s (add_failed s error r))
            (connect_failed s error ∷ log)
    ]
  ]

  -- The loop of `reconnect`.
  unfoldable pub reconnect_loop : Bool → List S.Server → Round S → Log S → Loop S × Log S
  unfolding add_connected add_failed_again
  reconnect_loop strict [] r log = (finished r, log)
  reconnect_loop strict (s ∷ ss) r log = elim (S.connect log s) [
    | none ↦ reconnect_loop strict ss (add_connected s r) (connected s ∷ log)
    | some error ↦ elim strict [
      | true ↦ (failed_with (add_failed_again s error r) error, connect_failed s error ∷ log)
      | false ↦ reconnect_loop strict ss (add_failed_again s error r) (connect_failed s error ∷ log)
    ]
  ]

  -- The fields that a failed strict round sets back.
  unfoldable pub restored :
      List String → List (String × String) → McpServerManager S → McpServerManager S
  unfolding restore_active_servers
  restored failed errors m = record m {
    active_servers =
        restore_active_servers m.all_servers m.active_servers m.connected_server_names
          m.drop_failed_servers;
    failed_servers = failed;
    errors = errors;
  }

  unfoldable pub committed : Round S → McpServerManager S → McpServerManager S
  committed r m = record m {
    failed_servers = r.next_failed_servers;
    errors = r.next_errors;
    connected_server_names = r.next_connected_server_names;
    active_servers = r.next_active_servers;
  }

  -- An error of a cleanup returns before any field is set.
  unfoldable pub roll_back :
      AgentsError → McpServerManager S → McpServerManager S → Option AgentsError × Log S → Outcome S
  roll_back error before after (none, log) = (err error, after, log)
  roll_back error before after (some e, log) = (err e, before, log)

  abbrev pub empty_round : Round S
  empty_round = record {
    next_connected_server_names = [];
    next_failed_servers = [];
    next_errors = [];
    next_active_servers = [];
    newly_connected_servers = [];
  }

  -- What `connect_all` does once its loop has ended.
  unfoldable pub conclude : McpServerManager S → Loop S × Log S → Outcome S
  unfolding committed roll_back cleanup_each restored
  conclude m (finished r, log) = (ok r.next_active_servers, committed r m, log)
  conclude m (failed_with r error, log) =
      roll_back error m (restored r.next_failed_servers r.next_errors m)
        (cleanup_each S (reverse r.newly_connected_servers) log)

  unfoldable pub connect_all : McpServerManager S → Log S → Outcome S
  unfolding conclude connect_loop
  connect_all m log =
      conclude m (connect_loop m.strict m.drop_failed_servers m.all_servers empty_round log)

  unfoldable pub cleanup_connected_servers : McpServerManager S → Log S → Option AgentsError × Log S
  unfolding to_clean cleanup_each
  cleanup_connected_servers m log =
      cleanup_each S (to_clean S m.connected_server_names [] (reverse m.all_servers)) log

  abbrev pub cleared : McpServerManager S → McpServerManager S
  cleared m = record m { connected_server_names = []; active_servers = [] }

  unfoldable pub cleanup_all :
      McpServerManager S → Log S → Option AgentsError × McpServerManager S × Log S
  unfolding cleanup_connected_servers
  cleanup_all m log =
      let (error, log') = cleanup_connected_servers m log in
      elim error [ none ↦ (none, cleared m, log') | some e ↦ (some e, m, log') ]

  unfoldable pub conclude_reconnect : McpServerManager S → Loop S × Log S → Outcome S
  unfolding committed roll_back cleanup_each restored
  conclude_reconnect m (finished r, log) = (ok r.next_active_servers, committed r m, log)
  conclude_reconnect m (failed_with r error, log) =
      roll_back error m (restored m.failed_servers m.errors m)
        (cleanup_each S (reverse r.newly_connected_servers) log)

  abbrev pub retry_round : McpServerManager S → Round S
  retry_round m = record {
    next_connected_server_names =
        keep_if (λ n. not (contains n m.failed_servers)) m.connected_server_names;
    next_failed_servers = [];
    next_errors = [];
    next_active_servers =
        keep_if (λ s. not (contains (S.name s) m.failed_servers)) m.active_servers;
    newly_connected_servers = [];
  }

  unfoldable pub reconnect : Bool → McpServerManager S → Log S → Outcome S
  unfolding cleanup_all connect_all conclude_reconnect reconnect_loop
  reconnect false m log =
      let (error, m', log') = cleanup_all m log in
      elim error [ none ↦ connect_all m' log' | some e ↦ (err e, m', log') ]
  reconnect true m log = conclude_reconnect m (
      reconnect_loop m.strict (keep_if (λ s. contains (S.name s) m.failed_servers) m.all_servers)
        (retry_round m) log)
