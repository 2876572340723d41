-- ===== src/Mcp/Rollback.antt =====
-- What a strict `connect_all` of crates/agents-core/src/mcp/manager.rs leaves behind when it fails.
use openai_agents_rust.Prelude.{
  String, ◌≡◌, refl, ◌∙◌, ap, sym, Bool, true, not, ◌&&◌, ◌||◌, Option, none, some, List, [], ◌∷◌,
  ◌++◌, map, reverse, append-nil, append_assoc, str_eq, arith,
}
use mathlib.Core.List.{reverse_aux, reverse_aux-eq}
use openai_agents_rust.Errors.{AgentsError, err}
use openai_agents_rust.Mcp.{connected, cleaned_up, connect_failed, Servers, Log, McpServerManager}
use openai_agents_rust.Mcp.Manager.{
  Round, Loop, finished, failed_with, add_connected, add_failed, connect_loop, empty_round,
  conclude, connect_all, cleanup_each, roll_back, restored,
}
use openai_agents_rust.Mcp.Settled.{live}
use openai_agents_rust.Mcp.Cleanup.{any-reverse_aux, named, cleanup_each-live}

module _ (S : Servers) where
  -- A strict `connect_all` that failed with `e`. The log, its newest event first, tells all that
  -- happened: the servers before the failing one connected, in order, that one failed with `e`, and
  -- then those before it were cleaned up, in the opposite order.
  pub record RolledBack (m m' : McpServerManager S) (log log' : Log S) (e : AgentsError)
      : Type 0 where
    pub before : List S.Server
    pub failing : S.Server
    pub after : List S.Server
    pub servers_split : m.all_servers ≡ before ++ failing ∷ after
    pub events :
        log'
        ≡ map cleaned_up before
          ++ connect_failed failing e ∷ (reverse (map connected before) ++ log)
    pub lives : (n : String) → live S n log' ≡ (not (named S n before) && live S n log)
    pub names : m'.connected_server_names ≡ m.connected_server_names

  -- Every cleanup succeeds.
  abbrev pub CleansUp : Type 0
  CleansUp = (log : Log S) (s : S.Server) → S.cleanup log s ≡ none

  cleanup_each-none :
      (ss : List S.Server) (log : Log S) → CleansUp → (cleanup_each S ss log).0 ≡ none
  unfolding cleanup_each
  cleanup_each-none [] log h = refl
  cleanup_each-none (s ∷ ss) log h =
      rw (cleanup_each, h log s) (cleanup_each-none ss (cleaned_up s ∷ log) h)

  cleanup_each-events :
      (ss : List S.Server) (log : Log S)
      → CleansUp
      → (cleanup_each S ss log).1 ≡ reverse_aux (map cleaned_up ss) log
  unfolding cleanup_each
  cleanup_each-events [] log h = refl
  cleanup_each-events (s ∷ ss) log h =
      rw (cleanup_each, h log s) (cleanup_each-events ss (cleaned_up s ∷ log) h)

  reverse_aux-map :
      (xs ys : List S.Server) (log : Log S)
      → reverse_aux (map cleaned_up (reverse_aux xs ys)) log
        ≡ reverse_aux (map cleaned_up ys) (map cleaned_up xs ++ log)
  reverse_aux-map [] ys log = refl
  reverse_aux-map (x ∷ xs) ys log = reverse_aux-map xs (x ∷ ys) log

  -- A loop that failed with `e`.
  record Fails (ss : List S.Server) (r r' : Round S) (log log' : Log S) (e : AgentsError)
      : Type 0 where
    before : List S.Server
    failing : S.Server
    after : List S.Server
    servers_split : ss ≡ before ++ failing ∷ after
    events : log' ≡ connect_failed failing e ∷ reverse_aux (map connected before) log
    newly : r'.newly_connected_servers ≡ r.newly_connected_servers ++ before
    lives : (n : String) → live S n log' ≡ (named S n before || live S n log)

  abbrev Ends : List S.Server → Round S → Log S → Loop S × Log S → Type 0
  Ends ss r log (finished r', log') = Unit {0}
  Ends ss r log (failed_with r' e, log') = Fails ss r r' log log' e

  connected-Ends :
      (s : S.Server) (ss : List S.Server) (r : Round S) (log : Log S) (l : Loop S) (log' : Log S)
      → Ends ss (add_connected s r) (connected s ∷ log) (l, log')
      → Ends (s ∷ ss) r log (l, log')
  unfolding add_connected live
  connected-Ends s ss r log (finished r') log' h = tt
  connected-Ends s ss r log (failed_with r' e) log' h = record {
    before = s ∷ h.before;
    failing = h.failing;
    after = h.after;
    servers_split = ap (◌∷◌ s) h.servers_split;
    events = h.events;
    newly = h.newly ∙ append_assoc r.newly_connected_servers (s ∷ []) h.before;
    lives = λ n. ground (arith, h.lives n);
  }

  fail_now :
      (s : S.Server) (ss : List S.Server) (r : Round S) (log : Log S) (e : AgentsError)
      → Fails (s ∷ ss) r (add_failed s e r) log (connect_failed s e ∷ log) e
  unfolding add_failed live
  fail_now s ss r log e = record {
    before = [];
    failing = s;
    after = ss;
    servers_split = refl;
    events = refl;
    newly = sym (append-nil r.newly_connected_servers);
    lives = λ n. refl;
  }

  connect_loop-Ends :
      (drop : Bool) (ss : List S.Server) (r : Round S) (log : Log S)
      → Ends ss r log (connect_loop true drop ss r log)
  unfolding connect_loop
  connect_loop-Ends drop [] r log = tt
  connect_loop-Ends drop (s ∷ ss) r log =
      go (S.connect log s) (connect_loop-Ends drop ss (add_connected s r) (connected s ∷ log))
    where
      go :
          (o : Option AgentsError)
          → Ends ss
              (add_connected s r)
              (connected s ∷ log)
              (connect_loop true drop ss (add_connected s r) (connected s ∷ log))
          → Ends (s ∷ ss) r log (elim o [
            | none ↦ connect_loop true drop ss (add_connected s r) (connected s ∷ log)
            | some e ↦ (failed_with (add_failed s e r) e, connect_failed s e ∷ log)
          ])
      go none h =
          connected-Ends s ss r log
            (connect_loop true drop ss (add_connected s r) (connected s ∷ log)).0
            (connect_loop true drop ss (add_connected s r) (connected s ∷ log)).1 h
      go (some e) h = fail_now s ss r log e

  rolled_back-events :
      (r : Round S) (log log' log2 : Log S) (before : List S.Server) (failing : S.Server)
      (e : AgentsError)
      → r.newly_connected_servers ≡ before
      → log' ≡ connect_failed failing e ∷ reverse_aux (map connected before) log
      → log2 ≡ reverse_aux (map cleaned_up (reverse r.newly_connected_servers)) log'
      → log2
        ≡ map cleaned_up before
          ++ connect_failed failing e ∷ (reverse (map connected before) ++ log)
  rolled_back-events r log log' log2 before failing e newly events cleaned =
      cleaned
      ∙ (reverse_aux-map r.newly_connected_servers [] log'
          ∙ (ap (λ ss. map cleaned_up ss ++ log') newly
              ∙ ap (λ l. map cleaned_up before ++ l)
                  (events
                    ∙ ap (λ l. connect_failed failing e ∷ l)
                        (reverse_aux-eq (map connected before) log))))

  conclude-RolledBack :
      (m : McpServerManager S) (log : Log S) (l : Loop S) (log' : Log S) (e : AgentsError)
      → CleansUp
      → Ends m.all_servers empty_round log (l, log')
      → (conclude m (l, log')).0 ≡ err e
      → RolledBack m (conclude m (l, log')).1 log (conclude m (l, log')).2 e
  unfolding conclude roll_back restored
  conclude-RolledBack m log (finished r) log' e clean h k = cc k
  conclude-RolledBack m log (failed_with r error) log' e clean h k =
      settle (cleanup_each S (reverse r.newly_connected_servers) log').0
        (cleanup_each S (reverse r.newly_connected_servers) log').1
        (cleanup_each-none (reverse r.newly_connected_servers) log' clean)
        (cleanup_each-live S (reverse r.newly_connected_servers) log')
        (cleanup_each-events (reverse r.newly_connected_servers) log' clean) k
    where
      settle :
          (o : Option AgentsError) (log2 : Log S)
          → o ≡ none
          → (o ≡ none
              → (n : String)
              → live S n log2
                ≡ (not (named S n (reverse r.newly_connected_servers)) && live S n log'))
          → log2 ≡ reverse_aux (map cleaned_up (reverse r.newly_connected_servers)) log'
          → (roll_back error m (restored r.next_failed_servers r.next_errors m) (o, log2)).0 ≡ err e
          → RolledBack m
              (roll_back error m (restored r.next_failed_servers r.next_errors m) (o, log2)).1
              log
              (roll_back error m (restored r.next_failed_servers r.next_errors m) (o, log2)).2
              e
      settle none log2 c f cleaned k' = record {
        before = h.before;
        failing = h.failing;
        after = h.after;
        servers_split = h.servers_split;
        events =
            let same : error ≡ e = cc in
            rolled_back-events r log log' log2 h.before h.failing e h.newly
              (h.events
                ∙ ap (λ x. connect_failed h.failing x ∷ reverse_aux (map connected h.before) log)
                    same)
              cleaned;
        lives = λ n. ground (
          arith,
          f refl n,
          h.lives n,
          ap (named S n) h.newly,
          any-reverse_aux (λ s. str_eq n (S.name s)) r.newly_connected_servers [],
        );
        names = refl;
      }
      settle (some e') log2 c f cleaned k' = cc c

  -- If every cleanup succeeds and a strict `connect_all` fails with an error, then in this round the
  -- servers before some server connected in order, this server failed with the error, and the
  -- servers before it, and no others, were cleaned up in the opposite order. So they are not live
  -- any more, even those that were, every other name is live exactly if it was, and the names that
  -- the manager holds as connected are the same as before.
  pub connect_all-RolledBack :
      (m : McpServerManager S) (log : Log S) (e : AgentsError)
      → CleansUp
      → m.strict ≡ true
      → (connect_all m log).0 ≡ err e
      → RolledBack m (connect_all m log).1 log (connect_all m log).2 e
  unfolding connect_all
  connect_all-RolledBack m log e clean h k =
      let x = connect_loop m.strict m.drop_failed_servers m.all_servers empty_round log in
      conclude-RolledBack m log x.0 x.1 e clean
        (rw h (connect_loop-Ends m.drop_failed_servers m.all_servers empty_round log)) k
