-- ===== src/Mcp/Settled.antt =====
-- Which servers are connected after `connect_all` of crates/agents-core/src/mcp/manager.rs.
use openai_agents_rust.Prelude.{
  String, ◌≡◌, refl, sym, ap, subst, Bool, true, false, not, ◌&&◌, ◌||◌, Option, none, some, List,
  [], ◌∷◌, All, All-append, All-weaken, contains, contains-last, contains-append, str_eq, eq_refl,
  arith,
}
use openai_agents_rust.Errors.{AgentsError, ok}
use openai_agents_rust.Mcp.{
  connected, cleaned_up, connect_failed, cleanup_failed, Servers, Log, McpServerManager,
}
use openai_agents_rust.Mcp.Manager.{
  Round, Loop, finished, failed_with, add_connected, add_failed, keep_failed, connect_loop,
  empty_round, committed, conclude, connect_all,
}

module _ (S : Servers) where
  -- The last thing that happened to a server of this name is that it connected.
  unfoldable pub live : String → Log S → Bool
  live n [] = false
  live n (connected s ∷ log) = str_eq n (S.name s) || live n log
  live n (cleaned_up s ∷ log) = not (str_eq n (S.name s)) && live n log
  live n (connect_failed s e ∷ log) = live n log
  live n (cleanup_failed s e ∷ log) = live n log

module _ {S : Servers} where
  -- The manager's view is true of the servers: the names it holds as connected are live, every
  -- server is held as connected or as failed, and if failed servers are dropped, then the active
  -- ones are held as connected.
  pub record Settled (m : McpServerManager S) (log : Log S) : Type 0 where
    pub names_live : (n : String) → contains n m.connected_server_names ≡ true → live S n log ≡ true
    pub covered :
        All
          (λ s.
            (contains (S.name s) m.connected_server_names || contains (S.name s) m.failed_servers)
            ≡ true)
          m.all_servers
    pub active_connected :
        m.drop_failed_servers ≡ true
        → All (λ s. contains (S.name s) m.connected_server_names ≡ true) m.active_servers

  abbrev pub seen : String → Round S → Bool
  seen n r = contains n r.next_connected_server_names || contains n r.next_failed_servers

  abbrev pub NamesLive : Round S → Log S → Type 0
  NamesLive r log =
      (n : String) → contains n r.next_connected_server_names ≡ true → live S n log ≡ true

  abbrev pub ActiveConnected : Round S → Type 0
  ActiveConnected r =
      All (λ s. contains (S.name s) r.next_connected_server_names ≡ true) r.next_active_servers

  -- What the loop over `ss` from `r` comes to.
  record Finishes (drop : Bool) (ss : List S.Server) (r : Round S) (x : Loop S × Log S)
      : Type 0 where
    round : Round S
    ends : x.0 ≡ finished round
    names_live : NamesLive round x.1
    grows : (n : String) → seen n r ≡ true → seen n round ≡ true
    covered : All (λ s. seen (S.name s) round ≡ true) ss
    active : drop ≡ true → ActiveConnected r → ActiveConnected round

  module _ (s : S.Server) (r : Round S) where
    pub seen-add_connected : (n : String) → seen n r ≡ true → seen n (add_connected s r) ≡ true
    unfolding add_connected
    seen-add_connected n h = ground arith

    pub self-add_connected : seen (S.name s) (add_connected s r) ≡ true
    unfolding add_connected
    self-add_connected = ground (arith, eq_refl (S.name s))

    pub live-add_connected :
        (log : Log S) → NamesLive r log → NamesLive (add_connected s r) (connected s ∷ log)
    unfolding add_connected live
    live-add_connected log h n k = ground (arith, h n)

    pub active-add_connected : ActiveConnected r → ActiveConnected (add_connected s r)
    unfolding add_connected
    active-add_connected h =
        All-append _ r.next_active_servers (s ∷ []) (All-weaken (λ t k. ground arith) _ h)
          (ground (arith, eq_refl (S.name s)), tt)

    module _ (e : AgentsError) (drop : Bool) where
      seen-add_failed :
          (n : String) → seen n r ≡ true → seen n (keep_failed drop s (add_failed s e r)) ≡ true
      unfolding keep_failed add_failed
      seen-add_failed n h = ground (arith, contains-append n (S.name s) r.next_failed_servers)

      self-add_failed : seen (S.name s) (keep_failed drop s (add_failed s e r)) ≡ true
      unfolding keep_failed add_failed
      self-add_failed = ground (arith, contains-last (S.name s) r.next_failed_servers)

      live-add_failed :
          (log : Log S)
          → NamesLive r log
          → NamesLive (keep_failed drop s (add_failed s e r)) (connect_failed s e ∷ log)
      unfolding keep_failed add_failed live
      live-add_failed log h n k = h n k

      active-add_failed :
          drop ≡ true → ActiveConnected r → ActiveConnected (keep_failed drop s (add_failed s e r))
      unfolding keep_failed add_failed
      active-add_failed h k = rw h k

  connect_loop-Finishes :
      (drop : Bool) (ss : List S.Server) (r : Round S) (log : Log S)
      → NamesLive r log
      → Finishes drop ss r (connect_loop false drop ss r log)
  unfolding connect_loop
  connect_loop-Finishes drop [] r log h = record {
    round = r;
    ends = refl;
    names_live = h;
    grows = λ n k. k;
    covered = tt;
    active = λ d k. k;
  }
  connect_loop-Finishes drop (s ∷ ss) r log h =
      go (S.connect log s)
        (connect_loop-Finishes drop ss (add_connected s r) (connected s ∷ log)
          (live-add_connected s r log h))
        (λ e.
          connect_loop-Finishes drop ss (keep_failed drop s (add_failed s e r))
            (connect_failed s e ∷ log) (live-add_failed s r e drop log h))
    where
      go :
          (o : Option AgentsError)
          → Finishes drop ss
              (add_connected s r)
              (connect_loop false drop ss (add_connected s r) (connected s ∷ log))
          → ((e : AgentsError)
              → Finishes drop ss (keep_failed drop s (add_failed s e r)) (
                  connect_loop false drop ss
                    (keep_failed drop s (add_failed s e r))
                    (connect_failed s e ∷ log)))
          → Finishes drop (s ∷ ss) r (elim o [
            | none ↦ connect_loop false drop ss (add_connected s r) (connected s ∷ log)
            | some e ↦
                connect_loop false drop ss
                  (keep_failed drop s (add_failed s e r))
                  (connect_failed s e ∷ log)
          ])
      go none a b = record {
        round = a.round;
        ends = a.ends;
        names_live = a.names_live;
        grows = λ n k. a.grows n (seen-add_connected s r n k);
        covered = (a.grows (S.name s) (self-add_connected s r), a.covered);
        active = λ d k. a.active d (active-add_connected s r k);
      }
      go (some e) a b = record {
        round = (b e).round;
        ends = (b e).ends;
        names_live = (b e).names_live;
        grows = λ n k. (b e).grows n (seen-add_failed s r e drop n k);
        covered = ((b e).grows (S.name s) (self-add_failed s r e drop), (b e).covered);
        active = λ d k. (b e).active d (active-add_failed s r e drop d k);
      }

  abbrev pub round_of : Loop S → Round S
  round_of (finished r) = r
  round_of (failed_with r e) = r

  committed-Settled :
      (m : McpServerManager S) (l : Loop S) (log : Log S)
      → (f : Finishes m.drop_failed_servers m.all_servers empty_round (l, log))
      → Settled (committed f.round m) log
  unfolding committed
  committed-Settled m l log f = record {
    names_live = f.names_live;
    covered = f.covered;
    active_connected = λ d. f.active d tt;
  }

  conclude-Settled :
      (m : McpServerManager S) (l : Loop S) (log : Log S)
      → Finishes m.drop_failed_servers m.all_servers empty_round (l, log)
      → ((conclude m (l, log)).0 ≡ ok (conclude m (l, log)).1.active_servers)
        × Settled (conclude m (l, log)).1 (conclude m (l, log)).2
  unfolding conclude committed
  conclude-Settled m (finished r) log f = (
    refl,
    subst (λ q. Settled (committed q m) log) (ap round_of (sym f.ends))
        (committed-Settled m (finished r) log f),
  )
  conclude-Settled m (failed_with r e) log f = cc f.ends

  -- If the manager is not strict, `connect_all` succeeds with the active servers of the manager
  -- that it leaves, and this manager is settled: the names that it holds as connected are live,
  -- every server is held as connected or as failed, and if failed servers are dropped, then the
  -- active ones are held as connected.
  pub connect_all-Settled :
      (m : McpServerManager S) (log : Log S)
      → m.strict ≡ false
      → ((connect_all m log).0 ≡ ok (connect_all m log).1.active_servers)
        × Settled (connect_all m log).1 (connect_all m log).2
  unfolding connect_all
  connect_all-Settled m log h =
      conclude-Settled m
        (connect_loop m.strict m.drop_failed_servers m.all_servers empty_round log).0
        (connect_loop m.strict m.drop_failed_servers m.all_servers empty_round log).1
        (rw h
          (connect_loop-Finishes m.drop_failed_servers m.all_servers empty_round log λ n k. cc k))
