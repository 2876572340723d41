-- ===== src/Mcp/Retried.antt =====
-- `reconnect` of the failed servers, of crates/agents-core/src/mcp/manager.rs, keeps a manager settled.
use openai_agents_rust.Prelude.{
  String, ◌≡◌, refl, sym, ap, ◌∙◌, inl, inr, subst, Bool, true, false, not, ◌&&◌, Option, none,
  some, List, [], ◌∷◌, All, if◌then◌else◌, All-weaken, keep_if, contains, contains-last,
  contains-append, str_eq, eq_iff, arith, Bool-cases,
}
use openai_agents_rust.Errors.{AgentsError, ok}
use openai_agents_rust.Mcp.{connected, connect_failed, Servers, Log, McpServerManager}
use openai_agents_rust.Mcp.Manager.{
  Round, Loop, finished, failed_with, add_connected, add_failed_again, reconnect_loop, retry_round,
  committed, conclude_reconnect, reconnect,
}
use openai_agents_rust.Mcp.Settled.{
  live, Settled, NamesLive, ActiveConnected, seen, round_of, live-add_connected,
  active-add_connected, seen-add_connected, self-add_connected,
}

contains-keep_if :
    (n : String) (failed names : List String)
    → contains n (keep_if (λ m. not (contains m failed)) names)
      ≡ (contains n names && not (contains n failed))
contains-keep_if n failed [] = refl
contains-keep_if n failed (m ∷ names) = elim (Bool-cases (str_eq n m)) [
  | inl e ↦
      ground
        (arith, e, ap (λ k. contains k failed) ((eq_iff n m).0 e), contains-keep_if n failed names)
  | inr e ↦ ground (arith, e, contains-keep_if n failed names)
]

module _ {ℓ κ} {A : Type ℓ} (p : A → Bool) where
  -- What holds of the elements that pass a test, and of the others, holds of all.
  All-join :
      (P : A → Type κ) (xs : List A)
      → All P (keep_if p xs)
      → All (λ x. p x ≡ false → P x) xs
      → All P xs
  All-join P [] h k = tt
  All-join P (x ∷ xs) h k = go (p x) refl h λ g. All-join P xs g k.1
    where
      go :
          (b : Bool)
          → p x ≡ b
          → All P (if b then x ∷ keep_if p xs else keep_if p xs)
          → (All P (keep_if p xs) → All P xs)
          → All P (x ∷ xs)
      go true e g ih = (g.0, ih g.1)
      go false e g ih = (k.0 e, ih g)

  All-keep_if :
      (P Q : A → Type κ)
      → ((x : A) → p x ≡ true → P x → Q x)
      → (xs : List A) → All P xs
      → All Q (keep_if p xs)
  All-keep_if P Q h [] k = tt
  All-keep_if P Q h (x ∷ xs) k = go (p x) refl (All-keep_if P Q h xs k.1)
    where
      go :
          (b : Bool)
          → p x ≡ b
          → All Q (keep_if p xs)
          → All Q (if b then x ∷ keep_if p xs else keep_if p xs)
      go true e g = (h x e k.0, g)
      go false e g = g

module _ {S : Servers} where
  record Retries (ss : List S.Server) (r : Round S) (x : Loop S × Log S) : Type 0 where
    round : Round S
    ends : x.0 ≡ finished round
    names_live : NamesLive round x.1
    grows : (n : String) → seen n r ≡ true → seen n round ≡ true
    covered : All (λ s. seen (S.name s) round ≡ true) ss
    active : ActiveConnected r → ActiveConnected round

  module _ (s : S.Server) (r : Round S) (e : AgentsError) where
    seen-add_failed_again : (n : String) → seen n r ≡ true → seen n (add_failed_again s e r) ≡ true
    unfolding add_failed_again
    seen-add_failed_again n h = ground (arith, contains-append n (S.name s) r.next_failed_servers)

    self-add_failed_again : seen (S.name s) (add_failed_again s e r) ≡ true
    unfolding add_failed_again
    self-add_failed_again = ground (arith, contains-last (S.name s) r.next_failed_servers)

    live-add_failed_again :
        (log : Log S)
        → NamesLive r log
        → NamesLive (add_failed_again s e r) (connect_failed s e ∷ log)
    unfolding add_failed_again live
    live-add_failed_again log h n k = h n k

    active-add_failed_again : ActiveConnected r → ActiveConnected (add_failed_again s e r)
    unfolding add_failed_again
    active-add_failed_again h = h

  reconnect_loop-Retries :
      (ss : List S.Server) (r : Round S) (log : Log S)
      → NamesLive r log
      → Retries ss r (reconnect_loop false ss r log)
  unfolding reconnect_loop
  reconnect_loop-Retries [] r log h = record {
    round = r;
    ends = refl;
    names_live = h;
    grows = λ n k. k;
    covered = tt;
    active = λ k. k;
  }
  reconnect_loop-Retries (s ∷ ss) r log h =
      go (S.connect log s)
        (reconnect_loop-Retries ss (add_connected s r) (connected s ∷ log)
          (live-add_connected s r log h))
        (λ e.
          reconnect_loop-Retries ss (add_failed_again s e r) (connect_failed s e ∷ log)
            (live-add_failed_again s r e log h))
    where
      go :
          (o : Option AgentsError)
          → Retries ss
              (add_connected s r)
              (reconnect_loop false ss (add_connected s r) (connected s ∷ log))
          → ((e : AgentsError)
              → Retries ss
                  (add_failed_again s e r)
                  (reconnect_loop false ss (add_failed_again s e r) (connect_failed s e ∷ log)))
          → Retries (s ∷ ss) r (elim o [
            | none ↦ reconnect_loop false ss (add_connected s r) (connected s ∷ log)
            | some e ↦ reconnect_loop false ss (add_failed_again s e r) (connect_failed s e ∷ log)
          ])
      go none a b = record {
        round = a.round;
        ends = a.ends;
        names_live = a.names_live;
        grows = λ n k. a.grows n (seen-add_connected s r n k);
        covered = (a.grows (S.name s) (self-add_connected s r), a.covered);
        active = λ k. a.active (active-add_connected s r k);
      }
      go (some e) a b = record {
        round = (b e).round;
        ends = (b e).ends;
        names_live = (b e).names_live;
        grows = λ n k. (b e).grows n (seen-add_failed_again s r e n k);
        covered = ((b e).grows (S.name s) (self-add_failed_again s r e), (b e).covered);
        active = λ k. (b e).active (active-add_failed_again s r e k);
      }

  module _ (m : McpServerManager S) (log : Log S) (settled : Settled m log) where
    kept :
        (n : String)
        → contains n m.failed_servers ≡ false
        → contains n m.connected_server_names ≡ true
        → contains n (retry_round m).next_connected_server_names ≡ true
    kept n f c =
        contains-keep_if n m.failed_servers m.connected_server_names ∙ (ground (arith, f, c))

    retry-NamesLive : NamesLive (retry_round m) log
    retry-NamesLive n h =
        settled.names_live n
          (ground (arith, h, contains-keep_if n m.failed_servers m.connected_server_names))

    retry-ActiveConnected : m.drop_failed_servers ≡ true → ActiveConnected (retry_round m)
    retry-ActiveConnected d =
        All-keep_if (λ s. not (contains (S.name s) m.failed_servers))
          (λ s. contains (S.name s) m.connected_server_names ≡ true) _
          (λ s f c. kept (S.name s) (ground (arith, f)) c) m.active_servers
          (settled.active_connected d)

    abbrev retried : List S.Server
    retried = keep_if (λ s. contains (S.name s) m.failed_servers) m.all_servers

    committed-Settled :
        (l : Loop S) (log' : Log S) (f : Retries retried (retry_round m) (l, log'))
        → Settled (committed f.round m) log'
    unfolding committed
    committed-Settled l log' f = record {
      names_live = f.names_live;
      covered =
          All-join (λ s. contains (S.name s) m.failed_servers) _ m.all_servers f.covered
            (All-weaken (λ s c e. f.grows (S.name s) (ground (arith, kept (S.name s) e, c, e)))
              m.all_servers settled.covered);
      active_connected = λ d. f.active (retry-ActiveConnected d);
    }

    conclude-Settled :
        (l : Loop S) (log' : Log S)
        → Retries retried (retry_round m) (l, log')
        → ((conclude_reconnect m (l, log')).0
            ≡ ok (conclude_reconnect m (l, log')).1.active_servers)
          × Settled (conclude_reconnect m (l, log')).1 (conclude_reconnect m (l, log')).2
    unfolding conclude_reconnect committed
    conclude-Settled (finished r) log' f = (
      refl,
      subst (λ q. Settled (committed q m) log') (ap round_of (sym f.ends))
          (committed-Settled (finished r) log' f),
    )
    conclude-Settled (failed_with r e) log' f = cc f.ends

    -- If the manager is not strict and is settled (its connected names are live, every server is
    -- held as connected or as failed, and the active ones are connected if failed ones are dropped),
    -- `reconnect` of the failed servers succeeds with the active servers of the manager that it
    -- leaves, and this manager is settled again.
    pub reconnect-Settled :
        m.strict ≡ false
        → ((reconnect true m log).0 ≡ ok (reconnect true m log).1.active_servers)
          × Settled (reconnect true m log).1 (reconnect true m log).2
    unfolding reconnect
    reconnect-Settled h =
        conclude-Settled (reconnect_loop m.strict retried (retry_round m) log).0
          (reconnect_loop m.strict retried (retry_round m) log).1
          (rw h (reconnect_loop-Retries retried (retry_round m) log retry-NamesLive))
