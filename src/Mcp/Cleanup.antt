-- ===== src/Mcp/Cleanup.antt =====
-- What the cleanups of crates/agents-core/src/mcp/manager.rs leave behind.
use openai_agents_rust.Prelude.{
  String, ◌≡◌, refl, ap, ◌⊎◌, inl, inr, Bool, true, false, not, ◌&&◌, ◌||◌, Option, none, some,
  List, [], ◌∷◌, any, reverse, contains, str_eq, eq_iff, arith, Bool-cases,
}
use mathlib.Core.List.{reverse_aux}
use openai_agents_rust.Errors.{AgentsError}
use openai_agents_rust.Mcp.{cleaned_up, cleanup_failed, Servers, Log, McpServerManager}
use openai_agents_rust.Mcp.Manager.{
  cleanup_each, to_clean, cleanup_connected_servers, cleanup_all, cleared,
}
use openai_agents_rust.Mcp.Settled.{live}

pub any-reverse_aux {ℓ} :
    {A : Type ℓ} (p : A → Bool) (xs ys : List A)
    → any p (reverse_aux xs ys) ≡ (any p xs || any p ys)
any-reverse_aux p [] ys = refl
any-reverse_aux p (x ∷ xs) ys = ground (arith, any-reverse_aux p xs (x ∷ ys))

module _ (S : Servers) where
  abbrev pub named : String → List S.Server → Bool
  named n = any (λ s. str_eq n (S.name s))

  pub cleanup_each-live :
      (ss : List S.Server) (log : Log S)
      → (cleanup_each S ss log).0 ≡ none
      → (n : String) → live S n (cleanup_each S ss log).1 ≡ (not (named n ss) && live S n log)
  unfolding cleanup_each live
  cleanup_each-live [] log h n = refl
  cleanup_each-live (s ∷ ss) log h n =
      go (S.cleanup log s) h (λ k. cleanup_each-live ss (cleaned_up s ∷ log) k n)
    where
      after : Option AgentsError → Option AgentsError × Log S
      after o = elim o [
        | none ↦ cleanup_each S ss (cleaned_up s ∷ log)
        | some e ↦ (some e, cleanup_failed s e ∷ log)
      ]

      go :
          (o : Option AgentsError)
          → (after o).0 ≡ none
          → ((cleanup_each S ss (cleaned_up s ∷ log)).0 ≡ none
              → live S n (cleanup_each S ss (cleaned_up s ∷ log)).1
                ≡ (not (named n ss) && live S n (cleaned_up s ∷ log)))
          → live S n (after o).1 ≡ (not (named n (s ∷ ss)) && live S n log)
      go none k ih = ground (arith, ih k)
      go (some e) k ih = cc k

  -- The servers that the cleanup reaches, by name: those that are held as connected.
  named-to_clean :
      (n : String) (names cleaned : List String) (ss : List S.Server)
      → named n (to_clean S names cleaned ss)
        ≡ (named n ss && (contains n names && not (contains n cleaned)))
  unfolding to_clean
  named-to_clean n names cleaned [] = refl
  named-to_clean n names cleaned (s ∷ ss) =
      go (contains (S.name s) names && not (contains (S.name s) cleaned)) refl
        (Bool-cases (str_eq n (S.name s))) (named-to_clean n names (S.name s ∷ cleaned) ss)
        (named-to_clean n names cleaned ss)
    where
      same :
          (xs : List String) → str_eq n (S.name s) ≡ true → contains n xs ≡ contains (S.name s) xs
      same xs e = ap (λ k. contains k xs) ((eq_iff n (S.name s)).0 e)

      go :
          (b : Bool)
          → (contains (S.name s) names && not (contains (S.name s) cleaned)) ≡ b
          → (str_eq n (S.name s) ≡ true) ⊎ (str_eq n (S.name s) ≡ false)
          → named n (to_clean S names (S.name s ∷ cleaned) ss)
            ≡ (named n ss && (contains n names && not (contains n (S.name s ∷ cleaned))))
          → named n (to_clean S names cleaned ss)
            ≡ (named n ss && (contains n names && not (contains n cleaned)))
          → named n (elim b [
            | true ↦ s ∷ to_clean S names (S.name s ∷ cleaned) ss
            | false ↦ to_clean S names cleaned ss
          ])
            ≡ (named n (s ∷ ss) && (contains n names && not (contains n cleaned)))
      go true h (inl e) a b = ground (arith, h, e, same names e, same cleaned e)
      go true h (inr e) a b = ground (arith, h, e, a)
      go false h (inl e) a b = ground (arith, h, e, same names e, same cleaned e, b)
      go false h (inr e) a b = ground (arith, h, e, b)

  -- If `cleanup_all` succeeds, no name and no server is left as connected or active, and a name is
  -- live afterwards exactly if it was live and no server of the manager has a name that it held as
  -- connected and that is this name.
  pub cleanup_all-live :
      (m : McpServerManager S) (log : Log S)
      → (cleanup_all m log).0 ≡ none
      → ((cleanup_all m log).1.connected_server_names ≡ [])
        × ((cleanup_all m log).1.active_servers ≡ [])
        × ((n : String)
            → live S n (cleanup_all m log).2 ≡ (
                not (named n m.all_servers && contains n m.connected_server_names) && live S n log))
  unfolding cleanup_all cleanup_connected_servers
  cleanup_all-live m log h =
      go (cleanup_each S (to_clean S m.connected_server_names [] (reverse m.all_servers)) log).0
        (cleanup_each S (to_clean S m.connected_server_names [] (reverse m.all_servers)) log).1 h
        λ k n. ground (
          arith,
          cleanup_each-live (to_clean S m.connected_server_names [] (reverse m.all_servers)) log k
              n,
          named-to_clean n m.connected_server_names [] (reverse m.all_servers),
          any-reverse_aux (λ s. str_eq n (S.name s)) m.all_servers [],
        )
    where
      left : String → Bool
      left n = not (named n m.all_servers && contains n m.connected_server_names)

      after : Option AgentsError → Log S → Option AgentsError × McpServerManager S × Log S
      after o log' = elim o [ none ↦ (none, cleared m, log') | some e ↦ (some e, m, log') ]

      go :
          (o : Option AgentsError) (log' : Log S)
          → (after o log').0 ≡ none
          → (o ≡ none → (n : String) → live S n log' ≡ (left n && live S n log))
          → ((after o log').1.connected_server_names ≡ [])
            × ((after o log').1.active_servers ≡ [])
            × ((n : String) → live S n (after o log').2 ≡ (left n && live S n log))
      go none log' k f = (refl, refl, f refl)
      go (some e) log' k f = cc k
